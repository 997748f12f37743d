-- ===== src/Error/Trace.antt =====
-- The trace that pushes leave, and the state that every operation keeps well formed.
use wednesday.Base.{ℕ, zero, suc, ◌+◌, ◌≤◌, ◌<◌, ◌≡◌, ◌≢◌, refl, arith}
use wednesday.Base.{none, some, List, [], ◌∷◌, length, All, Option, get_elem?, get_elem?-lt, ◌∙◌}
use wednesday.Error.{ErrorState, ErrorFrame, push_frame, error_push}
use wednesday.Error.{error_get_code, error_trace_length, error_trace_nth, error_clear}
use wednesday.Error.Message.{message, message-empty}
use Prim.Native.String.{String}

-- A frame of the trace reports what was pushed.
pub record Reports (file func : String) (line code : ℕ) (frame : ErrorFrame) : Type 0 where
  pub at_file : frame.file ≡ file
  pub at_func : frame.func ≡ func
  pub at_line : frame.line ≡ line
  pub with_code : frame.code ≡ code
  pub no_message : message frame ≡ []

-- A push of a code other than 0 onto 0 to 30 frames makes the code the last error, adds one frame
-- that reports it with an empty message and is found by its index, and keeps the others.
pub error_push_traced :
    (file func : String) (line code : ℕ) (s : ErrorState)
    → code ≢ 0
    → s.error_count < 31
    → (s' : ErrorState) × (error_push file func line code s ≡ some s')
      × (error_get_code s' ≡ code)
      × (error_trace_length s' ≡ error_trace_length s + 1)
      × (error_trace_nth (error_trace_length s) s' ≡ some (error_trace_length s))
      × Reports file func line code (s'.error_list (error_trace_length s))
      × ((j : ℕ) → j < error_trace_length s → s'.error_list j ≡ s.error_list j)
unfolding error_push push_frame error_get_code error_trace_length error_trace_nth
error_push_traced file func line code s ne room = (
  push_frame file func line code s,
  ground arith,
  ground arith,
  ground arith,
  ground arith,
  record {
    at_file = ground arith;
    at_func = ground arith;
    at_line = ground arith;
    with_code = ground arith;
    no_message = message-empty _ (ground arith);
  },
  λ j lt. ground arith,
)

-- Once 32 frames are pushed no frame can be read: `error_trace_length` is 32, and
-- `error_trace_nth` is null at every index.
pub error_trace_full :
    (file func : String) (line code : ℕ) (s : ErrorState)
    → code ≢ 0
    → 31 ≤ s.error_count
    → (s' : ErrorState) × (error_push file func line code s ≡ some s')
      × (error_get_code s' ≡ code)
      × (error_trace_length s' ≡ 32)
      × ((n : ℕ) → error_trace_nth n s' ≡ none)
unfolding error_push push_frame error_get_code error_trace_length error_trace_nth
error_trace_full file func line code s ne full =
    (push_frame file func line code s, ground arith, ground arith, ground arith, λ n. ground arith)

-- The arguments of a push.
pub record Report : Type 0 where
  pub file : String
  pub func : String
  pub line : ℕ
  pub code : ℕ

pub push_each : List Report → ErrorState → Option ErrorState
push_each [] s = some s
push_each (r ∷ rs) s = elim (error_push r.file r.func r.line r.code s) [
  | none ↦ none
  | some s' ↦ push_each rs s'
]

pushed : Report → ErrorState → ErrorState
pushed r s = push_frame r.file r.func r.line r.code s

error_push-pushed :
    (r : Report) (s : ErrorState)
    → r.code ≢ 0
    → error_push r.file r.func r.line r.code s ≡ some (pushed r s)
unfolding error_push pushed
error_push-pushed r s ne = ground arith

pushed_lem :
    (r : Report) (s : ErrorState)
    → s.error_count < 32
    → ((pushed r s).error_count ≡ s.error_count + 1)
      × Reports r.file r.func r.line r.code ((pushed r s).error_list s.error_count)
      × ((j : ℕ) → j < s.error_count → (pushed r s).error_list j ≡ s.error_list j)
unfolding pushed push_frame
pushed_lem r s lt = (
  ground arith,
  record {
    at_file = ground arith;
    at_func = ground arith;
    at_line = ground arith;
    with_code = ground arith;
    no_message = message-empty _ (ground arith);
  },
  λ j below. ground arith,
)

-- What a run of pushes adds behind the frames that were there.
record Pushed (rs : List Report) (s s' : ErrorState) : Type 0 where
  runs : push_each rs s ≡ some s'
  count : s'.error_count ≡ s.error_count + length rs
  older : (j : ℕ) → j < s.error_count → s'.error_list j ≡ s.error_list j
  added :
      (i : ℕ) (r : Report)
      → get_elem? rs i ≡ some r
      → Reports r.file r.func r.line r.code (s'.error_list (s.error_count + i))

Pushed-more :
    (r : Report) (rs : List Report) (s s' : ErrorState)
    → r.code ≢ 0
    → (pushed r s).error_count ≡ s.error_count + 1
    → Reports r.file r.func r.line r.code ((pushed r s).error_list s.error_count)
    → ((j : ℕ) → j < s.error_count → (pushed r s).error_list j ≡ s.error_list j)
    → Pushed rs (pushed r s) s'
    → Pushed (r ∷ rs) s s'
unfolding push_each
Pushed-more r rs s s' ne count reported kept p = record {
  runs = rw (error_push-pushed r s ne, push_each) p.runs;
  count = omega (arith, p.count, count);
  older = λ j lt. p.older j (omega (arith, count)) ∙ kept j lt;
  added = added;
}
  where
    added :
        (i : ℕ) (c : Report)
        → get_elem? (r ∷ rs) i ≡ some c
        → Reports c.file c.func c.line c.code (s'.error_list (s.error_count + i))
    added zero c e =
        let here : s.error_count + 0 ≡ s.error_count = omega arith in
        let same : r ≡ c = cc in
        rw (here, p.older s.error_count (omega (arith, count)), ← same) reported
    added (suc i) c e =
        let next : s.error_count + suc i ≡ (pushed r s).error_count + i = omega (arith, count) in
        rw next (p.added i c e)

push_each-Pushed :
    (rs : List Report) (s : ErrorState)
    → All (λ (r : Report). r.code ≢ 0) rs
    → s.error_count + length rs < 32
    → (s' : ErrorState) × Pushed rs s s'
unfolding push_each
push_each-Pushed [] s h room =
    (s, record { runs = refl; count = omega arith; older = λ j lt. refl; added = λ i r e. cc })
push_each-Pushed (r ∷ rs) s h room =
    let (count, reported, kept) = pushed_lem r s (omega arith) in
    let (s', p) = push_each-Pushed rs (pushed r s) h.1 (omega (arith, count)) in
    (s', Pushed-more r rs s s' h.0 count reported kept p)

-- A run of pushes on a cleared state, up to 31 of them and none with code 0, ends, and its trace
-- has one frame for each push: the frame of index `i` reports the `i`-th push.
pub push_each_in_order :
    (rs : List Report) (s : ErrorState)
    → All (λ (r : Report). r.code ≢ 0) rs
    → length rs < 32
    → (s' : ErrorState) × (push_each rs (error_clear s) ≡ some s')
      × (error_trace_length s' ≡ length rs)
      × ((i : ℕ) (r : Report)
          → get_elem? rs i ≡ some r
          → (error_trace_nth i s' ≡ some i) × Reports r.file r.func r.line r.code (s'.error_list i))
unfolding error_clear error_trace_length error_trace_nth
push_each_in_order rs s h room =
    let (s', p) = push_each-Pushed rs (error_clear s) h (omega arith) in
    (
      s',
      p.runs,
      omega (arith, p.count),
      λ i r e. (
        ground (arith, p.count, get_elem?-lt rs i e),
        (let at : i ≡ 0 + i = omega arith in rw at (p.added i r e)),
      ),
    )
