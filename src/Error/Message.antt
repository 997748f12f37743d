-- ===== src/Error/Message.antt =====
-- What `error_append_message` leaves in the last frame.
use wednesday.Base.{ℕ, zero, suc, ◌+◌, ◌-◌, ◌≤◌, ◌<◌, ◌≡◌, ◌≢◌, refl, arith}
use wednesday.Base.{
  Memory, store, ◌==◌, ==_refl, leb, false, if◌then◌else◌, some, List, [], ◌∷◌, take, length,
  length-take, All,
}
use wednesday.Error.{ErrorState, ErrorFrame, max_errors, msg_size, strlen, vsnprintf}
use wednesday.Error.{write_message, error_append_message}

-- The C string at `a`, of `fuel` bytes at most.
pub c_string : ℕ → Memory → ℕ → List ℕ
c_string zero m a = []
c_string (suc fuel) m a = let rest = c_string fuel m (a + 1) in if m a == 0 then [] else m a ∷ rest

-- A formatted text holds no NUL.
abbrev pub IsText : List ℕ → Type 0
IsText text = All (λ c. 0 < c) text

vsnprintf-before :
    (m : Memory) (a size : ℕ) (text : List ℕ) (x : ℕ) → x < a → vsnprintf m a size text x ≡ m x
unfolding vsnprintf
vsnprintf-before m a zero text x lt = refl
vsnprintf-before m a (suc size) [] x lt = ground arith
vsnprintf-before m a (suc zero) (c ∷ text) x lt = ground arith
vsnprintf-before m a (suc (suc size)) (c ∷ text) x lt =
    ground (arith, vsnprintf-before m (a + 1) (suc size) text x)

c_string_same :
    (fuel : ℕ) (m m' : Memory) (a : ℕ)
    → ((x : ℕ) → a ≤ x → m' x ≡ m x)
    → c_string fuel m' a ≡ c_string fuel m a
unfolding c_string
c_string_same zero m m' a h = refl
c_string_same (suc fuel) m m' a h =
    rw (h a (omega arith), c_string_same fuel m m' (a + 1) (λ x le. h x (omega arith)))

-- The stored string is the text, cut to leave room for its NUL.
c_string-vsnprintf :
    (m : Memory) (a size fuel : ℕ) (text : List ℕ)
    → size < fuel
    → IsText text
    → c_string fuel (vsnprintf m a (suc size) text) a ≡ take size text
unfolding c_string vsnprintf
c_string-vsnprintf m a size zero text lt h = elim lt [ ]
c_string-vsnprintf m a zero (suc fuel) [] lt h = ground arith
c_string-vsnprintf m a (suc size) (suc fuel) [] lt h = ground arith
c_string-vsnprintf m a zero (suc fuel) (c ∷ text) lt h = ground arith
c_string-vsnprintf m a (suc size) (suc fuel) (c ∷ text) lt h = ground (
  arith,
  c_string_same fuel (vsnprintf m (a + 1) (suc size) text)
      (store (vsnprintf m (a + 1) (suc size) text) a c) (a + 1) (λ x le. ground arith),
  c_string-vsnprintf m (a + 1) size fuel text (omega arith) h.1,
)

strlen-c_string : (fuel : ℕ) (m : Memory) (a : ℕ) → strlen fuel m a ≡ length (c_string fuel m a)
unfolding strlen c_string
strlen-c_string zero m a = refl
strlen-c_string (suc fuel) m a = ground (arith, strlen-c_string fuel m (a + 1))

-- The frame's message, as a C string.
pub message : ErrorFrame → List ℕ
message frame = c_string msg_size frame.msg 0

pub message-empty : (frame : ErrorFrame) → frame.msg 0 ≡ 0 → message frame ≡ []
unfolding message c_string
message-empty frame h = ground arith

-- `s'` is `s` with the message of frame `i` replaced.
pub record Rewritten (i : ℕ) (text : List ℕ) (s s' : ErrorState) : Type 0 where
  pub new_message : message (s'.error_list i) ≡ take (127 - length (message (s.error_list i))) text
  pub same_code : (s'.error_list i).code ≡ (s.error_list i).code
  pub other_frames : (j : ℕ) → j ≢ i → s'.error_list j ≡ s.error_list j
  pub same_count : s'.error_count ≡ s.error_count
  pub same_error : s'.error_code ≡ s.error_code

write_message_lem :
    (text : List ℕ) (frame : ErrorFrame)
    → IsText text
    → length (message frame) < msg_size
    → message (write_message text frame) ≡ take (127 - length (message frame)) text
unfolding write_message message
write_message_lem text frame h lt = cut (127 - length (c_string msg_size frame.msg 0)) (omega arith)
  where
    len : strlen msg_size frame.msg 0 ≡ length (c_string msg_size frame.msg 0)
    len = strlen-c_string msg_size frame.msg 0

    cut :
        (size : ℕ)
        → suc size ≡ msg_size - length (c_string msg_size frame.msg 0)
        → c_string msg_size (write_message text frame).msg 0
          ≡ take (127 - length (c_string msg_size frame.msg 0)) text
    cut size e =
        let room : msg_size - strlen msg_size frame.msg 0 ≡ suc size = omega (arith, len) in
        let kept : 127 - length (c_string msg_size frame.msg 0) ≡ size = omega arith in
        let below : leb msg_size (strlen msg_size frame.msg 0) ≡ false = ground (arith, len) in
        rw (kept, below, room) (c_string-vsnprintf frame.msg 0 size msg_size text (omega arith) h)

-- What is written never fills the array: its NUL stays.
pub message-write_message :
    (text : List ℕ) (frame : ErrorFrame)
    → IsText text
    → length (message frame) < msg_size
    → length (message (write_message text frame)) < msg_size
message-write_message text frame h lt =
    rw (write_message_lem text frame h lt)
      (omega (arith, length-take (127 - length (message frame)) text))

write_message-code :
    (text : List ℕ) (frame : ErrorFrame) → (write_message text frame).code ≡ frame.code
unfolding write_message
write_message-code text frame = ground arith

-- `error_append_message` on a state with 1 to 31 frames, the last with a terminated message: the
-- text takes the place of the message that was there, cut to the room that was left behind it.
pub error_append_message_overwrites :
    (text : List ℕ) (s : ErrorState)
    → IsText text
    → 0 < s.error_count
    → s.error_count < max_errors
    → length (message (s.error_list (s.error_count - 1))) < msg_size
    → (s' : ErrorState) × (error_append_message text s ≡ some s')
      × Rewritten (s.error_count - 1) text s s'
unfolding error_append_message
error_append_message_overwrites text s h some_frame room lt = (
  record s {
    error_list =
        store s.error_list (s.error_count - 1)
          (write_message text (s.error_list (s.error_count - 1)));
  },
  ground arith,
  rewritten,
)
  where
    last : ErrorFrame
    last = s.error_list (s.error_count - 1)

    rewritten :
        Rewritten (s.error_count - 1) text s (record s {
          error_list = store s.error_list (s.error_count - 1) (write_message text last);
        })
    rewritten = record {
      new_message = rw (==_refl (s.error_count - 1)) (write_message_lem text last h lt);
      same_code = rw (==_refl (s.error_count - 1)) (write_message-code text last);
      other_frames = λ j ne. ground arith;
      same_count = refl;
      same_error = refl;
    }
