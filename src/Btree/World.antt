-- ===== src/Btree/World.antt =====
-- What the functions of src/btree.c work on besides the tree: the pager, the bytes of its pages, and
-- the thread's error code. One thread runs while no other moves.
use wednesday.Base.{ℕ, ◌+◌, Memory, true, if◌then◌else◌}
use wednesday.Base.Outcome.{Outcome, ok, Result, success, failure, ◌>>=◌, or_trapped}
use wednesday.Pager.Types.{Pager, Page}
use wednesday.Pager.Lookup.{set_header, pager_unfix}
use wednesday.Pager.Create.{Answers}
use wednesday.Pager.Fix.{pager_fix, pager_next}
use wednesday.Pager.Open.{defer_runs}

-- `answers` are those to the calls of the pager, by their number; `buffer` is what an array on the
-- stack holds before it is written.
pub record World : Type 0 where
  pub pager : Pager
  pub error_code : ℕ
  pub answers : ℕ → Answers
  pub calls : ℕ
  pub buffer : Memory

-- `btree_t`, but for its pointer to the pager.
pub record Btree : Type 0 where
  pub root : ℕ
  pub page_size : ℕ

-- `failure` leaves its code in the error state.
abbrev pub note {ℓ} : {A : Type ℓ} → Result A → World → World
note (success a) w = w
note (failure code) w = record w { error_code = code }

abbrev pub after_call {ℓ} : {A : Type ℓ} → World → Result A × Pager → Outcome (Result A × World)
after_call w (r, p) = ok (r, note r (record w { pager = p; calls = w.calls + 1 }))

unfoldable pub fix : World → ℕ → Outcome (Result Page × World)
fix w id = do answer ← pager_fix (w.answers w.calls) w.pager id true; after_call w answer

unfoldable pub next_page : World → Outcome (Result Page × World)
next_page w = do answer ← pager_next (w.answers w.calls) w.pager; after_call w answer

unfoldable pub unfix : World → Page → Outcome World
unfix w page = do p ← pager_unfix w.pager page; ok (record w { pager = p })

-- A handler `errdefer(pager_unfix, page)`, when its scope is left.
unfoldable pub errdefer_unfix : World → Page → Outcome World
unfolding unfix defer_runs
errdefer_unfix w page = if defer_runs true w.error_code then unfix w page else ok w

-- The bytes at `page.data`.
unfoldable pub page_bytes : World → Page → Outcome Memory
page_bytes w page = do h ← or_trapped ((w.pager.ring page.frame).header); ok h.contents

unfoldable pub set_bytes : World → Page → Memory → Outcome World
set_bytes w page bytes = do
  h ← or_trapped ((w.pager.ring page.frame).header)
  ok (record w { pager = set_header w.pager page.frame (record h { contents = bytes }) })

-- How a function returns a failure: its code is in the error state.
abbrev pub fail {ℓ} : {A : Type ℓ} → ℕ → World → Outcome (Result A × World)
fail code w = ok (failure code, record w { error_code = code })
