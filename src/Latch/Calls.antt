-- ===== src/Latch/Calls.antt =====
-- Runs in which any thread may call a release function of src/latch.c, whether it holds the latch or
-- not.
use wednesday.Base.{ℕ, suc, ◌<◌, ◌≡◌, ◌≢◌, store}
use wednesday.Base.Int.{ℤ, pos}
use wednesday.Latch.{Pc, Move, exclusive_word}
use wednesday.Latch.Pc.{idle, refused, reading, writing, dropping_read, dropping_write, aborted}
use wednesday.Latch.Threads.{Threads, init}

-- The thread is in no function of the latch.
pub data IsOutside : Pc → Type 0 where
  at_rest : IsOutside idle
  turned_away : IsOutside refused
  holds_shared : IsOutside reading
  holds_exclusive : IsOutside writing

-- One step of one thread: a step of `Move`, in which a thread releases what it holds, or the assert
-- of a release function that a thread calls without holding the latch in that mode.
pub data Call (w : ℤ) : Pc → ℤ → Pc → Type 0 where
  obeys : {p p' : Pc} {w' : ℤ} → Move w p w' p' → Call w p w' p'
  stray_read :
      {p : Pc} {n : ℕ} → IsOutside p → p ≢ reading → w ≡ pos (suc n) → Call w p w dropping_read
  stray_read_aborts :
      {p : Pc} → IsOutside p → p ≢ reading → ((n : ℕ) → w ≢ pos (suc n)) → Call w p w aborted
  stray_write :
      {p : Pc} → IsOutside p → p ≢ writing → w ≡ exclusive_word → Call w p w dropping_write
  stray_write_aborts :
      {p : Pc} → IsOutside p → p ≢ writing → w ≢ exclusive_word → Call w p w aborted

-- The states that `n` threads come to, in any order of their steps, and the steps that led there.
pub data Run (n : ℕ) : Threads → Type 0 where
  fresh : Run n init
  next :
      {s : Threads} (i : ℕ) {w : ℤ} {p : Pc}
      → Run n s
      → i < n
      → Call s.word (s.pc i) w p
      → Run n (record { word = w; pc = store s.pc i p })

-- The step is one of `Move`.
abbrev IsMove : {w w' : ℤ} {p p' : Pc} → Call w p w' p' → Type 0
IsMove (obeys m) = Unit
IsMove (stray_read o ne e) = ⊥
IsMove (stray_read_aborts o ne e) = ⊥
IsMove (stray_write o ne e) = ⊥
IsMove (stray_write_aborts o ne e) = ⊥

-- In the whole run, a thread calls a release function only while it holds the latch in that mode.
abbrev pub IsDisciplined : {n : ℕ} {s : Threads} → Run n s → Type 0
IsDisciplined fresh = Unit
IsDisciplined (next i run lt call) = IsDisciplined run × IsMove call
