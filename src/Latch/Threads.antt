-- ===== src/Latch/Threads.antt =====
-- `n` threads on one latch, interleaved in any order.
use wednesday.Base.{ℕ, ◌<◌, store}
use wednesday.Base.Int.{ℤ, pos}
use wednesday.Latch.{Pc, Move}

pub record Threads : Type 0 where
  pub word : ℤ
  pub pc : ℕ → Pc

pub data Step (n : ℕ) (s : Threads) : Threads → Type 0 where
  move :
      (i : ℕ) {w : ℤ} {p : Pc}
      → i < n
      → Move s.word (s.pc i) w p
      → Step n s (record { word = w; pc = store s.pc i p })

-- After `latch_init`, before any thread has asked for the latch.
abbrev pub init : Threads
init = record { word = pos 0; pc = λ _. Pc.idle }

pub data Reach (n : ℕ) : Threads → Type 0 where
  begin : Reach n init
  after : {s t : Threads} → Reach n s → Step n s t → Reach n t
