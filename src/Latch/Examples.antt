-- ===== src/Latch/Examples.antt =====
-- Reachable states of two threads, and the theorems at them.
use wednesday.Base.{ℕ, ◌≡◌, refl, ap, arith, store, true, some, none}
use wednesday.Base.Int.{ℤ, pos, negsuc, pos_part}
use wednesday.Latch.{Pc}
use wednesday.Latch.Pc.{idle, acquire_read, acquire_write, writing, aborted}
use wednesday.Latch.Move.{start_write, write_win, start_read}
use wednesday.Latch.Threads.{Threads, move, Reach, begin, after}
use wednesday.Latch.Exclusion.{exclusive_holder}
use wednesday.Latch.Calls.{Run, fresh, next, obeys, stray_read_aborts, at_rest}
use wednesday.Latch.Alone.{latch_acquire, Moves, asking, holding, Spins, latch_acquire_alone}

-- Thread 1 asks to write, and holds the latch.
abbrev one_writer : Threads
one_writer = record {
  word = negsuc 0;
  pc = store (store (λ _. idle) 1 (acquire_write (pos 0))) 1 writing;
}

one_writer-Reach : Reach 2 one_writer
one_writer-Reach =
    after (after begin (move 1 (omega arith) start_write))
      (move 1 (omega arith) (write_win refl refl))

-- Then thread 0 asks to read.
abbrev asked : Threads
asked = record { word = negsuc 0; pc = store one_writer.pc 0 (acquire_read (pos 0)) }

asked-Reach : Reach 2 asked
asked-Reach = after one_writer-Reach (move 0 (omega arith) start_read)

exclusive_holder_example : ◌≡◌ {A = ℕ} 1 1
exclusive_holder_example =
    exclusive_holder asked-Reach 1 1 (omega arith) (omega arith) (omega arith) (omega arith)

-- The same steps as a run of calls.
asked_run : Run 2 asked
asked_run =
    next 0
      (next 1 (next 1 fresh (omega arith) (obeys start_write)) (omega arith)
        (obeys (write_win refl refl)))
      (omega arith) (obeys start_read)

-- A thread that calls `latch_release_read` on a latch that nobody holds meets its assert.
stray_run : Run 1 (record { word = pos 0; pc = store (λ _. idle) 0 aborted })
stray_run =
    next 0 fresh (omega arith)
      (stray_read_aborts at_rest (λ e. ground (arith, e)) (λ n e. omega (arith, ap pos_part e)))

latch_acquire_alone_example :
    ((w' : ℤ)
      → latch_acquire true (pos 0) ≡ some w'
      → Moves (pos 0) (asking true) w' (holding true))
    × ((w' : ℤ) (p : Pc)
        → latch_acquire true (pos 0) ≡ none
        → Moves (pos 0) (asking true) w' p
        → Spins true (pos 0) w' p)
latch_acquire_alone_example = latch_acquire_alone true (pos 0)
