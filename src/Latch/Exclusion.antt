-- ===== src/Latch/Exclusion.antt =====
-- What holds in every reachable state of `n` threads on one latch.
use wednesday.Base.{ℕ, zero, suc, ◌+◌, ◌≤◌, ◌<◌, ◌≡◌, ◌≢◌, ◌↔◌, refl, arith, true, ap}
use wednesday.Base.Int.{ℤ, pos, negsuc, pos_part, neg_part}
use wednesday.Base.Int.{
  inc_parts, dec_parts, is_zero_parts, parts_exclusive, minus_one_of_parts, is_zero_of_parts,
}
use native.Mathlib.Decide.{ℕ_discrete}
use wednesday.Base.Family.{
  sum_of, sum_of-store, weight-le-sum_of, weights-le-sum_of, sum_of-eq-zero,
}
use wednesday.Latch.{Pc, Move, latch_available}
use wednesday.Latch.Pc.{idle, reading, writing, dropping_read, dropping_write, aborted}
use wednesday.Latch.Move.{
  read_win, try_read_win, write_win, try_write_win, release_read_aborts, drop_read,
  release_write_aborts, drop_write,
}
use wednesday.Latch.Threads.{Threads, Step, move, Reach, begin, after}

-- 1 for a thread that holds the latch shared, and for one that holds it exclusively.
abbrev pub reads : Pc → ℕ
reads reading = 1
reads dropping_read = 1
reads _ = 0

abbrev pub writes : Pc → ℕ
writes writing = 1
writes dropping_write = 1
writes _ = 0

pub record Inv (n : ℕ) (s : Threads) : Type 0 where
  pub readers : sum_of reads n s.pc ≡ pos_part s.word
  pub writers : sum_of writes n s.pc ≡ neg_part s.word
  pub one : neg_part s.word ≤ 1
  pub alive : (i : ℕ) → s.pc i ≢ aborted

-- A move changes the two parts of the word as it changes what its thread holds.
record Balanced (w : ℤ) (p : Pc) (w' : ℤ) (p' : Pc) : Type 0 where
  readers : pos_part w' + reads p ≡ pos_part w + reads p'
  writers : neg_part w' + writes p ≡ neg_part w + writes p'
  one : neg_part w' ≤ 1
  alive : p' ≢ aborted

some_reader : (w : ℤ) → ((n : ℕ) → w ≢ pos (suc n)) → 0 < pos_part w → ⊥
some_reader (pos zero) never h = omega arith
some_reader (pos (suc n)) never h = never n refl
some_reader (negsuc n) never h = omega arith

Move-Balanced :
    {w w' : ℤ} {p p' : Pc}
    → Move w p w' p'
    → neg_part w ≤ 1
    → reads p ≤ pos_part w
    → writes p ≤ neg_part w
    → Balanced w p w' p'
Move-Balanced {w} (read_win {v} h e) one r x =
    ground (arith, inc_parts v h, ap pos_part e, ap neg_part e)
Move-Balanced {w} (try_read_win {v} h e) one r x =
    ground (arith, inc_parts v h, ap pos_part e, ap neg_part e)
Move-Balanced (write_win {v} h e) one r x =
    ground (arith, is_zero_parts v h, ap pos_part e, ap neg_part e)
Move-Balanced (try_write_win {v} h e) one r x =
    ground (arith, is_zero_parts v h, ap pos_part e, ap neg_part e)
Move-Balanced {w} (release_read_aborts never) one r x = absurd (some_reader w never r)
Move-Balanced {w} drop_read one r x = ground (arith, dec_parts w r)
Move-Balanced {w} (release_write_aborts never) one r x =
    absurd (never (minus_one_of_parts w (omega arith)))
Move-Balanced {w} drop_write one r x = ground (arith, parts_exclusive w)
Move-Balanced mv one r x = ground arith

-- A move of thread `i` keeps the invariant.
Step-Inv : {n : ℕ} {s t : Threads} → Step n s t → Inv n s → Inv n t
Step-Inv {n} {s} (move i {w} {p} lt mv) inv = record {
  readers = omega (arith, b.readers, sum_of-store reads n s.pc i p lt, inv.readers);
  writers = omega (arith, b.writers, sum_of-store writes n s.pc i p lt, inv.writers);
  one = b.one;
  alive = λ j. ground (arith, inv.alive j, b.alive);
}
  where
    b : Balanced s.word (s.pc i) w p
    b =
        Move-Balanced mv inv.one (omega (arith, weight-le-sum_of reads n s.pc i lt, inv.readers))
          (omega (arith, weight-le-sum_of writes n s.pc i lt, inv.writers))

pub Reach-Inv : {n : ℕ} {s : Threads} → Reach n s → Inv n s
Reach-Inv {n} begin = record {
  readers = sum_of-eq-zero reads n (λ _. idle) (λ i. refl);
  writers = sum_of-eq-zero writes n (λ _. idle) (λ i. refl);
  one = omega arith;
  alive = λ i. λ e. cc;
}
Reach-Inv (after r st) = Step-Inv st (Reach-Inv r)

-- A thread that holds the latch exclusively is the only one that holds it.
pub exclusive_holder :
    {n : ℕ} {s : Threads}
    → Reach n s
    → (i j : ℕ) → i < n
    → j < n
    → writes (s.pc i) ≡ 1
    → reads (s.pc j) + writes (s.pc j) ≡ 1
    → i ≡ j
exclusive_holder {n} {s} r i j hi hj wi hj1 = elim (ℕ_discrete i j) [
  | yes e ↦ e
  | no ne ↦ absurd (
      omega (
        arith,
        inv.readers,
        inv.writers,
        inv.one,
        weights-le-sum_of writes n s.pc i j hi hj ne,
        weight-le-sum_of reads n s.pc j hj,
        weight-le-sum_of writes n s.pc i hi,
        parts_exclusive s.word,
      ))
]
  where
    inv : Inv n s
    inv = Reach-Inv r

-- Where threads release only what they hold, no assert of a release function fails, and
-- `latch_available` answers true exactly when no thread holds the latch.
pub asserts_hold :
    {n : ℕ} {s : Threads}
    → Reach n s
    → ((i : ℕ) → s.pc i ≢ aborted)
      × ((latch_available s.word ≡ true) ↔ (sum_of reads n s.pc + sum_of writes n s.pc ≡ 0))
unfolding latch_available
asserts_hold {n} {s} r = (
  inv.alive,
  (
    λ free. omega (arith, inv.readers, inv.writers, is_zero_parts s.word free),
    λ none. is_zero_of_parts s.word (omega (arith, inv.readers)) (omega (arith, inv.writers)),
  ),
)
  where
    inv : Inv n s
    inv = Reach-Inv r
