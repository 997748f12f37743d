-- ===== src/Latch/Expected.antt =====
-- The local `value` of the loops that acquire the latch shared: what their compare-exchange increments.
use wednesday.Base.{ℕ, ◌<◌, ◌≡◌, ◌⊎◌, inl, inr, refl, arith, ap, store}
use wednesday.Base.Int.{ℤ, pos, pos_part}
use wednesday.Base.Family.{sum_of, sum_of-store, sum_of-le}
use wednesday.Latch.{Pc, Move}
use wednesday.Latch.Pc.{acquire_read, try_acquire_read, reading}
use wednesday.Latch.Move.{read_lose, read_load, try_read_lose}
use wednesday.Latch.Threads.{Threads, Reach, begin, after, move}
use wednesday.Latch.Exclusion.{Reach-Inv, reads}
use native.Mathlib.Decide.{ℕ_discrete}

-- The value that the next compare-exchange of a shared acquisition expects, and 0 elsewhere.
abbrev pub expected : Pc → ℤ
expected (acquire_read v) = v
expected (try_acquire_read v) = v
expected _ = pos 0

-- A thread that holds nothing is not counted.
idle_reader-lt : (n : ℕ) (pc : ℕ → Pc) (i : ℕ) → i < n → reads (pc i) ≡ 0 → sum_of reads n pc < n
idle_reader-lt n pc i lt none = omega (
  arith,
  none,
  sum_of-store reads n pc i reading lt,
  sum_of-le reads (λ p. ground arith) n (store pc i reading),
)

-- A step expects what it has loaded, and before a load its thread held nothing.
Move-expected :
    {w w' : ℤ} {p p' : Pc}
    → Move w p w' p'
    → (pos_part (expected p') ≡ 0) ⊎ ((reads p ≡ 0) × (expected p' ≡ w))
Move-expected (read_lose h) = inr (refl, refl)
Move-expected (read_load h) = inr (refl, refl)
Move-expected (try_read_lose h) = inr (refl, refl)
Move-expected mv = inl refl

pub expected-lt :
    {n : ℕ} {s : Threads} → Reach n s → (i : ℕ) → i < n → pos_part (expected (s.pc i)) < n
expected-lt begin i lt = omega arith
expected-lt {n} (after {s} r (move j {w} {p} lt' mv)) i lt = elim (ℕ_discrete i j) [
  | no other ↦ let before = expected-lt r i lt in ground arith
  | yes here ↦ elim (Move-expected mv) [
    | inl zero_value ↦ ground arith
    | inr (none, loaded) ↦
        let few = idle_reader-lt n s.pc j lt' none in
        let counted = (Reach-Inv r).readers in let same = ap pos_part loaded in ground arith
  ]
]
