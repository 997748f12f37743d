-- ===== src/Pager/Create/Total.antt =====
-- `pager_create` finds a free ring entry, wherever its hand stands.
use wednesday.Base.{
  ℕ, zero, suc, ◌+◌, ◌-◌, ◌*◌, ◌/◌, ◌%◌, ◌^◌, ◌≤◌, ◌<◌, ◌≡◌, ◌≢◌, ◌∙◌, sym, ap, arith, true, false,
}
use wednesday.Base.Int.{is_negative}
use wednesday.Base.Outcome.{ok, Result, ◌>>=◌, assert}
use wednesday.Pager.Types.{Pager}
use wednesday.Pager.Create.{Answers, fill_header, create_loop, pager_create}
use native.Mathlib.Nat.{mod-lt, div-add-mod, mul-add-mod_self_left, mod-eq_of_lt}
use native.Mathlib.Decide.{ℕ_discrete, dec_lt, dec_le}

-- The hand stands on the free entry after `k` more rounds.
create_loop_reaches :
    (fuel k : ℕ) (answers : Answers) (p : Pager) (x id : ℕ)
    → k < fuel
    → ((n : ℕ) → answers.spurious n ≡ false)
    → p.size ≢ 0
    → p.create_head < 2 ^ 32
    → (p.ring ((p.create_head + k) % 2 ^ 32 % p.size)).page_id ≡ 0
    → (r : Result ℕ × Pager) × (create_loop fuel answers p x id ≡ ok r)
unfolding create_loop
create_loop_reaches zero k answers p x id lt s sized head free = absurd (omega arith)
create_loop_reaches (suc fuel) zero answers p x id lt s sized head free =
    let same : (p.create_head + 0) % 2 ^ 32 ≡ p.create_head = omega arith in
    let here : (p.ring (p.create_head % p.size)).page_id ≡ 0 =
      ap (λ n. (p.ring (n % p.size)).page_id) (sym same) ∙ free in
    (
      fill_header answers (record p { create_head = (p.create_head + 1) % 2 ^ 32 }) x id
          (p.create_head % p.size),
      ground (arith, s fuel),
    )
create_loop_reaches (suc fuel) (suc k) answers p x id lt s sized head free =
    let same : (p.create_head + suc k) % 2 ^ 32 ≡ ((p.create_head + 1) % 2 ^ 32 + k) % 2 ^ 32 =
      omega arith in
    let (r, e) =
      create_loop_reaches fuel k answers (record p { create_head = (p.create_head + 1) % 2 ^ 32 }) x
        id (omega arith) s sized (omega arith)
        (ap (λ n. (p.ring (n % p.size)).page_id) (sym same) ∙ free) in
    elim (ℕ_discrete (p.ring (p.create_head % p.size)).page_id 0) [
      | yes here ↦ (
        fill_header answers (record p { create_head = (p.create_head + 1) % 2 ^ 32 }) x id
            (p.create_head % p.size),
        ground (arith, s fuel),
      )
      | no taken ↦ (r, ground arith)
    ]

-- Within two turns the hand comes to every ring entry, also where its counter wraps around.
hand_reaches :
    (c size f : ℕ)
    → f < size
    → size ≤ 2 ^ 32
    → c < 2 ^ 32
    → (k : ℕ) × (k < size * 2) × ((c + k) % 2 ^ 32 % size ≡ f)
hand_reaches c size f lt fits word = elim (dec_lt (2 ^ 32) (c + size)) [
  | yes wraps ↦
      let low : (c + (2 ^ 32 - c + f)) % 2 ^ 32 ≡ f = omega arith in
      (2 ^ 32 - c + f, omega arith, ap (λ n. n % size) low ∙ mod_small)
  | no inside ↦ elim (dec_le (c % size) f) [
    | yes ahead ↦
        let same : (c + (f - c % size)) % 2 ^ 32 ≡ size * (c / size) + f =
          omega (arith, split, below_size) in
        (f - c % size, omega arith, ap (λ n. n % size) same ∙ turned (c / size))
    | no behind ↦
        let same : (c + (size + f - c % size)) % 2 ^ 32 ≡ size * (c / size) + size + f =
          omega (arith, split, below_size) in
        let next : size * (c / size) + size ≡ size * suc (c / size) = omega arith in
        (
          size + f - c % size,
          omega (arith, below_size),
          ap (λ n. n % size) same ∙ ap (λ n. (n + f) % size) next ∙ turned (suc (c / size)),
        )
  ]
]
  where
    split : size * (c / size) + c % size ≡ c
    split = div-add-mod c size

    below_size : c % size < size
    below_size = mod-lt c (omega arith)

    mod_small : f % size ≡ f
    mod_small = mod-eq_of_lt lt

    turned : (n : ℕ) → (size * n + f) % size ≡ f
    turned n = mul-add-mod_self_left size n f ∙ mod_small

-- Where some ring entry is free, `pager_create` ends within two turns of the ring.
pub pager_create-Returns :
    (answers : Answers) (p : Pager) (x id f : ℕ)
    → is_negative (p.directory x).latch ≡ true
    → f < p.size
    → p.size ≤ 2 ^ 32
    → p.create_head < 2 ^ 32
    → (p.ring f).page_id ≡ 0
    → ((n : ℕ) → answers.spurious n ≡ false)
    → p.size * 2 ≤ answers.rounds
    → (r : Result ℕ × Pager) × (pager_create answers p x id ≡ ok r)
unfolding pager_create
pager_create-Returns answers p x id f latched lt fits word free exact enough =
    let (k, near, at) = hand_reaches p.create_head p.size f lt fits word in
    let (r, e) =
      create_loop_reaches answers.rounds k answers p x id (omega arith) exact (omega arith) word
        (ap (λ n. (p.ring n).page_id) at ∙ free) in
    (r, ap (λ b. assert b >>= λ _. create_loop answers.rounds answers p x id) latched ∙ e)
