-- ===== src/Pager/Create/Filled.antt =====
-- How `pager_create` ends: with a free ring entry filled and inserted, or with nothing inserted.
use wednesday.Base.{
  ℕ, zero, suc, ◌+◌, ◌%◌, ◌^◌, ◌<◌, ◌≡◌, ◌⊎◌, inl, inr, refl, arith, Bool, true, false, some, ◌==◌,
  ◌||◌, not,
}
use wednesday.Base.{Option-cases}
use wednesday.Base.Int.{pos, is_negative}
use wednesday.Base.Outcome.{ok, Result, success, failure, >>=-eq-ok, assert, enomem}
use wednesday.Pager.Types.{Header, HashEntry, RingEntry, Pager}
use wednesday.Pager.Directory.{pager_directory_insert}
use wednesday.Pager.Lookup.{set_entry, set_ring}
use wednesday.Pager.Create.{Answers, header_of, fill_header, create_loop, pager_create}
use native.Mathlib.Decide.{ℕ_discrete}
use native.Mathlib.Nat.{mod-lt}

-- The two ends, from the free ring entry `f` on.
abbrev pub Filled : Bool → Pager → ℕ → ℕ → ℕ → Result ℕ → Pager → Type 0
Filled granted p x id f r p' =
    ((entry : RingEntry) × (r ≡ failure enomem) × (entry.page_id ≡ 0) × (p' ≡ set_ring p f entry))
    ⊎ ((h : Header) × (e : HashEntry) × (r ≡ success f)
        × (h.id ≡ id)
        × (h.latch ≡ pos 0)
        × (pager_directory_insert granted (p.directory x) id f ≡ some e)
        × (p' ≡ set_entry (set_ring p f (record { page_id = id; header = some h })) x e))

fill_header-ok :
    (answers : Answers) (p p' : Pager) (x id f : ℕ) (r : Result ℕ)
    → fill_header answers p x id f ≡ (r, p')
    → Filled answers.bucket p x id f r p'
unfolding fill_header
fill_header-ok answers p p' x id f r e =
    elim (Option-cases (header_of answers.page_memory (p.ring f))) [
      | inl absent ↦ inl (record (p.ring f) { page_id = 0 }, ground arith, refl, ground arith)
      | inr (h, present) ↦
          elim (Option-cases (pager_directory_insert answers.bucket (p.directory x) id f)) [
            | inl full ↦ inl (
              record {
                page_id = 0;
                header = some (record h { id = id; flags = 0; latch = pos 0 });
              },
              ground arith,
              refl,
              ground arith,
            )
            | inr (d, inserted) ↦ inr (
              record h { id = id; flags = 0; latch = pos 0 },
              d,
              ground arith,
              refl,
              refl,
              inserted,
              ground arith,
            )
          ]
    ]

-- A free ring entry was found, and only the hand was moved until then.
abbrev pub Created : Answers → Pager → ℕ → ℕ → Result ℕ → Pager → Type 0
Created answers p x id r p' =
    (f head : ℕ) × (f < p.size)
    × ((p.ring f).page_id ≡ 0)
    × Filled answers.bucket (record p { create_head = head }) x id f r p'

create_loop-ok :
    (fuel : ℕ) (answers : Answers) (p p' : Pager) (x id : ℕ) (r : Result ℕ)
    → create_loop fuel answers p x id ≡ ok (r, p')
    → Created answers p x id r p'
unfolding create_loop
create_loop-ok zero answers p p' x id r e = cc
create_loop-ok (suc fuel) answers p p' x id r e = elim (ℕ_discrete p.size 0) [
  | yes empty ↦ ground arith
  | no sized ↦ elim (round_cases (not ((p.ring f).page_id == 0) || answers.spurious fuel)) [
    | inl skip ↦
        let again : create_loop fuel answers (record p { create_head = head }) x id ≡ ok (r, p') =
          ground arith in
        create_loop-ok fuel answers (record p { create_head = head }) p' x id r again
    | inr here ↦
        let done : fill_header answers (record p { create_head = head }) x id f ≡ (r, p') =
          ground arith in
        (
          f,
          head,
          mod-lt p.create_head (omega arith),
          ground arith,
          fill_header-ok answers (record p { create_head = head }) p' x id f r done,
        )
  ]
]
  where
    f : ℕ
    f = p.create_head % p.size

    head : ℕ
    head = (p.create_head + 1) % 2 ^ 32

    round_cases : (b : Bool) → (b ≡ true) ⊎ (b ≡ false)
    round_cases true = inl refl
    round_cases false = inr refl

pub pager_create-ok :
    (answers : Answers) (p p' : Pager) (x id : ℕ) (r : Result ℕ)
    → pager_create answers p x id ≡ ok (r, p')
    → Created answers p x id r p'
unfolding pager_create
pager_create-ok answers p p' x id r e =
    let (u, asserted, e₁) = >>=-eq-ok (assert (is_negative (p.directory x).latch)) _ e in
    create_loop-ok answers.rounds answers p p' x id r e₁
