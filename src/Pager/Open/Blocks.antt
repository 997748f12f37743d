-- ===== src/Pager/Open/Blocks.antt =====
-- Which of the blocks that `pager_open` allocates are live when it returns.
use wednesday.Base.{
  ℕ, ◌+◌, ◌-◌, ◌%◌, ◌^◌, ◌<◌, ◌≡◌, ◌≢◌, ◌⊎◌, inl, inr, refl, arith, Bool, true, false, [], ◌∷◌,
  bit_and,
}
use wednesday.Base.Outcome.{success, failure, einval, enomem}
use wednesday.Pager.Types.{Pager}
use wednesday.Pager.Hash.{power_of_two_check}
use native.Mathlib.Decide.{ℕ_discrete}
use wednesday.Pager.Open.{
  defer_runs, pager_struct, directory_array, ring_array, pager_open, new_pager,
}

-- Where `pager_open` fails, whichever allocation failed and whatever the error code was before, no
-- block stays allocated, and the code is EINVAL or ENOMEM.
pub pager_open_fails :
    (error_code : ℕ) (a b c : Bool) (page_size directory_size code : ℕ)
    → (pager_open error_code a b c page_size directory_size).result ≡ failure code
    → ((pager_open error_code a b c page_size directory_size).live ≡ [])
      × ((code ≡ einval) ⊎ (code ≡ enomem))
unfolding pager_open defer_runs
pager_open_fails error_code a b c page_size directory_size code e =
    elim (ℕ_discrete (bit_and directory_size ((directory_size + 2 ^ 32 - 1) % 2 ^ 32)) 0) [
      | no refused ↦ (ground arith, inl (ground arith))
      | yes passed ↦ elim a [
        | false ↦ (ground arith, inr (ground arith))
        | true ↦ elim b [
          | false ↦ (ground arith, inr (ground arith))
          | true ↦ elim c [ false ↦ (ground arith, inr (ground arith)) | true ↦ ground arith ]
        ]
      ]
    ]

-- For a directory of a power of two entries, below 2 ^ 32, with every allocation granted, `pager_open` succeeds
-- with the new pager; its three blocks are live where the thread's error code was 0, and all of
-- them have been freed where an earlier error is still in the error state.
pub pager_open_success :
    (error_code page_size k : ℕ)
    → 2 ^ k < 2 ^ 32
    → ((pager_open error_code true true true page_size (2 ^ k)).result
        ≡ success (new_pager page_size (2 ^ k)))
      × ((error_code ≡ 0)
          → (pager_open error_code true true true page_size (2 ^ k)).live
            ≡ pager_struct ∷ directory_array ∷ ring_array ∷ [])
      × ((error_code ≢ 0) → (pager_open error_code true true true page_size (2 ^ k)).live ≡ [])
unfolding pager_open defer_runs
pager_open_success error_code page_size k fits =
    let passed = (power_of_two_check (2 ^ k) fits).1 (inr (k, refl)) in
    (ground arith, λ e. ground arith, λ e. ground arith)

-- With every allocation granted, `pager_open` accepts a directory of 0 entries and one of any power of
-- two below 2 ^ 32, and no other size below 2 ^ 32.
pub pager_open_sizes :
    (error_code page_size d : ℕ)
    → d < 2 ^ 32
    → ((p : Pager) × ((pager_open error_code true true true page_size d).result ≡ success p)
        → (d ≡ 0) ⊎ ((k : ℕ) × (d ≡ 2 ^ k)))
      × ((d ≡ 0) ⊎ ((k : ℕ) × (d ≡ 2 ^ k))
          → (p : Pager) × ((pager_open error_code true true true page_size d).result ≡ success p))
unfolding pager_open
pager_open_sizes error_code page_size d fits = (
  λ opened. elim (ℕ_discrete (bit_and d ((d + 2 ^ 32 - 1) % 2 ^ 32)) 0) [
    | yes passed ↦ (power_of_two_check d fits).0 passed
    | no refused ↦ let e = opened.1 in ground arith
  ],
  λ power.
      let passed = (power_of_two_check d fits).1 power in (new_pager page_size d, ground arith),
)
