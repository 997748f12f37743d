-- ===== src/Btree/Node.antt =====
-- What a well-formed node is: its cells lie before `data_start`, and each payload between it and the
-- end of the page. That no two payloads overlap is no part of it, and `free_space` may be any 16-bit
-- number.
use wednesday.Base.{◌^◌, ◌≤◌, ℕ, zero, suc, ◌+◌, ◌<◌, ◌≡◌, refl, arith, Memory}
use wednesday.Btree.Layout.{cell_count, cell_at, data_start, free_space, flags_of, page_get_payload}
use wednesday.Btree.Local.{payload_len}

-- `f i + … + f (i + n - 1)`
unfoldable pub sum_range : (ℕ → ℕ) → ℕ → ℕ → ℕ
sum_range f i zero = 0
sum_range f i (suc n) = f i + sum_range f (i + 1) n

pub sum_range-add :
    (f : ℕ → ℕ) (i a b : ℕ) → sum_range f i (a + b) ≡ sum_range f i a + sum_range f (i + a) b
unfolding sum_range
sum_range-add f i zero b =
    let e : i + 0 ≡ i = omega arith in let z : 0 + b ≡ b = omega arith in rw (e, z) (omega arith)
sum_range-add f i (suc a) b =
    let e : suc a + b ≡ suc (a + b) = omega arith in
    let g : i + 1 + a ≡ i + suc a = omega arith in
    rw e (omega (arith, rw g at (sum_range-add f (i + 1) a b)))

pub sum_range-suc : (f : ℕ → ℕ) (i n : ℕ) → sum_range f i (suc n) ≡ f i + sum_range f (i + 1) n
unfolding sum_range
sum_range-suc f i n = refl

pub sum_range-zero : (f : ℕ → ℕ) (i : ℕ) → sum_range f i 0 ≡ 0
unfolding sum_range
sum_range-zero f i = refl

pub sum_range-same :
    (f g : ℕ → ℕ) (i k n : ℕ)
    → ((j : ℕ) → j < n → f (i + j) ≡ g (k + j))
    → sum_range f i n ≡ sum_range g k n
unfolding sum_range
sum_range-same f g i k zero same = refl
sum_range-same f g i k (suc n) same =
    let e : i + 0 ≡ i = omega arith in
    let e' : k + 0 ≡ k = omega arith in
    let first : f i ≡ g k = rw (e, e') at (same 0 (omega arith)) in
    omega (arith, first, sum_range-same f g (i + 1) (k + 1) n (λ j lt. later j lt))
  where
    later : (j : ℕ) → j < n → f (i + 1 + j) ≡ g (k + 1 + j)
    later j lt =
        let e : i + (j + 1) ≡ i + 1 + j = omega arith in
        let e' : k + (j + 1) ≡ k + 1 + j = omega arith in rw (e, e') at (same (j + 1) (omega arith))

-- The length of the payload of a cell.
abbrev pub len_at : Memory → ℕ → ℕ
len_at page i = payload_len (flags_of page) page (page_get_payload page i)

-- A node whose payloads lie behind its cells, and within its page.
pub record IsNode (page : Memory) (page_size : ℕ) : Type 0 where
  pub small : page_size < 2 ^ 16
  pub ends : data_start page ≤ page_size
  pub room : cell_at (cell_count page) ≤ data_start page
  pub word : free_space page < 2 ^ 16
  pub payloads :
      (j : ℕ)
      → j < cell_count page
      → (data_start page ≤ page_get_payload page j)
        × (page_get_payload page j + len_at page j ≤ page_size)
