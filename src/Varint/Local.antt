-- ===== src/Varint/Local.antt =====
-- `varint_get` and `varint_get_len` on two memories that hold the same bytes.
use wednesday.Base.{
  ℕ, zero, suc, ◌+◌, ◌≤◌, ◌<◌, ◌≡◌, inl, inr, refl, ap, arith, Memory, bit_and, ltb, leb, ◌==◌,
  ◌&&◌, ◌||◌, Bool-cases,
}
use wednesday.Varint.{varint_get, varint_get_len, get_loop, get_len_loop, add_group}

-- `n` bytes from `b` of `m'` on are those from `a` of `m` on.
abbrev pub Copies : Memory → ℕ → Memory → ℕ → ℕ → Type 0
Copies m a m' b n = (j : ℕ) → j < n → m' (b + j) ≡ m (a + j)

get_len_loop_low : (fuel i : ℕ) (m : Memory) (a : ℕ) → i ≤ get_len_loop fuel m a i
unfolding get_len_loop
get_len_loop_low zero i m a = omega arith
get_len_loop_low (suc fuel) i m a = ground (arith, get_len_loop_low fuel (i + 1) m a)

get_len_loop-Copies :
    (fuel i : ℕ) (m m' : Memory) (a b : ℕ)
    → Copies m a m' b (get_len_loop fuel m a i + 1)
    → get_len_loop fuel m' b i ≡ get_len_loop fuel m a i
unfolding get_len_loop
get_len_loop-Copies zero i m m' a b same = refl
get_len_loop-Copies (suc fuel) i m m' a b same =
    let low = get_len_loop_low (suc fuel) i m a in
    let here : m' (b + i) ≡ m (a + i) = same i (omega arith) in
    elim (Bool-cases (ltb i 8 && ltb 0 (bit_and (m (a + i)) 0x80))) [
      | inl more ↦ rw (here, more) (get_len_loop-Copies fuel (i + 1) m m' a b (rw more at same))
      | inr done ↦ rw (here, done) refl
    ]

get_loop_low :
    (fuel i result : ℕ) (m : Memory) (a : ℕ)
    → (i ≤ (get_loop fuel m a i result).1) × (i < (get_loop (suc fuel) m a i result).1)
unfolding get_loop
get_loop_low zero i result m a = ground arith
get_loop_low (suc fuel) i result m a =
    let (le, lt) = get_loop_low fuel (i + 1) (add_group result (m (a + i)) i) m a in
    (ground arith, ground arith)

get_loop-Copies :
    (fuel i result : ℕ) (m m' : Memory) (a b : ℕ)
    → Copies m a m' b (get_loop fuel m a i result).1
    → get_loop fuel m' b i result ≡ get_loop fuel m a i result
unfolding get_loop
get_loop-Copies zero i result m m' a b same = refl
get_loop-Copies (suc fuel) i result m m' a b same =
    let low = (get_loop_low fuel i result m a).1 in
    let here : m' (b + i) ≡ m (a + i) = same i low in
    elim (Bool-cases (bit_and (m (a + i)) 0x80 == 0 || leb 9 (i + 1))) [
      | inl done ↦ rw (here, done) refl
      | inr more ↦
          rw (here, more)
            (get_loop-Copies fuel (i + 1) (add_group result (m (a + i)) i) m m' a b
              (rw more at same))
    ]

module _ (m m' : Memory) (a b : ℕ) where
  pub varint_get_len-Copies :
      Copies m a m' b (varint_get_len m a) → varint_get_len m' b ≡ varint_get_len m a
  unfolding varint_get_len
  varint_get_len-Copies same = ap (λ n. n + 1) (get_len_loop-Copies 9 0 m m' a b same)

  pub varint_get-Copies : Copies m a m' b (varint_get m a).1 → varint_get m' b ≡ varint_get m a
  unfolding varint_get
  varint_get-Copies same = get_loop-Copies 9 0 0 m m' a b same
