-- ===== src/Blob/Order.antt =====
-- `blob_cmp` is the lexicographic order of the bytes, given what the C library says of `memcmp`.
use wednesday.Base.{ℕ, zero, suc, ◌+◌, ◌≡◌, refl, arith, min, Memory, bytes_at, List, [], ◌∷◌}
use wednesday.Base.Int.{ℤ, pos, negsuc}
use wednesday.Blob.{Blob, blob_cmp}
use Prim.Native.Nat.{compare, Ordering}
use Prim.Native.Nat.Ordering.{lt, eq, gt}

-- The sign of a result: below, at or above zero.
abbrev pub sign : ℤ → Ordering
sign (pos zero) = eq
sign (pos (suc n)) = gt
sign (negsuc n) = lt

abbrev pub then_by : Ordering → Ordering → Ordering
then_by lt o = lt
then_by eq o = o
then_by gt o = gt

-- The order of byte strings: by the first byte that differs, a proper prefix first.
unfoldable pub lexicographic : List ℕ → List ℕ → Ordering
lexicographic [] [] = eq
lexicographic [] (y ∷ ys) = lt
lexicographic (x ∷ xs) [] = gt
lexicographic (x ∷ xs) (y ∷ ys) = let rest = lexicographic xs ys in then_by (compare x y) rest

-- The documented behaviour of `memcmp`: the sign of its result orders the two runs of `n` bytes.
abbrev pub IsMemcmp : (Memory → ℕ → ℕ → ℕ → ℤ) → Type 0
IsMemcmp memcmp =
    (m : Memory) (a b n : ℕ)
    → sign (memcmp m a b n) ≡ lexicographic (bytes_at m a n) (bytes_at m b n)

-- Two byte strings compare as their common length does, and then by their lengths.
lexicographic-min :
    (m : Memory) (a b x y : ℕ)
    → lexicographic (bytes_at m a x) (bytes_at m b y)
      ≡ then_by (lexicographic (bytes_at m a (min x y)) (bytes_at m b (min x y))) (compare x y)
unfolding lexicographic bytes_at
lexicographic-min m a b zero zero = refl
lexicographic-min m a b zero (suc y) =
    let e : min 0 (suc y) ≡ 0 = omega arith in rw e (ground arith)
lexicographic-min m a b (suc x) zero =
    let e : min (suc x) 0 ≡ 0 = omega arith in rw e (ground arith)
lexicographic-min m a b (suc x) (suc y) =
    let e : min (suc x) (suc y) ≡ suc (min x y) = omega arith in
    rw e (ground (arith, lexicographic-min m (a + 1) (b + 1) x y))

-- The sign of `blob_cmp` is the lexicographic order of the two blobs' bytes, whatever their sizes.
pub blob_cmp-lexicographic :
    (memcmp : Memory → ℕ → ℕ → ℕ → ℤ) (m : Memory) (a b : Blob)
    → IsMemcmp memcmp
    → sign (blob_cmp memcmp m a b)
      ≡ lexicographic (bytes_at m a.data_ptr a.size) (bytes_at m b.data_ptr b.size)
unfolding blob_cmp
blob_cmp-lexicographic memcmp m a b law =
    rw
      (
        lexicographic-min m a.data_ptr b.data_ptr a.size b.size,
        ← law m a.data_ptr b.data_ptr (min a.size b.size),
      )
      (ground arith)
