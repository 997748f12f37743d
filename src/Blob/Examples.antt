-- ===== src/Blob/Examples.antt =====
-- Runs of the blob functions, and their theorems at concrete inputs.
use wednesday.Base.{ℕ, ◌≡◌, refl, arith, Memory, bytes_at, inr}
use wednesday.Base.Int.{ℤ, pos, negsuc}
use wednesday.Blob.{Blob, blob_cmp, blob_put}
use wednesday.Blob.Order.{sign, lexicographic, IsMemcmp, blob_cmp-lexicographic}
use wednesday.Blob.RoundTrip.{Found, blob_put_len-le, blob_get-blob_put}
use Prim.Native.Nat.{Ordering}

-- Address `a` holds `a`.
abbrev ramp : Memory
ramp a = a

-- A `memcmp` that answers -1, 0 or 1.
abbrev any_memcmp : Memory → ℕ → ℕ → ℕ → ℤ
any_memcmp m a b n = elim (lexicographic (bytes_at m a n) (bytes_at m b n)) [
  | Ordering.lt ↦ negsuc 0
  | Ordering.eq ↦ pos 0
  | Ordering.gt ↦ pos 1
]

any_memcmp-IsMemcmp : IsMemcmp any_memcmp
any_memcmp-IsMemcmp m a b n = by_order (lexicographic (bytes_at m a n) (bytes_at m b n))
  where
    by_order :
        (o : Ordering)
        → sign (elim o [ Ordering.lt ↦ negsuc 0 | Ordering.eq ↦ pos 0 | Ordering.gt ↦ pos 1 ]) ≡ o
    by_order Ordering.lt = refl
    by_order Ordering.eq = refl
    by_order Ordering.gt = refl

abbrev three : Blob
three = record { size = 3; data_ptr = 20 }

abbrev two : Blob
two = record { size = 2; data_ptr = 21 }

blob_cmp-lexicographic_example :
    sign (blob_cmp any_memcmp ramp three two)
    ≡ lexicographic (bytes_at ramp 20 3) (bytes_at ramp 21 2)
blob_cmp-lexicographic_example =
    blob_cmp-lexicographic any_memcmp ramp three two any_memcmp-IsMemcmp

blob_get-blob_put_example : Found ramp 5 three (blob_put ramp 5 three)
blob_get-blob_put_example =
    blob_get-blob_put ramp 5 three (omega arith)
      (inr (omega (arith, blob_put_len-le three (omega arith))))
