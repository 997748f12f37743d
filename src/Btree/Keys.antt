-- ===== src/Btree/Keys.antt =====
-- The order that `key_compare` gives two keys.
use wednesday.Base.{ℕ, ◌+◌, ◌-◌, ◌*◌, ◌%◌, ◌^◌, ◌<◌, ◌≡◌, ◌↔◌, arith, true, Memory}
use wednesday.Base.Int.{pos, is_zero, is_negative}
use wednesday.Varint.{varint_get}
use wednesday.Btree.Layout.{int_of, key_compare}

-- Of two keys that are less than 2 ^ 31 apart, `key_compare` tells which is less, and whether they
-- are equal.
pub key_compare_near :
    (m n : Memory) (a b : ℕ)
    → (varint_get m a).0 < (varint_get n b).0 + 2 ^ 31
    → (varint_get n b).0 < (varint_get m a).0 + 2 ^ 31
    → ((is_negative (key_compare m a n b) ≡ true) ↔ ((varint_get m a).0 < (varint_get n b).0))
      × ((is_zero (key_compare m a n b) ≡ true) ↔ ((varint_get m a).0 ≡ (varint_get n b).0))
unfolding key_compare
key_compare_near m n a b h k = ground arith

-- `key_compare` drops every multiple of 2 ^ 32 of the difference of two keys: a key that exceeds
-- another by such a multiple and `d` less than 2 ^ 31 compares as one that exceeds it by `d`. With no
-- `d`, the two compare as equal.
pub key_compare_far :
    (m n : Memory) (a b times d : ℕ)
    → (varint_get m a).0 ≡ (varint_get n b).0 + times * 2 ^ 32 + d
    → d < 2 ^ 31
    → key_compare m a n b ≡ pos d
unfolding key_compare int_of
key_compare_far m n a b times d e small = rw remainder (ground arith)
  where
    remainder : ((varint_get m a).0 + 2 ^ 64 - (varint_get n b).0) % 2 ^ 32 ≡ d
    remainder = omega arith
