-- ===== src/Btree/Compact/Valid.antt =====
-- Well-formedness of a compacted page.
use wednesday.Base.{ℕ, ◌<◌, ◌≡◌, arith, Memory}
use wednesday.Btree.Layout.{cell_count, flags_of, page_get_payload}
use wednesday.Btree.Local.{payload_len-Copies}
use wednesday.Btree.Node.{IsNode, len_at}
use wednesday.Btree.Compact.{IsCompactable}
use wednesday.Btree.Compact.Whole.{Compacted}

module _ (P Q : Memory) (page_size : ℕ) (c : IsCompactable P page_size)
    (k : Compacted P Q page_size) where
  pub len-Compacted : (j : ℕ) → j < cell_count P → len_at Q j ≡ len_at P j
  len-Compacted j lt =
      let (_, _, same) = k.payloads j lt in
      rw k.flags_same
        (payload_len-Copies (flags_of P) P Q (page_get_payload P j) (page_get_payload Q j) same)

  pub Compacted-IsNode : IsNode Q page_size
  Compacted-IsNode = record {
    small = c.small;
    ends = omega (arith, k.packed);
    room = omega (arith, k.packed, c.room, k.count_same);
    word = rw k.free (omega arith);
    payloads = λ j lt.
        let below : j < cell_count P = omega (arith, k.count_same) in
        let (low, high, _) = k.payloads j below in (low, omega (arith, len-Compacted j below));
  }
