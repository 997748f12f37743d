-- ===== src/Btree/Compact/Free.antt =====
-- What `page_compact` sets `free_space` to.
use wednesday.Base.{ℕ, ◌*◌, ◌≡◌, ◌↔◌, arith, Memory}
use wednesday.Btree.Layout.{data_start, free_space, page_get_space}
use wednesday.Btree.Page.{page_compact}
use wednesday.Btree.Compact.{IsCompactable}
use wednesday.Btree.Compact.Whole.{Compacted, page_compact-Compacted}

Compacted-free :
    (P Q : Memory) (page_size : ℕ)
    → IsCompactable P page_size
    → Compacted P Q page_size
    → (free_space Q ≡ page_get_space Q) ↔ (page_size ≡ 2 * data_start Q)
unfolding page_get_space
Compacted-free P Q page_size c k =
    let free = k.free in
    let packed = k.packed in
    let count = k.count_same in
    let small = c.small in let room = c.room in (λ e. omega (arith), λ e. omega (arith))

-- After `page_compact` of a page whose payloads fit between its cells and its end, `free_space` is the
-- room between cells and payloads only if the payloads take exactly half of the page.
pub page_compact_free :
    (buffer page : Memory) (page_size : ℕ)
    → IsCompactable page page_size
    → (free_space (page_compact buffer page page_size)
        ≡ page_get_space (page_compact buffer page page_size))
      ↔ (page_size ≡ 2 * data_start (page_compact buffer page page_size))
page_compact_free buffer page page_size c =
    Compacted-free page _ page_size c (page_compact-Compacted buffer page page_size c)
