-- ===== src/Btree/Page.antt =====
-- The operations on one node: search, compaction, insertion and split.
use wednesday.Base.{
  ℕ, zero, suc, ◌+◌, ◌-◌, ◌*◌, ◌/◌, ◌%◌, ◌^◌, Bool, true, false, Memory, memcpy, ◌==◌, ltb, leb,
  if◌then◌else◌,
}
use wednesday.Base.Int.{is_zero, is_negative}
use wednesday.Base.Outcome.{Outcome, ok, Result, success, failure, ◌>>=◌, ◌>>◌, assert, eexist}
use wednesday.Base.Words.{store16, store32}
use wednesday.Varint.{u64_mod}
use wednesday.Blob.{Blob}
use wednesday.Btree.Layout.{
  key_compare, header_size, page_id_size, at_cell_count, at_data_start, at_free_space, at_flags,
  at_right, cell_count, data_start, free_space, flags_of, right_of, cell_at, page_get_payload,
  page_get_space, payload_get_key_ptr, payload_get_len,
}

-- The `for` of `page_find_pointer`, with `cell_count - i` rounds left. The key lies at `key` of `src`.
unfoldable pub find_loop : ℕ → Memory → Memory → ℕ → Bool × ℕ
find_loop zero page src key = (false, cell_count page)
find_loop (suc left) page src key =
    let i = cell_count page - suc left in
    let rest = find_loop left page src key in
    let ret =
      key_compare page (payload_get_key_ptr (flags_of page) (page_get_payload page i)) src key in
    if is_zero ret then (true, i) else if is_negative ret then rest else (false, i)

unfoldable pub page_find_pointer : Memory → Memory → ℕ → Bool × ℕ
unfolding find_loop
page_find_pointer page src key = find_loop (cell_count page) page src key

-- The `for` of `page_compact`, with `cell_count - i` rounds left: the page, the buffer and
-- `data_start`.
unfoldable pub compact_loop : ℕ → Memory → Memory → ℕ → Memory × Memory × ℕ
compact_loop zero page buffer start = (page, buffer, start)
compact_loop (suc left) page buffer start =
    let i = cell_count page - suc left in
    let payload = page_get_payload page i in
    let size = payload_get_len (flags_of page) page payload in
    let start' = (start + 2 ^ 16 - size) % 2 ^ 16 in
    compact_loop left (store16 page (cell_at i) start') (memcpy buffer start' page payload size)
      start'

-- `buffer` is what the array of that name holds before it is written.
unfoldable pub page_compact : Memory → Memory → ℕ → Memory
unfolding compact_loop
page_compact buffer page page_size =
    let (page₁, buffer₁, start) = compact_loop (cell_count page) page buffer page_size in
    let page₂ = memcpy page₁ start buffer₁ start ((page_size + 2 ^ 64 - start) % u64_mod) in
    let page₃ = store16 page₂ at_data_start start in
    store16 page₃ at_free_space
      ((page_size + 2 ^ 64 - start - header_size - 2 * cell_count page₃) % 2 ^ 16)

-- The page, and where the new payload starts in it.
unfoldable pub page_insert_payload : Memory → Memory → ℕ → ℕ → ℕ → Outcome (Memory × ℕ)
page_insert_payload buffer page page_size index payload_size = do
  let total_size = (payload_size + 2) % u64_mod
  assert (leb total_size (free_space page))
  let page₁ =
      (if ltb (page_get_space page) total_size then page_compact buffer page page_size else page)
  let page₂ =
      (if index == cell_count page₁
        then page₁
        else memcpy page₁ (cell_at (index + 1)) page₁ (cell_at index)
            ((cell_count page₁ + 2 ^ 64 - index) * 2 % u64_mod))
  let start = (data_start page₂ + 2 ^ 64 - payload_size) % 2 ^ 16
  let page₃ = store16 (store16 page₂ (cell_at index) start) at_data_start start
  let page₄ = store16 page₃ at_free_space ((free_space page₃ + 2 ^ 64 - total_size) % 2 ^ 16)
  ok (store16 page₄ at_cell_count ((cell_count page₄ + 1) % 2 ^ 16), start)

-- Key and value lie in `src`.
unfoldable pub page_insert_leaf :
    Memory → Memory → ℕ → Memory → Blob → Blob → Outcome (Result (Unit {0}) × Memory)
unfolding page_insert_payload
page_insert_leaf buffer page page_size src key value =
    let (found, index) = page_find_pointer page src key.data_ptr in
    elim found [
      | true ↦ ok (failure eexist, page)
      | false ↦ do
        (page', ptr) ←
            page_insert_payload buffer page page_size index ((key.size + value.size) % u64_mod)
        let page'' = memcpy page' ptr src key.data_ptr key.size
        ok (success tt, memcpy page'' (ptr + key.size) src value.data_ptr value.size)
    ]

-- The key lies in `src`.
unfoldable pub page_insert_inner : Memory → Memory → ℕ → ℕ → Memory → Blob → ℕ → Outcome Memory
unfolding page_insert_payload
page_insert_inner buffer page page_size index src key page_id = elim (index == cell_count page) [
  | true ↦ do
    (page₁, ptr) ←
        page_insert_payload buffer page page_size index ((key.size + page_id_size) % u64_mod)
    let page₂ = memcpy page₁ ptr page₁ at_right page_id_size
    let page₃ = memcpy page₂ (ptr + page_id_size) src key.data_ptr key.size
    ok (store32 page₃ at_right page_id)
  | false ↦ do
    let next = page_get_payload page index
    (page₁, ptr) ←
        page_insert_payload buffer page page_size index ((key.size + page_id_size) % u64_mod)
    let page₂ = memcpy page₁ ptr page₁ next page_id_size
    let page₃ = memcpy page₂ (ptr + page_id_size) src key.data_ptr key.size
    ok (store32 page₃ next page_id)
]

-- The `for` of `page_split`, with `cell_count - i` rounds left: the next page and its
-- `next_data_start`.
unfoldable pub split_loop : ℕ → Memory → ℕ → Memory → ℕ → Memory × ℕ
split_loop zero page split next start = (next, start)
split_loop (suc left) page split next start =
    let i = cell_count page - suc left in
    let payload = page_get_payload page i in
    let size = payload_get_len (flags_of page) page payload in
    let start' = (start + 2 ^ 16 - size) % 2 ^ 16 in
    split_loop left page split
      (store16 (memcpy next start' page payload size) (cell_at (i - split)) start') start'

-- The headers of both pages after the loop of `page_split`.
unfoldable pub fill_next : Memory → ℕ → Memory → ℕ → Memory
fill_next page split next start =
    let next₁ = store16 next at_flags (flags_of page) in
    let next₂ = store16 next₁ at_cell_count ((cell_count page + 2 ^ 16 - split) % 2 ^ 16) in
    let next₃ = store16 next₂ at_data_start start in
    let next₄ =
      store16 next₃ at_free_space
        ((start + 2 ^ 64 - header_size - 2 * cell_count next₃) % 2 ^ 16) in
    store32 next₄ at_right (right_of page)

-- The page, the next page, whose id is `next_id`, and the index at which they were split.
unfoldable pub page_split : Memory → Memory → Memory → ℕ → ℕ → Memory × Memory × ℕ
unfolding split_loop fill_next
page_split buffer page next next_id page_size =
    let split = cell_count page / 2 in
    let (next₁, start) = split_loop (cell_count page - split) page split next page_size in
    let page₁ = store32 (store16 page at_cell_count split) at_right next_id in
    (page_compact buffer page₁ page_size, fill_next page split next₁ start, split)
