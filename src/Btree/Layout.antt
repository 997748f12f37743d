-- ===== src/Btree/Layout.antt =====
-- How a node lies in its page: `header_t`, the array of cells, and the payloads that the cells point
-- to. An offset in the page stands for a pointer into it. Numbers lie lowest byte first.
use wednesday.Base.{
  ℕ, ◌+◌, ◌-◌, ◌*◌, ◌%◌, ◌^◌, Bool, Memory, bit_and, bit_or, ◌==◌, not, ltb, if◌then◌else◌,
}
use wednesday.Base.Int.{ℤ, pos, negsuc}
use wednesday.Base.Outcome.{Outcome, ok, ◌>>◌, assert}
use wednesday.Base.Words.{load16, load32}
use wednesday.Varint.{varint_get, varint_get_len}
use wednesday.Blob.{Blob, blob_get_len}

-- `(int)(a_value - b_value)`: the difference of two `uint64_t`, cut to a signed word of 32 bits.
unfoldable pub int_of : ℕ → ℤ
int_of d = let w = d % 2 ^ 32 in if ltb w (2 ^ 31) then pos w else negsuc (2 ^ 32 - 1 - w)

unfoldable pub key_compare : Memory → ℕ → Memory → ℕ → ℤ
unfolding int_of
key_compare m a n b = int_of ((varint_get m a).0 + 2 ^ 64 - (varint_get n b).0)

-- PAGE_FLAG_LEAF, PAGE_FLAG_TABLE and PAGE_FLAG_INDEX_UUID
abbrev pub flag_leaf : ℕ
flag_leaf = 1

abbrev pub flag_table : ℕ
flag_table = 2

abbrev pub flag_index_uuid : ℕ
flag_index_uuid = 4

unfoldable pub page_is_leaf : ℕ → Bool
page_is_leaf flags = not (bit_and flags flag_leaf == 0)

unfoldable pub page_is_index_uuid : ℕ → Bool
page_is_index_uuid flags = not (bit_and flags flag_index_uuid == 0)

unfoldable pub page_flags_package : Bool → ℕ → ℕ
page_flags_package leaf type = bit_or (if leaf then flag_leaf else 0) type

-- sizeof(header_t), sizeof(page_id_t) and sizeof(uuid_t)
abbrev pub header_size : ℕ
header_size = 12

abbrev pub page_id_size : ℕ
page_id_size = 4

abbrev pub uuid_size : ℕ
uuid_size = 16

-- The offsets of the fields of `header_t`: four of 16 bits, and `right` of 32.
abbrev pub at_cell_count : ℕ
at_cell_count = 0

abbrev pub at_data_start : ℕ
at_data_start = 2

abbrev pub at_free_space : ℕ
at_free_space = 4

abbrev pub at_flags : ℕ
at_flags = 6

abbrev pub at_right : ℕ
at_right = 8

abbrev pub cell_count : Memory → ℕ
cell_count page = load16 page at_cell_count

abbrev pub data_start : Memory → ℕ
data_start page = load16 page at_data_start

abbrev pub free_space : Memory → ℕ
free_space page = load16 page at_free_space

abbrev pub flags_of : Memory → ℕ
flags_of page = load16 page at_flags

abbrev pub right_of : Memory → ℕ
right_of page = load32 page at_right

-- Where the cell of an index lies.
abbrev pub cell_at : ℕ → ℕ
cell_at index = header_size + 2 * index

-- `page_get_payload`, as an offset in the page.
abbrev pub page_get_payload : Memory → ℕ → ℕ
page_get_payload page index = load16 page (cell_at index)

-- `data_start - sizeof(header_t) - sizeof(uint16_t) * cell_count`, cut to 16 bits.
unfoldable pub page_get_space : Memory → ℕ
page_get_space page = (data_start page + 2 ^ 64 - header_size - 2 * cell_count page) % 2 ^ 16

abbrev pub payload_get_page_id : Memory → ℕ → ℕ
payload_get_page_id m payload = load32 m payload

unfoldable pub payload_get_key_len : ℕ → Memory → ℕ → ℕ
payload_get_key_len flags m key =
    if page_is_index_uuid flags then uuid_size else varint_get_len m key

unfoldable pub payload_get_key_ptr : ℕ → ℕ → ℕ
payload_get_key_ptr flags payload = if page_is_leaf flags then payload else payload + page_id_size

unfoldable pub payload_get_key : ℕ → Memory → ℕ → Blob
unfolding payload_get_key_len payload_get_key_ptr
payload_get_key flags m payload =
    let key = payload_get_key_ptr flags payload in
    record { size = payload_get_key_len flags m key; data_ptr = key }

unfoldable pub payload_get_value_ptr : ℕ → Memory → ℕ → Outcome ℕ
payload_get_value_ptr flags m payload = do
  assert (page_is_leaf flags)
  ok (if page_is_index_uuid flags then payload + uuid_size else payload + varint_get_len m payload)

-- `payload_get_value_len` behind its assert, which its one call has just tested.
unfoldable pub payload_get_value_len : ℕ → Memory → ℕ → ℕ
payload_get_value_len flags m value =
    if page_is_index_uuid flags then page_id_size else blob_get_len m value % 2 ^ 16

unfoldable pub payload_get_len : ℕ → Memory → ℕ → ℕ
unfolding payload_get_key_len payload_get_value_len
payload_get_len flags m payload =
    if page_is_leaf flags
    then (let key_len = payload_get_key_len flags m payload in
        (key_len + payload_get_value_len flags m (payload + key_len)) % 2 ^ 16)
    else (payload_get_key_len flags m (payload + page_id_size) + page_id_size) % 2 ^ 16

unfoldable pub payload_put_len : ℕ → Blob → Blob → ℕ
payload_put_len flags key value =
    if page_is_leaf flags
    then (key.size % 2 ^ 16 + value.size % 2 ^ 16) % 2 ^ 16
    else (key.size % 2 ^ 16 + page_id_size) % 2 ^ 16
