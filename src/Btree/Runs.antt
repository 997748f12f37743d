-- ===== src/Btree/Runs.antt =====
-- Runs of the tree on the inputs of the source's tests.
use wednesday.Base.{ℕ, zero, suc, ◌+◌, ◌≡◌, refl, true, Memory, List, bytes_at}
use wednesday.Base.Outcome.{Outcome, ok, trapped, Result, success, failure, ◌>>=◌, enoent}
use wednesday.Blob.{Blob}
use wednesday.Pager.Open.{new_pager}
use wednesday.Pager.Runs.{granted}
use wednesday.Btree.Layout.{flag_table}
use wednesday.Btree.World.{World, Btree}
use wednesday.Btree.Open.{btree_create}
use wednesday.Btree.Table.{btree_table_insert, btree_table_lookup}
use wednesday.Base.{bytes_at}
use wednesday.Base.Words.{load16, store16, load32, store32}
use wednesday.Varint.{
  varint_put, varint_put_len, put_loop, put_wide, wide_loop, clear_last, put_len_loop, varint_get,
  get_loop, varint_get_len, get_len_loop,
}
use wednesday.Blob.{blob_put, blob_put_len, blob_get, blob_get_len}
use wednesday.Btree.Layout.{
  key_compare, int_of, page_is_leaf, page_is_index_uuid, page_flags_package, page_get_space,
  payload_get_key_len, payload_get_key_ptr, payload_get_key, payload_get_value_ptr,
  payload_get_value_len, payload_get_len, payload_put_len,
}
use wednesday.Btree.Page.{
  find_loop, page_find_pointer, compact_loop, page_compact, page_insert_payload, page_insert_leaf,
  page_insert_inner, split_loop, fill_next, page_split,
}
use wednesday.Btree.World.{fix, next_page, unfix, errdefer_unfix, page_bytes, set_bytes}
use wednesday.Btree.Insert.{
  child_at, split_with, choose_half, make_room, find_child, insert_into_leaf, btree_insert_walk,
  new_root, split_root, insert_below, btree_insert,
}
use wednesday.Btree.Lookup.{descend, lookup_leaf, btree_lookup}
use wednesday.Btree.Open.{btree_open, empty_root, btree_create}
use wednesday.Btree.Table.{btree_table_insert, btree_table_lookup}
use wednesday.Pager.Open.{new_pager, pager_capacity, defer_runs}
use wednesday.Pager.Fix.{pager_fix, pager_next, fast_pass, slow_pass, finish_pass, reserve}
use wednesday.Pager.Lookup.{
  pager_lookup, pager_unfix, entry_acquire, entry_release, header_acquire, unfix_exclusive,
  unfix_shared,
}
use wednesday.Pager.Create.{pager_create, create_loop, fill_header}
use wednesday.Pager.Evict.{
  pager_evict, evict_loop, evict_round, try_evict, pager_directory_find_entry,
}
use wednesday.Pager.Hash.{pager_hash, mix}
use wednesday.Pager.Directory.{
  entry_directory_lookup, lookup_buckets, pager_directory_insert, insert_bucket,
  pager_directory_remove, remove_bucket,
}
use wednesday.Latch.{latch_available}
use wednesday.Latch.Alone.{
  latch_acquire, latch_acquire_read, latch_acquire_write, latch_release_read, latch_release_write,
}
use wednesday.Base.{below}
use native.Mathlib.Decide.{dec_lt}

-- Every stack array and fresh page holds zeros at first.
abbrev start : World
start = record {
  pager = new_pager 64 8;
  error_code = 0;
  answers = λ _. granted;
  calls = 0;
  buffer = λ _. 0;
}

-- The caller's memory: the value "hello world" as its length and its bytes at 100.
abbrev hello : Memory
hello x = x

abbrev value : Blob
value = record { size = 11; data_ptr = 100 }

-- Insert `n` keys from 0 on.
insert_up : ℕ → ℕ → World → Btree → Outcome (World × Btree)
insert_up zero key w tree = ok (w, tree)
insert_up (suc n) key w tree = do
  (r, tree', w') ← btree_table_insert 5 w tree hello 1000 2000 key value
  elim r [ success _ ↦ insert_up n (key + 1) w' tree' | failure code ↦ trapped ]

-- The bytes found for a key after `n` insertions.
found_after : ℕ → ℕ → Outcome (Result (List ℕ))
found_after n key = do
  (c, w) ← btree_create start true flag_table
  elim c [
    | failure code ↦ trapped
    | success (tree, live) ↦ do
      (w', tree') ← insert_up n 0 w tree
      (r, w'') ← btree_table_lookup 5 w' tree' hello 1000 key
      elim r [
        | failure code ↦ ok (failure code)
        | success (m, blob) ↦ ok (success (bytes_at m blob.data_ptr blob.size))
      ]
  ]

-- After four insertions, of which the last splits the root, a key is found with its value, and a key
-- that was not inserted is not found.
found_after_split :
    (found_after 4 2 ≡ ok (success (bytes_at hello 100 11)))
    × (found_after 4 7 ≡ ok (failure enoent))
unfolding bytes_at load16 store16 load32 store32 varint_put varint_put_len put_loop put_wide
    wide_loop clear_last put_len_loop varint_get get_loop varint_get_len get_len_loop blob_put
    blob_put_len blob_get blob_get_len key_compare int_of page_is_leaf page_is_index_uuid
    page_flags_package page_get_space payload_get_key_len payload_get_key_ptr payload_get_key
    payload_get_value_ptr payload_get_value_len payload_get_len payload_put_len find_loop
    page_find_pointer compact_loop page_compact page_insert_payload page_insert_leaf
    page_insert_inner split_loop fill_next page_split fix next_page unfix errdefer_unfix page_bytes
    set_bytes child_at split_with choose_half make_room find_child insert_into_leaf
    btree_insert_walk new_root split_root insert_below btree_insert descend lookup_leaf btree_lookup
    btree_open empty_root btree_create btree_table_insert btree_table_lookup new_pager
    pager_capacity defer_runs pager_fix pager_next fast_pass slow_pass finish_pass reserve
    pager_lookup pager_unfix entry_acquire entry_release header_acquire unfix_exclusive unfix_shared
    pager_create create_loop fill_header pager_evict evict_loop evict_round try_evict
    pager_directory_find_entry pager_hash mix entry_directory_lookup lookup_buckets
    pager_directory_insert insert_bucket pager_directory_remove remove_bucket latch_available
    latch_acquire latch_acquire_read latch_acquire_write latch_release_read latch_release_write
    found_after insert_up below dec_lt
found_after_split = (refl, refl)
