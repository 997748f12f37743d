-- ===== src/Btree/Examples/Search.antt =====
-- Lookups and insertions in a concrete tree of three pages.
use wednesday.Base.{
  ℕ, zero, suc, ◌-◌, ◌≤◌, ◌<◌, ◌≡◌, ◌≢◌, ◌^◌, refl, arith, true, Memory, memcpy, [], ◌∷◌,
}
use wednesday.Base.Int.{pos}
use wednesday.Base.Outcome.{ok, success, failure, enoent, trapped}
use wednesday.Base.Words.{load16, load32}
use wednesday.Varint.{varint_get, get_loop}
use wednesday.Pager.Types.{Header, Pager, no_entry}
use wednesday.Pager.Directory.{mapping_to, entry_directory_lookup}
use wednesday.Pager.Hash.{pager_hash, mix}
use wednesday.Pager.Lookup.{set_header, set_entry}
use wednesday.Pager.Open.{new_pager, pager_capacity}
use wednesday.Pager.Runs.{granted}
use wednesday.Btree.Layout.{
  cell_count, flags_of, page_is_leaf, payload_get_key_ptr, key_compare, int_of, page_is_index_uuid,
  payload_put_len,
}
use wednesday.Btree.Insert.{child_at, btree_insert}
use wednesday.Btree.World.{World}
use wednesday.Btree.Lookup.{btree_lookup}
use wednesday.Btree.Leaf.Sorted.{key_value, IsSorted}
use wednesday.Btree.Search.{search}
use wednesday.Btree.Search.Pool.{Store, Pool, idle, page_of}
use wednesday.Btree.Search.Steps.{none_held, Ends, IsClosed}
use wednesday.Btree.Search.Ordered.{
  IsOrdered, low_of, high_of, IsSearchTree, leaf, inner, Entry, here, below,
}
use wednesday.Btree.Search.Correct.{value_place, IsAbsent}
use wednesday.Btree.Search.Refined.{btree_lookup-search, btree_lookup-Entry, btree_lookup-IsAbsent}
use wednesday.Btree.Walk.Others.{btree_lookup-btree_insert_other}
use wednesday.Btree.Walk.Refused.{Meets, at_leaf, beyond, btree_insert-Meets}
use wednesday.Btree.Examples.{value, from_list, keys, key, tree}
use wednesday.Btree.Examples.Nodes.{entry, four, hi, leaf-IsNode, entry-IsEntry, four_absent}
use wednesday.Varint.Local.{Copies}
use wednesday.Btree.Page.{page_find_pointer, find_loop}
use wednesday.Btree.Walk.{Route, arrives, passes}
use wednesday.Btree.Walk.Grown.{Extended}
use wednesday.Btree.Walk.Whole.{btree_lookup-btree_insert_deep}
use wednesday.Btree.Walk.Tree.{with_page, btree_insert-Extended}

-- Page 1: the keys up to 5 are in page 2, and those behind it in page 3.
root_node : Memory
unfolding from_list
root_node =
    memcpy (from_list (1 ∷ 0 ∷ 59 ∷ 0 ∷ 45 ∷ 0 ∷ 2 ∷ 0 ∷ 3 ∷ 0 ∷ 0 ∷ 0 ∷ 59 ∷ 0 ∷ [])) 59
      (from_list (2 ∷ 0 ∷ 0 ∷ 0 ∷ 5 ∷ [])) 0 5

-- Page 3: the key 7.
last_leaf : Memory
unfolding from_list
last_leaf =
    memcpy (from_list (1 ∷ 0 ∷ 61 ∷ 0 ∷ 47 ∷ 0 ∷ 3 ∷ 0 ∷ 0 ∷ 0 ∷ 0 ∷ 0 ∷ 61 ∷ 0 ∷ [])) 61
      (from_list (7 ∷ 1 ∷ 99 ∷ [])) 0 3

abbrev first_leaf : Memory
first_leaf = wednesday.Btree.Examples.leaf

abbrev nodes : ℕ → Memory
nodes zero = from_list []
nodes (suc zero) = root_node
nodes (suc (suc zero)) = first_leaf
nodes (suc (suc (suc _))) = last_leaf

abbrev three : Store
three = record {
  Holds = λ id. (1 ≤ id) × (id ≤ 3);
  frame = λ id. id - 1;
  pages = nodes;
  apart = λ i j h k ne. omega arith;
}

abbrev idle_page : ℕ → Header
idle_page id = record { id = id; latch = pos 0; flags = 2; contents = nodes id }

abbrev mapped : ℕ → Pager → Pager
mapped id p =
    set_entry (set_header p (id - 1) (idle_page id)) (pager_hash 7 id)
      (record no_entry { first = mapping_to id (id - 1) })

with_tree : Pager
unfolding pager_hash mix
with_tree = mapped 1 (mapped 2 (mapped 3 (new_pager 64 8)))

abbrev around : World
around = record {
  pager = with_tree;
  error_code = 0;
  answers = λ _. granted;
  calls = 0;
  buffer = λ _. 0;
}

three-Pool : Pool three with_tree none_held
unfolding with_tree pager_hash mix new_pager pager_capacity entry_directory_lookup
three-Pool zero h = absurd (omega arith)
three-Pool (suc zero) h = record {
  real = refl;
  known = refl;
  quiet = refl;
  header = idle_page 1;
  there = refl;
  same = refl;
  status = idle refl (omega arith);
}
three-Pool (suc (suc zero)) h = record {
  real = refl;
  known = refl;
  quiet = refl;
  header = idle_page 2;
  there = refl;
  same = refl;
  status = idle refl (omega arith);
}
three-Pool (suc (suc (suc zero))) h = record {
  real = refl;
  known = refl;
  quiet = refl;
  header = idle_page 3;
  there = refl;
  same = refl;
  status = idle refl (omega arith);
}
three-Pool (suc (suc (suc (suc n)))) h = absurd (omega arith)

three-IsClosed : IsClosed three
unfolding root_node last_leaf wednesday.Btree.Examples.leaf from_list load16 load32 page_is_leaf
    child_at
three-IsClosed zero index h inner_page fits real = absurd (omega arith)
three-IsClosed (suc zero) zero h inner_page fits real = (omega arith, omega arith)
three-IsClosed (suc zero) (suc zero) h inner_page fits real = (omega arith, omega arith)
three-IsClosed (suc zero) (suc (suc j)) h inner_page fits real = absurd (omega arith)
three-IsClosed (suc (suc zero)) index h inner_page fits real = cc
three-IsClosed (suc (suc (suc zero))) index h inner_page fits real = cc
three-IsClosed (suc (suc (suc (suc n)))) index h inner_page fits real = absurd (omega arith)

btree_lookup-search_example :
    Ends three (search 2 nodes 1 keys key) (btree_lookup 2 around tree keys key)
btree_lookup-search_example =
    btree_lookup-search three 2 around tree keys key three-IsClosed (omega arith, omega arith)
      three-Pool

root_node-IsOrdered : IsOrdered root_node 0 8
unfolding root_node from_list load16 page_is_leaf payload_get_key_ptr key_value varint_get get_loop
root_node-IsOrdered = record { sorted = λ j k lt fits. absurd (omega arith); bounds = bounds }
  where
    bounds : (j : ℕ) → j < 1 → (0 ≤ key_value root_node j) × (key_value root_node j < 8)
    bounds zero lt = (omega arith, omega arith)
    bounds (suc j) lt = absurd (omega arith)

first_leaf-IsOrdered : IsOrdered first_leaf 0 6
unfolding wednesday.Btree.Examples.leaf from_list load16 page_is_leaf payload_get_key_ptr key_value
    varint_get get_loop
first_leaf-IsOrdered = record { sorted = sorted; bounds = bounds }
  where
    sorted : IsSorted first_leaf
    sorted zero (suc zero) lt fits = omega arith
    sorted zero zero lt fits = absurd (omega arith)
    sorted zero (suc (suc k)) lt fits = absurd (omega arith)
    sorted (suc j) k lt fits = absurd (omega arith)

    bounds : (j : ℕ) → j < 2 → (0 ≤ key_value first_leaf j) × (key_value first_leaf j < 6)
    bounds zero lt = (omega arith, omega arith)
    bounds (suc zero) lt = (omega arith, omega arith)
    bounds (suc (suc j)) lt = absurd (omega arith)

last_leaf-IsOrdered : IsOrdered last_leaf 6 8
unfolding last_leaf from_list load16 page_is_leaf payload_get_key_ptr key_value varint_get get_loop
last_leaf-IsOrdered = record { sorted = λ j k lt fits. absurd (omega arith); bounds = bounds }
  where
    bounds : (j : ℕ) → j < 1 → (6 ≤ key_value last_leaf j) × (key_value last_leaf j < 8)
    bounds zero lt = (omega arith, omega arith)
    bounds (suc j) lt = absurd (omega arith)

nodes-IsSearchTree : IsSearchTree nodes 2 1 0 8
unfolding root_node last_leaf wednesday.Btree.Examples.leaf from_list load16 load32 page_is_leaf
    child_at payload_get_key_ptr key_value varint_get get_loop
nodes-IsSearchTree = inner refl root_node-IsOrdered real children
  where
    real : (j : ℕ) → j ≤ 1 → child_at root_node j ≢ 0
    real zero le = omega arith
    real (suc zero) le = omega arith
    real (suc (suc j)) le = absurd (omega arith)

    children :
        (j : ℕ)
        → j ≤ 1
        → IsSearchTree nodes 1 (child_at root_node j) (low_of root_node 0 j) (high_of root_node 8 j)
    children zero le = leaf refl first_leaf-IsOrdered
    children (suc zero) le = leaf refl last_leaf-IsOrdered
    children (suc (suc j)) le = absurd (omega arith)

-- The key 5 is in cell 1 of page 2.
five-Entry : Entry nodes 2 1 1
unfolding root_node wednesday.Btree.Examples.leaf from_list load16 load32 page_is_leaf child_at
five-Entry = below 0 refl (omega arith) (here refl (omega arith))

btree_lookup-Entry_example :
    (w' : World) × (btree_lookup 2 around tree keys key
      ≡ ok (success (page_of three 2, value_place (nodes 2) 1), w'))
    × Pool three w'.pager none_held
unfolding keys wednesday.Btree.Examples.leaf from_list load16 page_is_leaf payload_get_key_ptr
    key_value varint_get get_loop
btree_lookup-Entry_example =
    btree_lookup-Entry three 2 0 8 around tree keys key three-IsClosed (omega arith, omega arith)
      three-Pool nodes-IsSearchTree (omega arith) (omega arith) 2 1 five-Entry refl

four_small : (varint_get entry four.data_ptr).0 < 2 ^ 31
unfolding entry from_list varint_get get_loop
four_small = omega arith

not_in_first : (i : ℕ) → i < 2 → key_value first_leaf i ≢ 4
unfolding wednesday.Btree.Examples.leaf from_list load16 page_is_leaf payload_get_key_ptr key_value
    varint_get get_loop
not_in_first zero fits same = absurd (omega arith)
not_in_first (suc zero) fits same = absurd (omega arith)
not_in_first (suc (suc i)) fits same = absurd (omega arith)

not_in_last : (i : ℕ) → i < 1 → key_value last_leaf i ≢ 4
unfolding last_leaf from_list load16 page_is_leaf payload_get_key_ptr key_value varint_get get_loop
not_in_last zero fits same = absurd (omega arith)
not_in_last (suc i) fits same = absurd (omega arith)

-- The entries of a leaf are its cells.
Entry-leaf :
    (l i id : ℕ)
    → page_is_leaf (flags_of (nodes id)) ≡ true
    → Entry nodes l i id
    → (l ≡ id) × (i < cell_count (nodes id))
Entry-leaf l i id is_leaf (here same fits) = (refl, fits)
Entry-leaf l i id is_leaf (below j not_leaf fits at) = absurd (cc)

-- The key 4 is nowhere.
four-IsAbsent : IsAbsent nodes entry four four_small 1
unfolding root_node last_leaf wednesday.Btree.Examples.leaf entry from_list load16 load32
    page_is_leaf child_at varint_get get_loop
four-IsAbsent l i (here is_leaf fits) same = cc
four-IsAbsent l i (below zero not_leaf fits at) same =
    let (there, small) = Entry-leaf l i 2 refl at in not_in_first i small (rw there at same)
four-IsAbsent l i (below (suc zero) not_leaf fits at) same =
    let (there, small) = Entry-leaf l i 3 refl at in not_in_last i small (rw there at same)
four-IsAbsent l i (below (suc (suc j)) not_leaf fits at) same = absurd (omega arith)

btree_lookup-IsAbsent_example :
    (w' : World) × (btree_lookup 2 around tree entry four ≡ ok (failure enoent, w'))
    × Pool three w'.pager none_held
btree_lookup-IsAbsent_example =
    btree_lookup-IsAbsent three 2 0 8 around tree entry four three-IsClosed
      (omega arith, omega arith) three-Pool nodes-IsSearchTree (omega arith) four_small
      four-IsAbsent

-- The key 4 goes to page 2.
four-Route : Route nodes entry four hi 2 1 1
unfolding root_node wednesday.Btree.Examples.leaf entry from_list load16 load32 page_is_leaf
    page_find_pointer find_loop child_at key_compare int_of payload_get_key_ptr varint_get get_loop
    payload_put_len
four-Route = passes refl refl refl refl (arrives refl refl)

btree_lookup-btree_insert_deep_example :
    (w' : World) × (w'' : World) × (Q : Memory) × (ptr : ℕ) × (btree_insert 1 around tree entry four
        hi
      ≡ ok (success tt, tree, w'))
    × (btree_lookup 2 w' tree entry four ≡ ok (success (page_of three 2, ptr), w''))
    × Pool (with_page three 2 Q) w''.pager none_held
    × Copies entry 1 Q ptr 3
unfolding wednesday.Btree.Examples.leaf from_list load16 page_is_index_uuid
btree_lookup-btree_insert_deep_example =
    btree_lookup-btree_insert_deep three 1 around tree entry four hi 2 three-IsClosed
      (omega arith, omega arith) three-Pool refl four-Route leaf-IsNode refl entry-IsEntry.key_size
      four_absent (omega arith) (omega arith)

btree_insert-Extended_example :
    (w' : World) × (Q : Memory) × (btree_insert 1 around tree entry four hi
      ≡ ok (success tt, tree, w'))
    × (w'.error_code ≡ 0)
    × Pool (with_page three 2 Q) w'.pager none_held
    × IsClosed (with_page three 2 Q)
    × IsSearchTree (with_page three 2 Q).pages 2 1 0 8
    × Extended nodes (with_page three 2 Q).pages 1 (varint_get entry 0).0
unfolding wednesday.Btree.Examples.leaf entry from_list load16 varint_get get_loop
btree_insert-Extended_example =
    btree_insert-Extended three 1 2 0 8 around tree entry four hi 2 three-IsClosed
      (omega arith, omega arith) three-Pool refl nodes-IsSearchTree (omega arith) (omega arith)
      (omega arith) four-Route (λ other. omega arith) leaf-IsNode entry-IsEntry.key_size four_absent
      (omega arith) (omega arith)

-- The key 7, which is in page 3.
seven : Memory
unfolding from_list
seven = from_list (7 ∷ [])

seven-Meets : Meets nodes seven key value 1 1
unfolding root_node last_leaf seven from_list load16 load32 page_is_leaf page_find_pointer find_loop
    child_at key_compare int_of payload_get_key_ptr varint_get get_loop payload_put_len
seven-Meets = beyond refl refl refl refl (at_leaf refl refl refl)

btree_insert-Meets_example : btree_insert 1 around tree seven key value ≡ trapped
btree_insert-Meets_example =
    btree_insert-Meets three 1 around tree seven key value three-IsClosed (omega arith, omega arith)
      three-Pool seven-Meets

-- The key 5 behind the insertion of the key 4.
btree_lookup-btree_insert_other_example :
    (w' : World) × (Q : Memory) × (btree_insert 1 around tree entry four hi
      ≡ ok (success tt, tree, w'))
    × Ends (with_page three 2 Q) (search 2 nodes 1 keys key) (btree_lookup 2 w' tree keys key)
unfolding wednesday.Btree.Examples.leaf entry keys from_list load16 varint_get get_loop
btree_lookup-btree_insert_other_example =
    btree_lookup-btree_insert_other three 1 2 0 8 around tree entry four hi 2 three-IsClosed
      (omega arith, omega arith) three-Pool refl nodes-IsSearchTree (omega arith) (omega arith)
      (omega arith) four-Route (λ other. omega arith) leaf-IsNode entry-IsEntry.key_size four_absent
      (omega arith) (omega arith) keys key (omega arith) (omega arith)
