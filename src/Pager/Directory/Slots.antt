-- ===== src/Pager/Directory/Slots.antt =====
-- An entry's slots and buckets as one list: how often it holds an id, and the list that each
-- operation leaves.
use wednesday.Base.{ℕ, suc, ◌+◌, ◌≤◌, ◌<◌, ◌≡◌, ◌≢◌, refl, arith, Bool, none, some, List, [], ◌∷◌}
use wednesday.Base.{◌==◌, if◌then◌else◌, ◌⊎◌, inl, inr, Option-cases, true}
use native.Mathlib.Decide.{ℕ_discrete}
use wednesday.Pager.Types.{Mapping, HashEntry}
use wednesday.Pager.Directory.{lookup_buckets, entry_directory_lookup, insert_bucket}
use wednesday.Pager.Directory.{
  pager_directory_insert, remove_bucket, pager_directory_remove, mapping_to,
}

abbrev pub slots : HashEntry → List Mapping
slots e = e.first ∷ e.second ∷ e.overflow

-- How many slots hold `id`.
unfoldable pub occurs : ℕ → List Mapping → ℕ
occurs id [] = 0
occurs id (b ∷ bs) = let rest = occurs id bs in if b.page_id == id then suc rest else rest

pub lookup-slots :
    (e : HashEntry) (id : ℕ) → entry_directory_lookup e id ≡ lookup_buckets (slots e) id
unfolding entry_directory_lookup lookup_buckets
lookup-slots e id = refl

pub remove-slots :
    (e : HashEntry) (id : ℕ) → slots (pager_directory_remove e id) ≡ remove_bucket (slots e) id
unfolding pager_directory_remove remove_bucket
remove-slots e id = ground arith

pub insert-slots :
    (granted : Bool) (e e' : HashEntry) (id frame : ℕ)
    → pager_directory_insert granted e id frame ≡ some e'
    → insert_bucket granted (slots e) id frame ≡ some (slots e')
unfolding pager_directory_insert insert_bucket
insert-slots granted e e' id frame h = ground arith

pub insert_keeps_latch :
    (granted : Bool) (e e' : HashEntry) (id frame : ℕ)
    → pager_directory_insert granted e id frame ≡ some e'
    → e'.latch ≡ e.latch
unfolding pager_directory_insert
insert_keeps_latch granted e e' id frame h = ground arith

pub lookup_buckets-occurs :
    (l : List Mapping) (id : ℕ) → (lookup_buckets l id ≡ none) → occurs id l ≡ 0
unfolding lookup_buckets occurs
lookup_buckets-occurs [] id h = refl
lookup_buckets-occurs (b ∷ bs) id h = ground (arith, lookup_buckets-occurs bs id)

pub occurs-lookup_buckets :
    (l : List Mapping) (id : ℕ) → occurs id l ≡ 0 → lookup_buckets l id ≡ none
unfolding lookup_buckets occurs
occurs-lookup_buckets [] id h = refl
occurs-lookup_buckets (b ∷ bs) id h = ground (arith, occurs-lookup_buckets bs id)

-- The two ways in which an insertion goes past a bucket.
insert_bucket-cons :
    (granted : Bool) (b : Mapping) (bs : List Mapping) {l' : List Mapping} (id frame : ℕ)
    → insert_bucket granted (b ∷ bs) id frame ≡ some l'
    → ((b.page_id ≡ 0) × (l' ≡ mapping_to id frame ∷ bs))
      ⊎ ((b.page_id ≢ 0)
          × (t : List Mapping) × (insert_bucket granted bs id frame ≡ some t)
          × (l' ≡ b ∷ t))
unfolding insert_bucket
insert_bucket-cons granted b bs id frame h = elim (ℕ_discrete b.page_id 0) [
  | yes empty ↦ inl (empty, ground arith)
  | no taken ↦ elim (Option-cases (insert_bucket granted bs id frame)) [
    | inl failed ↦ ground arith
    | inr (t, e) ↦ inr (taken, t, e, ground arith)
  ]
]

pub occurs-insert_bucket :
    (granted : Bool) (l l' : List Mapping) (id frame j : ℕ)
    → insert_bucket granted l id frame ≡ some l'
    → j ≢ 0
    → occurs j l' ≡ occurs j l + (if id == j then 1 else 0)
unfolding insert_bucket occurs
occurs-insert_bucket granted [] l' id frame j h ne = ground arith
occurs-insert_bucket granted (b ∷ bs) l' id frame j h ne =
    elim (insert_bucket-cons granted b bs id frame h) [
      | inl (empty, e) ↦ rw e (ground arith)
      | inr (taken, t, i, e) ↦
          rw e (ground (arith, occurs-insert_bucket granted bs t id frame j i ne))
    ]

pub occurs-remove_bucket :
    (l : List Mapping) (id j : ℕ)
    → id ≢ 0
    → j ≢ 0
    → 0 < occurs id l
    → occurs j (remove_bucket l id) + (if id == j then 1 else 0) ≡ occurs j l
unfolding remove_bucket occurs
occurs-remove_bucket [] id j hi hj h = absurd (omega arith)
occurs-remove_bucket (b ∷ bs) id j hi hj h = ground (arith, occurs-remove_bucket bs id j hi hj)

-- A new id is found at its frame, and the other ids where they were.
pub lookup-insert_bucket :
    (granted : Bool) (l l' : List Mapping) (id frame j : ℕ)
    → insert_bucket granted l id frame ≡ some l'
    → occurs id l ≡ 0
    → id ≢ 0
    → j ≢ 0
    → lookup_buckets l' j ≡ (if id == j then some (some frame) else lookup_buckets l j)
unfolding insert_bucket lookup_buckets occurs
lookup-insert_bucket granted [] l' id frame j h new hi hj = ground arith
lookup-insert_bucket granted (b ∷ bs) l' id frame j h new hi hj =
    elim (insert_bucket-cons granted b bs id frame h) [
      | inl (empty, e) ↦ rw e (ground arith)
      | inr (taken, t, i, e) ↦ rw e (ground (arith, lookup-insert_bucket granted bs t id frame j i))
    ]

-- A removed id is gone, if it stood once, and the others are found where they were.
pub lookup-remove_bucket :
    (l : List Mapping) (id j : ℕ)
    → occurs id l ≤ 1
    → id ≢ 0
    → j ≢ 0
    → lookup_buckets (remove_bucket l id) j ≡ (if id == j then none else lookup_buckets l j)
unfolding remove_bucket lookup_buckets occurs
lookup-remove_bucket [] id j once hi hj = ground arith
lookup-remove_bucket (b ∷ bs) id j once hi hj =
    ground (arith, lookup-remove_bucket bs id j, occurs-lookup_buckets bs id)

pub occurs_le-remove_bucket :
    (l : List Mapping) (id j : ℕ) → j ≢ 0 → occurs j (remove_bucket l id) ≤ occurs j l
unfolding remove_bucket occurs
occurs_le-remove_bucket [] id j hj = omega arith
occurs_le-remove_bucket (b ∷ bs) id j hj = ground (arith, occurs_le-remove_bucket bs id j hj)

pub insert_bucket_granted :
    (l : List Mapping) (id frame : ℕ)
    → (l' : List Mapping) × (insert_bucket true l id frame ≡ some l')
unfolding insert_bucket
insert_bucket_granted [] id frame = (_, refl)
insert_bucket_granted (b ∷ bs) id frame =
    let (t, e) = insert_bucket_granted bs id frame in
    elim (ℕ_discrete b.page_id 0) [
      | yes empty ↦ (mapping_to id frame ∷ bs, ground arith)
      | no taken ↦ (b ∷ t, ground arith)
    ]
