-- ===== src/Pager/Directory.antt =====
-- The entries of the hash directory: two slots and a chain of buckets.
pub mod Slots
pub mod Laws
use wednesday.Base.{
  ℕ, ◌≡◌, Bool, true, false, Option, none, some, List, [], ◌∷◌, ◌==◌, if◌then◌else◌,
}
use wednesday.Pager.Types.{Mapping, HashEntry}
use mathlib.Core.Option

-- The walk along the buckets in `entry_directory_lookup`.
unfoldable pub lookup_buckets : List Mapping → ℕ → Option (Option ℕ)
lookup_buckets [] id = none
lookup_buckets (b ∷ bs) id =
    let rest = lookup_buckets bs id in if b.page_id == id then some b.header else rest

-- `none` where the function returns false, else what it stores to `out`.
unfoldable pub entry_directory_lookup : HashEntry → ℕ → Option (Option ℕ)
entry_directory_lookup e id =
    if e.first.page_id == id
    then some e.first.header
    else if e.second.page_id == id
    then some e.second.header
    else lookup_buckets e.overflow id

abbrev pub mapping_to : ℕ → ℕ → Mapping
mapping_to id frame = record { page_id = id; header = some frame }

-- The walk of `pager_directory_insert`: the first empty bucket is filled, and behind the last one
-- a bucket is allocated, which is empty.
unfoldable pub insert_bucket : Bool → List Mapping → ℕ → ℕ → Option (List Mapping)
insert_bucket granted [] id frame = if granted then some (mapping_to id frame ∷ []) else none
insert_bucket granted (b ∷ bs) id frame =
    let rest = Option.map (λ (l : List Mapping). b ∷ l) (insert_bucket granted bs id frame) in
    if b.page_id == 0 then some (mapping_to id frame ∷ bs) else rest

-- `none` where the function fails with ENOMEM; `granted` says whether `malloc` gives a bucket.
unfoldable pub pager_directory_insert : Bool → HashEntry → ℕ → ℕ → Option HashEntry
pager_directory_insert granted e id frame =
    if e.first.page_id == 0
    then some (record e { first = mapping_to id frame })
    else if e.second.page_id == 0
    then some (record e { second = mapping_to id frame })
    else Option.map (λ l. record e { overflow = l }) (insert_bucket granted e.overflow id frame)

unfoldable pub remove_bucket : List Mapping → ℕ → List Mapping
remove_bucket [] id = []
remove_bucket (b ∷ bs) id =
    let rest = b ∷ remove_bucket bs id in
    if b.page_id == id then record b { page_id = 0 } ∷ bs else rest

unfoldable pub pager_directory_remove : HashEntry → ℕ → HashEntry
pager_directory_remove e id =
    if e.first.page_id == id
    then record e { first = record (e.first) { page_id = 0 } }
    else if e.second.page_id == id
    then record e { second = record (e.second) { page_id = 0 } }
    else record e { overflow = remove_bucket e.overflow id }
