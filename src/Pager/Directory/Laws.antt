-- ===== src/Pager/Directory/Laws.antt =====
-- A directory entry is a finite map from page ids to headers.
use wednesday.Base.{ℕ, ◌≤◌, ◌≡◌, ◌≢◌, ◌∙◌, sym, arith, Bool, true, none, some}
use wednesday.Base.{◌==◌, if◌then◌else◌}
use wednesday.Base.Int.{ℤ}
use mathlib.Core.Option
use wednesday.Pager.Types.{HashEntry, no_entry}
use wednesday.Pager.Directory.{entry_directory_lookup, insert_bucket, mapping_to}
use wednesday.Pager.Directory.{pager_directory_insert, pager_directory_remove, remove_bucket}
use wednesday.Pager.Directory.Slots.{
  slots, occurs, lookup-slots, remove-slots, insert-slots, lookup_buckets-occurs,
  occurs-insert_bucket, lookup-insert_bucket, lookup-remove_bucket, occurs_le-remove_bucket,
  insert_bucket_granted,
}
use native.Mathlib.Decide.{ℕ_discrete}
use native.Mathlib.Nat.{le_trans}

-- No page id stands in two slots of the entry.
abbrev pub IsDistinct : HashEntry → Type 0
IsDistinct e = (id : ℕ) → id ≢ 0 → occurs id (slots e) ≤ 1

pub no_entry-IsDistinct : IsDistinct no_entry
unfolding occurs
no_entry-IsDistinct id ne = ground arith

-- After `pager_directory_insert` of an id that the entry did not hold, a lookup of that id gives
-- its header, a lookup of any other gives what it gave, and still no id stands twice.
pub lookup-insert :
    (granted : Bool) (e e' : HashEntry) (id frame : ℕ)
    → pager_directory_insert granted e id frame ≡ some e'
    → entry_directory_lookup e id ≡ none
    → id ≢ 0
    → IsDistinct e
    → ((j : ℕ)
        → j ≢ 0
        → entry_directory_lookup e' j
          ≡ (if id == j then some (some frame) else entry_directory_lookup e j))
      × IsDistinct e'
lookup-insert granted e e' id frame h new hi distinct = (
  λ j hj.
      rw (lookup-slots e' j, lookup-slots e j)
        (lookup-insert_bucket granted (slots e) (slots e') id frame j inserted absent hi hj),
  λ j hj. ground (
    arith,
    occurs-insert_bucket granted (slots e) (slots e') id frame j inserted hj,
    distinct j hj,
    absent,
  ),
)
  where
    inserted : insert_bucket granted (slots e) id frame ≡ some (slots e')
    inserted = insert-slots granted e e' id frame h

    absent : occurs id (slots e) ≡ 0
    absent = lookup_buckets-occurs (slots e) id (sym (lookup-slots e id) ∙ new)

-- In an entry where no id stands in two places, after `pager_directory_remove` of an id that is not 0,
-- a lookup of that id fails, a lookup of any other but 0 gives what it gave, still no id stands twice,
-- and the latch is as it was.
pub lookup-remove :
    (e : HashEntry) (id : ℕ)
    → id ≢ 0
    → IsDistinct e
    → ((j : ℕ)
        → j ≢ 0
        → entry_directory_lookup (pager_directory_remove e id) j
          ≡ (if id == j then none else entry_directory_lookup e j))
      × IsDistinct (pager_directory_remove e id)
      × ((pager_directory_remove e id).latch ≡ e.latch)
unfolding pager_directory_remove
lookup-remove e id hi distinct = (
  λ j hj.
      rw (lookup-slots (pager_directory_remove e id) j, lookup-slots e j)
        (rw removed (lookup-remove_bucket (slots e) id j (distinct id hi) hi hj)),
  λ j hj. rw removed (le_trans (occurs_le-remove_bucket (slots e) id j hj) (distinct j hj)),
  ground arith,
)
  where
    removed : slots (pager_directory_remove e id) ≡ remove_bucket (slots e) id
    removed = remove-slots e id

-- The insertion fails only where a bucket is needed and `malloc` gives none.
pub insert-granted :
    (e : HashEntry) (id frame : ℕ)
    → (e' : HashEntry) × (pager_directory_insert true e id frame ≡ some e')
unfolding pager_directory_insert
insert-granted e id frame = elim (ℕ_discrete e.first.page_id 0) [
  | yes empty ↦ (record e { first = mapping_to id frame }, ground arith)
  | no taken ↦ elim (ℕ_discrete e.second.page_id 0) [
    | yes empty ↦ (record e { second = mapping_to id frame }, ground arith)
    | no both ↦
        let (l, i) = insert_bucket_granted e.overflow id frame in
        (record e { overflow = l }, ground arith)
  ]
]

-- The latch of an entry plays no part.
pub remove-latch :
    (w : ℤ) (e : HashEntry) (id : ℕ)
    → pager_directory_remove (record e { latch = w }) id
      ≡ record (pager_directory_remove e id) { latch = w }
unfolding pager_directory_remove
remove-latch w e id = ground arith

pub insert-latch :
    (granted : Bool) (w : ℤ) (e : HashEntry) (id f : ℕ)
    → pager_directory_insert granted (record e { latch = w }) id f
      ≡ Option.map
          (λ (e' : HashEntry). record e' { latch = w })
          (pager_directory_insert granted e id f)
unfolding pager_directory_insert
insert-latch granted w e id f = ground arith
