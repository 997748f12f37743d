-- ===== src/Pager/Links.antt =====
-- Directory and ring point at each other, and the changes that leave the directory's ids alone.
pub mod Created
pub mod Removed
use wednesday.Base.{
  ℕ, ◌+◌, ◌≤◌, ◌<◌, ◌≡◌, ◌≢◌, ◌∙◌, sym, ap, refl, arith, store, store_at, store_other, ◌&&◌, Bool,
  Option, none, some, List,
}
use wednesday.Base.{◌==◌, if◌then◌else◌}
use wednesday.Pager.Types.{Header, Mapping, HashEntry, RingEntry}
use wednesday.Pager.Directory.{
  entry_directory_lookup, pager_directory_insert, pager_directory_remove,
}
use wednesday.Pager.Directory.Slots.{slots, lookup-slots}
use wednesday.Pager.Directory.{lookup_buckets}
use wednesday.Pager.Directory.Laws.{IsDistinct, lookup-insert, lookup-remove}
use wednesday.Pager.Hash.{pager_hash}
use native.Mathlib.Decide.{ℕ_discrete}

-- A ring entry that holds a page has its header, and the directory leads to it.
abbrev pub IsMapped : ℕ → (ℕ → HashEntry) → RingEntry → ℕ → Type 0
IsMapped mask d entry i =
    (h : Header) × (entry.header ≡ some h)
    × (h.id ≡ entry.page_id)
    × (entry_directory_lookup (d (pager_hash mask entry.page_id)) entry.page_id ≡ some (some i))

-- What entry `x` of the directory says of a page is true, and stands where the hash says.
abbrev pub IsBacked : ℕ → ℕ → (ℕ → RingEntry) → ℕ → ℕ → Option ℕ → Type 0
IsBacked size mask r x id o =
    (i : ℕ) × (o ≡ some i) × (i < size) × ((r i).page_id ≡ id) × (x ≡ pager_hash mask id)

pub record Links (size mask : ℕ) (d : ℕ → HashEntry) (r : ℕ → RingEntry) : Type 0 where
  pub distinct : (x : ℕ) → IsDistinct (d x)
  pub mapped : (i : ℕ) → i < size → (r i).page_id ≢ 0 → IsMapped mask d (r i) i
  pub backed :
      (x id : ℕ) (o : Option ℕ)
      → id ≢ 0
      → entry_directory_lookup (d x) id ≡ some o
      → IsBacked size mask r x id o

module _ {size mask : ℕ} {d : ℕ → HashEntry} {r : ℕ → RingEntry} (l : Links size mask d r) where
  open l use {distinct, mapped, backed}

  -- Latches do not matter.
  pub Links-slots :
      (d' : ℕ → HashEntry) → ((x : ℕ) → slots (d' x) ≡ slots (d x)) → Links size mask d' r
  Links-slots d' same = record {
    distinct = λ x id ne. rw (same x) (distinct x id ne);
    mapped = λ i lt ne. let (h, e, f, g) = mapped i lt ne in (h, e, f, same_lookup _ _ ∙ g);
    backed = λ x id o ne e. backed x id o ne (sym (same_lookup x id) ∙ e);
  }
    where
      same_lookup : (x id : ℕ) → entry_directory_lookup (d' x) id ≡ entry_directory_lookup (d x) id
      same_lookup x id =
          lookup-slots (d' x) id
          ∙ ap (λ s. lookup_buckets s id) (same x)
          ∙ sym (lookup-slots (d x) id)

  -- A header may change but for its id.
  pub Links-header :
      (f : ℕ) (h h' : Header)
      → (r f).header ≡ some h
      → h'.id ≡ h.id
      → Links size mask d (store r f (record (r f) { header = some h' }))
  Links-header f h h' e same = record {
    distinct = distinct;
    mapped = λ i lt ne. elim (ℕ_discrete i f) [
      | yes at ↦
          rw (store_at r f changed i at)
            (changed_mapped i at lt (rw (store_at r f changed i at) at ne))
      | no other ↦
          rw (store_other r f changed i other)
            (mapped i lt (rw (store_other r f changed i other) at ne))
    ];
    backed = λ x id o ne found.
        let (i, a, b, c, g) = backed x id o ne found in (i, a, b, same_id i ∙ c, g);
  }
    where
      changed : RingEntry
      changed = record (r f) { header = some h' }

      same_id : (i : ℕ) → (store r f changed i).page_id ≡ (r i).page_id
      same_id i = ground arith

      changed_mapped : (i : ℕ) → i ≡ f → i < size → changed.page_id ≢ 0 → IsMapped mask d changed i
      changed_mapped i at lt ne =
          let (g, a, b, c) = mapped f (omega arith) ne in
          let one : g ≡ h = cc in
          (h', refl, same ∙ ap (λ (u : Header). u.id) (sym one) ∙ b, rw at c)

  -- A free ring entry may take any header, and gives back an id that it took for a while.
  pub Links-emptied :
      (f : ℕ) (entry : RingEntry)
      → (r f).page_id ≡ 0
      → entry.page_id ≡ 0
      → Links size mask d (store r f entry)
  Links-emptied f entry free empty = record {
    distinct = distinct;
    mapped = λ i lt ne. elim (ℕ_discrete i f) [
      | yes at ↦ absurd (rw (store_at r f entry i at) at ne empty)
      | no other ↦
          rw (store_other r f entry i other)
            (mapped i lt (rw (store_other r f entry i other) at ne))
    ];
    backed = λ x id o ne found.
        let (i, a, b, c, g) = backed x id o ne found in
        let other : i ≢ f = λ e. ne (sym c ∙ ap (λ k. (r k).page_id) e ∙ free) in
        (i, a, b, rw (store_other r f entry i other) c, g);
  }
