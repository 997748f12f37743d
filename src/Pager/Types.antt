-- ===== src/Pager/Types.antt =====
-- The data of the pager. A `header_t *` is the index of the ring entry that allocated the header:
-- a ring entry allocates one header at most, and keeps it until `pager_close`.
use wednesday.Base.{ℕ, Memory, Option, none, List, []}
use wednesday.Base.Int.{ℤ, pos}

-- PAGE_FLAG_DIRTY, PAGE_FLAG_REF and PAGE_FLAG_EXCLUSIVE
abbrev pub flag_dirty : ℕ
flag_dirty = 1

abbrev pub flag_ref : ℕ
flag_ref = 2

abbrev pub flag_exclusive : ℕ
flag_exclusive = 4

-- `header_t`, with the page's bytes that stand behind it in memory.
pub record Header : Type 0 where
  pub id : ℕ
  pub latch : ℤ
  pub flags : ℕ
  pub contents : Memory

-- `mapping_t`; `none` is the null pointer.
pub record Mapping : Type 0 where
  pub page_id : ℕ
  pub header : Option ℕ

-- `hash_entry_t`; the linked list of buckets is a list.
pub record HashEntry : Type 0 where
  pub latch : ℤ
  pub first : Mapping
  pub second : Mapping
  pub overflow : List Mapping

-- `ring_entry_t`, with the header that its pointer leads to.
pub record RingEntry : Type 0 where
  pub page_id : ℕ
  pub header : Option Header

-- `pager_t`, with the two arrays that it points to.
pub record Pager : Type 0 where
  pub page_size : ℕ
  pub size : ℕ
  pub mask : ℕ
  pub page_count : ℕ
  pub evict_head : ℕ
  pub create_head : ℕ
  pub next_page : ℕ
  pub directory : ℕ → HashEntry
  pub ring : ℕ → RingEntry

-- `page_t`. The data pointer is known by the header in front of it.
pub record Page : Type 0 where
  pub id : ℕ
  pub frame : ℕ

-- What `memset` to 0 leaves.
abbrev pub no_mapping : Mapping
no_mapping = record { page_id = 0; header = none }

abbrev pub no_entry : HashEntry
no_entry = record { latch = pos 0; first = no_mapping; second = no_mapping; overflow = [] }
