-- ===== src/Pager/Close.antt =====
-- `pager_close`, as the blocks that it frees, in their order.
pub mod Freed
use wednesday.Base.{
  ℕ, zero, suc, ◌+◌, ◌%◌, ◌^◌, Bool, true, false, Option, none, some, List, [], ◌∷◌, ◌++◌, leb,
  if◌then◌else◌,
}
use wednesday.Base.Outcome.{Outcome, ok, blocked, Result, success, ◌>>=◌}
use wednesday.Pager.Types.{Header, Mapping, HashEntry, RingEntry, Pager}
use wednesday.Pager.Open.{PagerBlock, pager_struct, directory_array, ring_array}

-- The blocks that a pager allocates: the header of a ring entry, a bucket of a directory entry by
-- its place in the chain, and those of `pager_open`.
pub data Block : Type 0 where
  header_block : ℕ → Block
  bucket_block : ℕ → ℕ → Block
  opened_block : PagerBlock → Block

abbrev pub has_header : RingEntry → Bool
has_header entry = elim entry.header [ none ↦ false | some h ↦ true ]

-- The loop over the ring: `left` entries from `i` on.
unfoldable pub free_ring : ℕ → ℕ → (ℕ → RingEntry) → List Block
free_ring zero i ring = []
free_ring (suc left) i ring =
    let rest = free_ring left (i + 1) ring in
    if has_header (ring i) then header_block i ∷ rest else rest

-- The `while` along the buckets of entry `x`.
unfoldable pub free_buckets : ℕ → ℕ → List Mapping → List Block
free_buckets x k [] = []
free_buckets x k (b ∷ bs) = bucket_block x k ∷ free_buckets x (k + 1) bs

-- The loop over the directory, whose counter has 32 bits.
unfoldable pub free_directory : ℕ → ℕ → ℕ → (ℕ → HashEntry) → Outcome (List Block)
free_directory zero mask i directory = blocked
free_directory (suc rounds) mask i directory =
    let later = free_directory rounds mask ((i + 1) % 2 ^ 32) directory in
    if leb i mask
    then (do rest ← later; ok (free_buckets i 0 (directory i).overflow ++ rest))
    else ok []

-- A directory loop of more rounds than the fuel is `blocked`.
unfoldable pub pager_close : ℕ → Pager → Outcome (Result (Unit {0}) × List Block)
pager_close rounds p = do
  buckets ← free_directory rounds p.mask 0 p.directory
  ok (
    success tt,
    free_ring p.size 0 p.ring
        ++ (opened_block ring_array
            ∷ (buckets ++ (opened_block directory_array ∷ opened_block pager_struct ∷ []))),
  )
