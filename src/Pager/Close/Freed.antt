-- ===== src/Pager/Close/Freed.antt =====
-- How often `pager_close` frees each block.
use wednesday.Base.{
  ℕ, zero, suc, ◌+◌, ◌-◌, ◌%◌, ◌^◌, ◌≤◌, ◌<◌, ◌≡◌, ◌∙◌, refl, arith, Bool, true, false, List, [],
  ◌∷◌, ◌++◌, length, leb, ltb, ◌==◌, ◌&&◌, if◌then◌else◌,
}
use wednesday.Base.Outcome.{ok, blocked, success, >>=-step}
use wednesday.Pager.Types.{Mapping, HashEntry, RingEntry, Pager}
use wednesday.Pager.Open.{PagerBlock, pager_struct, directory_array, ring_array}
use native.Mathlib.Decide.{dec_lt, ℕ_discrete}
use wednesday.Pager.Close.{
  Block, header_block, bucket_block, opened_block, has_header, free_ring, free_buckets,
  free_directory, pager_close,
}

abbrev same_opened : PagerBlock → PagerBlock → Bool
same_opened pager_struct pager_struct = true
same_opened directory_array directory_array = true
same_opened ring_array ring_array = true
same_opened _ _ = false

abbrev same_block : Block → Block → Bool
same_block (header_block f) (header_block g) = f == g
same_block (bucket_block x k) (bucket_block y m) = x == y && k == m
same_block (opened_block a) (opened_block b) = same_opened a b
same_block _ _ = false

abbrev pub once : Bool → ℕ
once b = if b then 1 else 0

-- How often the block is in the list.
abbrev pub count : Block → List Block → ℕ
count b [] = 0
count b (c ∷ cs) = once (same_block b c) + count b cs

count-append : (b : Block) (xs ys : List Block) → count b (xs ++ ys) ≡ count b xs + count b ys
count-append b [] ys = omega arith
count-append b (c ∷ cs) ys = omega (arith, count-append b cs ys)

-- Whether the pager has allocated the block.
abbrev pub owns : Pager → Block → Bool
owns p (header_block f) = ltb f p.size && has_header (p.ring f)
owns p (bucket_block x k) = leb x p.mask && ltb k (length (p.directory x).overflow)
owns p (opened_block a) = true

-- What the ring from `i` on owns, and what the directory does.
abbrev owned_ring : ℕ → ℕ → (ℕ → RingEntry) → Block → Bool
owned_ring left i ring (header_block f) = leb i f && (ltb f (i + left) && has_header (ring f))
owned_ring left i ring _ = false

abbrev owned_buckets : ℕ → ℕ → List Mapping → Block → Bool
owned_buckets x k bs (bucket_block y m) = y == x && (leb k m && ltb m (k + length bs))
owned_buckets x k bs _ = false

abbrev owned_directory : ℕ → ℕ → (ℕ → HashEntry) → Block → Bool
owned_directory mask i d (bucket_block x k) =
    leb i x && (leb x mask && ltb k (length (d x).overflow))
owned_directory mask i d _ = false

count-free_ring :
    (left i : ℕ) (ring : ℕ → RingEntry) (b : Block)
    → count b (free_ring left i ring) ≡ once (owned_ring left i ring b)
unfolding free_ring
count-free_ring zero i ring (header_block f) = ground arith
count-free_ring zero i ring (bucket_block x k) = refl
count-free_ring zero i ring (opened_block a) = refl
count-free_ring (suc left) i ring (header_block f) = elim (ℕ_discrete f i) [
  | yes here ↦
      rw here (let rest = count-free_ring left (i + 1) ring (header_block i) in ground arith)
  | no other ↦ let rest = count-free_ring left (i + 1) ring (header_block f) in ground arith
]
count-free_ring (suc left) i ring (bucket_block x k) =
    let rest = count-free_ring left (i + 1) ring (bucket_block x k) in ground arith
count-free_ring (suc left) i ring (opened_block a) =
    let rest = count-free_ring left (i + 1) ring (opened_block a) in ground arith

count-free_buckets :
    (x k : ℕ) (bs : List Mapping) (b : Block)
    → count b (free_buckets x k bs) ≡ once (owned_buckets x k bs b)
unfolding free_buckets
count-free_buckets x k [] (bucket_block y m) = ground arith
count-free_buckets x k [] (header_block f) = refl
count-free_buckets x k [] (opened_block a) = refl
count-free_buckets x k (c ∷ cs) (bucket_block y m) =
    let rest = count-free_buckets x (k + 1) cs (bucket_block y m) in ground arith
count-free_buckets x k (c ∷ cs) (header_block f) =
    let rest = count-free_buckets x (k + 1) cs (header_block f) in omega arith
count-free_buckets x k (c ∷ cs) (opened_block a) =
    let rest = count-free_buckets x (k + 1) cs (opened_block a) in omega arith

-- One entry of the directory, and those behind it.
directory_next :
    (mask i : ℕ) (d : ℕ → HashEntry) (b : Block)
    → i ≤ mask
    → once (owned_buckets i 0 (d i).overflow b) + once (owned_directory mask (i + 1) d b)
      ≡ once (owned_directory mask i d b)
directory_next mask i d (header_block f) fits = refl
directory_next mask i d (opened_block a) fits = refl
directory_next mask i d (bucket_block x k) fits = elim (ℕ_discrete x i) [
  | yes here ↦ rw here (ground arith)
  | no other ↦ ground arith
]

owned_none :
    (mask i : ℕ) (d : ℕ → HashEntry) (b : Block) → mask < i → 0 ≡ once (owned_directory mask i d b)
owned_none mask i d (header_block f) past = refl
owned_none mask i d (opened_block a) past = refl
owned_none mask i d (bucket_block x k) past = ground arith

free_directory-counts :
    (rounds mask i : ℕ) (d : ℕ → HashEntry)
    → mask + 1 < 2 ^ 32
    → i ≤ mask + 1
    → mask + 1 < i + rounds
    → (freed : List Block) × (free_directory rounds mask i d ≡ ok freed)
      × ((b : Block) → count b freed ≡ once (owned_directory mask i d b))
unfolding free_directory
free_directory-counts zero mask i d word le enough = absurd (omega arith)
free_directory-counts (suc rounds) mask i d word le enough = elim (dec_lt mask i) [
  | yes past ↦ ([], ground arith, λ b. owned_none mask i d b past)
  | no within ↦
      let (rest, later, counts) =
        free_directory-counts rounds mask (i + 1) d word (omega arith) (omega arith) in
      let next : (i + 1) % 2 ^ 32 ≡ i + 1 = omega arith in
      (
        free_buckets i 0 (d i).overflow ++ rest,
        rw (next, later) (ground arith),
        λ b.
            count-append b (free_buckets i 0 (d i).overflow) rest
            ∙ omega (
              arith,
              count-free_buckets i 0 (d i).overflow b,
              counts b,
              directory_next mask i d b (omega arith),
            ),
      )
]

abbrev opened_blocks : List Block
opened_blocks =
    opened_block ring_array ∷ opened_block directory_array ∷ opened_block pager_struct ∷ []

-- All that is freed, in its order.
abbrev all_freed : Pager → List Block → List Block
all_freed p buckets =
    free_ring p.size 0 p.ring
    ++ (opened_block ring_array
        ∷ (buckets ++ (opened_block directory_array ∷ opened_block pager_struct ∷ [])))

count-parts :
    (p : Pager) (buckets : List Block) (b : Block)
    → count b (all_freed p buckets)
      ≡ count b (free_ring p.size 0 p.ring) + count b buckets + count b opened_blocks
count-parts p buckets b = omega (
  arith,
  count-append b (free_ring p.size 0 p.ring) (
      opened_block ring_array
      ∷ (buckets ++ (opened_block directory_array ∷ opened_block pager_struct ∷ []))),
  count-append b buckets (opened_block directory_array ∷ opened_block pager_struct ∷ []),
)

count-all_freed :
    (p : Pager) (buckets : List Block) (b : Block)
    → count b buckets ≡ once (owned_directory p.mask 0 p.directory b)
    → count b (all_freed p buckets) ≡ once (owns p b)
count-all_freed p buckets (header_block f) same =
    let ring = count-free_ring p.size 0 p.ring (header_block f) in
    let parts = count-parts p buckets (header_block f) in ground arith
count-all_freed p buckets (bucket_block x k) same =
    let ring = count-free_ring p.size 0 p.ring (bucket_block x k) in
    let parts = count-parts p buckets (bucket_block x k) in ground arith
count-all_freed p buckets (opened_block a) same =
    let ring = count-free_ring p.size 0 p.ring (opened_block a) in
    let parts = count-parts p buckets (opened_block a) in omega (arith, opened_once a)
  where
    opened_once : (a : PagerBlock) → count (opened_block a) opened_blocks ≡ 1
    opened_once pager_struct = refl
    opened_once directory_array = refl
    opened_once ring_array = refl

-- `pager_close` frees every block that the pager has allocated once, and no other: the headers of the
-- ring, the buckets of the directory, the two arrays and the pager. The directory has fewer than
-- 2 ^ 32 entries, and the loop over it enough rounds.
pub pager_close_frees :
    (rounds : ℕ) (p : Pager)
    → p.mask + 1 < 2 ^ 32
    → p.mask + 1 < rounds
    → (freed : List Block) × (pager_close rounds p ≡ ok (success tt, freed))
      × ((b : Block) → count b freed ≡ once (owns p b))
unfolding pager_close
pager_close_frees rounds p word enough =
    let (buckets, done, counts) =
      free_directory-counts rounds p.mask 0 p.directory word (omega arith) (omega arith) in
    (
      all_freed p buckets,
      >>=-step _ _ buckets done refl,
      λ b. count-all_freed p buckets b (counts b),
    )

free_directory_endless :
    (rounds mask i : ℕ) (d : ℕ → HashEntry)
    → mask ≡ 2 ^ 32 - 1
    → i < 2 ^ 32
    → free_directory rounds mask i d ≡ blocked
unfolding free_directory
free_directory_endless zero mask i d full word = refl
free_directory_endless (suc rounds) mask i d full word =
    let later = free_directory_endless rounds mask ((i + 1) % 2 ^ 32) d full (omega arith) in
    let within : leb i mask ≡ true = ground arith in rw (within, later) refl

-- With a mask of 2 ^ 32 - 1, which a directory size of 0 gives, the loop over the directory does not
-- end, however many rounds it is given.
pub pager_close_endless :
    (rounds : ℕ) (p : Pager) → p.mask ≡ 2 ^ 32 - 1 → pager_close rounds p ≡ blocked
unfolding pager_close
pager_close_endless rounds p full =
    rw (free_directory_endless rounds p.mask 0 p.directory full (omega arith)) refl
