-- ===== src/Pager/Evict.antt =====
-- `pager_evict`: the CLOCK ring, whose pages have a second chance while their flag is set.
pub mod Rounds
pub mod Loop
pub mod Total
pub mod Turns
pub mod Frees
use wednesday.Base.{
  ℕ, zero, suc, ◌+◌, ◌*◌, ◌-◌, ◌%◌, ◌^◌, Bool, true, false, Option, none, some, bit_and, ◌==◌, not,
  if◌then◌else◌,
}
use wednesday.Base.Int.{is_negative}
use wednesday.Base.Outcome.{
  Outcome, ok, trapped, blocked, Result, success, failure, ◌>>=◌, ◌>>◌, assert, or_trapped, enomem,
}
use wednesday.Latch.{latch_available}
use wednesday.Pager.Types.{Header, Pager, flag_ref}
use wednesday.Pager.Directory.{pager_directory_remove}
use wednesday.Pager.Hash.{pager_hash}
use wednesday.Pager.Lookup.{set_entry, set_ring, set_header, entry_acquire, entry_release}

-- The index of the ring entry's directory entry, whose latch is then held; `none` where the
-- function returns false. The entry's page id cannot change in between, so the first
-- compare-exchange succeeds.
unfoldable pub pager_directory_find_entry : Pager → ℕ → Outcome (Option ℕ × Pager)
pager_directory_find_entry p frame = if (p.ring frame).page_id == 0 then ok (none, p) else (do
  p' ← entry_acquire true p (pager_hash p.mask (p.ring frame).page_id)
  ok (some (pager_hash p.mask (p.ring frame).page_id), p'))

-- Between the latching of the entry and its release: true where the page was evicted.
unfoldable pub try_evict : Pager → ℕ → ℕ → Header → Outcome (Bool × Pager)
try_evict p frame index h =
    if not (latch_available h.latch)
    then ok (false, p)
    else if not (bit_and h.flags flag_ref == 0)
    then ok (false, set_header p frame (record h { flags = bit_and h.flags (0xff - flag_ref) }))
    else (do
      assert (is_negative (p.directory index).latch)
      ok (
        true,
        set_ring
            (set_entry p index (pager_directory_remove (p.directory index) (p.ring frame).page_id))
            frame (record (p.ring frame) { page_id = 0 }),
      ))

-- One round of the loop of `pager_evict`.
unfoldable pub evict_round : Pager → Outcome (Bool × Pager)
evict_round p = do
  assert (not (p.size == 0))
  let frame = p.evict_head % p.size
  (found, p₁) ←
      pager_directory_find_entry (record p { evict_head = (p.evict_head + 1) % 2 ^ 32 }) frame
  elim found [
    | none ↦ ok (false, p₁)
    | some index ↦ do
      h ← or_trapped ((p₁.ring frame).header)
      (evicted, p₂) ← try_evict p₁ frame index h
      p₃ ← entry_release true p₂ index
      ok (evicted, p₃)
  ]

unfoldable pub evict_loop : ℕ → Pager → Outcome (Result (Unit {0}) × Pager)
evict_loop zero p = ok (failure enomem, p)
evict_loop (suc rounds) p = elim (evict_round p) [
  | ok (true, p') ↦ ok (success tt, p')
  | ok (false, p') ↦ evict_loop rounds p'
  | trapped ↦ trapped
  | blocked ↦ blocked
]

unfoldable pub pager_evict : Pager → Outcome (Result (Unit {0}) × Pager)
pager_evict p = evict_loop (p.size * 2 % 2 ^ 32) p
