-- ===== src/Pager/Lookup.antt =====
-- Latches of entries and headers, `pager_lookup` and `pager_unfix`, as one thread runs them while no
-- other thread moves.
pub mod Latched
use wednesday.Base.{
  ℕ, store, Bool, true, false, Option, none, some, bit_and, bit_or, ◌==◌, not, if◌then◌else◌,
}
use wednesday.Base.Int.{ℤ, is_zero, is_negative}
use wednesday.Base.Outcome.{
  Outcome, ok, trapped, blocked, ◌>>=◌, ◌>>◌, assert, or_trapped, or_blocked,
}
use wednesday.Latch.Alone.{latch_acquire, latch_release_read, latch_release_write}
use wednesday.Pager.Types.{
  Header, HashEntry, RingEntry, Pager, Page, flag_dirty, flag_ref, flag_exclusive,
}
use wednesday.Pager.Directory.{entry_directory_lookup}

abbrev pub set_entry : Pager → ℕ → HashEntry → Pager
set_entry p index e = record p { directory = store p.directory index e }

abbrev pub set_ring : Pager → ℕ → RingEntry → Pager
set_ring p frame r = record p { ring = store p.ring frame r }

abbrev pub set_header : Pager → ℕ → Header → Pager
set_header p frame h = set_ring p frame (record (p.ring frame) { header = some h })

-- `latch_acquire_read` or `latch_acquire_write` on the latch of a directory entry.
unfoldable pub entry_acquire : Bool → Pager → ℕ → Outcome Pager
entry_acquire exclusive p index = do
  w ← or_blocked (latch_acquire exclusive (p.directory index).latch)
  ok (set_entry p index (record (p.directory index) { latch = w }))

unfoldable pub entry_release : Bool → Pager → ℕ → Outcome Pager
entry_release exclusive p index = do
  w ← or_trapped (
      if exclusive
      then latch_release_write (p.directory index).latch
      else latch_release_read (p.directory index).latch)
  ok (set_entry p index (record (p.directory index) { latch = w }))

-- `latch_acquire` on a header, and the flag that the holder of an exclusive latch sets.
unfoldable pub header_acquire : Bool → Pager → ℕ → Outcome Pager
header_acquire exclusive p frame = do
  h ← or_trapped ((p.ring frame).header)
  w ← or_blocked (latch_acquire exclusive h.latch)
  ok (
      set_header p frame (record h {
        latch = w;
        flags = if exclusive then bit_or h.flags flag_exclusive else h.flags;
      }))

-- `none` where the function returns false.
unfoldable pub pager_lookup : Pager → ℕ → ℕ → Bool → Outcome (Option Page × Pager)
pager_lookup p index id exclusive = do
  assert (not (is_zero (p.directory index).latch))
  elim (entry_directory_lookup (p.directory index) id) [
    | none ↦ ok (none, p)
    | some pointer ↦ do
      frame ← or_trapped pointer
      p' ← header_acquire exclusive p frame
      ok (some (record { id = id; frame = frame }), p')
  ]

-- The two branches of `pager_unfix`.
unfoldable pub unfix_exclusive : Pager → ℕ → Header → Outcome Pager
unfix_exclusive p frame h = do
  w ← or_trapped (latch_release_write h.latch)
  ok (set_header p frame (record h { flags = bit_or flag_dirty flag_ref; latch = w }))

unfoldable pub unfix_shared : Pager → ℕ → Header → Outcome Pager
unfix_shared p frame h = do
  w ← or_trapped (latch_release_read h.latch)
  ok (set_header p frame (record h { flags = bit_or h.flags flag_ref; latch = w }))

unfoldable pub pager_unfix : Pager → Page → Outcome Pager
unfolding unfix_exclusive unfix_shared
pager_unfix p page = do
  h ← or_trapped ((p.ring page.frame).header)
  elim (bit_and h.flags flag_exclusive == 0) [
    | false ↦ unfix_exclusive p page.frame h
    | true ↦ unfix_shared p page.frame h
  ]
