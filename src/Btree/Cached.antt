-- ===== src/Btree/Cached.antt =====
-- `pager_fix` for a page that the pager holds and nobody has fixed.
use wednesday.Base.{
  ◌<◌, ◌/◌, ◌≢◌, ℕ, ◌+◌, ◌≡◌, refl, arith, store_at, true, false, some, ◌==◌, bit_or, bit_and,
}
use wednesday.Base.Bits.{bit_or_high, bit_and_high}
use wednesday.Base.Int.{ℤ, pos, negsuc}
use wednesday.Base.Outcome.{ok, success, >>=-step}
use wednesday.Latch.Alone.{latch_acquire, latch_acquire_write}
use wednesday.Pager.Types.{HashEntry, Header, Pager, Page, flag_exclusive}
use wednesday.Pager.Hash.{pager_hash}
use wednesday.Pager.Directory.{entry_directory_lookup}
use wednesday.Pager.Lookup.{set_entry, set_header, header_acquire, pager_lookup}
use wednesday.Pager.Lookup.Latched.{held, with_latch, entry_acquire_idle, release_back}
use wednesday.Pager.Fix.{pager_fix, fast_pass}
use wednesday.Pager.Create.{Answers}
use wednesday.Btree.World.{World, fix}

pub record IsCached (p : Pager) (id frame : ℕ) (h : Header) : Type 0 where
  pub real : (id == 0) ≡ false
  pub known : entry_directory_lookup (p.directory (pager_hash p.mask id)) id ≡ some (some frame)
  pub idle : (p.directory (pager_hash p.mask id)).latch ≡ pos 0
  pub there : (p.ring frame).header ≡ some h
  pub free : h.latch ≡ pos 0
  pub shared : h.flags < flag_exclusive

-- The header while it is fixed exclusively.
abbrev pub taken : Header → Header
taken h = record h { latch = negsuc 0; flags = bit_or h.flags flag_exclusive }

header_acquire_free :
    (p : Pager) (frame : ℕ) (h : Header)
    → (p.ring frame).header ≡ some h
    → h.latch ≡ pos 0
    → header_acquire true p frame ≡ ok (set_header p frame (taken h))
unfolding header_acquire latch_acquire latch_acquire_write
header_acquire_free p frame h there free = ground (arith, there, free)

entry_directory_lookup_latch :
    (e : HashEntry) (w : ℤ) (id : ℕ)
    → entry_directory_lookup (with_latch w e) id ≡ entry_directory_lookup e id
unfolding entry_directory_lookup
entry_directory_lookup_latch e w id = refl

module _ (p : Pager) (id frame : ℕ) (h : Header) (c : IsCached p id frame h) where
  abbrev page : Page
  page = record { id = id; frame = frame }

  abbrev latched : Pager
  latched =
      set_entry p (pager_hash p.mask id)
        (with_latch (held false) (p.directory (pager_hash p.mask id)))

  entry_at :
      latched.directory (pager_hash p.mask id)
      ≡ with_latch (held false) (p.directory (pager_hash p.mask id))
  entry_at = store_at p.directory (pager_hash p.mask id) _ (pager_hash p.mask id) refl

  pager_lookup-latched :
      pager_lookup latched (pager_hash p.mask id) id true
      ≡ ok (some page, set_header latched frame (taken h))
  unfolding pager_lookup
  pager_lookup-latched =
      rw
        (
          entry_at,
          entry_directory_lookup_latch (p.directory (pager_hash p.mask id)) (held false) id,
          c.known,
          header_acquire_free latched frame h c.there c.free,
        )
        refl

  fast_pass_cached :
      fast_pass p (pager_hash p.mask id) id true ≡ ok (some page, set_header p frame (taken h))
  unfolding fast_pass
  fast_pass_cached =
      >>=-step _ _ latched (entry_acquire_idle p (pager_hash p.mask id) false c.idle) (
        >>=-step _ _ (some page, set_header latched frame (taken h)) pager_lookup-latched
          (>>=-step _ _ (set_header p frame (taken h))
            (release_back false p (set_header latched frame (taken h)) (pager_hash p.mask id) c.idle
              refl)
            refl))

  pub pager_fix_cached :
      (answers : Answers)
      → pager_fix answers p id true ≡ ok (success page, set_header p frame (taken h))
  unfolding pager_fix
  pager_fix_cached answers = rw (c.real, fast_pass_cached) refl

abbrev pub fixed : World → ℕ → Header → World
fixed w frame h = record w { pager = set_header w.pager frame (taken h); calls = w.calls + 1 }

pub fix_cached :
    (w : World) (id frame : ℕ) (h : Header)
    → IsCached w.pager id frame h
    → fix w id ≡ ok (success (record { id = id; frame = frame }), fixed w frame h)
unfolding fix
fix_cached w id frame h c =
    >>=-step (pager_fix (w.answers w.calls) w.pager id true) _ _
      (pager_fix_cached w.pager id frame h c (w.answers w.calls)) refl

pub taken-exclusive :
    (h : Header) → h.flags < flag_exclusive → bit_and (taken h).flags flag_exclusive ≢ 0
taken-exclusive h fits lost = absurd (omega (arith, lost, four))
  where
    quotient : (h.flags + 4) / 4 ≡ 1
    quotient = omega arith

    four : bit_and (bit_or h.flags 4) 4 ≡ 4
    four = rw (bit_or_high 2 h.flags 1 fits, bit_and_high 2 (h.flags + 4) 1, quotient) refl
