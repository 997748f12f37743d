-- ===== src/Btree/Search/Pool.antt =====
-- Pages that the pager holds, some of them fixed, and how `pager_fix` and `pager_unfix` move them.
use wednesday.Base.{
  ℕ, ◌<◌, ◌≡◌, ◌≢◌, ◌∙◌, sym, ap, refl, arith, store, store_at, store_other, Bool, true, false,
  Memory, some, bit_and, ◌==◌,
}
use wednesday.Base.Int.{pos, negsuc}
use wednesday.Base.Outcome.{ok, success}
use wednesday.Pager.Types.{Header, RingEntry, Pager, Page, flag_exclusive}
use wednesday.Pager.Hash.{pager_hash}
use wednesday.Pager.Directory.{entry_directory_lookup}
use wednesday.Pager.Lookup.{set_header}
use wednesday.Btree.World.{World, fix, unfix, page_bytes}
use wednesday.Btree.Cached.{IsCached, taken, fixed, fix_cached, taken-exclusive}
use wednesday.Btree.Twice.{at_frame, page_bytes_at, unfix_held, released}
use wednesday.Btree.Held.{given_back}
use native.Mathlib.Decide.{ℕ_discrete}

-- A step leaves the error state and the stack alone.
abbrev pub Calm : World → World → Type 0
Calm w w' = (w'.error_code ≡ w.error_code) × (w'.buffer ≡ w.buffer)

-- Nobody has fixed the page, or one thread has, exclusively.
pub data Status (h : Header) : Bool → Type 0 where
  idle : h.latch ≡ pos 0 → h.flags < flag_exclusive → Status h false
  busy : h.latch ≡ negsuc 0 → bit_and h.flags flag_exclusive ≢ 0 → Status h true

pub Status-idle : (h : Header) → Status h false → (h.latch ≡ pos 0) × (h.flags < flag_exclusive)
Status-idle h (idle latch shared) = (latch, shared)

pub Status-busy :
    (h : Header) → Status h true → (h.latch ≡ negsuc 0) × (bit_and h.flags flag_exclusive ≢ 0)
Status-busy h (busy latch exclusive) = (latch, exclusive)

-- The pager holds page `id` in `frame` with these bytes.
pub record IsPlaced (p : Pager) (id frame : ℕ) (bytes : Memory) (held : Bool) : Type 0 where
  pub real : (id == 0) ≡ false
  pub known : entry_directory_lookup (p.directory (pager_hash p.mask id)) id ≡ some (some frame)
  pub quiet : (p.directory (pager_hash p.mask id)).latch ≡ pos 0
  pub header : Header
  pub there : (p.ring frame).header ≡ some header
  pub same : header.contents ≡ bytes
  pub status : Status header held

IsPlaced-IsCached :
    (p : Pager) (id frame : ℕ) (bytes : Memory) (held : Bool) (c : IsPlaced p id frame bytes held)
    → c.header.latch ≡ pos 0
    → c.header.flags < flag_exclusive
    → IsCached p id frame c.header
IsPlaced-IsCached p id frame bytes held c latch shared = record {
  real = c.real;
  known = c.known;
  idle = c.quiet;
  there = c.there;
  free = latch;
  shared = shared;
}

IsPlaced-changed :
    (p : Pager) (id frame : ℕ) (bytes bytes' : Memory) (held held' : Bool) (h : Header)
    → IsPlaced p id frame bytes held
    → h.contents ≡ bytes'
    → Status h held'
    → IsPlaced (set_header p frame h) id frame bytes' held'
IsPlaced-changed p id frame bytes bytes' held held' h c same status = record {
  real = c.real;
  known = c.known;
  quiet = c.quiet;
  header = h;
  there = at_frame p frame h;
  same = same;
  status = status;
}

IsPlaced-other :
    (p : Pager) (id frame other : ℕ) (bytes : Memory) (held : Bool) (h : Header)
    → frame ≢ other
    → IsPlaced p id frame bytes held
    → IsPlaced (set_header p other h) id frame bytes held
IsPlaced-other p id frame other bytes held h ne c = record {
  real = c.real;
  known = c.known;
  quiet = c.quiet;
  header = c.header;
  there = ap (λ (r : RingEntry). r.header) (store_other p.ring other _ frame ne) ∙ c.there;
  same = c.same;
  status = c.status;
}

-- The pages of a set, each in a frame of its own.
pub record Store : Type 1 where
  pub Holds : ℕ → Type 0
  pub frame : ℕ → ℕ
  pub pages : ℕ → Memory
  pub apart : (i j : ℕ) → Holds i → Holds j → i ≢ j → frame i ≢ frame j

module _ (s : Store) where
  -- The pager holds every page of the set; `held` says which are fixed.
  abbrev pub Pool : Pager → (ℕ → Bool) → Type 0
  Pool p held = (id : ℕ) → s.Holds id → IsPlaced p id (s.frame id) (s.pages id) (held id)

  abbrev pub page_of : ℕ → Page
  page_of id = record { id = id; frame = s.frame id }

  pub Pool-same :
      (p : Pager) (held held' : ℕ → Bool)
      → ((id : ℕ) → held id ≡ held' id)
      → Pool p held
      → Pool p held'
  Pool-same p held held' e pool id holds = rw (sym (e id)) (pool id holds)

  -- One page of the pool changes its header, and perhaps its bytes.
  pub Pool-changed :
      (p : Pager) (held : ℕ → Bool) (id : ℕ) (now : Bool) (h : Header) (pages' : ℕ → Memory)
      → Pool p held
      → s.Holds id
      → h.contents ≡ pages' id
      → ((j : ℕ) → j ≢ id → s.pages j ≡ pages' j)
      → Status h now
      → (j : ℕ) → s.Holds j
      → IsPlaced (set_header p (s.frame id) h) j (s.frame j) (pages' j) (store held id now j)
  Pool-changed p held id now h pages' pool holds same others status j there =
      elim (ℕ_discrete j id) [
        | yes here ↦
            rw (store_at held id now j here, here)
              (IsPlaced-changed p id (s.frame id) (s.pages id) (pages' id) (held id) now h
                (pool id holds) same status)
        | no other ↦ rw (store_other held id now j other) (
            IsPlaced-other p j (s.frame j) (s.frame id) (pages' j) (held j) h
              (s.apart j id there holds other) (rw (others j other) at (pool j there)))
      ]

  pub page_bytes-Pool :
      (w : World) (held : ℕ → Bool) (id : ℕ)
      → Pool w.pager held
      → s.Holds id
      → page_bytes w (page_of id) ≡ ok (s.pages id)
  page_bytes-Pool w held id pool holds =
      let c = pool id holds in page_bytes_at w (page_of id) c.header c.there ∙ ap (λ m. ok m) c.same

  -- `pager_fix` of a page that nobody has fixed.
  pub fix-Pool :
      (w : World) (held : ℕ → Bool) (id : ℕ)
      → Pool w.pager held
      → s.Holds id
      → held id ≡ false
      → (w' : World) × (fix w id ≡ ok (success (page_of id), w'))
        × Calm w w'
        × Pool w'.pager (store held id true)
  fix-Pool w held id pool holds free =
      let c = pool id holds in
      let (latch, shared) = Status-idle c.header (rw free at c.status) in
      let known = IsPlaced-IsCached w.pager id (s.frame id) (s.pages id) (held id) c latch shared in
      (
        fixed w (s.frame id) c.header,
        fix_cached w id (s.frame id) c.header known,
        (refl, refl),
        Pool-changed w.pager held id true (taken c.header) s.pages pool holds c.same (λ j ne. refl)
            (busy refl (taken-exclusive c.header shared)),
      )

  -- `pager_unfix` of a page that is fixed.
  pub unfix-Pool :
      (w : World) (held : ℕ → Bool) (id : ℕ)
      → Pool w.pager held
      → s.Holds id
      → held id ≡ true
      → (w' : World) × (unfix w (page_of id) ≡ ok w')
        × Calm w w'
        × Pool w'.pager (store held id false)
  unfix-Pool w held id pool holds fixed_now =
      let c = pool id holds in
      let (latch, exclusive) = Status-busy c.header (rw fixed_now at c.status) in
      (
        given_back w (page_of id) c.header,
        unfix_held w (page_of id) c.header c.there latch exclusive,
        (refl, refl),
        Pool-changed w.pager held id false (released c.header) s.pages pool holds c.same
            (λ j ne. refl) (idle refl (omega arith)),
      )
