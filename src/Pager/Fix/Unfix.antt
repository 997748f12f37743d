-- ===== src/Pager/Fix/Unfix.antt =====
-- `pager_unfix` keeps the invariant, and gives back one holder of the page's latch.
use wednesday.Base.{ℕ, zero, suc, ◌≡◌, ◌≢◌, ap, refl, arith, store_at, some, bit_and, bit_or}
use wednesday.Base.Int.{ℤ, pos, negsuc}
use wednesday.Base.Outcome.{ok}
use wednesday.Latch.Alone.{latch_release_read, latch_release_write}
use wednesday.Pager.Types.{Header, Pager, Page, flag_dirty, flag_ref, flag_exclusive}
use wednesday.Pager.Lookup.{set_header, pager_unfix}
use wednesday.Pager.Links.{Links-header}
use wednesday.Pager.Invariant.{Inv}

-- The latch word after one holder is gone, for a word and a flag that agree on how it is held.
pub data Releases (flags : ℕ) : ℤ → ℤ → Type 0 where
  was_exclusive : bit_and flags flag_exclusive ≢ 0 → Releases flags (negsuc 0) (pos 0)
  was_shared : {n : ℕ} → bit_and flags flag_exclusive ≡ 0 → Releases flags (pos (suc n)) (pos n)

-- `pager_unfix` returns, and the page's latch has the word `w`.
abbrev pub Unfixed : Pager → Page → Header → ℤ → Type 0
Unfixed p page h w =
    (p' : Pager) × (h' : Header) × (pager_unfix p page ≡ ok p')
    × Inv p'
    × ((p'.ring page.frame).header ≡ some h')
    × (h'.latch ≡ w)
    × (h'.contents ≡ h.contents)
    × ((p'.ring page.frame).page_id ≡ (p.ring page.frame).page_id)

-- Where the flag that marks an exclusive holder agrees with the word of the page's latch,
-- `pager_unfix` returns and keeps the invariant; the page keeps its id and its bytes, and its latch
-- has one holder less.
pub pager_unfix-ok :
    (p : Pager) (page : Page) (h : Header) (w : ℤ)
    → Inv p
    → (p.ring page.frame).header ≡ some h
    → Releases h.flags h.latch w
    → Unfixed p page h w
unfolding pager_unfix latch_release_read latch_release_write
pager_unfix-ok p page h w i e r = finish h.latch w refl r
  where
    ends :
        (h' : Header)
        → h'.id ≡ h.id
        → h'.contents ≡ h.contents
        → pager_unfix p page ≡ ok (set_header p page.frame h')
        → Unfixed p page h h'.latch
    ends h' named kept returns =
        let there =
          store_at p.ring page.frame (record (p.ring page.frame) { header = some h' }) page.frame
            refl in
        (
          set_header p page.frame h',
          h',
          returns,
          record { links = Links-header i.links page.frame h h' e named; idle = i.idle },
          ap (λ t. t.header) there,
          refl,
          kept,
          ap (λ t. t.page_id) there,
        )

    finish : (v u : ℤ) → h.latch ≡ v → Releases h.flags v u → Unfixed p page h u
    finish (negsuc zero) u word (was_exclusive set) =
        ends (record h { flags = bit_or flag_dirty flag_ref; latch = pos 0 }) refl refl
          (ground arith)
    finish (pos zero) u word r = elim r [ ]
    finish (negsuc (suc n)) u word r = elim r [ ]
    finish (pos (suc n)) u word (was_shared clear) =
        ends (record h { flags = bit_or h.flags flag_ref; latch = pos n }) refl refl (ground arith)
