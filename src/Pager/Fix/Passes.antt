-- ===== src/Pager/Fix/Passes.antt =====
-- The two passes of `pager_fix` on a directory whose latches are free.
use wednesday.Base.{ℕ, ◌≡◌, ◌∙◌, inl, inr, sym, ap, refl, store_at, Bool, false, Option}
use wednesday.Base.Int.{pos}
use wednesday.Base.Outcome.{ok, >>=-eq-ok}
use wednesday.Pager.Types.{Pager, Page}
use wednesday.Pager.Directory.{entry_directory_lookup}
use wednesday.Pager.Lookup.{set_entry, entry_acquire, entry_release, pager_lookup}
use wednesday.Pager.Lookup.Latched.{held, with_latch, entry_acquire_idle}
use wednesday.Pager.Lookup.Latched.{release_back, Looked, pager_lookup-ok}
use wednesday.Pager.Fix.{fast_pass}

-- The pager with the latch of entry `x` held.
abbrev pub latched : Bool → Pager → ℕ → Pager
latched exclusive p x = set_entry p x (with_latch (held exclusive) (p.directory x))

-- The lookup does not see the latch.
pub lookup-latched :
    (exclusive : Bool) (p : Pager) (x id : ℕ)
    → entry_directory_lookup ((latched exclusive p x).directory x) id
      ≡ entry_directory_lookup (p.directory x) id
unfolding entry_directory_lookup
lookup-latched exclusive p x id =
    ap (λ e. entry_directory_lookup e id)
      (store_at p.directory x (with_latch (held exclusive) (p.directory x)) x refl)

-- What the lookup under a latch found, when the latch is given back.
pub unlatched :
    (exclusive shared : Bool) (p p' : Pager) (x id : ℕ) (found : Option Page)
    → Looked exclusive x id (latched shared p x) found p'
    → (p'.directory ≡ (latched shared p x).directory)
      × Looked exclusive x id p found (record p' { directory = p.directory })
unlatched exclusive shared p p' x id found (inl (absent, none_found, same)) = (
  ap (λ (q : Pager). q.directory) same,
  inl (
    sym (lookup-latched shared p x id) ∙ absent,
    none_found,
    ap (λ (q : Pager). record q { directory = p.directory }) same,
  ),
)
unlatched exclusive shared p p' x id found (inr (f, present, page, a)) = (
  ap (λ (q : Pager). q.directory) a.result,
  inr (
    f,
    sym (lookup-latched shared p x id) ∙ present,
    page,
    record {
      header = a.header;
      word = a.word;
      found = a.found;
      taken = a.taken;
      result = ap (λ (q : Pager). record q { directory = p.directory }) a.result;
    },
  ),
)

pub fast_pass-ok :
    (exclusive : Bool) (p p' : Pager) (x id : ℕ) (found : Option Page)
    → (p.directory x).latch ≡ pos 0
    → fast_pass p x id exclusive ≡ ok (found, p')
    → Looked exclusive x id p found p'
unfolding fast_pass
fast_pass-ok exclusive p p' x id found idle e =
    let (p₁, acquired, e₁) = >>=-eq-ok (entry_acquire false p x) _ e in
    let one : p₁ ≡ latched false p x = cc (entry_acquire_idle p x false idle) in
    let ((found', p₂), looked, e₂) = >>=-eq-ok (pager_lookup p₁ x id exclusive) _ e₁ in
    let (p₃, released, e₃) = >>=-eq-ok (entry_release false p₂ x) _ e₂ in
    let (kept, outcome) =
      unlatched exclusive false p p₂ x id found'
        (pager_lookup-ok exclusive (latched false p x) p₂ x id found' (rw one at looked)) in
    let back : p₃ ≡ record p₂ { directory = p.directory } =
      cc (release_back false p p₂ x idle kept) in
    let same : found' ≡ found = cc in
    let last : record p₂ { directory = p.directory } ≡ p' = cc in rw (same, last) at outcome
