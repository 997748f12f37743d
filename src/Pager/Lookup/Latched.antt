-- ===== src/Pager/Lookup/Latched.antt =====
-- What the latching steps of the pager do to its state, when they end.
use wednesday.Base.{
  ℕ, ◌≡◌, ◌⊎◌, ◌∙◌, inl, inr, sym, ap, refl, arith, store, store_at, store_back, store_twice, Bool,
  true, false, Option, none, some,
}
use wednesday.Base.{if◌then◌else◌, bit_or, Option-cases}
use mathlib.Core.Path.{ap₂}
use wednesday.Base.Int.{ℤ, pos, negsuc}
use wednesday.Base.Outcome.{ok, Outcome-cases}
use wednesday.Latch.Alone.{latch_acquire}
use wednesday.Latch.Alone.{latch_release_read, latch_release_write}
use wednesday.Pager.Types.{Header, HashEntry, Pager, Page, flag_exclusive}
use wednesday.Pager.Directory.{entry_directory_lookup}
use wednesday.Pager.Lookup.{
  set_entry, set_header, entry_acquire, entry_release, header_acquire, pager_lookup,
}

-- The word of an entry's latch while it is held by one thread alone.
abbrev pub held : Bool → ℤ
held true = negsuc 0
held false = pos 1

abbrev pub with_latch : ℤ → HashEntry → HashEntry
with_latch w e = record e { latch = w }

module _ (p : Pager) (x : ℕ) where
  pub entry_acquire_idle :
      (exclusive : Bool)
      → (p.directory x).latch ≡ pos 0
      → entry_acquire exclusive p x
        ≡ ok (set_entry p x (with_latch (held exclusive) (p.directory x)))
  unfolding entry_acquire latch_acquire
  entry_acquire_idle true e = rw e refl
  entry_acquire_idle false e = rw e refl

  pub entry_release_back :
      (exclusive : Bool)
      → (p.directory x).latch ≡ held exclusive
      → entry_release exclusive p x ≡ ok (set_entry p x (with_latch (pos 0) (p.directory x)))
  unfolding entry_release latch_release_write latch_release_read
  entry_release_back true e = rw e refl
  entry_release_back false e = rw e refl

  -- Latched and released again, the directory is as it was.
  pub relatched :
      (d' : ℕ → HashEntry) (w : ℤ)
      → (p.directory x).latch ≡ pos 0
      → d' ≡ store p.directory x (with_latch w (p.directory x))
      → store d' x (with_latch (pos 0) (d' x)) ≡ p.directory
  relatched d' w e f = rw f (
      store_back p.directory x (with_latch w (p.directory x)) _ (
        ap (with_latch (pos 0)) (store_at p.directory x (with_latch w (p.directory x)) x refl)
        ∙ ap (λ v. with_latch v (p.directory x)) (sym e)))

-- The release that ends a scope with a latched entry gives the directory back.
pub release_back :
    (exclusive : Bool) (p q : Pager) (x : ℕ)
    → (p.directory x).latch ≡ pos 0
    → q.directory ≡ store p.directory x (with_latch (held exclusive) (p.directory x))
    → entry_release exclusive q x ≡ ok (record q { directory = p.directory })
release_back exclusive p q x idle latched =
    entry_release_back q x exclusive (ap (λ (e : HashEntry). e.latch) there)
    ∙ ap (λ d. ok (record q { directory = d }))
        (relatched p x q.directory (held exclusive) idle latched)
  where
    there : q.directory x ≡ with_latch (held exclusive) (p.directory x)
    there =
        ap (λ d. d x) latched
        ∙ store_at p.directory x (with_latch (held exclusive) (p.directory x)) x refl

-- The same where the entry was changed under its latch.
pub release_changed :
    (p q : Pager) (x : ℕ) (e : HashEntry)
    → e.latch ≡ pos 0
    → q.directory
      ≡ store
          (store p.directory x (with_latch (held true) (p.directory x)))
          x
          (with_latch (held true) e)
    → entry_release true q x ≡ ok (record q { directory = store p.directory x e })
release_changed p q x e free changed =
    entry_release_back q x true (ap (λ (e : HashEntry). e.latch) there)
    ∙ ap (λ d. ok (record q { directory = d }))
        (ap₂ (λ d v. store d x (with_latch (pos 0) v)) changed there
          ∙ store_twice _ x _ _
          ∙ store_twice p.directory x _ _
          ∙ ap (λ w. store p.directory x (with_latch w e)) (sym free))
  where
    there : q.directory x ≡ with_latch (held true) e
    there =
        ap (λ d. d x) changed
        ∙ store_at (store p.directory x (with_latch (held true) (p.directory x))) x
            (with_latch (held true) e) x refl

-- The header's latch is taken, and nothing else is changed.
pub record Acquired (exclusive : Bool) (f : ℕ) (p p' : Pager) : Type 0 where
  pub header : Header
  pub word : ℤ
  pub found : (p.ring f).header ≡ some header
  pub taken : latch_acquire exclusive header.latch ≡ some word
  pub result :
      p'
      ≡ set_header p f (record header {
        latch = word;
        flags = if exclusive then bit_or header.flags flag_exclusive else header.flags;
      })

pub header_acquire-ok :
    (exclusive : Bool) (p p' : Pager) (f : ℕ)
    → header_acquire exclusive p f ≡ ok p'
    → Acquired exclusive f p p'
unfolding header_acquire
header_acquire-ok exclusive p p' f e = elim (Option-cases (p.ring f).header) [
  | inl null ↦ ground arith
  | inr (h, some_h) ↦ elim (Option-cases (latch_acquire exclusive h.latch)) [
    | inl spins ↦ ground arith
    | inr (w, took) ↦ record {
      header = h;
      word = w;
      found = some_h;
      taken = took;
      result = ground arith;
    }
  ]
]

-- How `pager_lookup` ends: the page is in no slot and nothing is changed, or its header is latched.
abbrev pub Looked : Bool → ℕ → ℕ → Pager → Option Page → Pager → Type 0
Looked exclusive x id p found p' =
    ((entry_directory_lookup (p.directory x) id ≡ none) × (found ≡ none) × (p' ≡ p))
    ⊎ ((f : ℕ) × (entry_directory_lookup (p.directory x) id ≡ some (some f))
        × (found ≡ some (record { id = id; frame = f }))
        × Acquired exclusive f p p')

pub pager_lookup-ok :
    (exclusive : Bool) (p p' : Pager) (x id : ℕ) (found : Option Page)
    → pager_lookup p x id exclusive ≡ ok (found, p')
    → Looked exclusive x id p found p'
unfolding pager_lookup
pager_lookup-ok exclusive p p' x id found e =
    elim (Option-cases (entry_directory_lookup (p.directory x) id)) [
      | inl absent ↦ inl (absent, ground arith, ground arith)
      | inr (pointer, present) ↦ elim (Option-cases pointer) [
        | inl null ↦ ground arith
        | inr (f, some_f) ↦ elim (Outcome-cases (header_acquire exclusive p f)) [
          | inl (q, took) ↦
              let same : q ≡ p' = ground arith in
              inr (
                f,
                present ∙ ap some some_f,
                ground arith,
                header_acquire-ok exclusive p p' f (took ∙ ap ok same),
              )
          | inr failed ↦ ground arith
        ]
      ]
    ]
