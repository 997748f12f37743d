-- ===== src/Pager/Invariant.antt =====
-- The invariant of the pager between calls, and what a call leaves alone.
use wednesday.Base.{
  ℕ, ◌≡◌, ◌≢◌, ◌⊎◌, inl, inr, ◌∙◌, sym, ap, refl, arith, store, store_at, store_other, Bool, true,
  false, some,
}
use wednesday.Base.Int.{ℤ, pos, negsuc}
use wednesday.Latch.Alone.{latch_acquire, latch_acquire_read, latch_acquire_write}
use wednesday.Base.{if◌then◌else◌, bit_or}
use wednesday.Pager.Types.{flag_exclusive, Header, RingEntry, Pager}
use wednesday.Pager.Lookup.Latched.{Acquired}
use wednesday.Pager.Links.{Links, Links-header}
use native.Mathlib.Decide.{ℕ_discrete}

abbrev pub Linked : Pager → Type 0
Linked p = Links p.size p.mask p.directory p.ring

-- Directory and ring point at each other, and no latch of the directory is held.
pub record Inv (p : Pager) : Type 0 where
  pub links : Linked p
  pub idle : (x : ℕ) → (p.directory x).latch ≡ pos 0

-- The ring entry holds a page with this header, and someone holds the header's latch.
abbrev pub IsFixed : RingEntry → Header → Type 0
IsFixed entry h = (entry.page_id ≢ 0) × (entry.header ≡ some h) × (h.latch ≢ pos 0)

-- Every page that is fixed stays fixed, in its ring entry and with its bytes.
pub record Keeps (p p' : Pager) : Type 0 where
  pub size_same : p'.size ≡ p.size
  pub mask_same : p'.mask ≡ p.mask
  pub fixed :
      (f : ℕ) (h : Header)
      → IsFixed (p.ring f) h
      → (h' : Header) × IsFixed (p'.ring f) h'
        × ((p'.ring f).page_id ≡ (p.ring f).page_id)
        × (h'.contents ≡ h.contents)

pub Keeps-refl :
    (p p' : Pager) → p'.size ≡ p.size → p'.mask ≡ p.mask → p'.ring ≡ p.ring → Keeps p p'
Keeps-refl p p' s m r = record {
  size_same = s;
  mask_same = m;
  fixed = λ f h is. (h, rw r is, ap (λ (g : ℕ → RingEntry). (g f).page_id) r, refl);
}

pub Keeps-trans : {p q r : Pager} → Keeps p q → Keeps q r → Keeps p r
Keeps-trans a b = record {
  size_same = b.size_same ∙ a.size_same;
  mask_same = b.mask_same ∙ a.mask_same;
  fixed = λ f h is.
      let (h₁, is₁, id₁, same₁) = a.fixed f h is in
      let (h₂, is₂, id₂, same₂) = b.fixed f h₁ is₁ in (h₂, is₂, id₂ ∙ id₁, same₂ ∙ same₁);
}

-- A ring entry that is not fixed may change.
pub Keeps-unfixed :
    (p p' : Pager) (f : ℕ) (entry : RingEntry)
    → p'.size ≡ p.size
    → p'.mask ≡ p.mask
    → p'.ring ≡ store p.ring f entry
    → ((h : Header) → IsFixed (p.ring f) h → ⊥)
    → Keeps p p'
Keeps-unfixed p p' f entry s m changed free = record {
  size_same = s;
  mask_same = m;
  fixed = λ g h is. elim (ℕ_discrete g f) [
    | yes here ↦ absurd (free h (rw here at is))
    | no other ↦
        let same : p'.ring g ≡ p.ring g =
          ap (λ r. r g) changed ∙ store_other p.ring f entry g other in
        (h, rw same is, ap (λ (r : RingEntry). r.page_id) same, refl)
  ];
}

-- Ring entries may be given up, and none is taken: the hand of `pager_create` stands still.
pub record Shrinks (p p' : Pager) : Type 0 where
  pub hand_same : p'.create_head ≡ p.create_head
  pub each : (f : ℕ) → ((p'.ring f).page_id ≡ (p.ring f).page_id) ⊎ ((p'.ring f).page_id ≡ 0)

pub Shrinks-refl : (p p' : Pager) → p'.create_head ≡ p.create_head → p'.ring ≡ p.ring → Shrinks p p'
Shrinks-refl p p' c same = record {
  hand_same = c;
  each = λ f. inl (ap (λ (r : ℕ → RingEntry). (r f).page_id) same);
}

pub Shrinks-trans : {p q r : Pager} → Shrinks p q → Shrinks q r → Shrinks p r
Shrinks-trans a b = record {
  hand_same = b.hand_same ∙ a.hand_same;
  each = λ f. elim (b.each f) [
    | inr free ↦ inr free
    | inl same ↦ elim (a.each f) [ inr free ↦ inr (same ∙ free) | inl first ↦ inl (same ∙ first) ]
  ];
}

pub Shrinks-store :
    (p p' : Pager) (f : ℕ) (entry : RingEntry)
    → p'.create_head ≡ p.create_head
    → p'.ring ≡ store p.ring f entry
    → (entry.page_id ≡ (p.ring f).page_id) ⊎ (entry.page_id ≡ 0)
    → Shrinks p p'
Shrinks-store p p' f entry c changed given = record {
  hand_same = c;
  each = λ g. elim (ℕ_discrete g f) [
    | no other ↦ inl (
        ap (λ r. (r g).page_id) changed
        ∙ ap (λ (r : RingEntry). r.page_id) (store_other p.ring f entry g other))
    | yes here ↦
        let there : (p'.ring g).page_id ≡ entry.page_id =
          ap (λ r. (r g).page_id) changed
          ∙ ap (λ (r : RingEntry). r.page_id) (store_at p.ring f entry g here) in
        elim given [
          | inr free ↦ inr (there ∙ free)
          | inl same ↦ inl (there ∙ same ∙ ap (λ k. (p.ring k).page_id) (sym here))
        ]
  ];
}

-- An acquired latch is held.
pub acquired_held : (exclusive : Bool) (w w' : ℤ) → latch_acquire exclusive w ≡ some w' → w' ≢ pos 0
unfolding latch_acquire latch_acquire_read latch_acquire_write
acquired_held true w w' e h = ground arith
acquired_held false (pos n) w' e h = ground arith
acquired_held false (negsuc n) w' e h = ground arith

module _ {exclusive : Bool} {f : ℕ} {p p' : Pager} (a : Acquired exclusive f p p') where
  pub Acquired-Keeps : Keeps p p'
  Acquired-Keeps = record {
    size_same = ap (λ (q : Pager). q.size) a.result;
    mask_same = ap (λ (q : Pager). q.mask) a.result;
    fixed = λ g h is. rw a.result (elim (ℕ_discrete g f) [
      | yes here ↦
          let there = store_at p.ring f entry g here in
          let same : h ≡ a.header = cc (is.1, a.found, here) in
          (
            changed,
            rw there (
              rw (ap (λ k. (p.ring k).page_id) here) at is.0,
              refl,
              acquired_held exclusive a.header.latch a.word a.taken,
            ),
            ap (λ (r : RingEntry). r.page_id) there ∙ ap (λ k. (p.ring k).page_id) (sym here),
            ap (λ (k : Header). k.contents) (sym same),
          )
      | no other ↦
          let there = store_other p.ring f entry g other in
          (h, rw there is, ap (λ (r : RingEntry). r.page_id) there, refl)
    ]);
  }
    where
      changed : Header
      changed = record (a.header) {
        latch = a.word;
        flags = if exclusive then bit_or a.header.flags flag_exclusive else a.header.flags;
      }

      entry : RingEntry
      entry = record (p.ring f) { header = some changed }

  pub Acquired-Links : Linked p → Linked p'
  Acquired-Links l = rw a.result (Links-header l f a.header _ a.found refl)

  pub Acquired-IsFixed :
      (p.ring f).page_id ≢ 0
      → (h : Header) × IsFixed (p'.ring f) h × ((p'.ring f).page_id ≡ (p.ring f).page_id)
  Acquired-IsFixed holds = rw a.result (
    changed,
    rw there (holds, refl, acquired_held exclusive a.header.latch a.word a.taken),
    ap (λ (r : RingEntry). r.page_id) there,
  )
    where
      changed : Header
      changed = record (a.header) {
        latch = a.word;
        flags = if exclusive then bit_or a.header.flags flag_exclusive else a.header.flags;
      }

      there :
          store p.ring f (record (p.ring f) { header = some changed }) f
          ≡ record (p.ring f) { header = some changed }
      there = store_at p.ring f (record (p.ring f) { header = some changed }) f refl
