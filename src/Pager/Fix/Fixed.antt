-- ===== src/Pager/Fix/Fixed.antt =====
-- What a fixed page is, and how a call of `pager_fix` ends.
use wednesday.Base.{ℕ, ◌<◌, ◌≡◌, ◌≢◌, ◌⊎◌, inl, inr, ◌∙◌, sym, ap, refl, arith, Bool, some}
use wednesday.Base.{Option-cases}
use wednesday.Base.Int.{ℤ}
use wednesday.Base.Outcome.{Result, success, failure, enomem}
use wednesday.Pager.Types.{Header, HashEntry, Pager, Page}
use wednesday.Pager.Directory.{entry_directory_lookup, pager_directory_insert}
use wednesday.Pager.Directory.Laws.{insert-latch}
use wednesday.Pager.Hash.{pager_hash}
use wednesday.Pager.Lookup.Latched.{with_latch}
use wednesday.Pager.Lookup.Latched.{Acquired}
use wednesday.Pager.Fix.{uncount}
use wednesday.Pager.Invariant.{
  Inv, IsFixed, Keeps, Acquired-Keeps, Acquired-Links, Acquired-IsFixed,
}

-- What the directory and the ring say when a page has been fixed: the directory leads to its ring
-- entry, which holds the page, and its header is latched.
pub record Fixed (p : Pager) (id : ℕ) (page : Page) : Type 0 where
  pub id_same : page.id ≡ id
  pub found :
      entry_directory_lookup (p.directory (pager_hash p.mask id)) id ≡ some (some page.frame)
  pub in_ring : page.frame < p.size
  pub holds : (p.ring page.frame).page_id ≡ id
  pub header : Header
  pub fixed : IsFixed (p.ring page.frame) header

pub insert_latch_same :
    (granted : Bool) (e e' : HashEntry) (id f : ℕ)
    → pager_directory_insert granted e id f ≡ some e'
    → e'.latch ≡ e.latch
unfolding pager_directory_insert
insert_latch_same granted e e' id f h = ground arith

-- The insertion under the latch, without the latch.
pub inserted_free :
    (granted : Bool) (w : ℤ) (e e' : HashEntry) (id f : ℕ)
    → pager_directory_insert granted (with_latch w e) id f ≡ some e'
    → (e₀ : HashEntry) × (pager_directory_insert granted e id f ≡ some e₀) × (e' ≡ with_latch w e₀)
inserted_free granted w e e' id f h = elim (Option-cases (pager_directory_insert granted e id f)) [
  | inl full ↦ let l = insert-latch granted w e id f in ground arith
  | inr (e₀, done) ↦ let l = insert-latch granted w e id f in (e₀, done, ground arith)
]

-- Latches of the directory are not seen by `header_acquire`.
pub directory_unseen :
    {exclusive : Bool} {f : ℕ} {p q : Pager} (d : ℕ → HashEntry)
    → Acquired exclusive f p q
    → Acquired exclusive f (record p { directory = d }) (record q { directory = d })
directory_unseen d a = record {
  header = a.header;
  word = a.word;
  found = a.found;
  taken = a.taken;
  result = ap (λ (t : Pager). record t { directory = d }) a.result;
}

-- A page that the directory leads to, with its header latched.
pub Acquired-Fixed :
    {exclusive : Bool} {f : ℕ} {p q : Pager} (id : ℕ)
    → Inv p
    → id ≢ 0
    → entry_directory_lookup (p.directory (pager_hash p.mask id)) id ≡ some (some f)
    → Acquired exclusive f p q
    → Inv q × Keeps p q × Fixed q id (record { id = id; frame = f })
Acquired-Fixed {f = f} {p = p} {q = q} id i ne present a =
    let (g, at, lt, holds, hashed) = i.links.backed (pager_hash p.mask id) id (some f) ne present in
    let same : f ≡ g = ground arith in
    let here : (p.ring f).page_id ≡ id = ap (λ k. (p.ring k).page_id) same ∙ holds in
    let (h, is, kept) = Acquired-IsFixed a (λ e. ne (sym here ∙ e)) in
    let d : q.directory ≡ p.directory = ap (λ (t : Pager). t.directory) a.result in
    let m : q.mask ≡ p.mask = ap (λ (t : Pager). t.mask) a.result in
    let s : q.size ≡ p.size = ap (λ (t : Pager). t.size) a.result in
    (
      record { links = Acquired-Links a i.links; idle = λ y. ap (λ t. (t y).latch) d ∙ i.idle y },
      Acquired-Keeps a,
      record {
        id_same = refl;
        found = rw (d, m) present;
        in_ring = rw (s, same) lt;
        holds = kept ∙ here;
        header = h;
        fixed = is;
      },
    )

-- How a call of `pager_fix` that does not reject its page id ends.
abbrev pub Ended : Pager → ℕ → Result Page → Pager → Type 0
Ended p id r p' =
    Inv p'
    × Keeps p p'
    × (((page : Page) × (r ≡ success page) × Fixed p' id page) ⊎ (r ≡ failure enomem))

-- The count of pages plays no part.
pub uncounted : {p q : Pager} {id : ℕ} {r : Result Page} → Ended p id r q → Ended p id r (uncount q)
uncounted (i, k, inl (page, e, x)) = (
  record { links = i.links; idle = i.idle },
  record { size_same = k.size_same; mask_same = k.mask_same; fixed = k.fixed },
  inl (
    page,
    e,
    record {
      id_same = x.id_same;
      found = x.found;
      in_ring = x.in_ring;
      holds = x.holds;
      header = x.header;
      fixed = x.fixed;
    },
  ),
)
uncounted (i, k, inr e) = (
  record { links = i.links; idle = i.idle },
  record { size_same = k.size_same; mask_same = k.mask_same; fixed = k.fixed },
  inr e,
)
