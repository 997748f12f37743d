-- ===== src/Pager/Fix.antt =====
-- `pager_fix` and `pager_next`.
pub mod Passes
pub mod Fixed
pub mod Slow
pub mod Correct
pub mod Ready
pub mod Total
pub mod Granted
pub mod Unfix
use wednesday.Base.{
  ℕ, ◌+◌, ◌-◌, ◌%◌, ◌^◌, Bool, true, false, Option, none, some, leb, ◌==◌, if◌then◌else◌,
}
use wednesday.Base.Outcome.{
  Outcome, ok, trapped, blocked, Result, success, failure, ◌>>=◌, ◌>>◌, einval,
}
use wednesday.Pager.Types.{Pager, Page}
use wednesday.Pager.Hash.{pager_hash}
use wednesday.Pager.Lookup.{entry_acquire, entry_release, header_acquire, pager_lookup}
use wednesday.Pager.Create.{Answers, pager_create}
use wednesday.Pager.Evict.{pager_evict}

-- `atomic_fetch_sub(&pager->page_count, 1)`
abbrev pub uncount : Pager → Pager
uncount p = record p { page_count = (p.page_count + 2 ^ 32 - 1) % 2 ^ 32 }

-- The fast pass: a lookup under the shared latch of the entry.
unfoldable pub fast_pass : Pager → ℕ → ℕ → Bool → Outcome (Option Page × Pager)
fast_pass p index id exclusive = do
  p₁ ← entry_acquire false p index
  (found, p₂) ← pager_lookup p₁ index id exclusive
  p₃ ← entry_release false p₂ index
  ok (found, p₃)

-- Room for one more page: an eviction at the limit, else the page is counted. A weak
-- compare-exchange that fails loads the same count again.
unfoldable pub reserve : Pager → Outcome (Result (Unit {0}) × Pager)
reserve p =
    if leb ((p.size + 2 ^ 32 - 1) % 2 ^ 32) p.page_count
    then pager_evict p
    else ok (success tt, record p { page_count = p.page_count + 1 })

-- From the return of `pager_create` on.
unfoldable pub finish_pass : Bool → ℕ → ℕ → Result ℕ → Pager → Outcome (Result Page × Pager)
finish_pass exclusive index id (failure code) p = do
  p₁ ← entry_release true (uncount p) index
  ok (failure code, p₁)
finish_pass exclusive index id (success frame) p = do
  p₁ ← header_acquire exclusive p frame
  p₂ ← entry_release true p₁ index
  ok (success (record { id = id; frame = frame }), p₂)

-- From the exclusive latch of the entry on.
unfoldable pub slow_pass : Answers → Pager → ℕ → ℕ → Bool → Outcome (Result Page × Pager)
unfolding finish_pass
slow_pass answers p index id exclusive = do
  p₁ ← entry_acquire true p index
  (found, p₂) ← pager_lookup p₁ index id exclusive
  elim found [
    | some page ↦ do p₃ ← entry_release true (uncount p₂) index; ok (success page, p₃)
    | none ↦ do
      (created, p₃) ← pager_create answers p₂ index id
      finish_pass exclusive index id created p₃
  ]

unfoldable pub pager_fix : Answers → Pager → ℕ → Bool → Outcome (Result Page × Pager)
pager_fix answers p id exclusive = if id == 0 then ok (failure einval, p) else (do
  (found, p₁) ← fast_pass p (pager_hash p.mask id) id exclusive
  elim found [
    | some page ↦ ok (success page, p₁)
    | none ↦ do
      (reserved, p₂) ← reserve p₁
      elim reserved [
        | failure code ↦ ok (failure code, p₂)
        | success _ ↦ slow_pass answers p₂ (pager_hash p.mask id) id exclusive
      ]
  ])

unfoldable pub pager_next : Answers → Pager → Outcome (Result Page × Pager)
pager_next answers p =
    pager_fix answers (record p { next_page = (p.next_page + 1) % 2 ^ 32 }) p.next_page true
