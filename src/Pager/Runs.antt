-- ===== src/Pager/Runs.antt =====
-- Runs of the pager on the inputs of the source's tests.
use wednesday.Base.{ℕ, zero, suc, ◌≡◌, refl, true, false, some}
use wednesday.Base.Outcome.{Outcome, ok, trapped, blocked, Result, success, failure, ◌>>=◌, enomem}
use wednesday.Pager.Types.{Pager, Page}
use wednesday.Pager.Lookup.{pager_lookup, entry_acquire, entry_release, header_acquire}
use wednesday.Pager.Create.{Answers, pager_create, create_loop, fill_header}
use wednesday.Pager.Evict.{
  pager_evict, evict_loop, evict_round, try_evict, pager_directory_find_entry,
}
use wednesday.Pager.Fix.{pager_fix, fast_pass, slow_pass, finish_pass, reserve}
use wednesday.Pager.Open.{new_pager, pager_capacity}
use wednesday.Pager.Hash.{pager_hash, mix}
use wednesday.Pager.Directory.{entry_directory_lookup, lookup_buckets, pager_directory_insert}
use wednesday.Pager.Directory.{insert_bucket, pager_directory_remove, remove_bucket}
use wednesday.Latch.{latch_available}
use wednesday.Latch.Alone.{latch_acquire, latch_acquire_read, latch_acquire_write}
use wednesday.Latch.Alone.{latch_release_read, latch_release_write}

-- Every allocation succeeds, and no compare-exchange fails without reason.
abbrev pub granted : Answers
granted = record { page_memory = some (λ _. 0); bucket = true; spurious = λ _. false; rounds = 200 }

abbrev tested : Pager
tested = new_pager 124 64

-- Fix the pages `n` down to 1.
fix_down : ℕ → Pager → Outcome Pager
fix_down zero p = ok p
fix_down (suc n) p = do
  (r, p') ← pager_fix granted p (suc n) false
  elim r [ success _ ↦ fix_down n p' | failure _ ↦ trapped ]

-- How a call ended.
result_of : Outcome (Result Page × Pager) → Outcome (Result ℕ)
result_of (ok (success page, p)) = ok (success page.id)
result_of (ok (failure code, p)) = ok (failure code)
result_of trapped = trapped
result_of blocked = blocked

-- "fill pager": 43 pages fit in the 44 ring entries, and one more fails with ENOMEM.
fill_pager :
    result_of (do p ← fix_down 43 tested; pager_fix granted p 44 false) ≡ ok (failure enomem)
unfolding fix_down result_of pager_fix fast_pass slow_pass finish_pass reserve pager_lookup
    entry_acquire entry_release header_acquire pager_create create_loop fill_header pager_evict
    evict_loop evict_round try_evict pager_directory_find_entry pager_hash mix new_pager
    pager_capacity entry_directory_lookup lookup_buckets pager_directory_insert insert_bucket
    pager_directory_remove remove_bucket latch_acquire latch_acquire_read latch_acquire_write
    latch_release_read latch_release_write latch_available
fill_pager = refl
