-- ===== src/Pager/Examples/Ends.antt =====
-- Eviction and the end of a pager, at concrete inputs.
use wednesday.Base.{◌≡◌, refl, arith, false, List}
use wednesday.Base.Int.{pos}
use wednesday.Base.Outcome.{Outcome, ok, trapped, blocked, Result, success}
use wednesday.Pager.Types.{Header, Pager, Page}
use wednesday.Pager.Runs.{granted}
use wednesday.Pager.Invariant.{Inv}
use wednesday.Pager.Links.{Links-header}
use wednesday.Pager.Open.Fresh.{new_pager-Inv}
use wednesday.Pager.Examples.{opened}
use wednesday.Pager.Lookup.{set_header, pager_lookup, entry_acquire, entry_release, header_acquire}
use wednesday.Pager.Create.{pager_create, create_loop, fill_header}
use wednesday.Pager.Evict.{pager_evict}
use wednesday.Pager.Evict.Frees.{Evicts, pager_evict_frees}
use wednesday.Pager.Fix.{pager_fix, fast_pass, slow_pass, finish_pass, reserve}
use wednesday.Pager.Fix.Correct.{pager_fix-ok}
use wednesday.Pager.Open.{new_pager, pager_capacity}
use wednesday.Pager.Hash.{pager_hash, mix}
use wednesday.Pager.Directory.{
  entry_directory_lookup, lookup_buckets, pager_directory_insert, insert_bucket,
}
use wednesday.Pager.Close.{Block, pager_close}
use wednesday.Pager.Close.Freed.{owns, once, count, pager_close_frees}
use wednesday.Latch.{latch_available}
use wednesday.Latch.Alone.{
  latch_acquire, latch_acquire_read, latch_acquire_write, latch_release_read, latch_release_write,
}

-- The pager of the tests with page 1, fixed and unfixed again.
pager_of : Outcome (Result Page × Pager) → Pager
pager_of (ok (r, p)) = p
pager_of trapped = opened
pager_of blocked = opened

one_fixed : Pager
unfolding pager_of
one_fixed = pager_of (pager_fix granted opened 1 false)

one_fixed_run :
    pager_fix granted opened 1 false ≡ ok (success (record { id = 1; frame = 0 }), one_fixed)
unfolding one_fixed pager_of pager_fix fast_pass slow_pass finish_pass reserve pager_lookup
    entry_acquire entry_release header_acquire pager_create create_loop fill_header pager_hash mix
    new_pager pager_capacity entry_directory_lookup lookup_buckets pager_directory_insert
    insert_bucket latch_acquire latch_acquire_read latch_acquire_write latch_release_read
    latch_release_write latch_available
one_fixed_run = refl

one_fixed-Inv : Inv one_fixed
one_fixed-Inv =
    (pager_fix-ok granted opened one_fixed 1 false (success (record { id = 1; frame = 0 }))
      (new_pager-Inv 124 64) (omega arith) one_fixed_run).0

abbrev fixed_header : Header
fixed_header = record { id = 1; latch = pos 1; flags = 0; contents = λ _. 0 }

abbrev waiting : Header
waiting = record fixed_header { latch = pos 0; flags = 2 }

abbrev one_waiting : Pager
one_waiting = set_header one_fixed 0 waiting

one_waiting-Inv : Inv one_waiting
unfolding one_fixed pager_of pager_fix fast_pass slow_pass finish_pass reserve pager_lookup
    entry_acquire entry_release header_acquire pager_create create_loop fill_header pager_hash mix
    new_pager pager_capacity entry_directory_lookup lookup_buckets pager_directory_insert
    insert_bucket latch_acquire latch_acquire_read latch_acquire_write latch_release_read
    latch_release_write latch_available
one_waiting-Inv = record {
  links = Links-header one_fixed-Inv.links 0 fixed_header waiting refl refl;
  idle = one_fixed-Inv.idle;
}

pager_evict_frees_example : Evicts one_waiting (pager_evict one_waiting)
unfolding one_fixed pager_of pager_fix fast_pass slow_pass finish_pass reserve pager_lookup
    entry_acquire entry_release header_acquire pager_create create_loop fill_header pager_hash mix
    new_pager pager_capacity entry_directory_lookup lookup_buckets pager_directory_insert
    insert_bucket latch_acquire latch_acquire_read latch_acquire_write latch_release_read
    latch_release_write latch_available
pager_evict_frees_example =
    pager_evict_frees one_waiting 0 waiting one_waiting-Inv (omega arith)
      (record { holds = omega arith; header = refl; free = refl }) (omega arith)

pager_close_frees_example :
    (freed : List Block) × (pager_close 66 opened ≡ ok (success tt, freed))
    × ((b : Block) → count b freed ≡ once (owns opened b))
unfolding new_pager
pager_close_frees_example = pager_close_frees 66 opened (omega arith) (omega arith)
