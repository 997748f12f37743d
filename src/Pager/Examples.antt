-- ===== src/Pager/Examples.antt =====
-- The theorems on the pager at concrete inputs.
mod Ends
use wednesday.Base.{
  ℕ, ◌^◌, ◌≡◌, ◌≢◌, ◌⊎◌, refl, arith, true, false, none, some, [], ◌∷◌, ◌==◌, if◌then◌else◌,
}
use wednesday.Base.Int.{pos}
use wednesday.Base.Outcome.{Result, success, failure, einval, enomem}
use wednesday.Pager.Types.{Header, HashEntry, Pager, Page, no_entry}
use wednesday.Pager.Directory.{
  entry_directory_lookup, lookup_buckets, mapping_to, pager_directory_insert,
  pager_directory_remove,
}
use wednesday.Pager.Directory.Slots.{occurs}
use wednesday.Pager.Directory.Laws.{IsDistinct, lookup-insert, lookup-remove}
use wednesday.Pager.Fix.Unfix.Releases.{was_shared}
use wednesday.Pager.Links.{Links-emptied}
use wednesday.Pager.Lookup.{set_ring}
use wednesday.Pager.Evict.{pager_evict}
use wednesday.Pager.Evict.Loop.{pager_evict-ok}
use wednesday.Pager.Evict.Total.{Returns, pager_evict-Returns}
use wednesday.Pager.Fix.{pager_fix}
use wednesday.Pager.Fix.Fixed.{Fixed}
use wednesday.Pager.Fix.Correct.{pager_fix-ok}
use wednesday.Pager.Fix.Ready.{IsReady}
use wednesday.Pager.Fix.Total.{HasRoom, pager_fix-Returns}
use wednesday.Pager.Fix.Unfix.{Unfixed, pager_unfix-ok}
use wednesday.Pager.Open.{
  pager_struct, directory_array, ring_array, pager_open, new_pager, pager_capacity,
}
use wednesday.Pager.Open.Blocks.{pager_open_fails, pager_open_sizes, pager_open_success}
use wednesday.Pager.Open.Fresh.{new_pager-Inv}
use wednesday.Pager.Invariant.{Inv, Keeps, Shrinks}
use wednesday.Pager.Runs.{granted}

-- The pager of the source's tests.
abbrev pub opened : Pager
opened = new_pager 124 64

opened-IsReady : IsReady false opened 1
unfolding new_pager
opened-IsReady = record { ready = λ f h lt holds header. absurd (omega arith) }

opened-HasRoom : HasRoom granted opened
unfolding new_pager pager_capacity
opened-HasRoom = record {
  free = 0;
  in_ring = omega arith;
  unused = refl;
  fits = omega arith;
  word = omega arith;
  exact = λ n. refl;
  enough = omega arith;
}

pager_fix-Returns_example : Returns (pager_fix granted opened 1 false)
pager_fix-Returns_example =
    pager_fix-Returns granted opened 1 false (new_pager-Inv 124 64) opened-IsReady opened-HasRoom

-- The first page of the test, fixed.
fixed_one : Returns (pager_fix granted opened 1 false)
fixed_one =
    pager_fix-Returns granted opened 1 false (new_pager-Inv 124 64) opened-IsReady opened-HasRoom

pager_fix-ok_example :
    Inv fixed_one.0.1
    × Keeps opened fixed_one.0.1
    × (((page : Page) × (fixed_one.0.0 ≡ success page) × Fixed fixed_one.0.1 1 page)
        ⊎ (fixed_one.0.0 ≡ failure enomem))
pager_fix-ok_example =
    pager_fix-ok granted opened fixed_one.0.1 1 false fixed_one.0.0 (new_pager-Inv 124 64)
      (omega arith) fixed_one.1

after_eviction : Returns (pager_evict fixed_one.0.1)
after_eviction =
    pager_evict-Returns fixed_one.0.1
      (pager_fix-ok granted opened fixed_one.0.1 1 false fixed_one.0.0 (new_pager-Inv 124 64)
        (omega arith) fixed_one.1).0

pager_evict-ok_example :
    Inv after_eviction.0.1
    × Keeps fixed_one.0.1 after_eviction.0.1
    × Shrinks fixed_one.0.1 after_eviction.0.1
    × ((after_eviction.0.0 ≡ success tt) ⊎ (after_eviction.0.0 ≡ failure enomem))
pager_evict-ok_example =
    pager_evict-ok fixed_one.0.1 after_eviction.0.1 after_eviction.0.0
      (pager_fix-ok granted opened fixed_one.0.1 1 false fixed_one.0.0 (new_pager-Inv 124 64)
        (omega arith) fixed_one.1).0
      after_eviction.1

-- An entry that holds page 7 in ring entry 3.
abbrev entry_of_seven : HashEntry
entry_of_seven = record {
  latch = pos 0;
  first = mapping_to 7 3;
  second = no_entry.second;
  overflow = [];
}

entry_of_seven-IsDistinct : IsDistinct entry_of_seven
unfolding occurs
entry_of_seven-IsDistinct id ne = ground arith

abbrev entry_of_both : HashEntry
entry_of_both = record {
  latch = pos 0;
  first = mapping_to 7 3;
  second = mapping_to 71 4;
  overflow = [];
}

lookup-insert_example :
    ((j : ℕ)
      → j ≢ 0
      → entry_directory_lookup entry_of_both j
        ≡ (if 71 == j then some (some 4) else entry_directory_lookup entry_of_seven j))
    × IsDistinct entry_of_both
unfolding pager_directory_insert entry_directory_lookup lookup_buckets
lookup-insert_example =
    lookup-insert true entry_of_seven entry_of_both 71 4 refl refl (omega arith)
      entry_of_seven-IsDistinct

lookup-remove_example :
    ((j : ℕ)
      → j ≢ 0
      → entry_directory_lookup (pager_directory_remove entry_of_seven 7) j
        ≡ (if 7 == j then none else entry_directory_lookup entry_of_seven j))
    × IsDistinct (pager_directory_remove entry_of_seven 7)
    × ((pager_directory_remove entry_of_seven 7).latch ≡ pos 0)
lookup-remove_example = lookup-remove entry_of_seven 7 (omega arith) entry_of_seven-IsDistinct

pager_open_fails_example :
    ((pager_open 5 true false true 124 64).live ≡ []) × ((12 ≡ einval) ⊎ (12 ≡ enomem))
unfolding pager_open
pager_open_fails_example = pager_open_fails 5 true false true 124 64 12 refl

-- An error that nobody has cleared.
abbrev stale : ℕ
stale = 22

pager_open_success_example :
    ((pager_open stale true true true 124 (2 ^ 6)).result ≡ success (new_pager 124 (2 ^ 6)))
    × ((stale ≡ 0)
        → (pager_open stale true true true 124 (2 ^ 6)).live
          ≡ pager_struct ∷ directory_array ∷ ring_array ∷ [])
    × ((stale ≢ 0) → (pager_open stale true true true 124 (2 ^ 6)).live ≡ [])
pager_open_success_example = pager_open_success stale 124 6 (omega arith)

-- A header that two readers hold, in ring entry 0.
abbrev read_twice : Header
read_twice = record { id = 0; latch = pos 2; flags = 0; contents = λ _. 0 }

abbrev with_readers : Pager
with_readers = set_ring opened 0 (record { page_id = 0; header = some read_twice })

with_readers-Inv : Inv with_readers
unfolding new_pager
with_readers-Inv = record {
  links =
      Links-emptied (new_pager-Inv 124 64).links 0
        (record { page_id = 0; header = some read_twice }) refl refl;
  idle = λ x. refl;
}

pager_unfix-ok_example : Unfixed with_readers (record { id = 0; frame = 0 }) read_twice (pos 1)
unfolding new_pager
pager_unfix-ok_example =
    pager_unfix-ok with_readers (record { id = 0; frame = 0 }) read_twice (pos 1) with_readers-Inv
      refl (was_shared refl)
