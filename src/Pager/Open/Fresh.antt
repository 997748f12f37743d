-- ===== src/Pager/Open/Fresh.antt =====
-- The pager that `pager_open` gives out.
use wednesday.Base.{ℕ, ◌≡◌, ◌≢◌, refl, arith, none}
use wednesday.Pager.Types.{no_entry}
use wednesday.Pager.Directory.{entry_directory_lookup, lookup_buckets}
use wednesday.Pager.Directory.Laws.{no_entry-IsDistinct}
use wednesday.Pager.Open.{new_pager}
use wednesday.Pager.Invariant.{Inv}

no_entry_absent : (id : ℕ) → id ≢ 0 → entry_directory_lookup no_entry id ≡ none
unfolding entry_directory_lookup lookup_buckets
no_entry_absent id ne = ground arith

-- The pager that `pager_open` gives out satisfies the invariant.
pub new_pager-Inv : (page_size directory_size : ℕ) → Inv (new_pager page_size directory_size)
unfolding new_pager
new_pager-Inv page_size directory_size = record {
  links = record {
    distinct = λ x. no_entry-IsDistinct;
    mapped = λ i lt ne. absurd (ne refl);
    backed = λ x id o ne e. let absent = no_entry_absent id ne in cc;
  };
  idle = λ x. refl;
}
