-- ===== src/Pager/Open/Serves.antt =====
-- What a pager that `pager_open` has given out can do.
use wednesday.Base.{ℕ, ◌+◌, ◌%◌, ◌^◌}
use wednesday.Pager.Types.{Pager}
use wednesday.Pager.Fix.Fixed.{Fixed}
use wednesday.Pager.Open.{new_pager}

-- The pager from which `pager_next` has taken a page id.
abbrev numbered : Pager → Pager
numbered p = record p { next_page = (p.next_page + 1) % 2 ^ 32 }

module _ (page_size k : ℕ) where
  abbrev given_out : Pager
  given_out = new_pager page_size (2 ^ k)
