-- ===== src/Pager/Open.antt =====
-- `pager_open` and the `errdefer` of include/deffer.h.
pub mod Blocks
pub mod Fresh
pub mod Serves
use wednesday.Base.{
  ℕ, ◌+◌, ◌-◌, ◌*◌, ◌/◌, ◌%◌, ◌^◌, Bool, true, false, none, List, [], ◌∷◌, bit_and, ◌==◌, ◌&&◌, not,
  if◌then◌else◌,
}
use wednesday.Base.Outcome.{Result, success, failure, einval, enomem}
use wednesday.Pager.Types.{Pager, no_entry}

-- Whether a handler of `defer` (`err` false) or `errdefer` (`err` true) runs when its scope is left:
-- `error_code` is the thread's last error.
unfoldable pub defer_runs : Bool → ℕ → Bool
defer_runs err error_code = not (err && error_code == 0)

-- The three blocks that `pager_open` allocates.
pub data PagerBlock : Type 0 where
  pager_struct directory_array ring_array : PagerBlock

-- What is left of the allocated blocks when the handlers `errdefer(free, …)` have been passed.
abbrev pub kept : ℕ → List PagerBlock → List PagerBlock
kept error_code blocks = if defer_runs true error_code then [] else blocks

pub record Opened : Type 0 where
  pub result : Result Pager
  pub live : List PagerBlock

-- `(uint32_t)(directory_size * 0.7)`. The double 0.7 is 6305039478318694 / 2 ^ 53, and its product
-- with a power of two is exact.
unfoldable pub pager_capacity : ℕ → ℕ
pager_capacity directory_size = directory_size * 6305039478318694 / 2 ^ 53

abbrev pub pager_get_page_size : Pager → ℕ
pager_get_page_size p = p.page_size

unfoldable pub new_pager : ℕ → ℕ → Pager
new_pager page_size directory_size = record {
  page_size = page_size;
  size = pager_capacity directory_size;
  mask = (directory_size + 2 ^ 32 - 1) % 2 ^ 32;
  page_count = 0;
  evict_head = 0;
  create_head = 0;
  next_page = 1;
  directory = λ _. no_entry;
  ring = λ _. record { page_id = 0; header = none };
}

-- `a`, `b` and `c` say which of the three allocations succeed; `error_code` is the thread's last
-- error before the call. A failure sets the error code before the handlers run.
unfoldable pub pager_open : ℕ → Bool → Bool → Bool → ℕ → ℕ → Opened
pager_open error_code a b c page_size directory_size =
    if not (bit_and directory_size ((directory_size + 2 ^ 32 - 1) % 2 ^ 32) == 0)
    then record { result = failure einval; live = [] }
    else if not a
    then record { result = failure enomem; live = [] }
    else if not b
    then record { result = failure enomem; live = kept enomem (pager_struct ∷ []) }
    else if not c
    then record {
      result = failure enomem;
      live = kept enomem (pager_struct ∷ directory_array ∷ []);
    }
    else record {
      result = success (new_pager page_size directory_size);
      live = kept error_code (pager_struct ∷ directory_array ∷ ring_array ∷ []);
    }
