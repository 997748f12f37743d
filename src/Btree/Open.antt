-- ===== src/Btree/Open.antt =====
-- `btree_open`, `btree_create` and `btree_close`.
use wednesday.Base.{ℕ, ◌+◌, ◌-◌, ◌%◌, ◌^◌, Bool, true, false, Memory, not, if◌then◌else◌}
use wednesday.Base.Outcome.{Outcome, ok, Result, success, failure, ◌>>=◌, enomem}
use wednesday.Base.Words.{store16, store32}
use wednesday.Pager.Open.{defer_runs, pager_get_page_size}
use wednesday.Btree.Layout.{
  header_size, at_cell_count, at_data_start, at_free_space, at_flags, at_right, page_flags_package,
}
use wednesday.Btree.World.{World, Btree, next_page, unfix, page_bytes, set_bytes}

-- The tree, and whether its block is still allocated; `granted` says whether `malloc` gives it.
unfoldable pub btree_open : World → Bool → ℕ → Result (Btree × Bool) × World
unfolding defer_runs
btree_open w granted root =
    if granted
    then (
      success (
        record { root = root; page_size = pager_get_page_size w.pager },
        not (defer_runs true w.error_code),
      ),
      w,
    )
    else (failure enomem, record w { error_code = enomem })

-- The header of an empty leaf, over the bytes that its page held.
unfoldable pub empty_root : Memory → ℕ → ℕ → Memory
empty_root page page_size type =
    let page₁ = store16 (store16 page at_cell_count 0) at_data_start page_size in
    let page₂ = store16 page₁ at_free_space ((page_size + 2 ^ 64 - header_size) % 2 ^ 16) in
    store32 (store16 page₂ at_flags (page_flags_package true type)) at_right 0

unfoldable pub btree_create : World → Bool → ℕ → Outcome (Result (Btree × Bool) × World)
unfolding btree_open empty_root
btree_create w granted type = do
  (r, w₁) ← next_page w
  elim r [
    | failure code ↦ ok (failure code, w₁)
    | success root ↦ do
      bytes ← page_bytes w₁ root
      w₂ ← set_bytes w₁ root (empty_root bytes w₁.pager.page_size type)
      let (opened, w₃) = btree_open w₂ granted root.id
      w₄ ← unfix w₃ root
      ok (opened, w₄)
  ]

-- The tree's block is freed.
abbrev btree_close : Btree × Bool → Result (Unit {0}) × (Btree × Bool)
btree_close (tree, live) = (success tt, (tree, false))
