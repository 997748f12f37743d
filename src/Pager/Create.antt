-- ===== src/Pager/Create.antt =====
-- `pager_create`: a ring entry and a header for a page that is in no entry of the directory.
pub mod Filled
pub mod Total
use wednesday.Base.{
  ℕ, zero, suc, ◌+◌, ◌%◌, ◌^◌, Memory, Bool, true, false, Option, none, some, ◌==◌, ◌||◌, not,
  if◌then◌else◌,
}
use wednesday.Base.Int.{ℤ, pos, is_negative}
use wednesday.Base.Outcome.{
  Outcome, ok, trapped, blocked, Result, success, failure, ◌>>=◌, ◌>>◌, assert, enomem,
}
use wednesday.Pager.Types.{Header, HashEntry, RingEntry, Pager}
use wednesday.Pager.Directory.{pager_directory_insert}
use wednesday.Pager.Lookup.{set_entry, set_ring}

-- What the C library and the processor answer during one call: the memory that `malloc` gives for a
-- page and its header, whether it gives a bucket, and which rounds of the loop meet a weak
-- compare-exchange that fails though the entry is free. A loop that is still running after `rounds`
-- rounds is `blocked`.
pub record Answers : Type 0 where
  pub page_memory : Option Memory
  pub bucket : Bool
  pub spurious : ℕ → Bool
  pub rounds : ℕ

-- `ring_entry->header`, allocated where it is null.
abbrev pub header_of : Option Memory → RingEntry → Option Header
header_of memory r = elim (r.header) [
  | some h ↦ some h
  | none ↦ elim memory [
    | none ↦ none
    | some m ↦ some (record { id = 0; latch = pos 0; flags = 0; contents = m })
  ]
]

-- From the header on: fill it and insert it, or give the ring entry up.
unfoldable pub fill_header : Answers → Pager → ℕ → ℕ → ℕ → Result ℕ × Pager
fill_header answers p index id frame = elim (header_of answers.page_memory (p.ring frame)) [
  | none ↦ (failure enomem, set_ring p frame (record (p.ring frame) { page_id = 0 }))
  | some h ↦
      let h' : Header = record h { id = id; flags = 0; latch = pos 0 } in
      elim (pager_directory_insert answers.bucket (p.directory index) id frame) [
        | none ↦ (failure enomem, set_ring p frame (record { page_id = 0; header = some h' }))
        | some e ↦ (
          success frame,
          set_entry (set_ring p frame (record { page_id = id; header = some h' })) index e,
        )
      ]
]

-- The `while (true)` of `pager_create`. `%` by a size of 0 traps.
unfoldable pub create_loop : ℕ → Answers → Pager → ℕ → ℕ → Outcome (Result ℕ × Pager)
create_loop zero answers p index id = blocked
create_loop (suc fuel) answers p index id =
    let frame = p.create_head % p.size in
    let p' : Pager = record p { create_head = (p.create_head + 1) % 2 ^ 32 } in
    let rest = create_loop fuel answers p' index id in
    if p.size == 0
    then trapped
    else if not ((p.ring frame).page_id == 0) || answers.spurious fuel
    then rest
    else ok (fill_header answers p' index id frame)

unfoldable pub pager_create : Answers → Pager → ℕ → ℕ → Outcome (Result ℕ × Pager)
pager_create answers p index id = do
  assert (is_negative (p.directory index).latch)
  create_loop answers.rounds answers p index id
