-- ===== src/Latch.antt =====
-- include/latch.h and src/latch.c: a read-write latch in one atomic `int32_t`. Threads interleave
-- one shared access at a time; `value` is the local of that name. The word is an integer without
-- bound. In a `Move` a thread releases only what it holds; in Calls any thread may call a release.
pub mod Threads
pub mod Exclusion
pub mod Expected
pub mod Calls
pub mod Alone
mod Examples
use wednesday.Base.{ℕ, suc, ◌≡◌, ◌≢◌, Bool, true, false}
use wednesday.Base.Int.{ℤ, pos, negsuc, inc, dec, is_negative, is_zero}

-- What stands in the word while a thread writes.
abbrev pub exclusive_word : ℤ
exclusive_word = negsuc 0

-- `latch_init`
pub latch_init : ℤ → ℤ
latch_init w = pos 0

-- `latch_available`
unfoldable pub latch_available : ℤ → Bool
latch_available w = is_zero w

-- Where a thread stands, with its local `value` in the loops of the four acquire functions.
pub data Pc : Type 0 where
  idle : Pc
  acquire_read : (value : ℤ) → Pc
  try_acquire_read : (value : ℤ) → Pc
  acquire_write : (value : ℤ) → Pc
  try_acquire_write : (value : ℤ) → Pc
  refused : Pc  -- a `try` function has returned false
  reading : Pc  -- the latch is held, shared
  writing : Pc  -- the latch is held, exclusively
  dropping_read : Pc  -- between the assert and the update of `latch_release_read`
  dropping_write : Pc  -- the same in `latch_release_write`
  aborted : Pc  -- an assert failed

-- One step of one thread on the word `w`: the state after it. A weak compare-exchange may fail
-- though the word is the expected one, so the steps named `lose` are not guarded. Only a thread that
-- holds the latch in that mode starts a release here; `Call` of Latch/Calls adds the other calls.
pub data Move (w : ℤ) : Pc → ℤ → Pc → Type 0 where
  start_read : Move w idle w (acquire_read (pos 0))
  start_try_read : Move w idle w (try_acquire_read (pos 0))
  start_write : Move w idle w (acquire_write (pos 0))
  start_try_write : Move w idle w (try_acquire_write (pos 0))
  read_win : {v : ℤ} → is_negative v ≡ false → w ≡ v → Move w (acquire_read v) (inc v) reading
  read_lose : {v : ℤ} → is_negative v ≡ false → Move w (acquire_read v) w (acquire_read w)
  read_load : {v : ℤ} → is_negative v ≡ true → Move w (acquire_read v) w (acquire_read w)
  try_read_refuse : {v : ℤ} → is_negative v ≡ true → Move w (try_acquire_read v) w refused
  try_read_win :
      {v : ℤ} → is_negative v ≡ false → w ≡ v → Move w (try_acquire_read v) (inc v) reading
  try_read_lose :
      {v : ℤ} → is_negative v ≡ false → Move w (try_acquire_read v) w (try_acquire_read w)
  write_win : {v : ℤ} → is_zero v ≡ true → w ≡ v → Move w (acquire_write v) exclusive_word writing
  write_lose : {v : ℤ} → is_zero v ≡ true → Move w (acquire_write v) w (acquire_write w)
  write_load : {v : ℤ} → is_zero v ≡ false → Move w (acquire_write v) w (acquire_write w)
  try_write_refuse : {v : ℤ} → is_zero v ≡ false → Move w (try_acquire_write v) w refused
  try_write_win :
      {v : ℤ} → is_zero v ≡ true → w ≡ v → Move w (try_acquire_write v) exclusive_word writing
  try_write_lose : {v : ℤ} → is_zero v ≡ true → Move w (try_acquire_write v) w (try_acquire_write w)
  give_up : Move w refused w idle
  release_read : {n : ℕ} → w ≡ pos (suc n) → Move w reading w dropping_read
  release_read_aborts : ((n : ℕ) → w ≢ pos (suc n)) → Move w reading w aborted
  drop_read : Move w dropping_read (dec w) idle
  release_write : w ≡ exclusive_word → Move w writing w dropping_write
  release_write_aborts : w ≢ exclusive_word → Move w writing w aborted
  drop_write : Move w dropping_write (pos 0) idle
