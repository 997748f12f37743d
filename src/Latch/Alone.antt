-- ===== src/Latch/Alone.antt =====
-- The latch functions as one thread sees them while no other thread moves: what an acquire leaves
-- in the word, `none` where it spins, and what a release leaves, `none` where its assert fails.
use wednesday.Base.{zero, suc, ◌≡◌, refl, arith, Bool, true, false, Option, none, some}
use wednesday.Base.{if◌then◌else◌, sym, ◌∙◌}
use mathlib.Core.Path.{subst}
use wednesday.Base.Int.{ℤ, pos, negsuc, inc, is_negative, is_zero}
use wednesday.Latch.{Pc, Move, exclusive_word}
use wednesday.Latch.Pc.{acquire_read, acquire_write, reading, writing}
use wednesday.Latch.Move.{read_win, read_lose, read_load, write_win, write_lose, write_load}

unfoldable pub latch_acquire_read : ℤ → Option ℤ
latch_acquire_read w = if is_negative w then none else some (inc w)

unfoldable pub latch_acquire_write : ℤ → Option ℤ
latch_acquire_write w = if is_zero w then some exclusive_word else none

unfoldable pub latch_acquire : Bool → ℤ → Option ℤ
unfolding latch_acquire_read latch_acquire_write
latch_acquire exclusive w = if exclusive then latch_acquire_write w else latch_acquire_read w

unfoldable pub latch_release_read : ℤ → Option ℤ
latch_release_read (pos zero) = none
latch_release_read (pos (suc n)) = some (pos n)
latch_release_read (negsuc n) = none

unfoldable pub latch_release_write : ℤ → Option ℤ
latch_release_write (pos n) = none
latch_release_write (negsuc zero) = some (pos 0)
latch_release_write (negsuc (suc n)) = none

-- Moves of one thread that no move of another comes between.
pub data Moves (w : ℤ) (p : Pc) : ℤ → Pc → Type 0 where
  stay : Moves w p w p
  then_move : {v u : ℤ} {q r : Pc} → Moves w p v q → Move v q u r → Moves w p u r

-- The start of `latch_acquire`, what it waits in, and its end.
abbrev pub asking : Bool → Pc
asking true = acquire_write (pos 0)
asking false = acquire_read (pos 0)

abbrev pub waiting : Bool → ℤ → Pc
waiting true v = acquire_write v
waiting false v = acquire_read v

abbrev pub holding : Bool → Pc
holding true = writing
holding false = reading

-- Where the acquire function gives a word, some run of the loop ends with it and holds the latch:
-- it loads the word once, and then its exchange succeeds.
acquires :
    (exclusive : Bool) (w w' : ℤ)
    → latch_acquire exclusive w ≡ some w'
    → Moves w (asking exclusive) w' (holding exclusive)
unfolding latch_acquire
acquires true (pos zero) w' e =
    subst (λ u. Moves (pos 0) (acquire_write (pos 0)) u writing)
      (let same : exclusive_word ≡ w' = cc in same) (then_move stay (write_win refl refl))
acquires true (pos (suc n)) w' e = cc
acquires true (negsuc n) w' e = cc
acquires false (pos n) w' e =
    subst (λ u. Moves (pos n) (acquire_read (pos 0)) u reading)
      (let same : inc (pos n) ≡ w' = cc in same)
      (then_move (then_move stay (read_lose refl)) (read_win refl refl))
acquires false (negsuc n) w' e = cc

-- The two words and places that a spinning thread goes between.
pub record Spins (exclusive : Bool) (w w' : ℤ) (p : Pc) : Type 0 where
  pub same_word : w' ≡ w
  pub value : ℤ
  pub place : p ≡ waiting exclusive value

Move-Spins :
    (exclusive : Bool) {w w' u : ℤ} {p q : Pc}
    → latch_acquire exclusive w ≡ none
    → Spins exclusive w w' p
    → Move w' p u q
    → Spins exclusive w u q
unfolding latch_acquire
Move-Spins true e s (write_lose h) = record { same_word = s.same_word; value = _; place = refl }
Move-Spins true e s (write_load h) = record { same_word = s.same_word; value = _; place = refl }
Move-Spins true {w} {w'} e s (write_win {v} h g) =
    let same : w ≡ v = sym s.same_word ∙ g in ground arith
Move-Spins true e s mv = let at = s.place in absurd (cc at)
Move-Spins false e s (read_lose h) = record { same_word = s.same_word; value = _; place = refl }
Move-Spins false e s (read_load h) = record { same_word = s.same_word; value = _; place = refl }
Move-Spins false {w} {w'} e s (read_win {v} h g) =
    let same : w ≡ v = sym s.same_word ∙ g in ground arith
Move-Spins false e s mv = let at = s.place in absurd (cc at)

spins :
    (exclusive : Bool) {w w' : ℤ} {p : Pc}
    → latch_acquire exclusive w ≡ none
    → Moves w (asking exclusive) w' p
    → Spins exclusive w w' p
spins true e stay = record { same_word = refl; value = pos 0; place = refl }
spins false e stay = record { same_word = refl; value = pos 0; place = refl }
spins exclusive e (then_move run mv) = Move-Spins exclusive e (spins exclusive e run) mv

-- `latch_acquire` on a word that no other thread moves. Where `latch_acquire exclusive w` gives a
-- word, a run of the loop ends with it and holds the latch; where it gives none, every run leaves
-- the word as it is and is still in the loop.
pub latch_acquire_alone :
    (exclusive : Bool) (w : ℤ)
    → ((w' : ℤ)
        → latch_acquire exclusive w ≡ some w'
        → Moves w (asking exclusive) w' (holding exclusive))
      × ((w' : ℤ) (p : Pc)
          → latch_acquire exclusive w ≡ none
          → Moves w (asking exclusive) w' p
          → Spins exclusive w w' p)
latch_acquire_alone exclusive w = (acquires exclusive w, λ w' p e run. spins exclusive e run)
