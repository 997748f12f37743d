-- ===== src/Pager/Evict/Frees.antt =====
-- A page that nobody has fixed is evicted by the second time that the hand comes to it.
use wednesday.Base.{
  ℕ, zero, suc, ◌+◌, ◌*◌, ◌-◌, ◌/◌, ◌%◌, ◌^◌, ◌<◌, ◌≡◌, ◌≢◌, ◌⊎◌, inl, inr, ◌∙◌, sym, ap, arith,
  Bool, true, false, some, bit_and,
}
use wednesday.Base.Bits.{bit_and_mask}
use wednesday.Base.Bits.Digit.{bit_and-digit}
use wednesday.Base.Outcome.{Outcome, ok, Result, success}
use wednesday.Pager.Types.{Header, RingEntry, Pager, flag_ref}
use wednesday.Pager.Evict.{evict_round, evict_loop, pager_evict}
use wednesday.Pager.Evict.Loop.{evict_round-ok}
use wednesday.Pager.Evict.Total.{evict_round-Returns}
use wednesday.Pager.Evict.Turns.{IsFree, Turn, without_ref, under_hand, Seen, evict_round-Seen}
use wednesday.Pager.Evict.Turns.Turn.{passed, spared, taken}
use wednesday.Pager.Invariant.{Inv}
use native.Mathlib.Decide.{ℕ_discrete}
use native.Mathlib.Nat.{mod-lt, mod-eq_of_lt, mod-add-mod, add-mod_right}

-- An eviction that succeeds has emptied a ring entry that held a page.
abbrev pub Evicts : Pager → Outcome (Result (Unit {0}) × Pager) → Type 0
Evicts p m =
    (p' : Pager) × (m ≡ ok (success tt, p'))
    × ((g : ℕ) × (g < p.size) × ((p.ring g).page_id ≢ 0) × ((p'.ring g).page_id ≡ 0))

without_ref_clear : (h : Header) → bit_and (without_ref h).flags flag_ref ≡ 0
without_ref_clear h = omega (
  arith,
  bit_and-digit (bit_and h.flags 253) 2,
  bit_and_mask 1 (bit_and h.flags 253 / 2),
  bit_and-digit h.flags 253,
  bit_and-digit (h.flags / 2) 126,
)

-- The hand comes to every entry within one turn.
hand_reaches :
    (head size f : ℕ)
    → f < size
    → (k : ℕ) × (k < size) × ((head + k) % size ≡ f) × ((head + (k + size)) % size ≡ f)
hand_reaches head size f lt = elim (ℕ_discrete (head % size - f) 0) [
  | yes low ↦ at (f - head % size) (omega arith) (inl (omega arith))
  | no high ↦ at (size + f - head % size) (omega arith) (inr (omega arith))
]
  where
    below : head % size < size
    below = mod-lt head (omega arith)

    at :
        (k : ℕ)
        → k < size
        → (head % size + k ≡ f) ⊎ (head % size + k ≡ f + size)
        → (k : ℕ) × (k < size) × ((head + k) % size ≡ f) × ((head + (k + size)) % size ≡ f)
    at k small there = (k, small, first, again)
      where
        first : (head + k) % size ≡ f
        first = sym (mod-add-mod head size k) ∙ elim there [
          | inl e ↦ ap (λ n. n % size) e ∙ mod-eq_of_lt lt
          | inr e ↦ ap (λ n. n % size) e ∙ add-mod_right f size ∙ mod-eq_of_lt lt
        ]

        again : (head + (k + size)) % size ≡ f
        again =
            let e : head + (k + size) ≡ head + k + size = omega arith in
            ap (λ n. n % size) e ∙ add-mod_right (head + k) size ∙ first

-- What a round that evicts nothing leaves of a page that nobody has fixed: it is still there, and
-- nobody has fixed it; where it stood under the hand, its flag is clear now.
module _ (entry entry' : RingEntry) (h : Header) (is : IsFree entry h) where
  Turn-spares : Turn entry entry' false → IsFree entry' (without_ref h)
  Turn-spares (passed no_eviction same busy) = absurd (busy h is)
  Turn-spares (spared k no_eviction header set same) =
      let one : k ≡ h = cc (header, is.header) in
      record {
        holds = λ e. is.holds (sym (ap (λ (r : RingEntry). r.page_id) same) ∙ e);
        header = ap (λ (r : RingEntry). r.header) same ∙ ap (λ u. some (without_ref u)) one;
        free = is.free;
      }
  Turn-spares (taken eviction holds empty) = cc

  Turn-clear : bit_and h.flags flag_ref ≡ 0 → Turn entry entry' false → ⊥
  Turn-clear clear (passed no_eviction same busy) = busy h is
  Turn-clear clear (spared k no_eviction header set same) =
      let one : k ≡ h = cc (header, is.header) in
      set (ap (λ (u : Header). bit_and u.flags flag_ref) one ∙ clear)
  Turn-clear clear (taken eviction holds empty) = cc

IsFree-stays :
    (p p' : Pager) (f : ℕ) (h : Header)
    → p'.ring f ≡ p.ring f
    → IsFree (p.ring f) h
    → IsFree (p'.ring f) h
IsFree-stays p p' f h same is = record {
  holds = λ e. is.holds (ap (λ (r : RingEntry). r.page_id) (sym same) ∙ e);
  header = ap (λ (r : RingEntry). r.header) same ∙ is.header;
  free = is.free;
}

Turn-taken :
    (entry entry' : RingEntry) → Turn entry entry' true → (entry.page_id ≢ 0) × (entry'.page_id ≡ 0)
Turn-taken entry entry' (passed no_eviction same busy) = cc
Turn-taken entry entry' (spared h no_eviction header set same) = cc
Turn-taken entry entry' (taken eviction holds empty) = (holds, empty)

-- One round, and what the rounds after it do.
evict_loop-Evicts :
    (rounds : ℕ) (p : Pager)
    → Inv p
    → p.size ≢ 0
    → ((q : Pager) → Inv q → q.size ≡ p.size → Seen p q false → Evicts q (evict_loop rounds q))
    → Evicts p (evict_loop (suc rounds) p)
unfolding evict_loop
evict_loop-Evicts rounds p i sized later =
    let ((evicted, q), one) = evict_round-Returns p i sized in step evicted q one
  where
    step :
        (evicted : Bool) (q : Pager)
        → evict_round p ≡ ok (evicted, q)
        → Evicts p (evict_loop (suc rounds) p)
    step true q one =
        let seen = evict_round-Seen p q true i one in
        let (holds, empty) = Turn-taken _ _ seen.turn in
        (q, ground arith, (under_hand p, mod-lt p.evict_head (omega arith), holds, empty))
    step false q one =
        let (j, k, s) = evict_round-ok p q false i one in
        let (p', rest, (g, lt, holds, empty)) =
          later q j k.size_same (evict_round-Seen p q false i one) in
        let held : (p.ring g).page_id ≢ 0 =
          λ e. elim (s.each g) [ inl same ↦ holds (same ∙ e) | inr gone ↦ holds gone ] in
        (p', ground arith, (g, omega (arith, k.size_same), held, empty))

hand_away : (head size k f : ℕ) → (head + k) % size ≡ f → f ≢ head % size → k ≢ 0
hand_away head size k f reaches other z =
    let e : head + k ≡ head = omega arith in other (sym reaches ∙ ap (λ n. n % size) e)

-- The hand has moved on by one.
hand_nearer :
    (p q : Pager) (k f : ℕ)
    → Seen p q false
    → q.size ≡ p.size
    → (p.evict_head + k) % p.size ≡ f
    → p.evict_head + k < 2 ^ 32
    → k ≢ 0
    → ((q.evict_head + (k - 1)) % q.size ≡ f) × (q.evict_head + (k - 1) < 2 ^ 32)
hand_nearer p q k f seen same reaches word ne =
    let e : q.evict_head + (k - 1) ≡ p.evict_head + k = omega (arith, seen.hand) in
    (ap (λ n. n % q.size) e ∙ ap (λ n. (p.evict_head + k) % n) same ∙ reaches, omega arith)

-- The hand is `k` entries before a free page whose flag is clear.
evict_loop_clear :
    (rounds k f : ℕ) (p : Pager) (h : Header)
    → Inv p
    → p.size ≢ 0
    → IsFree (p.ring f) h
    → bit_and h.flags flag_ref ≡ 0
    → (p.evict_head + k) % p.size ≡ f
    → p.evict_head + k < 2 ^ 32
    → k < rounds
    → Evicts p (evict_loop rounds p)
evict_loop_clear zero k f p h i sized is clear reaches word lt = absurd (omega arith)
evict_loop_clear (suc rounds) k f p h i sized is clear reaches word lt =
    evict_loop-Evicts rounds p i sized (λ q j same seen. elim (ℕ_discrete f (under_hand p)) [
      | yes here ↦ absurd (Turn-clear (p.ring (under_hand p)) _ h (rw here at is) clear seen.turn)
      | no other ↦
          let away : k ≢ 0 = hand_away p.evict_head p.size k f reaches other in
          let (reaches', word') = hand_nearer p q k f seen same reaches word away in
          evict_loop_clear rounds (k - 1) f q h j (λ z. sized (sym same ∙ z))
            (IsFree-stays p q f h (seen.others f other) is) clear reaches' word' (omega arith)
    ])

-- The hand comes to a free page in `k` entries, and again in `m`.
evict_loop_free :
    (rounds k m f : ℕ) (p : Pager) (h : Header)
    → Inv p
    → p.size ≢ 0
    → IsFree (p.ring f) h
    → (p.evict_head + k) % p.size ≡ f
    → (p.evict_head + m) % p.size ≡ f
    → p.evict_head + m < 2 ^ 32
    → k < m
    → m < rounds
    → Evicts p (evict_loop rounds p)
evict_loop_free zero k m f p h i sized is first again word lt more = absurd (omega arith)
evict_loop_free (suc rounds) k m f p h i sized is first again word lt more =
    evict_loop-Evicts rounds p i sized (λ q j same seen.
      let sized' : q.size ≢ 0 = λ z. sized (sym same ∙ z) in
      let (again', word') = hand_nearer p q m f seen same again word (omega arith) in
      elim (ℕ_discrete f (under_hand p)) [
        | yes here ↦
            let spared_here : IsFree (q.ring (under_hand p)) (without_ref h) =
              Turn-spares (p.ring (under_hand p)) _ h (rw here at is) seen.turn in
            evict_loop_clear rounds (m - 1) f q (without_ref h) j sized' (rw here spared_here)
              (without_ref_clear h) again' word' (omega arith)
        | no other ↦
            let away : k ≢ 0 = hand_away p.evict_head p.size k f first other in
            let (first', _) = hand_nearer p q k f seen same first (omega arith) away in
            evict_loop_free rounds (k - 1) (m - 1) f q h j sized'
              (IsFree-stays p q f h (seen.others f other) is) first' again' word' (omega arith)
              (omega arith)
      ])

-- While the ring of a pager with the invariant holds a page that nobody has fixed, `pager_evict`
-- succeeds, whatever the flags of the pages are: it empties a ring entry that held a page. The hand's
-- counter is two turns of the ring away from 2 ^ 32, where it starts from 0 again.
pub pager_evict_frees :
    (p : Pager) (f : ℕ) (h : Header)
    → Inv p
    → f < p.size
    → IsFree (p.ring f) h
    → p.evict_head + 2 * p.size < 2 ^ 32
    → Evicts p (pager_evict p)
unfolding pager_evict
pager_evict_frees p f h i lt is word =
    let (k, small, first, again) = hand_reaches p.evict_head p.size f lt in
    evict_loop_free (p.size * 2 % 2 ^ 32) k (k + p.size) f p h i (omega arith) is first again
      (omega arith) (omega arith) (omega arith)
