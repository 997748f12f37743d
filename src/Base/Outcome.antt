-- ===== src/Base/Outcome.antt =====
-- How a call ends: with a value, in a trap (a failed `assert`, a null pointer that is read, a
-- division by zero), or not at all, as it spins on a latch that nobody releases. A function that
-- returns `result_t` ends with a value of `Result`.
use Prim.Native.Nat.{ℕ}
use mathlib.Core.Path.{◌≡◌, refl}
use mathlib.Core.Logic.{◌⊎◌, inl, inr}
use mathlib.Core.Bool.{Bool, true, false}
use mathlib.Core.Option.{Option, none, some}

pub data Outcome {ℓ} (A : Type ℓ) : Type ℓ where
  ok : A → Outcome A
  trapped : Outcome A
  blocked : Outcome A

-- SUCCESS with what `*out` was given, or FAILURE with the code that the thread's error state holds.
pub data Result {ℓ} (A : Type ℓ) : Type ℓ where
  success : A → Result A
  failure : ℕ → Result A

infixl 5 ◌>>=◌ ◌>>◌
abbrev pub ◌>>=◌ {ℓ κ} : {A : Type ℓ} {B : Type κ} → Outcome A → (A → Outcome B) → Outcome B
ok a >>= f = f a
trapped >>= f = trapped
blocked >>= f = blocked

abbrev pub ◌>>◌ {ℓ} : {B : Type ℓ} → Outcome (Unit {0}) → Outcome B → Outcome B
m >> k = m >>= λ _. k

abbrev pub assert : Bool → Outcome (Unit {0})
assert true = ok tt
assert false = trapped

-- `none` is a null pointer or a failed assert, and where a latch function spins.
abbrev pub or_trapped {ℓ} : {A : Type ℓ} → Option A → Outcome A
or_trapped none = trapped
or_trapped (some a) = ok a

abbrev pub or_blocked {ℓ} : {A : Type ℓ} → Option A → Outcome A
or_blocked none = blocked
or_blocked (some a) = ok a

-- A sequence that returns has returned from its first call, and from the rest.
pub >>=-eq-ok {ℓ κ} :
    {A : Type ℓ} {B : Type κ} (call : Outcome A) (next : A → Outcome B) {out : B}
    → (call >>= next) ≡ ok out
    → (x : A) × (call ≡ ok x) × (next x ≡ ok out)
>>=-eq-ok trapped next returned = cc
>>=-eq-ok blocked next returned = cc
>>=-eq-ok (ok x) next returned = (x, refl, returned)

-- EINVAL, EEXIST, ENOENT and ENOMEM
abbrev pub einval : ℕ
einval = 22

abbrev pub eexist : ℕ
eexist = 17

abbrev pub enoent : ℕ
enoent = 2

abbrev pub enomem : ℕ
enomem = 12

pub Outcome-cases {ℓ} :
    {A : Type ℓ} (m : Outcome A) → ((a : A) × (m ≡ ok a)) ⊎ ((m ≡ trapped) ⊎ (m ≡ blocked))
Outcome-cases (ok a) = inl (a, refl)
Outcome-cases trapped = inr (inl refl)
Outcome-cases blocked = inr (inr refl)

pub ok-injective {ℓ κ} :
    {A : Type ℓ} {B : Type κ} {a c : A} {b d : B}
    → ◌≡◌ {A = Outcome (A × B)} (ok (a, b)) (ok (c, d))
    → (a ≡ c) × (b ≡ d)
ok-injective e = (cc, cc)

-- The first call returns, so the rest is left.
pub >>=-step {ℓ κ} :
    {A : Type ℓ} {B : Type κ} (m : Outcome A) (f : A → Outcome B) (a : A) {r : Outcome B}
    → m ≡ ok a
    → f a ≡ r
    → (m >>= f) ≡ r
>>=-step m f a e g = rw e g
