-- ===== src/Common/Tests.antt =====
-- The tests and the conditional of the C code, on native numbers, and reads that may fault.
use Prim.Native.Nat.{ℕ, ◌≤◌, ◌<◌, compare, Ordering}
use mathlib.Core.Path.{◌≡◌, refl, subst}
use mathlib.Core.Logic.{◌↔◌, ◌⊎◌, inl, inr}
use mathlib.Core.Bool.{Bool, true, false}
use mathlib.Core.Option.{Option, none, some}
use native.Mathlib.Omega.{arith}

abbrev pub ltb : ℕ → ℕ → Bool
ltb a b = elim (compare a b) [ Ordering.lt ↦ true | _ ↦ false ]

abbrev pub leb : ℕ → ℕ → Bool
leb a b = elim (compare a b) [ Ordering.gt ↦ false | _ ↦ true ]

infix 50 ◌==◌
abbrev pub ◌==◌ : ℕ → ℕ → Bool
a == b = elim (compare a b) [ Ordering.eq ↦ true | _ ↦ false ]

infix 1 if◌then◌else◌
abbrev pub if◌then◌else◌ {ℓ} : {A : Type ℓ} → Bool → A → A → A
if true then x else y = x
if false then x else y = y

pub ==_iff : (a b : ℕ) → ((a == b) ≡ true) ↔ (a ≡ b)
==_iff a b = ground arith

pub ltb→lt : (a b : ℕ) → ltb a b ≡ true → a < b
ltb→lt a b h = ground arith

pub ltb→ge : (a b : ℕ) → ltb a b ≡ false → b ≤ a
ltb→ge a b h = ground arith

-- To split on a computed value and keep the equation.
pub Bool-cases : (b : Bool) → (b ≡ true) ⊎ (b ≡ false)
Bool-cases true = inl refl
Bool-cases false = inr refl

pub Option-cases {ℓ} : {A : Type ℓ} (o : Option A) → (o ≡ none) ⊎ ((a : A) × (o ≡ some a))
Option-cases none = inl refl
Option-cases (some a) = inr (a, refl)

-- To split on the test of a conditional.
pub if_cases {ℓ κ} :
    {A : Type ℓ} (P : A → Type κ) {x y : A} (b : Bool)
    → (b ≡ true → P x)
    → (b ≡ false → P y)
    → P (if b then x else y)
if_cases P true yes_case no_case = yes_case refl
if_cases P false yes_case no_case = no_case refl

-- `none` is a fault: a read that the C code must not make.
infixl 5 ◌>>=◌
abbrev pub ◌>>=◌ {ℓ κ} : {A : Type ℓ} {B : Type κ} → Option A → (A → Option B) → Option B
none >>= f = none
some a >>= f = f a

-- Inversion of a step that returned.
pub >>=-eq-some {ℓ κ} :
    {A : Type ℓ} {B : Type κ} (m : Option A) (f : A → Option B) {b : B}
    → (m >>= f) ≡ some b
    → (a : A) × (m ≡ some a) × (f a ≡ some b)
>>=-eq-some none f h = cc
>>=-eq-some (some a) f h = (a, refl, h)

-- The computation returns, and its result satisfies `P`.
pub record Returns {ℓ κ} {A : Type ℓ} (m : Option A) (P : A → Type κ) : Type (ℓ ⊔ κ) where
  pub value : A
  pub returns : m ≡ some value
  pub holds : P value

-- The rules by which a proof of `Returns` follows the code.
module _ {ℓ κ} {A : Type ℓ} {P : A → Type κ} where
  pub Returns-some : {a : A} → P a → Returns (some a) P
  Returns-some {a} h = record { value = a; returns = refl; holds = h }

  pub Returns-if :
      {x y : Option A} (b : Bool)
      → (b ≡ true → Returns x P)
      → (b ≡ false → Returns y P)
      → Returns (if b then x else y) P
  Returns-if true yes_case no_case = yes_case refl
  Returns-if false yes_case no_case = no_case refl

  pub Returns-bind {ι ν} :
      {B : Type ι} {Q : B → Type ν} {m : Option B} {f : B → Option A}
      → Returns m Q
      → ((b : B) → m ≡ some b → Q b → Returns (f b) P)
      → Returns (m >>= f) P
  Returns-bind {Q = Q} {m = none} r k = absurd (cc r.returns)
  Returns-bind {Q = Q} {m = some b} r k = k b refl (subst Q (cc r.returns) r.holds)

  pub Returns-weaken {ι} :
      {Q : A → Type ι} {m : Option A} → Returns m P → ((a : A) → P a → Q a) → Returns m Q
  Returns-weaken r k = record { value = r.value; returns = r.returns; holds = k r.value r.holds }
