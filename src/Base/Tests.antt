-- ===== src/Base/Tests.antt =====
-- Boolean tests on the native numbers, the conditional, and case splits that keep the equation.
use Prim.Native.Nat.{ℕ, ◌%◌, compare, Ordering}
use mathlib.Core.Path.{◌≡◌, refl}
use mathlib.Core.Logic.{◌⊎◌, inl, inr}
use mathlib.Core.Bool.{Bool, true, false}
use mathlib.Core.Option.{Option, none, some}

abbrev pub ltb : ℕ → ℕ → Bool
ltb a b = elim (compare a b) [ Ordering.lt ↦ true | _ ↦ false ]

abbrev pub leb : ℕ → ℕ → Bool
leb a b = elim (compare a b) [ Ordering.gt ↦ false | _ ↦ true ]

infix 50 ◌==◌
abbrev pub ◌==◌ : ℕ → ℕ → Bool
a == b = elim (compare a b) [ Ordering.eq ↦ true | _ ↦ false ]

infix 1 if◌then◌else◌
abbrev pub if◌then◌else◌ {ℓ} : {A : Type ℓ} → Bool → A → A → A
if true then x else y = x
if false then x else y = y

pub Bool-cases : (b : Bool) → (b ≡ true) ⊎ (b ≡ false)
Bool-cases true = inl refl
Bool-cases false = inr refl

pub Option-cases {ℓ} : {A : Type ℓ} (o : Option A) → (o ≡ none) ⊎ ((a : A) × (o ≡ some a))
Option-cases none = inl refl
Option-cases (some a) = inr (a, refl)

-- The sequencing of steps that may touch memory outside an object; `none` is such an access.
infixl 5 ◌>>=◌
abbrev pub ◌>>=◌ {ℓ κ} : {A : Type ℓ} {B : Type κ} → Option A → (A → Option B) → Option B
none >>= f = none
some a >>= f = f a

-- Total correctness: there is a result, and it has the property.
abbrev pub Ends {ℓ} : {A : Type ℓ} → Option A → (A → Type 0) → Type 0
Ends none P = ⊥
Ends (some a) P = P a

-- A store into an object of type uint8_t or uint32_t.
abbrev pub u8 : ℕ → ℕ
u8 n = n % 256

abbrev pub u32 : ℕ → ℕ
u32 n = n % 4294967296

-- A chain ends when its first step does and the rest does after it.
pub Ends-bind {ℓ ℓ'} :
    {A : Type ℓ} {B : Type ℓ'} (o : Option A) (f : A → Option B) {P : A → Type 0} (Q : B → Type 0)
    → Ends o P
    → ((a : A) → P a → Ends (f a) Q)
    → Ends (o >>= f) Q
Ends-bind none f Q ends rest = absurd ends
Ends-bind (some a) f Q ends rest = rest a ends

pub Ends-weaken {ℓ} :
    {A : Type ℓ} {P Q : A → Type 0} (o : Option A) → ((a : A) → P a → Q a) → Ends o P → Ends o Q
Ends-weaken none weaken ends = ends
Ends-weaken (some a) weaken ends = weaken a ends

-- A call whose results are regrouped.
pub Ends-regroup {ℓ ℓ'} :
    {A : Type ℓ} {B : Type ℓ'} (o : Option A) (g : A → B) (P : B → Type 0)
    → Ends (o >>= λ a. some (g a)) P
    → Ends o (λ a. P (g a))
Ends-regroup none g P ends = ends
Ends-regroup (some a) g P ends = ends
