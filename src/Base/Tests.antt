-- ===== src/Base/Tests.antt =====
-- Boolean tests on numbers, the conditional, and functions changed at one place.
use Prim.Native.Nat.{ℕ, zero, suc, ◌≤◌, ◌<◌, compare, Ordering}
use mathlib.Core.Path.{◌≡◌, refl, ap}
use mathlib.Core.Logic.{◌↔◌, ◌⊎◌, inl, inr}
use mathlib.Core.Bool.{Bool, true, false}
use mathlib.Core.Option.{Option, none, some}
use native.Mathlib.Omega.{arith}

abbrev pub ltb : ℕ → ℕ → Bool
ltb a b = elim (compare a b) [ Ordering.lt ↦ true | _ ↦ false ]

abbrev pub leb : ℕ → ℕ → Bool
leb a b = elim (compare a b) [ Ordering.gt ↦ false | _ ↦ true ]

infix 50 ◌==◌
abbrev pub ◌==◌ : ℕ → ℕ → Bool
a == b = elim (compare a b) [ Ordering.eq ↦ true | _ ↦ false ]

infix 1 if◌then◌else◌
abbrev pub if◌then◌else◌ {ℓ} : {A : Type ℓ} → Bool → A → A → A
if true then x else y = x
if false then x else y = y

pub ltb→lt : (a b : ℕ) → ltb a b ≡ true → a < b
ltb→lt a b h = ground arith

pub lt→ltb : (a b : ℕ) → a < b → ltb a b ≡ true
lt→ltb a b h = ground arith

pub leb→le : (a b : ℕ) → leb a b ≡ true → a ≤ b
leb→le a b h = ground arith

pub ==_iff : (a b : ℕ) → ((a == b) ≡ true) ↔ (a ≡ b)
==_iff a b = ground arith

pub Bool-cases : (b : Bool) → (b ≡ true) ⊎ (b ≡ false)
Bool-cases true = inl refl
Bool-cases false = inr refl

pub Option-cases {ℓ} : {A : Type ℓ} (o : Option A) → (o ≡ none) ⊎ ((a : A) × (o ≡ some a))
Option-cases none = inl refl
Option-cases (some a) = inr (a, refl)

-- `f` with the value at `i` replaced: a write to one cell.
abbrev pub update {ℓ} : {A : Type ℓ} (cells : ℕ → A) (place : ℕ) (value : A) (j : ℕ) → A
update f i v j = if j == i then v else f j

pub update_self {ℓ} : {A : Type ℓ} (f : ℕ → A) (i : ℕ) (v : A) → update f i v i ≡ v
update_self f i v = ground arith

pub update_ne {ℓ} :
    {A : Type ℓ} (f : ℕ → A) (i j : ℕ) (v : A) → (j == i) ≡ false → update f i v j ≡ f j
update_ne f i j v h = ground arith

pub if_hom {ℓ κ} :
    {A : Type ℓ} {B : Type κ} (f : A → B) (b : Bool) {x y : A} {x' y' : B}
    → f x ≡ x'
    → f y ≡ y'
    → f (if b then x else y) ≡ (if b then x' else y')
if_hom f true p q = p
if_hom f false p q = q

-- A test that holds of every number up to a bound, as a table that is computed.
unfoldable pub holds_to : (ℕ → Bool) → ℕ → Bool
holds_to test zero = true
holds_to test (suc bound) = let rest = holds_to test bound in if test bound then rest else false

pub holds_to-at :
    (test : ℕ → Bool) (bound : ℕ) → holds_to test bound ≡ true → (v : ℕ) → v < bound → test v ≡ true
unfolding holds_to
holds_to-at test zero table v l = absurd (omega arith)
holds_to-at test (suc bound) table v l = elim (Bool-cases (test bound)) [
  | inl last ↦ ground (
    arith,
    last,
    λ (e : v ≡ bound). ap test e,
    λ (t : holds_to test bound ≡ true) (l' : v < bound). holds_to-at test bound t v l',
  )
  | inr fails ↦ absurd (ground (arith, fails, table))
]
