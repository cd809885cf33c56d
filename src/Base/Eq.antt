-- ===== src/Base/Eq.antt =====
-- Equality tests as an interface, and Python's `in` over the entries of a list or a set.
use Prim.Native.Nat.{ℕ}
use Prim.Native.String.{String}
use mathlib.Core.Path.{◌≡◌, refl}
use mathlib.Core.Logic.{◌↔◌}
use mathlib.Core.Bool.{Bool, true, false, ◌||◌}
use mathlib.Core.List.{List, [], ◌∷◌, ◌++◌}
use native.Mathlib.Omega.{arith}
use text.Mathlib.Text.{◌==◌ as str_eq}
use text.Mathlib.TextEquality.{eq_iff}
use samples_python.Base.Tests.{nat_beq, nat_beq_iff, if◌then◌else◌}

-- What Python's `==` and `in` need of a type of keys.
pub record Hashable {ℓ} (K : Type ℓ) : Type ℓ where
  pub same : K → K → Bool
  pub same_iff : (j k : K) → (same j k ≡ true) ↔ (j ≡ k)

instance abbrev pub string_eq : Hashable String
string_eq = record { same = str_eq; same_iff = eq_iff }

instance abbrev pub nat_eq : Hashable ℕ
nat_eq = record { same = nat_beq; same_iff = nat_beq_iff }

infix 50 ◌==◌
abbrev pub ◌==◌ {ℓ} : {K : Type ℓ} ⦃e : Hashable K⦄ → K → K → Bool
◌==◌ ⦃e⦄ j k = e.same j k

module _ {ℓ} {A : Type ℓ} ⦃e : Hashable A⦄ where
  pub eq_refl : (a : A) → (a == a) ≡ true
  eq_refl a = (e.same_iff a a).1 refl

  -- `key in items`
  unfoldable pub contains : A → List A → Bool
  contains key [] = false
  contains key (item ∷ items) = key == item || contains key items

  -- `s.add(a)` on a set, kept as a list of distinct entries.
  unfoldable pub add : A → List A → List A
  add a xs = if contains a xs then xs else xs ++ a ∷ []

  -- `s.remove(a)`: the entries that differ from `a`.
  unfoldable pub remove : A → List A → List A
  remove a [] = []
  remove a (x ∷ xs) = if a == x then remove a xs else x ∷ remove a xs

  -- No entry occurs twice.
  abbrev pub Distinct : List A → Type 0
  Distinct [] = Unit
  Distinct (x ∷ xs) = (contains x xs ≡ false) × Distinct xs

  pub contains-append :
      (a : A) (xs ys : List A) → contains a (xs ++ ys) ≡ (contains a xs || contains a ys)
  unfolding contains
  contains-append a [] ys = refl
  contains-append a (x ∷ xs) ys = ground (arith, contains-append a xs ys)

  pub contains-add : (a b : A) (xs : List A) → contains b (add a xs) ≡ (b == a || contains b xs)
  unfolding add contains
  contains-add a b xs = ground (arith, e.same_iff b a, contains-append b xs (a ∷ []))

  pub contains-remove :
      (a b : A) (xs : List A) → contains b (remove a xs) ≡ (if a == b then false else contains b xs)
  unfolding remove contains
  contains-remove a b [] = ground arith
  contains-remove a b (x ∷ xs) =
      ground (arith, e.same_iff a b, e.same_iff a x, e.same_iff b x, contains-remove a b xs)
