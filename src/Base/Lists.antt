-- ===== src/Base/Lists.antt =====
-- Lists measured by native numbers, membership as a test, and predicates on every item.
use Prim.Native.Nat.{ℕ, zero, suc, ◌≤◌, ◌<◌}
use mathlib.Core.Path.{◌≡◌, refl}
use mathlib.Core.Bool.{Bool, true, false, ◌||◌, ◌&&◌, not}
use mathlib.Core.List.{List, [], ◌∷◌}
use native.Mathlib.Omega.{arith}
use ocm_registration.Base.Equality.{Eq, ◌==◌, if◌then◌else◌}

module _ {ℓ} {A : Type ℓ} where
  abbrev pub length : List A → ℕ
  length [] = 0
  length (x ∷ xs) = suc (length xs)

  abbrev pub take : ℕ → List A → List A
  take zero xs = []
  take (suc n) [] = []
  take (suc n) (x ∷ xs) = x ∷ take n xs

  -- The items that pass a test, in their order.
  abbrev pub keep_if : (A → Bool) → List A → List A
  keep_if p [] = []
  keep_if p (x ∷ xs) = let rest = keep_if p xs in if p x then x ∷ rest else rest

  abbrev pub any : (A → Bool) → List A → Bool
  any p [] = false
  any p (x ∷ xs) = p x || any p xs

  abbrev pub All {κ} : (A → Type κ) → List A → Type κ
  All P [] = Unit
  All P (x ∷ xs) = P x × All P xs

  pub length-keep_if : (p : A → Bool) (xs : List A) → length (keep_if p xs) ≤ length xs
  length-keep_if p [] = omega arith
  length-keep_if p (x ∷ xs) = ground (arith, length-keep_if p xs)

  pub keep_if-of_none :
      (p : A → Bool) (xs : List A) → any p xs ≡ false → keep_if (λ x. not (p x)) xs ≡ xs
  keep_if-of_none p [] h = refl
  keep_if-of_none p (x ∷ xs) h = ground (arith, keep_if-of_none p xs)

  pub length-keep_if-lt :
      (p : A → Bool) (xs : List A)
      → any p xs ≡ true
      → length (keep_if (λ x. not (p x)) xs) < length xs
  length-keep_if-lt p [] h = absurd (ground arith)
  length-keep_if-lt p (x ∷ xs) h =
      ground (arith, length-keep_if-lt p xs, length-keep_if (λ x. not (p x)) xs)

  pub eq-nil_of_length : (xs : List A) → length xs ≡ 0 → xs ≡ []
  eq-nil_of_length [] h = refl
  eq-nil_of_length (x ∷ xs) h = absurd (omega arith)

module _ {ℓ} {A : Type ℓ} ⦃e : Eq A⦄ where
  abbrev pub contains : List A → A → Bool
  contains [] a = false
  contains (x ∷ xs) a = x == a || contains xs a

  pub contains-any : (xs : List A) (a : A) → contains xs a ≡ any (λ x. x == a) xs
  contains-any [] a = refl
  contains-any (x ∷ xs) a = rw (contains-any xs a)

  pub contains-keep_if :
      (p : A → Bool) (xs : List A) (a : A) → contains (keep_if p xs) a ≡ (contains xs a && p a)
  contains-keep_if p [] a = refl
  contains-keep_if p (x ∷ xs) a = ground (arith, contains-keep_if p xs a)
