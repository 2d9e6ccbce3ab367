-- ===== src/Base/Lists.antt =====
-- Lists measured by native numbers, and predicates on all or some of a list's elements.
use Prim.Native.Nat.{ℕ, zero, suc, ◌+◌}
use mathlib.Core.Path.{◌≡◌, refl, subst}
use mathlib.Core.Logic.{◌⊎◌, inl, inr, ◌≢◌}
use mathlib.Core.List.{List, [], ◌∷◌, ◌++◌}
use native.Mathlib.Omega.{arith}

module _ {ℓ} {A : Type ℓ} where
  abbrev pub length : List A → ℕ
  length [] = 0
  length (x ∷ xs) = suc (length xs)

  abbrev pub drop : ℕ → List A → List A
  drop zero xs = xs
  drop (suc n) [] = []
  drop (suc n) (x ∷ xs) = drop n xs

  pub length-append : (xs ys : List A) → length (xs ++ ys) ≡ length xs + length ys
  length-append [] ys = omega arith
  length-append (x ∷ xs) ys = omega (arith, length-append xs ys)

  -- A predicate by recursion, which the tactics read and build.
  abbrev pub All {κ} : (A → Type κ) → List A → Type κ
  All P [] = Unit
  All P (x ∷ xs) = P x × All P xs

  pub All-append {κ} : (P : A → Type κ) (xs ys : List A) → All P xs → All P ys → All P (xs ++ ys)
  All-append P [] ys h k = k
  All-append P (x ∷ xs) ys h k = (h.0, All-append P xs ys h.1 k)

  pub All-map {κ μ} :
      {P : A → Type κ} {Q : A → Type μ}
      → ((x : A) → P x → Q x)
      → (xs : List A) → All P xs
      → All Q xs
  All-map h [] a = tt
  All-map h (x ∷ xs) a = (h x a.0, All-map h xs a.1)

  pub append-ne-nil : (xs ys : List A) → xs ≢ [] → xs ++ ys ≢ []
  append-ne-nil [] ys h e = h refl
  append-ne-nil (x ∷ xs) ys h e = cc

  -- Where in a list an element stands.
  abbrev pub Any : (A → Type 0) → List A → Type 0
  Any P [] = ⊥
  Any P (x ∷ xs) = P x ⊎ Any P xs

module _ {A : Type 0} where
  -- An element of a list, at a place.
  abbrev pub Member : A → List A → Type 0
  Member x = Any (λ y. y ≡ x)

module _ {A : Type 0} (x : A) where
  pub All-Member : (P : A → Type 0) (xs : List A) → All P xs → Member x xs → P x
  All-Member P [] h m = absurd m
  All-Member P (y ∷ ys) h (inl e) = subst P e h.0
  All-Member P (y ∷ ys) h (inr m) = All-Member P ys h.1 m

  pub Member-append_left : (xs ys : List A) → Member x xs → Member x (xs ++ ys)
  Member-append_left [] ys m = absurd m
  Member-append_left (y ∷ xs) ys (inl e) = inl e
  Member-append_left (y ∷ xs) ys (inr m) = inr (Member-append_left xs ys m)

  pub Member-append_right : (xs ys : List A) → Member x ys → Member x (xs ++ ys)
  Member-append_right [] ys m = m
  Member-append_right (y ∷ xs) ys m = inr (Member-append_right xs ys m)

  pub Member-append : (xs ys : List A) → Member x (xs ++ ys) → Member x xs ⊎ Member x ys
  Member-append [] ys m = inr m
  Member-append (y ∷ xs) ys (inl e) = inl (inl e)
  Member-append (y ∷ xs) ys (inr m) = elim (Member-append xs ys m) [
    | inl l ↦ inl (inr l)
    | inr r ↦ inr r
  ]

module _ {A : Type 0} where
  pub Member-All : (P : A → Type 0) (xs : List A) → ((x : A) → Member x xs → P x) → All P xs
  Member-All P [] h = tt
  Member-All P (y ∷ ys) h = (h y (inl refl), Member-All P ys (λ x m. h x (inr m)))
