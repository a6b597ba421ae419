-- ===== src/Engine/Positions.antt =====
-- src/ioproxy/Engine.cpp: the list of handlers, changed at one position.
use mathlib.Core.Option
use mathlib.Core.Option.{some-injective}
use ioproxy.Base.{
  length, map, ◌++◌, ℕ, zero, suc, ◌≡◌, refl, ap, none, some, List, [], ◌∷◌, get_elem?, arith, ◌==◌,
  if◌then◌else◌,
}
use ioproxy.Engine.Signals.{at}

module _ {ℓ} {A : Type ℓ} where
  pub get_elem?-at :
      (i j : ℕ) (f : A → A) (xs : List A)
      → get_elem? (at i f xs) j ≡ (if i == j then Option.map f (get_elem? xs j) else get_elem? xs j)
  get_elem?-at i j f [] = ground arith
  get_elem?-at zero zero f (x ∷ xs) = refl
  get_elem?-at zero (suc j) f (x ∷ xs) = ground arith
  get_elem?-at (suc i) zero f (x ∷ xs) = ground arith
  get_elem?-at (suc i) (suc j) f (x ∷ xs) = ground (arith, get_elem?-at i j f xs)

  pub at-at : (d : ℕ) (f g : A → A) (xs : List A) → at d f (at d g xs) ≡ at d (λ x. f (g x)) xs
  at-at d f g [] = refl
  at-at zero f g (x ∷ xs) = refl
  at-at (suc d) f g (x ∷ xs) = ap (◌∷◌ x) (at-at d f g xs)

  pub at-same :
      (d : ℕ) (f g : A → A) (xs : List A) (x : A)
      → get_elem? xs d ≡ some x
      → f x ≡ g x
      → at d f xs ≡ at d g xs
  at-same d f g [] x e q = cc
  at-same zero f g (y ∷ xs) x e q = ground arith
  at-same (suc d) f g (y ∷ xs) x e q = ap (◌∷◌ y) (at-same d f g xs x e q)

  pub at-id : (d : ℕ) (xs : List A) → at d (λ x. x) xs ≡ xs
  at-id d [] = refl
  at-id zero (x ∷ xs) = refl
  at-id (suc d) (x ∷ xs) = ap (◌∷◌ x) (at-id d xs)

  pub at-none : (d : ℕ) (f : A → A) (xs : List A) → get_elem? xs d ≡ none → at d f xs ≡ xs
  at-none d f [] e = refl
  at-none zero f (x ∷ xs) e = cc
  at-none (suc d) f (x ∷ xs) e = ap (◌∷◌ x) (at-none d f xs e)

pub at-append :
    {A : Type 0} (f : A → A) (xs : List A) (y : A) (ys : List A)
    → at (length xs) f (xs ++ (y ∷ ys)) ≡ xs ++ (f y ∷ ys)
at-append f [] y ys = refl
at-append f (x ∷ xs) y ys = ap (λ l. x ∷ l) (at-append f xs y ys)

pub get_elem?-append :
    {A : Type 0} (xs : List A) (y : A) (ys : List A)
    → get_elem? (xs ++ (y ∷ ys)) (length xs) ≡ some y
get_elem?-append [] y ys = refl
get_elem?-append (x ∷ xs) y ys = get_elem?-append xs y ys

pub get_elem?-map :
    {A B : Type 0} (f : A → B) (xs : List A) (d : ℕ) (x : A)
    → get_elem? xs d ≡ some x
    → get_elem? (map f xs) d ≡ some (f x)
get_elem?-map f [] d x e = cc
get_elem?-map f (y ∷ xs) zero x e = ap (λ z. some (f z)) (some-injective y x e)
get_elem?-map f (y ∷ xs) (suc d) x e = get_elem?-map f xs d x e
