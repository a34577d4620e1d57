-- ===== src/Base/Lists.antt =====
-- Lists measured by native numbers, and sums over lists, which do not depend on the order.
use Prim.Native.Nat.{ℕ, zero, suc, ◌+◌}
use mathlib.Core.Path.{◌≡◌, refl, ap, ◌∙◌}
use mathlib.Core.Logic.{∥∥₁_elim}
use mathlib.Core.List.{List, [], ◌∷◌, ◌++◌, Perm, Permᴰ}
use mathlib.Core.Option.{Option, none, some}
use native.Mathlib.Nat.{ℕ_set}
use native.Mathlib.Omega.{arith}

module _ {ℓ} {A : Type ℓ} where
  abbrev pub length : List A → ℕ
  length [] = 0
  length (x ∷ xs) = suc (length xs)

  abbrev pub get_elem? : List A → ℕ → Option A
  get_elem? [] i = none
  get_elem? (x ∷ xs) zero = some x
  get_elem? (x ∷ xs) (suc i) = get_elem? xs i

  abbrev pub take : ℕ → List A → List A
  take zero xs = []
  take (suc n) [] = []
  take (suc n) (x ∷ xs) = x ∷ take n xs

  abbrev pub drop : ℕ → List A → List A
  drop zero xs = xs
  drop (suc n) [] = []
  drop (suc n) (x ∷ xs) = drop n xs

  -- `list_remove`: the list without the element at an index; out of range, the list itself.
  abbrev pub erase_idx : List A → ℕ → List A
  erase_idx [] i = []
  erase_idx (x ∷ xs) zero = xs
  erase_idx (x ∷ xs) (suc i) = x ∷ erase_idx xs i

  abbrev pub sum_by : (A → ℕ) → List A → ℕ
  sum_by f [] = 0
  sum_by f (x ∷ xs) = f x + sum_by f xs

module _ {ℓ} {A : Type ℓ} where
  pub sum_by-append : (f : A → ℕ) (xs ys : List A) → sum_by f (xs ++ ys) ≡ sum_by f xs + sum_by f ys
  sum_by-append f [] ys = omega arith
  sum_by-append f (x ∷ xs) ys = omega (arith, sum_by-append f xs ys)

  sum_by-permᴰ : (f : A → ℕ) {xs ys : List A} → Permᴰ xs ys → sum_by f xs ≡ sum_by f ys
  sum_by-permᴰ f Permᴰ.nil = refl
  sum_by-permᴰ f (Permᴰ.cons e p) = omega (arith, ap f e, sum_by-permᴰ f p)
  sum_by-permᴰ f (Permᴰ.swap e d) = omega (arith, ap f e, ap f d)
  sum_by-permᴰ f (Permᴰ.trans p q) = sum_by-permᴰ f p ∙ sum_by-permᴰ f q

  pub sum_by-perm : (f : A → ℕ) {xs ys : List A} → Perm xs ys → sum_by f xs ≡ sum_by f ys
  sum_by-perm f {xs} {ys} p = ∥∥₁_elim p (ℕ_set _ _) (λ d. sum_by-permᴰ f d)

  pub sum_by-congr : (f g : A → ℕ) (xs : List A) → ((x : A) → f x ≡ g x) → sum_by f xs ≡ sum_by g xs
  sum_by-congr f g [] h = refl
  sum_by-congr f g (x ∷ xs) h = omega (arith, h x, sum_by-congr f g xs h)

  pub length-append : (xs ys : List A) → length (xs ++ ys) ≡ length xs + length ys
  length-append [] ys = omega arith
  length-append (x ∷ xs) ys = omega (arith, length-append xs ys)
