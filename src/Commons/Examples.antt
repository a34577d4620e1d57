-- ===== src/Commons/Examples.antt =====
-- A concrete so-commons-library: insertion sort, and new entries first. The laws can be met.
use mathlib.Core.List.Perm
use tp_2021_so_fin.Base.{
  ℕ, ◌≤◌, ◌≡◌, refl, Bool, true, false, List, [], ◌∷◌, Perm, some, inl, inr, arith, ◌==◌,
  if◌then◌else◌, Bool-cases,
}
use tp_2021_so_fin.Commons.{Dictionary, lookup, erase_key, Commons, All, IsSorted}

module _ {A : Type 0} (cmp : A → A → Bool) where
  unfoldable pub insert : A → List A → List A
  insert x [] = x ∷ []
  insert x (y ∷ ys) = if cmp x y then x ∷ y ∷ ys else y ∷ insert x ys

  unfoldable pub sort : List A → List A
  unfolding insert
  sort [] = []
  sort (x ∷ xs) = insert x (sort xs)

  pub insert-perm : (x : A) (xs : List A) → Perm (insert x xs) (x ∷ xs)
  unfolding insert
  insert-perm x [] = Perm.refl (x ∷ [])
  insert-perm x (y ∷ ys) = elim (Bool-cases (cmp x y)) [
    | inl e ↦ rw e (Perm.refl (x ∷ y ∷ ys))
    | inr e ↦ rw e (Perm.trans (Perm.cons y (insert-perm x ys)) (Perm.swap x y ys))
  ]

  pub sort-perm : (xs : List A) → Perm (sort xs) xs
  unfolding sort
  sort-perm [] = Perm.refl []
  sort-perm (x ∷ xs) = Perm.trans (insert-perm x (sort xs)) (Perm.cons x (sort-perm xs))

  module _ (key : A → ℕ) (before : (x y : A) → cmp x y ≡ true → key x ≤ key y)
      (after : (x y : A) → cmp x y ≡ false → key y ≤ key x) where
    All-mono : (m n : ℕ) → m ≤ n → (xs : List A) → All (λ y. n ≤ key y) xs → All (λ y. m ≤ key y) xs
    All-mono m n h [] a = tt
    All-mono m n h (x ∷ xs) a = (omega arith, All-mono m n h xs a.1)

    insert-All :
        (n : ℕ) (x : A) (xs : List A)
        → n ≤ key x
        → All (λ y. n ≤ key y) xs
        → All (λ y. n ≤ key y) (insert x xs)
    unfolding insert
    insert-All n x [] h a = (h, tt)
    insert-All n x (y ∷ ys) h a = elim (Bool-cases (cmp x y)) [
      | inl e ↦ rw e (h, a)
      | inr e ↦ rw e (a.0, insert-All n x ys h a.1)
    ]

    pub insert-IsSorted : (x : A) (xs : List A) → IsSorted key xs → IsSorted key (insert x xs)
    unfolding insert
    insert-IsSorted x [] s = (tt, tt)
    insert-IsSorted x (y ∷ ys) s = elim (Bool-cases (cmp x y)) [
      | inl e ↦ rw e ((before x y e, All-mono (key x) (key y) (before x y e) ys s.0), s)
      | inr e ↦ rw e (insert-All (key y) x ys (after x y e) s.0, insert-IsSorted x ys s.1)
    ]

    pub sort-IsSorted : (xs : List A) → IsSorted key (sort xs)
    unfolding sort
    sort-IsSorted [] = tt
    sort-IsSorted (x ∷ xs) = insert-IsSorted x (sort xs) (sort-IsSorted xs)

unfoldable pub put : {V : Type 0} → Dictionary V → ℕ → V → Dictionary V
unfolding erase_key
put d k v = (k, v) ∷ erase_key k d

lookup-erase_key :
    {V : Type 0} (d : Dictionary V) (k j : ℕ)
    → (k == j) ≡ false
    → lookup j (erase_key k d) ≡ lookup j d
unfolding lookup erase_key
lookup-erase_key [] k j h = refl
lookup-erase_key ((i, w) ∷ d) k j h = ground (arith, lookup-erase_key d k j h)

pub lookup-put :
    {V : Type 0} (d : Dictionary V) (k : ℕ) (v : V) (j : ℕ)
    → lookup j (put d k v) ≡ (if k == j then some v else lookup j d)
unfolding lookup put
lookup-put d k v j = ground (arith, lookup-erase_key d k j)

pub put-perm :
    {V : Type 0} (d : Dictionary V) (k : ℕ) (v : V) → Perm (put d k v) ((k, v) ∷ erase_key k d)
unfolding put
put-perm d k v = Perm.refl ((k, v) ∷ erase_key k d)

abbrev pub commons : Commons
commons = record {
  list_sort = λ cmp xs. sort cmp xs;
  list_sort-perm = λ cmp xs. sort-perm cmp xs;
  list_sort-IsSorted = λ cmp key b a xs. sort-IsSorted cmp key b a xs;
  list_add_sorted = λ cmp x xs. insert cmp x xs;
  list_add_sorted-perm = λ cmp x xs. insert-perm cmp x xs;
  list_add_sorted-IsSorted = λ cmp key b a x xs s. insert-IsSorted cmp key b a x xs s;
  dictionary_put = λ d k v. put d k v;
  dictionary_put-perm = λ d k v. put-perm d k v;
  lookup-dictionary_put = λ d k v j. lookup-put d k v j;
  malloc = λ n a. 205;
}
