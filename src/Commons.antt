-- ===== src/Commons.antt =====
-- What the code uses of so-commons-library: the ordered lists of commons/collections/list.h and
-- the dictionary of commons/collections/dictionary.h. A `t_list` or `t_queue` is a list, and a
-- `t_dictionary` is the list of its entries in the order in which a walk over the buckets meets
-- them. How a list is sorted and where a new entry goes are the library's: they are parameters.
-- The keys, which the code makes by `string_itoa`, are the numbers themselves.
pub mod Examples
use tp_2021_so_fin.Base.{
  ℕ, ◌+◌, ◌≤◌, ◌≡◌, Bool, true, false, List, [], ◌∷◌, Perm, Option, none, some, ◌==◌, if◌then◌else◌,
}
use tp_2021_so_fin.Base.Bytes.{Bytes}

module _ {ℓ} {A : Type ℓ} where
  abbrev pub All {κ} : (A → Type κ) → List A → Type κ
  All P [] = Unit
  All P (x ∷ xs) = P x × All P xs

  abbrev pub IsSorted : (A → ℕ) → List A → Type 0
  IsSorted key [] = Unit
  IsSorted key (x ∷ xs) = All (λ y. key x ≤ key y) xs × IsSorted key xs

abbrev pub Dictionary : Type 0 → Type 0
Dictionary V = List (ℕ × V)

module _ {V : Type 0} where
  -- `dictionary_get`, whose NULL is `none`
  unfoldable pub lookup : ℕ → Dictionary V → Option V
  lookup k [] = none
  lookup k ((j, v) ∷ d) = if j == k then some v else lookup k d

  -- the dictionary without the first entry of a key
  unfoldable pub erase_key : ℕ → Dictionary V → Dictionary V
  erase_key k [] = []
  erase_key k ((j, v) ∷ d) = if j == k then d else (j, v) ∷ erase_key k d

module _ {V : Type 0} where
  -- A write to what the entry of a key points to, where it stands.
  unfoldable pub replace_value : ℕ → V → Dictionary V → Dictionary V
  replace_value k w [] = []
  replace_value k w ((j, v) ∷ d) = if j == k then (j, w) ∷ d else (j, v) ∷ replace_value k w d

pub record Commons : Type 1 where
  -- `list_sort`: a reordering, by the comparator
  pub list_sort : {A : Type 0} → (A → A → Bool) → List A → List A
  pub list_sort-perm : {A : Type 0} (cmp : A → A → Bool) (xs : List A) → Perm (list_sort cmp xs) xs
  pub list_sort-IsSorted :
      {A : Type 0} (cmp : A → A → Bool) (key : A → ℕ)
      → ((x y : A) → cmp x y ≡ true → key x ≤ key y)
      → ((x y : A) → cmp x y ≡ false → key y ≤ key x)
      → (xs : List A) → IsSorted key (list_sort cmp xs)
  -- `list_add_sorted`: adds the element, and keeps the order
  pub list_add_sorted : {A : Type 0} → (A → A → Bool) → A → List A → List A
  pub list_add_sorted-perm :
      {A : Type 0} (cmp : A → A → Bool) (x : A) (xs : List A)
      → Perm (list_add_sorted cmp x xs) (x ∷ xs)
  pub list_add_sorted-IsSorted :
      {A : Type 0} (cmp : A → A → Bool) (key : A → ℕ)
      → ((x y : A) → cmp x y ≡ true → key x ≤ key y)
      → ((x y : A) → cmp x y ≡ false → key y ≤ key x)
      → (x : A) (xs : List A) → IsSorted key xs
      → IsSorted key (list_add_sorted cmp x xs)
  -- `dictionary_put`: replaces the entry of the key, or adds one somewhere
  pub dictionary_put : {V : Type 0} → Dictionary V → ℕ → V → Dictionary V
  pub dictionary_put-perm :
      {V : Type 0} (d : Dictionary V) (k : ℕ) (v : V)
      → Perm (dictionary_put d k v) ((k, v) ∷ erase_key k d)
  pub lookup-dictionary_put :
      {V : Type 0} (d : Dictionary V) (k : ℕ) (v : V) (j : ℕ)
      → lookup j (dictionary_put d k v) ≡ (if k == j then some v else lookup j d)
  -- what a fresh block of `malloc` holds before it is written
  pub malloc : ℕ → Bytes
