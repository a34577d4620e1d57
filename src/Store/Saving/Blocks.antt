-- ===== src/Store/Saving/Blocks.antt =====
-- The bytes of blocks, and writes within one block.
use mathlib.Core.List.{append_assoc}
use native.Mathlib.Nat.{mul-le-mul_right}
use tp_2021_so_fin.Base.{
  ℕ, zero, suc, ◌+◌, ◌-◌, ◌*◌, ◌≤◌, ◌<◌, ◌≡◌, ◌≢◌, refl, ap, sym, ◌∙◌, List, [], ◌∷◌, ◌++◌, arith,
  ltb, Bool-cases, ◌⊎◌, inl, inr, length, take, drop, length-append,
}
use tp_2021_so_fin.Base.Bytes.{Bytes, memcpy, memcpy-ne}
use tp_2021_so_fin.Base.Counts.{count}
use tp_2021_so_fin.Base.Texts.{read, length-read, read-same, read-append, read-memcpy, bytes_of}

-- the bytes of a block, and of several one after the other
abbrev pub block_text : Bytes → ℕ → ℕ → List ℕ
block_text m t b = read m (b * t) t

abbrev pub blocks_text : Bytes → ℕ → List ℕ → List ℕ
blocks_text m t [] = []
blocks_text m t (b ∷ bs) = block_text m t b ++ blocks_text m t bs

pub length-blocks_text :
    (m : Bytes) (t : ℕ) (bs : List ℕ) → length (blocks_text m t bs) ≡ length bs * t
length-blocks_text m t [] = omega arith
length-blocks_text m t (b ∷ bs) = omega (
  arith,
  length-append (block_text m t b) (blocks_text m t bs),
  length-read m (b * t) t,
  length-blocks_text m t bs,
)

pub blocks_text-append :
    (m : Bytes) (t : ℕ) (bs cs : List ℕ)
    → blocks_text m t (bs ++ cs) ≡ blocks_text m t bs ++ blocks_text m t cs
blocks_text-append m t [] cs = refl
blocks_text-append m t (b ∷ bs) cs =
    ap (λ xs. block_text m t b ++ xs) (blocks_text-append m t bs cs)
    ∙ sym (append_assoc (block_text m t b) _ _)

-- Two blocks do not overlap.
apart : (t b i : ℕ) → b ≢ i → (b * t + t ≤ i * t) ⊎ (i * t + t ≤ b * t)
apart t b i ne = elim (Bool-cases (ltb b i)) [
  | inl below ↦ inl (omega (arith, mul-le-mul_right t (first b i (ground arith))))
  | inr above ↦ inr (omega (arith, mul-le-mul_right t (first i b (ground arith))))
]
  where
    first : (x y : ℕ) → x < y → suc x ≤ y
    first x y l = omega arith

-- A write within one block leaves every other one as it was.
pub block_text-write :
    (dst : Bytes) (t i d : ℕ) (src : Bytes) (off n b : ℕ)
    → i * t ≤ d
    → d + n ≤ i * t + t
    → b ≢ i
    → block_text (memcpy dst d src off n) t b ≡ block_text dst t b
block_text-write dst t i d src off n b h k ne =
    read-same (memcpy dst d src off n) dst (b * t) (b * t) t
      (λ j l. memcpy-ne dst d src off n (b * t + j) (outside j l (apart t b i ne)))
  where
    outside :
        (j : ℕ)
        → j < t
        → (b * t + t ≤ i * t) ⊎ (i * t + t ≤ b * t)
        → (b * t + j < d) ⊎ (d + n ≤ b * t + j)
    outside j l (inl below) = inl (omega arith)
    outside j l (inr above) = inr (omega arith)

pub blocks_text-same :
    (m m' : Bytes) (t : ℕ) (bs : List ℕ)
    → ((b : ℕ) → 0 < count b bs → block_text m t b ≡ block_text m' t b)
    → blocks_text m t bs ≡ blocks_text m' t bs
blocks_text-same m m' t [] h = refl
blocks_text-same m m' t (b ∷ bs) h =
    rw (h b (ground arith))
      (ap (λ xs. block_text m' t b ++ xs) (blocks_text-same m m' t bs (λ c l. h c (omega arith))))

pub take-append_long :
    (n : ℕ) (xs ys : List ℕ) → length xs ≤ n → take n (xs ++ ys) ≡ xs ++ take (n - length xs) ys
take-append_long n [] ys h = let e : n - 0 ≡ n = omega arith in rw e refl
take-append_long zero (x ∷ xs) ys h = absurd (omega arith)
take-append_long (suc n) (x ∷ xs) ys h =
    let e : suc n - suc (length xs) ≡ n - length xs = omega arith in
    rw e (ap (λ zs. x ∷ zs) (take-append_long n xs ys (omega arith)))

pub take-append_short : (n : ℕ) (xs ys : List ℕ) → n ≤ length xs → take n (xs ++ ys) ≡ take n xs
take-append_short zero xs ys h = refl
take-append_short (suc n) [] ys h = absurd (omega arith)
take-append_short (suc n) (x ∷ xs) ys h =
    ap (λ zs. x ∷ zs) (take-append_short n xs ys (omega arith))

pub take-all : (n : ℕ) (xs : List ℕ) → length xs ≤ n → take n xs ≡ xs
take-all zero [] h = refl
take-all zero (x ∷ xs) h = absurd (omega arith)
take-all (suc n) [] h = refl
take-all (suc n) (x ∷ xs) h = ap (λ zs. x ∷ zs) (take-all n xs (omega arith))

take-nil : (n : ℕ) → take {A = ℕ} n [] ≡ []
take-nil zero = refl
take-nil (suc n) = refl

drop-nil : (n : ℕ) → drop {A = ℕ} n [] ≡ []
drop-nil zero = refl
drop-nil (suc n) = refl

pub take-drop : (n k : ℕ) (xs : List ℕ) → take n xs ++ take k (drop n xs) ≡ take (n + k) xs
take-drop zero k xs = let e : 0 + k ≡ k = omega arith in rw e refl
take-drop (suc n) k [] = take-nil k ∙ sym (take-nil (suc n + k))
take-drop (suc n) k (x ∷ xs) =
    let e : suc n + k ≡ suc (n + k) = omega arith in rw e (ap (λ zs. x ∷ zs) (take-drop n k xs))

pub drop-drop : (n k : ℕ) (xs : List ℕ) → drop k (drop n xs) ≡ drop (n + k) xs
drop-drop zero k xs = let e : 0 + k ≡ k = omega arith in rw e refl
drop-drop (suc n) k [] = drop-nil k ∙ sym (drop-nil (suc n + k))
drop-drop (suc n) k (x ∷ xs) =
    let e : suc n + k ≡ suc (n + k) = omega arith in rw e (drop-drop n k xs)

pub length-drop : (n : ℕ) (xs : List ℕ) → length (drop n xs) ≡ length xs - n
length-drop zero xs = omega arith
length-drop (suc n) [] = omega arith
length-drop (suc n) (x ∷ xs) = omega (arith, length-drop n xs)

pub take-drop-append : (n : ℕ) (xs : List ℕ) → take n xs ++ drop n xs ≡ xs
take-drop-append zero xs = refl
take-drop-append (suc n) [] = refl
take-drop-append (suc n) (x ∷ xs) = ap (λ zs. x ∷ zs) (take-drop-append n xs)

pub read-take : (m : Bytes) (a n t : ℕ) → n ≤ t → read m a n ≡ take n (read m a t)
read-take m a n t h =
    let e : n + (t - n) ≡ t = omega arith in
    sym (
      ap (take n) (ap (read m a) (sym e) ∙ read-append m a n (t - n))
      ∙ take-append_short n (read m a n) (read m (a + n) (t - n)) (omega (arith, length-read m a n))
      ∙ take-all n (read m a n) (omega (arith, length-read m a n)))

-- The start of a block into which a piece of a text was copied.
pub take-written :
    (dst : Bytes) (t i : ℕ) (xs : List ℕ) (off n : ℕ)
    → n ≤ t
    → off + n ≤ length xs
    → take n (block_text (memcpy dst (i * t) (bytes_of xs) off n) t i) ≡ take n (drop off xs)
take-written dst t i xs off n h k =
    let m = memcpy dst (i * t) (bytes_of xs) off n in
    let e : n + (t - n) ≡ t = omega arith in
    ap (take n) (ap (read m (i * t)) (sym e) ∙ read-append m (i * t) n (t - n))
    ∙ take-append_short n (read m (i * t) n) (read m (i * t + n) (t - n))
        (omega (arith, length-read m (i * t) n))
    ∙ take-all n (read m (i * t) n) (omega (arith, length-read m (i * t) n))
    ∙ read-memcpy dst (i * t) xs off n k
