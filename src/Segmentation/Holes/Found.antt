-- ===== src/Segmentation/Holes/Found.antt =====
-- What `take_hole` takes and leaves, as measured.
use tp_2021_so_fin.Base.{
  ℕ, ◌+◌, ◌%◌, ap, ◌≤◌, ◌<◌, ◌≡◌, refl, true, false, List, [], ◌∷◌, none, some, arith, leb, ◌==◌,
  sum_by, Bool-cases, inl, inr,
}
use tp_2021_so_fin.Base.Bytes.{u32}
use tp_2021_so_fin.Commons.{All}
use tp_2021_so_fin.Segmentation.State.{Segment, hole, size_of}
use tp_2021_so_fin.Segmentation.Regions.{extent, defect, IsMeasure, measure-bounds}
use tp_2021_so_fin.Segmentation.Holes.{take_hole}

pub defect-zero : (n : ℕ) (s : Segment) → defect n s ≡ 0 → (s.base_addr ≤ s.limit) × (s.limit ≤ n)
defect-zero n s e = ground arith

pub zero-defect : (n : ℕ) (s : Segment) → s.base_addr ≤ s.limit → s.limit ≤ n → defect n s ≡ 0
zero-defect n s h k = ground arith

pub size_of-eq : (s : Segment) → s.base_addr ≤ s.limit → s.limit < u32 → size_of s ≡ extent s
size_of-eq s h k = omega arith

module _ (n : ℕ) (small : n < u32) (k : ℕ) where
  module _ (f : Segment → ℕ) (m : IsMeasure n f) (s : Segment) (ok : defect n s ≡ 0) where
    whole : size_of s ≡ k → (f s ≡ f (hole s.base_addr (s.base_addr + k))) × (s.base_addr + k ≤ n)
    whole e =
        let (h₁, h₂) = defect-zero n s ok in
        let r = size_of-eq s h₁ (omega arith) in
        (
          measure-bounds n f m s (hole s.base_addr (s.base_addr + k)) refl (omega arith) h₁ h₂,
          omega arith,
        )

    part :
        k ≤ size_of s
        → (f s
            ≡ f (hole s.base_addr (s.base_addr + k))
              + f (record s { base_addr = (s.base_addr + k) % u32 }))
          × (s.base_addr + k ≤ n)
    part h =
        let (h₁, h₂) = defect-zero n s ok in
        let r = size_of-eq s h₁ (omega arith) in
        (
          m.splits s (hole s.base_addr (s.base_addr + k)) _ refl (omega arith) refl (omega arith)
              (omega arith) h₂,
          omega arith,
        )

  -- the three cases of a round
  module _ (s : Segment) (ss : List Segment) where
    take_hole-small :
        leb k (size_of s) ≡ false
        → take_hole k (s ∷ ss) ≡ ((take_hole k ss).0, s ∷ (take_hole k ss).1)
    unfolding take_hole
    take_hole-small e = rw e

    take_hole-exact : size_of s == k ≡ true → take_hole k (s ∷ ss) ≡ (some s.base_addr, ss)
    unfolding take_hole
    take_hole-exact e = ground arith

    take_hole-larger :
        leb k (size_of s) ≡ true
        → size_of s == k ≡ false
        → take_hole k (s ∷ ss)
          ≡ (some s.base_addr, record s { base_addr = (s.base_addr + k) % u32 } ∷ ss)
    unfolding take_hole
    take_hole-larger e d = rw (e, d)

  -- Every measure of the free segments is that of the range found and of those left.
  pub take_hole-measure :
      (f : Segment → ℕ)
      → IsMeasure n f
      → (xs : List Segment) → sum_by (defect n) xs ≡ 0
      → (b : ℕ) → (take_hole k xs).0 ≡ some b
      → (sum_by f xs ≡ f (hole b (b + k)) + sum_by f (take_hole k xs).1) × (b + k ≤ n)
  take_hole-measure f m [] ok b e = unfold take_hole in cc
  take_hole-measure f m (s ∷ ss) ok b e = elim (Bool-cases (leb k (size_of s))) [
    | inr no_fit ↦
        let q = take_hole-small s ss no_fit in
        rw q (let ih = take_hole-measure f m ss (omega arith) b (rw q at e) in (omega arith, ih.1))
    | inl fits ↦ elim (Bool-cases (size_of s == k)) [
      | inl exact ↦
          let q = take_hole-exact s ss exact in
          let w = whole f m s (omega arith) (ground arith) in
          let eb : s.base_addr ≡ b = cc (ap (λ z. z.0) q) in rw (q, ← eb) (omega arith, w.1)
      | inr larger ↦
          let q = take_hole-larger s ss fits larger in
          let w = part f m s (omega arith) (ground arith) in
          let eb : s.base_addr ≡ b = cc (ap (λ z. z.0) q) in rw (q, ← eb) (omega arith, w.1)
    ]
  ]

  -- If nothing is found, every free segment is too small, and all are left.
  pub take_hole-none :
      (xs : List Segment)
      → (take_hole k xs).0 ≡ none
      → ((take_hole k xs).1 ≡ xs) × All (λ s. size_of s < k) xs
  unfolding take_hole
  take_hole-none [] e = (refl, tt)
  take_hole-none (s ∷ ss) e = ground (arith, take_hole-none ss)
