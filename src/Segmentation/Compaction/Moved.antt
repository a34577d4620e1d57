-- ===== src/Segmentation/Compaction/Moved.antt =====
-- The loop of `memory_compaction`: where each segment ends up, and with which bytes.
use tp_2021_so_fin.Base.Counts.{count, IsDistinct, IsDistinct-head, IsDistinct-tail}
use tp_2021_so_fin.Base.{
  ℕ, ◌+◌, ◌≤◌, ◌<◌, ◌≡◌, refl, ap, sym, ◌∙◌, List, [], ◌∷◌, arith, ◌==◌, sum_by, sum_by-perm,
  Bool-cases, inl, inr, subst,
}
use tp_2021_so_fin.Base.Bytes.{Bytes, memcpy-in, memcpy-ne}
use tp_2021_so_fin.Commons.{Commons, Dictionary}
use tp_2021_so_fin.Segmentation.State.{Segment, size_of, hole, update}
use tp_2021_so_fin.Segmentation.Regions.{IsMeasure, measure-empty, measure-bounds, table_weight}
use tp_2021_so_fin.Segmentation.Holes.{sort_by_addr}
use tp_2021_so_fin.Segmentation.Compaction.{Slide, slide_one, slide, gather_table, gather}

-- A write through a pointer that is not in the list changes no sum over the list.
pub sum_by-update :
    (g : Segment → ℕ) (heap : ℕ → Segment) (p : ℕ) (s : Segment) (ps : List ℕ)
    → count p ps ≡ 0
    → sum_by (λ q. g (update heap p s q)) ps ≡ sum_by (λ q. g (heap q)) ps
sum_by-update g heap p s [] h = refl
sum_by-update g heap p s (q ∷ ps) h = ground (arith, sum_by-update g heap p s ps)

module _ (memory : Bytes) where
  slide-untouched :
      (p : ℕ) (ps : List ℕ) (s : Slide) → count p ps ≡ 0 → (slide memory ps s).heap p ≡ s.heap p
  unfolding slide
  slide-untouched p [] s h = refl
  slide-untouched p (q ∷ ps) s h =
      slide-untouched p ps (slide_one memory q s) (omega arith) ∙ ground arith

  abbrev sizes : (ℕ → Segment) → List ℕ → ℕ
  sizes heap ps = sum_by (λ p. size_of (heap p)) ps

  pub slide-offset :
      (ps : List ℕ) (s : Slide)
      → IsDistinct ps
      → (slide memory ps s).offset ≡ s.offset + sizes s.heap ps
  unfolding slide
  slide-offset [] s d = omega arith
  slide-offset (p ∷ ps) s d = omega (
    arith,
    slide-offset ps (slide_one memory p s) (IsDistinct-tail p ps d),
    sum_by-update size_of s.heap p
        (record (s.heap p) { base_addr = s.offset; limit = s.offset + size_of (s.heap p) }) ps
        (IsDistinct-head p ps d),
  )

  -- where the first segment of the list ends up
  slide-head :
      (p : ℕ) (ps : List ℕ) (s : Slide)
      → IsDistinct (p ∷ ps)
      → let q = (slide memory (p ∷ ps) s).heap p in
        (q.base_addr ≡ s.offset) × (q.limit ≡ s.offset + size_of (s.heap p))
  unfolding slide
  slide-head p ps s d =
      let e = slide-untouched p ps (slide_one memory p s) (IsDistinct-head p ps d) in ground arith

  slide_mono : (ps : List ℕ) (s : Slide) → IsDistinct ps → s.offset ≤ (slide memory ps s).offset
  slide_mono ps s d = omega (arith, slide-offset ps s d)

  -- The segments fill the range from the first offset to the last.
  pub slide-measure :
      (n : ℕ) (f : Segment → ℕ)
      → IsMeasure n f
      → (ps : List ℕ) (s : Slide) → IsDistinct ps
      → (slide memory ps s).offset ≤ n
      → table_weight (slide memory ps s).heap f ps ≡ f (hole s.offset (slide memory ps s).offset)
  unfolding slide
  slide-measure n f m [] s d h = sym (measure-empty n f m (hole s.offset s.offset) refl h)
  slide-measure n f m (p ∷ ps) s d h =
      let s₁ = slide_one memory p s in
      let e = slide-head p ps s d in
      let le = slide_mono ps s₁ (IsDistinct-tail p ps d) in
      omega (
        arith,
        slide-measure n f m ps s₁ (IsDistinct-tail p ps d) h,
        measure-bounds n f m (hole s.offset s₁.offset) ((slide memory (p ∷ ps) s).heap p) e.0 e.1
            (omega arith) (omega arith),
        m.splits (hole s.offset (slide memory ps s₁).offset) (hole s.offset s₁.offset)
            (hole s₁.offset (slide memory ps s₁).offset) refl refl refl (omega arith) le h,
      )

  -- What is copied later lies above.
  slide-below :
      (ps : List ℕ) (s : Slide) (a : ℕ)
      → IsDistinct ps
      → a < s.offset
      → (slide memory ps s).aux_memory a ≡ s.aux_memory a
  unfolding slide
  slide-below [] s a d h = refl
  slide-below (p ∷ ps) s a d h =
      slide-below ps (slide_one memory p s) a (IsDistinct-tail p ps d) (omega arith)
      ∙ memcpy-ne s.aux_memory s.offset memory (s.heap p).base_addr (size_of (s.heap p)) a (inl h)

  -- A segment of the list keeps its size, lies below the last offset, and its bytes move with it.
  pub record IsMoved (old : Segment) (new : Segment) (s : Slide) : Type 0 where
    pub same_size : new.limit ≡ new.base_addr + size_of old
    pub within : new.limit ≤ s.offset
    pub bytes :
        (i : ℕ) → i < size_of old → s.aux_memory (new.base_addr + i) ≡ memory (old.base_addr + i)

  slide_one-bytes :
      (p : ℕ) (s : Slide) (i : ℕ)
      → i < size_of (s.heap p)
      → (slide_one memory p s).aux_memory (s.offset + i) ≡ memory ((s.heap p).base_addr + i)
  unfolding slide_one
  slide_one-bytes p s i h =
      memcpy-in s.aux_memory s.offset memory (s.heap p).base_addr (size_of (s.heap p)) i h
      ∙ ap (λ k. memory ((s.heap p).base_addr + k)) (omega arith)

  offset-slide_one :
      (p : ℕ) (s : Slide) → (slide_one memory p s).offset ≡ s.offset + size_of (s.heap p)
  unfolding slide_one
  offset-slide_one p s = refl

  slide-cons :
      (p : ℕ) (ps : List ℕ) (s : Slide)
      → slide memory (p ∷ ps) s ≡ slide memory ps (slide_one memory p s)
  unfolding slide
  slide-cons p ps s = refl

  slide-cons-below :
      (p : ℕ) (ps : List ℕ) (s : Slide) (a : ℕ)
      → IsDistinct (p ∷ ps)
      → a < (slide_one memory p s).offset
      → (slide memory (p ∷ ps) s).aux_memory a ≡ (slide_one memory p s).aux_memory a
  slide-cons-below p ps s a d h =
      rw slide-cons (slide-below ps (slide_one memory p s) a (IsDistinct-tail p ps d) h)

  within_cons :
      (p : ℕ) (ps : List ℕ) (s : Slide)
      → IsDistinct (p ∷ ps)
      → ((slide memory ps (slide_one memory p s)).heap p).limit
        ≤ (slide memory ps (slide_one memory p s)).offset
  within_cons p ps s d =
      let e = rw slide-cons at (slide-head p ps s d) in
      omega
        (arith, slide_mono ps (slide_one memory p s) (IsDistinct-tail p ps d), offset-slide_one p s)

  slide-head-IsMoved :
      (p : ℕ) (ps : List ℕ) (s : Slide)
      → IsDistinct (p ∷ ps)
      → IsMoved (s.heap p) ((slide memory (p ∷ ps) s).heap p) (slide memory (p ∷ ps) s)
  slide-head-IsMoved p ps s d =
      let s₁ = slide_one memory p s in
      let e = slide-head p ps s d in
      let d' = IsDistinct-tail p ps d in
      let o = offset-slide_one p s in
      record {
        same_size = omega arith;
        within = rw slide-cons (within_cons p ps s d);
        bytes = λ i h.
            ap (λ b. (slide memory (p ∷ ps) s).aux_memory (b + i)) e.0
            ∙ slide-cons-below p ps s (s.offset + i) d (omega arith)
            ∙ slide_one-bytes p s i h;
      }

  pub slide-IsMoved :
      (p : ℕ) (ps : List ℕ) (s : Slide)
      → IsDistinct ps
      → 0 < count p ps
      → IsMoved (s.heap p) ((slide memory ps s).heap p) (slide memory ps s)
  slide-IsMoved p [] s d h = absurd (omega arith)
  slide-IsMoved p (q ∷ ps) s d h = elim (Bool-cases (q == p)) [
    | inl here ↦
        let e : q ≡ p = ground arith in
        subst (λ z. IsMoved (s.heap z) ((slide memory (q ∷ ps) s).heap z) (slide memory (q ∷ ps) s))
          e (slide-head-IsMoved q ps s d)
    | inr there ↦
        let e : (slide_one memory q s).heap p ≡ s.heap p = unfold slide_one in rw there in
        let ih =
          slide-IsMoved p ps (slide_one memory q s) (IsDistinct-tail q ps d) (ground arith) in
        rw slide-cons (
          subst
            (λ z.
              IsMoved z ((slide memory ps (slide_one memory q s)).heap p)
                (slide memory ps (slide_one memory q s)))
            e ih)
  ]

module _ (c : Commons) where
  gather_table-sum :
      (g : ℕ → ℕ) (heap : ℕ → Segment) (ps acc : List ℕ)
      → sum_by g (gather_table c heap ps acc) ≡ sum_by g ps + sum_by g acc
  unfolding gather_table
  gather_table-sum g heap [] acc = omega arith
  gather_table-sum g heap (p ∷ ps) acc = omega (
    arith,
    gather_table-sum g heap ps (c.list_add_sorted (λ p q. sort_by_addr (heap p) (heap q)) p acc),
    sum_by-perm g (c.list_add_sorted-perm (λ p q. sort_by_addr (heap p) (heap q)) p acc),
  )

  -- The sorted list holds the pointers of all tables.
  pub gather-sum :
      (g : ℕ → ℕ) (heap : ℕ → Segment) (d : Dictionary (List ℕ)) (acc : List ℕ)
      → sum_by g (gather c heap d acc) ≡ sum_by (λ e. sum_by g e.1) d + sum_by g acc
  unfolding gather
  gather-sum g heap [] acc = omega arith
  gather-sum g heap ((k, table) ∷ d) acc = omega (
    arith,
    gather-sum g heap d (gather_table c heap table acc),
    gather_table-sum g heap table acc,
  )

-- The loop changes the bounds of segments only.
pub slide-number :
    (memory : Bytes) (ps : List ℕ) (s : Slide) (p : ℕ)
    → ((slide memory ps s).heap p).nro_segmento ≡ (s.heap p).nro_segmento
unfolding slide
slide-number memory [] s p = refl
slide-number memory (q ∷ ps) s p = slide-number memory ps (slide_one memory q s) p ∙ ground arith
