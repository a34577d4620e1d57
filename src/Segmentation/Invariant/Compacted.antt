-- ===== src/Segmentation/Invariant/Compacted.antt =====
-- `memory_compaction` and the invariant.
use tp_2021_so_fin.Base.{
  ℕ, ◌+◌, ◌-◌, ◌≤◌, ◌<◌, ◌≡◌, refl, ◌∙◌, List, [], ◌∷◌, arith, ltb, if◌then◌else◌, sum_by,
  sum_by-congr,
}
use tp_2021_so_fin.Base.Bytes.{u32}
use tp_2021_so_fin.Commons.{Commons}
use tp_2021_so_fin.Segmentation.State.{Segment, Ram, size_of, hole}
use tp_2021_so_fin.Segmentation.Regions.{
  extent, defect, IsMeasure, IsTiled-same, table_weight, tables_weight, weight,
}
use tp_2021_so_fin.Segmentation.Holes.Found.{defect-zero, size_of-eq}
use tp_2021_so_fin.Segmentation.Compaction.{gather, slid, memory_compaction}
use tp_2021_so_fin.Segmentation.Compaction.Moved.{
  slide-number, slide-offset, slide-measure, gather-sum,
}
use tp_2021_so_fin.Base.Counts.{occurs, IsDistinct}
use tp_2021_so_fin.Segmentation.Invariant.{clashes, free_bytes, IsSound, nothing}

clashes-congr :
    (h k : ℕ → Segment)
    → ((p : ℕ) → (h p).nro_segmento ≡ (k p).nro_segmento)
    → (ps : List ℕ) → clashes h ps ≡ clashes k ps
clashes-congr h k e [] = refl
clashes-congr h k e (p ∷ ps) = omega (
  arith,
  sum_by-congr (λ q. if ltb (h p).nro_segmento (h q).nro_segmento then 0 else 1)
      (λ q. if ltb (k p).nro_segmento (k q).nro_segmento then 0 else 1) ps (λ q. rw (e p, e q)),
  clashes-congr h k e ps,
)

-- On segments within the memory, the size that the code computes is the extent.
pub sizes-extent :
    (n : ℕ)
    → n < u32
    → (heap : ℕ → Segment) (ps : List ℕ) → table_weight heap (defect n) ps ≡ 0
    → sum_by (λ p. size_of (heap p)) ps ≡ table_weight heap extent ps
sizes-extent n h heap [] d = refl
sizes-extent n h heap (p ∷ ps) d =
    let b = defect-zero n (heap p) (omega arith) in
    omega (arith, size_of-eq (heap p) b.0 (omega arith), sizes-extent n h heap ps (omega arith))

module _ (c : Commons) (r : Ram) (i : IsSound nothing r) where
  abbrev pointers : List ℕ
  pointers = gather c r.heap r.table_collection []

  pointers-sum : (g : ℕ → ℕ) → sum_by g pointers ≡ sum_by (λ e. sum_by g e.1) r.table_collection
  pointers-sum g = omega (arith, gather-sum c g r.heap r.table_collection [])

  pub pointers-IsDistinct : IsDistinct pointers
  pointers-IsDistinct p = let h = i.once p in omega (arith, pointers-sum (occurs p))

  slid-offset : (slid c r).offset ≡ tables_weight r.heap extent r.table_collection
  unfolding slid
  slid-offset =
      let sound = i.tiled.sound in
      let fit = i.small in
      omega (
        arith,
        slide-offset r.memory pointers
            (record { offset = 0; aux_memory = c.malloc r.mem_size; heap = r.heap })
            pointers-IsDistinct,
        sizes-extent r.mem_size (omega arith) r.heap pointers
            (omega (arith, pointers-sum (λ p. defect r.mem_size (r.heap p)))),
        pointers-sum (λ p. extent (r.heap p)),
      )

  pub slid-offset-le : (slid c r).offset ≤ r.mem_size
  slid-offset-le = let t = i.tiled.total in omega (arith, slid-offset)

  compacted-measure :
      (f : Segment → ℕ)
      → IsMeasure r.mem_size f
      → weight (memory_compaction c r) f ≡ f (hole 0 r.mem_size)
  unfolding memory_compaction
  compacted-measure f m =
      let le = slid-offset-le in
      omega (
        arith,
        gather-sum c (λ p. f ((slid c r).heap p)) r.heap r.table_collection [],
        slide-measure r.memory r.mem_size f m pointers
            (record { offset = 0; aux_memory = c.malloc r.mem_size; heap = r.heap })
            pointers-IsDistinct le,
        m.splits (hole 0 r.mem_size) (hole 0 (slid c r).offset) (hole (slid c r).offset r.mem_size)
            refl refl refl (omega arith) le (omega arith),
      )

  compacted-number :
      (p : ℕ) → ((memory_compaction c r).heap p).nro_segmento ≡ (r.heap p).nro_segmento
  unfolding memory_compaction
  compacted-number p =
      slide-number r.memory pointers
        (record { offset = 0; aux_memory = c.malloc r.mem_size; heap = r.heap }) p

  pub table_collection-compacted : (memory_compaction c r).table_collection ≡ r.table_collection
  unfolding memory_compaction
  table_collection-compacted = refl

  pub mem_size-compacted : (memory_compaction c r).mem_size ≡ r.mem_size
  unfolding memory_compaction
  mem_size-compacted = refl

  next_ptr-compacted : (memory_compaction c r).next_ptr ≡ r.next_ptr
  unfolding memory_compaction
  next_ptr-compacted = refl

  -- `memory_compaction` keeps the invariant.
  pub memory_compaction-IsSound : IsSound nothing (memory_compaction c r)
  unfolding memory_compaction
  memory_compaction-IsSound = record {
    small = i.small;
    tiled =
        IsTiled-same r.mem_size (λ f. f (hole 0 r.mem_size))
          (λ f. nothing f + weight (memory_compaction c r) f)
          (record { covers = λ a. ground arith; total = omega arith; sound = ground arith })
          (λ f m. omega (arith, compacted-measure f m));
    once = i.once;
    fresh = i.fresh;
    numbered =
        sum_by-congr (λ e. clashes (memory_compaction c r).heap e.1) (λ e. clashes r.heap e.1)
          r.table_collection
          (λ e. clashes-congr (memory_compaction c r).heap r.heap compacted-number e.1)
        ∙ i.numbered;
  }

  -- It leaves one hole, with all the bytes that were free.
  pub compacted-holes :
      (memory_compaction c r).segmentos_libres ≡ hole (slid c r).offset r.mem_size ∷ []
  unfolding memory_compaction
  compacted-holes = refl

  pub free_bytes-compacted : r.mem_size - (slid c r).offset ≡ free_bytes r
  free_bytes-compacted = let t = i.tiled.total in omega (arith, slid-offset)
