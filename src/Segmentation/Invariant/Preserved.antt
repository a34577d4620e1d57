-- ===== src/Segmentation/Invariant/Preserved.antt =====
-- `memory_compaction` and the bytes of the segments.
use tp_2021_so_fin.Base.{
  ℕ, ◌+◌, ◌≤◌, ◌<◌, ◌≡◌, refl, ap, ◌∙◌, List, [], ◌∷◌, arith, ltb, ◌==◌, if◌then◌else◌, sum_by, inl,
  inr, Bool-cases,
}
use tp_2021_so_fin.Base.Bytes.{memcpy, memcpy-whole}
use tp_2021_so_fin.Commons.{Commons, Dictionary}
use tp_2021_so_fin.Segmentation.State.{Ram}
use tp_2021_so_fin.Segmentation.Regions.{extent, defect}
use tp_2021_so_fin.Segmentation.Holes.Found.{defect-zero, size_of-eq}
use tp_2021_so_fin.Segmentation.Compaction.{gather, slid, memory_compaction, is_empty}
use tp_2021_so_fin.Segmentation.Compaction.Moved.{IsMoved, slide-IsMoved, gather-sum}
use tp_2021_so_fin.Base.Counts.{occurs, count}
use tp_2021_so_fin.Segmentation.Invariant.{tables_count, IsSound, nothing}
use tp_2021_so_fin.Segmentation.Invariant.Compacted.{pointers-IsDistinct, slid-offset-le}

le-sum_by : (g : ℕ → ℕ) (p : ℕ) (ps : List ℕ) → 0 < count p ps → g p ≤ sum_by g ps
le-sum_by g p [] h = absurd (omega arith)
le-sum_by g p (q ∷ ps) h = elim (Bool-cases (q == p)) [
  | inl here ↦ let e : q ≡ p = ground arith in rw (← e) (omega arith)
  | inr there ↦ omega (arith, le-sum_by g p ps (ground arith))
]

le-tables :
    (g : ℕ → ℕ) (p : ℕ) (d : Dictionary (List ℕ))
    → 0 < tables_count p d
    → g p ≤ sum_by (λ e. sum_by g e.1) d
le-tables g p [] h = absurd (omega arith)
le-tables g p ((k, t) ∷ d) h = elim (Bool-cases (ltb 0 (count p t))) [
  | inl here ↦ omega (arith, le-sum_by g p t (ground arith))
  | inr there ↦ omega (arith, le-tables g p d (ground arith))
]

module _ (c : Commons) (r : Ram) (i : IsSound nothing r) (p : ℕ) where
  moved :
      0 < tables_count p r.table_collection
      → IsMoved r.memory (r.heap p) ((slid c r).heap p) (slid c r)
  unfolding slid
  moved h =
      slide-IsMoved r.memory p (gather c r.heap r.table_collection [])
        (record { offset = 0; aux_memory = c.malloc r.mem_size; heap = r.heap })
        (pointers-IsDistinct c r i)
        (omega (arith, gather-sum c (occurs p) r.heap r.table_collection []))

  old_sound :
      0 < tables_count p r.table_collection
      → ((r.heap p).base_addr ≤ (r.heap p).limit) × ((r.heap p).limit ≤ r.mem_size)
  old_sound h =
      let s = i.tiled.sound in
      defect-zero r.mem_size (r.heap p)
        (omega (arith, le-tables (λ q. defect r.mem_size (r.heap q)) p r.table_collection h))

  compacted-heap : (memory_compaction c r).heap p ≡ (slid c r).heap p
  unfolding memory_compaction
  compacted-heap = refl

  compacted-memory :
      (d : Dictionary (List ℕ))
      → r.table_collection ≡ d
      → 0 < tables_count p d
      → (a : ℕ) → a < r.mem_size
      → (memory_compaction c r).memory a ≡ (slid c r).aux_memory a
  unfolding memory_compaction
  compacted-memory [] e h a l = absurd (omega arith)
  compacted-memory (x ∷ d) e h a l =
      ap (λ b. (if b then r.memory else memcpy r.memory 0 (slid c r).aux_memory 0 r.mem_size) a)
        (ap is_empty e)
      ∙ memcpy-whole r.memory (slid c r).aux_memory r.mem_size a l

  -- Compacting a sound state leaves every segment of a table its size and its bytes, at the address
  -- where it now is; and that range lies within the memory.
  pub memory_compaction-bytes :
      0 < tables_count p r.table_collection
      → let new = (memory_compaction c r).heap p in
        (extent new ≡ extent (r.heap p))
        × (new.limit ≤ r.mem_size)
        × ((k : ℕ)
            → k < extent (r.heap p)
            → (memory_compaction c r).memory (new.base_addr + k)
              ≡ r.memory ((r.heap p).base_addr + k))
  memory_compaction-bytes h =
      let m = moved h in
      let e = compacted-heap in
      let o = slid-offset-le c r i in
      let fit = i.small in
      let old = old_sound h in
      let size = size_of-eq (r.heap p) old.0 (omega arith) in
      rw e (
        omega (arith, m.same_size),
        omega (arith, m.within),
        λ k l.
            compacted-memory r.table_collection refl h (((slid c r).heap p).base_addr + k)
              (omega (arith, m.same_size, m.within))
            ∙ m.bytes k (omega arith),
      )
