-- ===== src/Segmentation/Invariant.antt =====
-- The invariant of the segmentation scheme.
pub mod Compacted
pub mod Allocated
pub mod Preserved
use tp_2021_so_fin.Base.{
  ℕ, ◌+◌, ◌-◌, ◌%◌, ◌≤◌, ◌<◌, ◌≡◌, refl, ap, sym, ◌∙◌, Bool, true, false, ◌&&◌, List, [], ◌∷◌,
  Option, none, some, arith, ltb, leb, ◌==◌, if◌then◌else◌, sum_by, sum_by-perm, sum_by-congr, Perm,
  Bool-cases, Option-cases, ◌⊎◌, inl, inr, subst,
}
use tp_2021_so_fin.Base.Bytes.{Bytes, u32}
use tp_2021_so_fin.Commons.{Commons, Dictionary, All}
use tp_2021_so_fin.Segmentation.State.{Segment, Ram, size_of, hole, update}
use tp_2021_so_fin.Segmentation.Regions.{
  inside, extent, defect, IsMeasure, IsTiled, IsTiled-same, table_weight, tables_weight, weight,
  extent-IsMeasure, defect-IsMeasure,
}
use tp_2021_so_fin.Segmentation.Holes.{
  take_hole, memory_best_fit, memory_seek, list_sorter, sort_by_addr,
}
use tp_2021_so_fin.Segmentation.Holes.Found.{
  take_hole-measure, take_hole-none, defect-zero, size_of-eq,
}
use tp_2021_so_fin.Segmentation.Compaction.{
  Slide, slide, gather, slid, memory_compaction, find_space, allocate,
}
use tp_2021_so_fin.Segmentation.Compaction.Moved.{
  slide-number, slide-offset, slide-measure, gather-sum,
}
use tp_2021_so_fin.Base.Counts.{occurs, count, IsDistinct}

-- how often a pointer stands in the tables
abbrev pub tables_count : ℕ → Dictionary (List ℕ) → ℕ
tables_count p = sum_by (λ e. count p e.1)

-- the pairs of a table whose segment numbers do not rise
abbrev pub clashes : (ℕ → Segment) → List ℕ → ℕ
clashes heap [] = 0
clashes heap (p ∷ ps) =
    sum_by (λ q. if ltb (heap p).nro_segmento (heap q).nro_segmento then 0 else 1) ps
    + clashes heap ps

abbrev pub free_bytes : Ram → ℕ
free_bytes r = sum_by extent r.segmentos_libres

-- The invariant, with ranges `held` that are taken and not yet in a table.
pub record IsSound (held : (Segment → ℕ) → ℕ) (r : Ram) : Type 0 where
  pub small : r.mem_size < 2147483648
  pub tiled : IsTiled r.mem_size (λ f. held f + weight r f)
  pub once : (p : ℕ) → tables_count p r.table_collection ≤ 1
  pub fresh : (p : ℕ) → r.next_ptr ≤ p → tables_count p r.table_collection ≡ 0
  pub numbered : sum_by (λ e. clashes r.heap e.1) r.table_collection ≡ 0

abbrev pub nothing : (Segment → ℕ) → ℕ
nothing f = 0

abbrev pub range : ℕ → ℕ → (Segment → ℕ) → ℕ
range b k f = f (hole b (b + k))
