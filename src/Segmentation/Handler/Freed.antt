-- ===== src/Segmentation/Handler/Freed.antt =====
-- EXPULSAR_TRIPULANTE and ELIMINAR_PATOTA: a segment that leaves its table.
use tp_2021_so_fin.Base.{
  ℕ, zero, suc, ◌+◌, ◌≤◌, ◌<◌, ◌≡◌, refl, List, [], ◌∷◌, some, arith, ltb, ◌==◌, if◌then◌else◌,
  sum_by, sum_by-perm, Bool-cases, inl, inr, erase_idx,
}
use tp_2021_so_fin.Commons.{Commons, Dictionary, lookup, replace_value}
use tp_2021_so_fin.Segmentation.State.{Segment, Ram, hole}
use tp_2021_so_fin.Segmentation.Regions.{
  extent, defect, IsMeasure, measure-bounds, IsTiled-same, weight, tables_weight,
}
use tp_2021_so_fin.Segmentation.Holes.{sort_by_addr}
use tp_2021_so_fin.Segmentation.Holes.Found.{defect-zero}
use tp_2021_so_fin.Segmentation.Table.{index_of, remove_segment_from_table}
use tp_2021_so_fin.Base.Counts.{occurs, count}
use tp_2021_so_fin.Segmentation.Invariant.{clashes, free_bytes, IsSound, nothing}
use tp_2021_so_fin.Segmentation.Handler.{free_segment}

pub sum-replace_value :
    (g : List ℕ → ℕ) (d : Dictionary (List ℕ)) (k : ℕ) (v w : List ℕ)
    → lookup k d ≡ some v
    → sum_by (λ e. g e.1) (replace_value k w d) + g v ≡ sum_by (λ e. g e.1) d + g w
unfolding lookup replace_value
sum-replace_value g [] k v w e = cc
sum-replace_value g ((j, u) ∷ d) k v w e = elim (Bool-cases (j == k)) [
  | inl here ↦ let q : some u ≡ some v = ground arith in rw here (ground arith)
  | inr there ↦ rw there (omega (arith, sum-replace_value g d k v w (rw there at e)))
]

pub lookup-replace_value :
    (d : Dictionary (List ℕ)) (k : ℕ) (v w : List ℕ)
    → lookup k d ≡ some v
    → lookup k (replace_value k w d) ≡ some w
unfolding lookup replace_value
lookup-replace_value [] k v w e = cc
lookup-replace_value ((j, u) ∷ d) k v w e = ground (arith, lookup-replace_value d k v w)

sum-erase_idx : (g : ℕ → ℕ) (ps : List ℕ) (i : ℕ) → sum_by g (erase_idx ps i) ≤ sum_by g ps
sum-erase_idx g [] i = omega arith
sum-erase_idx g (p ∷ ps) zero = omega arith
sum-erase_idx g (p ∷ ps) (suc i) = omega (arith, sum-erase_idx g ps i)

clashes-erase_idx :
    (heap : ℕ → Segment) (ps : List ℕ) (i : ℕ) → clashes heap (erase_idx ps i) ≤ clashes heap ps
clashes-erase_idx heap [] i = omega arith
clashes-erase_idx heap (p ∷ ps) zero = omega arith
clashes-erase_idx heap (p ∷ ps) (suc i) = omega (
  arith,
  clashes-erase_idx heap ps i,
  sum-erase_idx (λ q. if ltb (heap p).nro_segmento (heap q).nro_segmento then 0 else 1) ps i,
)

-- In a table whose numbers rise, a pointer that comes later has a larger number.
later-number :
    (heap : ℕ → Segment) (q p : ℕ) (ps : List ℕ)
    → sum_by (λ z. if ltb (heap q).nro_segmento (heap z).nro_segmento then 0 else 1) ps ≡ 0
    → 0 < count p ps
    → (heap q).nro_segmento < (heap p).nro_segmento
later-number heap q p [] z h = absurd (omega arith)
later-number heap q p (x ∷ ps) z h = elim (Bool-cases (x == p)) [
  | inl here ↦ let e : x ≡ p = ground arith in rw (← e) (ground arith)
  | inr there ↦ later-number heap q p ps (omega arith) (ground arith)
]

-- `remove_segment_from_table` takes out the very segment that it is given.
pub sum-remove :
    (g : ℕ → ℕ) (heap : ℕ → Segment) (p : ℕ) (ps : List ℕ)
    → clashes heap ps ≡ 0
    → 0 < count p ps
    → sum_by g (remove_segment_from_table heap p ps) + g p ≡ sum_by g ps
unfolding remove_segment_from_table
sum-remove g heap p [] z h = absurd (omega arith)
sum-remove g heap p (q ∷ []) z h = let e : q ≡ p = ground arith in rw (← e) (omega arith)
sum-remove g heap p (q ∷ x ∷ ps) z h = elim (Bool-cases (q == p)) [
  | inl here ↦ let e : q ≡ p = ground arith in rw (← e) (ground arith)
  | inr there ↦
      let lt = later-number heap q p (x ∷ ps) (omega arith) (ground arith) in
      let ih = sum-remove g heap p (x ∷ ps) (omega arith) (ground arith) in ground arith
]

clashes-remove :
    (heap : ℕ → Segment) (p : ℕ) (ps : List ℕ)
    → clashes heap (remove_segment_from_table heap p ps) ≤ clashes heap ps
unfolding remove_segment_from_table
clashes-remove heap p ps = clashes-erase_idx heap ps (index_of heap (heap p).nro_segmento ps)

module _ (c : Commons) (r : Ram) (key p : ℕ) (table : List ℕ) (i : IsSound nothing r)
    (stored : lookup key r.table_collection ≡ some table) (held : 0 < count p table) where
  abbrev left : List ℕ
  left = remove_segment_from_table r.heap p table

  table_clashes : clashes r.heap table ≡ 0
  table_clashes =
      omega (
        arith,
        sum-replace_value (clashes r.heap) r.table_collection key table [] stored,
        i.numbered,
      )

  -- a sum over the tables, with the segment and without it
  freed-sum :
      (g : ℕ → ℕ)
      → sum_by (λ e. sum_by g e.1) (free_segment c r key table p).table_collection + g p
        ≡ sum_by (λ e. sum_by g e.1) r.table_collection
  unfolding free_segment
  freed-sum g = omega (
    arith,
    sum-replace_value (sum_by g) r.table_collection key table left stored,
    sum-remove g r.heap p table table_clashes held,
  )

  freed-holes :
      (f : Segment → ℕ)
      → sum_by f (free_segment c r key table p).segmentos_libres
        ≡ f (hole (r.heap p).base_addr (r.heap p).limit) + sum_by f r.segmentos_libres
  unfolding free_segment
  freed-holes f = sum_by-perm f (
      c.list_add_sorted-perm sort_by_addr (hole (r.heap p).base_addr (r.heap p).limit)
        r.segmentos_libres)

  freed-same :
      let q = free_segment c r key table p in
      (q.mem_size ≡ r.mem_size) × (q.next_ptr ≡ r.next_ptr) × (q.heap ≡ r.heap)
  unfolding free_segment
  freed-same = (refl, refl, refl)

  freed-numbers :
      sum_by (λ e. clashes r.heap e.1) (free_segment c r key table p).table_collection ≡ 0
  unfolding free_segment
  freed-numbers = omega (
    arith,
    sum-replace_value (clashes r.heap) r.table_collection key table left stored,
    clashes-remove r.heap p table,
    table_clashes,
    i.numbered,
  )

  segment_sound : ((r.heap p).base_addr ≤ (r.heap p).limit) × ((r.heap p).limit ≤ r.mem_size)
  segment_sound =
      let s = i.tiled.sound in
      defect-zero r.mem_size (r.heap p)
        (omega (arith, freed-sum (λ q. defect r.mem_size (r.heap q))))

  freed-weight :
      (f : Segment → ℕ)
      → IsMeasure r.mem_size f
      → weight r f
        ≡ sum_by f (free_segment c r key table p).segmentos_libres
          + tables_weight r.heap f (free_segment c r key table p).table_collection
  freed-weight f m = omega (
    arith,
    freed-sum (λ q. f (r.heap q)),
    freed-holes f,
    measure-bounds r.mem_size f m (r.heap p) (hole (r.heap p).base_addr (r.heap p).limit) refl refl
        segment_sound.0 segment_sound.1,
  )

  -- A segment of a table that is freed leaves the state sound, and its bytes are free again.
  pub free_segment-IsSound :
      IsSound nothing (free_segment c r key table p)
      × (free_bytes (free_segment c r key table p) ≡ free_bytes r + extent (r.heap p))
      × (lookup key (free_segment c r key table p).table_collection ≡ some left)
  free_segment-IsSound = (
    record {
      small = omega (arith, i.small, freed-same.0);
      tiled =
          rw (freed-same.0, freed-same.2)
            (IsTiled-same r.mem_size (λ f. nothing f + weight r f) _ i.tiled
              (λ f m. omega (arith, freed-weight f m)));
      once = λ q. omega (arith, freed-sum (occurs q), i.once q);
      fresh = λ q h. omega (arith, freed-sum (occurs q), i.fresh q, freed-same.1);
      numbered = rw (freed-same.2) freed-numbers;
    },
    omega (arith, freed-holes extent),
    unfold free_segment in lookup-replace_value r.table_collection key table left stored,
  )
