-- ===== src/Segmentation/Invariant/Allocated.antt =====
-- The search for space, which compacts where it has to, and the invariant.
use tp_2021_so_fin.Base.{
  ℕ, ◌+◌, ◌≤◌, ◌<◌, ◌≡◌, refl, ap, ◌∙◌, List, [], ◌∷◌, Option, none, some, arith, leb,
  if◌then◌else◌, sum_by, sum_by-perm, Option-cases, inl, inr,
}
use tp_2021_so_fin.Commons.{Commons, All}
use tp_2021_so_fin.Segmentation.State.{Segment, Ram, size_of, hole}
use tp_2021_so_fin.Segmentation.Regions.{
  extent, defect, IsMeasure, IsTiled-same, weight, extent-IsMeasure, defect-IsMeasure,
}
use tp_2021_so_fin.Segmentation.Holes.{take_hole, list_sorter, sort_by_addr}
use tp_2021_so_fin.Segmentation.Holes.Found.{
  take_hole-measure, take_hole-none, defect-zero, size_of-eq,
}
use tp_2021_so_fin.Segmentation.Compaction.{slid, memory_compaction, find_space, allocate}
use tp_2021_so_fin.Segmentation.Invariant.{free_bytes, IsSound, nothing, range}
use tp_2021_so_fin.Segmentation.Invariant.Compacted.{
  slid-offset-le, mem_size-compacted, table_collection-compacted, memory_compaction-IsSound,
  compacted-holes, free_bytes-compacted,
}

module _ (c : Commons) (r : Ram) (k : ℕ) where
  -- the sorted list that is searched
  abbrev searched : List Segment
  searched =
      if r.is_best_fit
      then c.list_sort list_sorter r.segmentos_libres
      else c.list_sort sort_by_addr r.segmentos_libres

  find_space-eq : find_space c r k ≡ take_hole k searched
  unfolding find_space
  find_space-eq = ground arith

  searched-sum : (f : Segment → ℕ) → sum_by f searched ≡ sum_by f r.segmentos_libres
  searched-sum f = ground (
    arith,
    sum_by-perm f (c.list_sort-perm list_sorter r.segmentos_libres),
    sum_by-perm f (c.list_sort-perm sort_by_addr r.segmentos_libres),
  )

  -- Every measure of the free segments is that of the range found and of those left.
  find_space-measure :
      (held : (Segment → ℕ) → ℕ)
      → IsSound held r
      → (f : Segment → ℕ) → IsMeasure r.mem_size f
      → (b : ℕ) → (find_space c r k).0 ≡ some b
      → sum_by f r.segmentos_libres ≡ range b k f + sum_by f (find_space c r k).1
  find_space-measure held i f m b e =
      let sound = i.tiled.sound in
      let fit = i.small in
      let ok : sum_by (defect r.mem_size) searched ≡ 0 =
        omega (arith, searched-sum (defect r.mem_size)) in
      rw find_space-eq (
        omega (
          arith,
          searched-sum f,
          (take_hole-measure r.mem_size (omega arith) k f m searched ok b
              (rw find_space-eq at e)).0,
        ))

module _ (c : Commons) (k : ℕ) where
  -- what `allocate` gives: an address, and a state in which the range from there on is held
  pub record IsAllocated (r : Ram) (found : Option ℕ × Ram) : Type 0 where
    pub base : ℕ
    pub is_found : found.0 ≡ some base
    pub in_memory : base + k ≤ r.mem_size
    pub sound : IsSound (range base k) found.1
    pub used : free_bytes found.1 + k ≡ free_bytes r
    pub same_size : found.1.mem_size ≡ r.mem_size
    pub same_tables : found.1.table_collection ≡ r.table_collection

  use_found-IsAllocated :
      (r : Ram) (b : ℕ)
      → IsSound nothing r
      → (find_space c r k).0 ≡ some b
      → IsAllocated r (some b, record r { segmentos_libres = (find_space c r k).1 })
  use_found-IsAllocated r b i e = record {
    base = b;
    is_found = refl;
    in_memory =
        (defect-zero r.mem_size (hole b (b + k)) (
          ground (
            arith,
            find_space-measure c r k nothing i (defect r.mem_size) (defect-IsMeasure r.mem_size) b
                e,
            i.tiled.sound,
          ))).1;
    sound = record {
      small = i.small;
      tiled =
          IsTiled-same r.mem_size (λ f. nothing f + weight r f) _ i.tiled
            (λ f m. omega (arith, find_space-measure c r k nothing i f m b e));
      once = i.once;
      fresh = i.fresh;
      numbered = i.numbered;
    };
    used =
        omega (arith, find_space-measure c r k nothing i extent (extent-IsMeasure r.mem_size) b e);
    same_size = refl;
    same_tables = refl;
  }

  -- One hole that is large enough is found.
  find_space-single :
      (r : Ram) (h : Segment)
      → r.segmentos_libres ≡ h ∷ []
      → k ≤ size_of h
      → (b : ℕ) × ((find_space c r k).0 ≡ some b)
  find_space-single r h e le = elim (Option-cases (find_space c r k).0) [
    | inr found ↦ found
    | inl missing ↦
        let none_fits =
          take_hole-none 0 (omega arith) k (searched c r k) (rw find_space-eq at missing) in
        absurd (
          omega (
            arith,
            all_small (searched c r k) none_fits.1,
            searched-sum c r k fits,
            ap (sum_by fits) e,
            fits_one,
          ))
  ]
    where
      fits : Segment → ℕ
      fits s = if leb k (size_of s) then 1 else 0

      all_small : (xs : List Segment) → All (λ s. size_of s < k) xs → sum_by fits xs ≡ 0
      all_small [] a = refl
      all_small (x ∷ xs) a = let ih = all_small xs a.1 in ground arith

      fits_one : fits h ≡ 1
      fits_one = ground arith

  module _ (r : Ram) (i : IsSound nothing r) where
    abbrev searched_ram : Ram
    searched_ram = record r { segmentos_libres = (find_space c r k).1 }

    allocate-found :
        (b : ℕ) → (find_space c r k).0 ≡ some b → allocate c r k ≡ (some b, searched_ram)
    unfolding allocate
    allocate-found b e = ground arith

    allocate-retry :
        (find_space c r k).0 ≡ none
        → let r' = memory_compaction c searched_ram in
          allocate c r k
          ≡ ((find_space c r' k).0, record r' { segmentos_libres = (find_space c r' k).1 })
    unfolding allocate
    allocate-retry e = ground arith

    searched-same :
        (find_space c r k).0 ≡ none
        → (f : Segment → ℕ) → sum_by f (find_space c r k).1 ≡ sum_by f r.segmentos_libres
    searched-same e f =
        let n = take_hole-none 0 (omega arith) k (searched c r k) (rw find_space-eq at e) in
        rw find_space-eq (ap (sum_by f) n.0 ∙ searched-sum c r k f)

    searched-IsSound : (find_space c r k).0 ≡ none → IsSound nothing searched_ram
    searched-IsSound e = record {
      small = i.small;
      tiled =
          IsTiled-same r.mem_size (λ f. nothing f + weight r f) _ i.tiled
            (λ f m. omega (arith, searched-same e f));
      once = i.once;
      fresh = i.fresh;
      numbered = i.numbered;
    }

    compacted-IsAllocated :
        (find_space c r k).0 ≡ none
        → k ≤ free_bytes r
        → let r' = memory_compaction c searched_ram in
          IsAllocated r
            ((find_space c r' k).0, record r' { segmentos_libres = (find_space c r' k).1 })
    compacted-IsAllocated e le =
        let i₀ = searched-IsSound e in
        let r₁ = memory_compaction c searched_ram in
        let off = (slid c searched_ram).offset in
        let same = searched-same e extent in
        let free = free_bytes-compacted c searched_ram i₀ in
        let fit = i.small in
        let holes = compacted-holes c searched_ram i₀ in
        let size =
          size_of-eq (hole off r.mem_size) (slid-offset-le c searched_ram i₀) (omega arith) in
        let (b, eb) = find_space-single r₁ (hole off r.mem_size) holes (omega arith) in
        let a = use_found-IsAllocated r₁ b (memory_compaction-IsSound c searched_ram i₀) eb in
        let n = mem_size-compacted c searched_ram i₀ in
        record {
          base = a.base;
          is_found = eb ∙ a.is_found;
          in_memory = omega (arith, a.in_memory, n);
          sound = a.sound;
          used = omega (arith, a.used, ap (sum_by extent) holes);
          same_size = n;
          same_tables = table_collection-compacted c searched_ram i₀;
        }

  -- When the free bytes are as many as asked for, `allocate` finds a range within the memory, also
  -- where no single hole is large enough; the range is no longer free, and nothing else has changed
  -- hands.
  pub allocate-IsAllocated :
      (r : Ram) → IsSound nothing r → k ≤ free_bytes r → IsAllocated r (allocate c r k)
  allocate-IsAllocated r i le = elim (Option-cases (find_space c r k).0) [
    | inl missing ↦ rw (allocate-retry r i missing) (compacted-IsAllocated r i missing le)
    | inr (b, e) ↦ rw (allocate-found r i b e) (use_found-IsAllocated r b i e)
  ]
