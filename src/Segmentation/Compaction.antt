-- ===== src/Segmentation/Compaction.antt =====
-- `memory_compaction`, and the allocation that calls it when no hole is large enough.
pub mod Moved
use tp_2021_so_fin.Base.{
  ℕ, ◌+◌, Bool, true, false, List, [], ◌∷◌, Option, none, some, if◌then◌else◌,
}
use tp_2021_so_fin.Base.Bytes.{Bytes, memcpy}
use tp_2021_so_fin.Commons.{Commons, Dictionary}
use tp_2021_so_fin.Segmentation.State.{Segment, Ram, size_of, hole, update}
use tp_2021_so_fin.Segmentation.Holes.{sort_by_addr, memory_best_fit, memory_seek}

-- The variables of the loop that moves the segments together.
pub record Slide : Type 0 where
  pub offset : ℕ
  pub aux_memory : Bytes
  pub heap : ℕ → Segment

-- one round: copies the segment to `offset`, and writes its new bounds through the pointer
unfoldable pub slide_one : Bytes → ℕ → Slide → Slide
slide_one memory p s =
    let temp = s.heap p in
    let data_size = size_of temp in
    record {
      offset = s.offset + data_size;
      aux_memory = memcpy s.aux_memory s.offset memory temp.base_addr data_size;
      heap = update s.heap p (record temp { base_addr = s.offset; limit = s.offset + data_size });
    }

unfoldable pub slide : Bytes → List ℕ → Slide → Slide
unfolding slide_one
slide memory [] s = s
slide memory (p ∷ ps) s = slide memory ps (slide_one memory p s)

abbrev pub is_empty : {A : Type 0} → List A → Bool
is_empty [] = true
is_empty (x ∷ xs) = false

module _ (c : Commons) where
  -- the pointers of one table, added to the sorted list `temp_list`
  unfoldable pub gather_table : (ℕ → Segment) → List ℕ → List ℕ → List ℕ
  unfolding sort_by_addr
  gather_table heap [] temp_list = temp_list
  gather_table heap (p ∷ ps) temp_list =
      gather_table heap ps (c.list_add_sorted (λ p q. sort_by_addr (heap p) (heap q)) p temp_list)

  unfoldable pub gather : (ℕ → Segment) → Dictionary (List ℕ) → List ℕ → List ℕ
  unfolding gather_table
  gather heap [] temp_list = temp_list
  gather heap ((k, table) ∷ d) temp_list = gather heap d (gather_table heap table temp_list)

  unfoldable pub slid : Ram → Slide
  unfolding gather slide
  slid r =
      slide r.memory (gather r.heap r.table_collection [])
        (record { offset = 0; aux_memory = c.malloc r.mem_size; heap = r.heap })

  unfoldable pub memory_compaction : Ram → Ram
  unfolding slid memcpy
  memory_compaction r =
      let s = slid r in
      record r {
        memory =
            if is_empty r.table_collection
            then r.memory
            else memcpy r.memory 0 s.aux_memory 0 r.mem_size;
        heap = s.heap;
        segmentos_libres = hole s.offset r.mem_size ∷ [];
      }

  -- `isBestFit ? memory_best_fit(…) : memory_seek(…)`
  unfoldable pub find_space : Ram → ℕ → Option ℕ × List Segment
  unfolding memory_best_fit memory_seek
  find_space r segment_size =
      if r.is_best_fit
      then memory_best_fit c segment_size r.segmentos_libres
      else memory_seek c segment_size r.segmentos_libres

  abbrev pub use_found : Ram → Option ℕ × List Segment → Option ℕ × Ram
  use_found r (found, libres) = (found, record r { segmentos_libres = libres })

  -- If nothing is found, compacts and tries once more.
  abbrev pub retry : ℕ → Option ℕ × Ram → Option ℕ × Ram
  retry segment_size (some a, r) = (some a, r)
  retry segment_size (none, r) =
      let r' = memory_compaction r in use_found r' (find_space r' segment_size)

  unfoldable pub allocate : Ram → ℕ → Option ℕ × Ram
  unfolding find_space memory_compaction
  allocate r segment_size = retry segment_size (use_found r (find_space r segment_size))
