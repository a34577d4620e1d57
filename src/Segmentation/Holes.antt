-- ===== src/Segmentation/Holes.antt =====
-- The free segments: `mem_space`, `check_space_memory`, `memory_best_fit` and `memory_seek`.
pub mod Found
pub mod Choice
use tp_2021_so_fin.Base.{
  ℕ, ◌+◌, ◌%◌, Bool, true, false, ◌&&◌, List, [], ◌∷◌, Option, none, some, ltb, leb, ◌==◌,
  if◌then◌else◌,
}
use tp_2021_so_fin.Base.Bytes.{u32}
use tp_2021_so_fin.Commons.{Commons}
use tp_2021_so_fin.Segmentation.State.{Segment, size_of}

-- the loop of `mem_space`: `int sum` has the bits of a `uint32_t`
unfoldable pub sum_sizes : ℕ → List Segment → ℕ
sum_sizes sum [] = sum
sum_sizes sum (s ∷ ss) = sum_sizes ((sum + size_of s) % u32) ss

-- `sum >= total_size` compares them as `int`.
unfoldable pub mem_space : ℕ → ℕ → List Segment → Bool
unfolding sum_sizes
mem_space mem_size total_size libres =
    if ltb mem_size total_size
    then false
    else let sum = sum_sizes 0 libres in ltb sum 2147483648 && leb total_size sum

-- the loop of `check_space_memory`
unfoldable pub some_fits : ℕ → List Segment → Bool
some_fits total_size [] = false
some_fits total_size (s ∷ ss) = if leb total_size (size_of s) then true else some_fits total_size ss

unfoldable pub check_space_memory : ℕ → ℕ → List Segment → Bool
unfolding some_fits
check_space_memory mem_size total_size libres =
    if ltb mem_size total_size then false else some_fits total_size libres

-- The loop that `memory_best_fit` and `memory_seek` make over the sorted holes: the address found,
-- and the holes that are left.
unfoldable pub take_hole : ℕ → List Segment → Option ℕ × List Segment
take_hole total_size [] = (none, [])
take_hole total_size (s ∷ ss) =
    let (found, rest) = take_hole total_size ss in
    if leb total_size (size_of s)
    then if size_of s == total_size
      then (some s.base_addr, ss)
      else (some s.base_addr, record s { base_addr = (s.base_addr + total_size) % u32 } ∷ ss)
    else (found, s ∷ rest)

unfoldable pub list_sorter : Segment → Segment → Bool
list_sorter a b = leb (size_of a) (size_of b)

unfoldable pub sort_by_addr : Segment → Segment → Bool
sort_by_addr a b = ltb a.base_addr b.base_addr

module _ (c : Commons) where
  unfoldable pub memory_best_fit : ℕ → List Segment → Option ℕ × List Segment
  unfolding take_hole list_sorter
  memory_best_fit total_size libres = take_hole total_size (c.list_sort list_sorter libres)

  unfoldable pub memory_seek : ℕ → List Segment → Option ℕ × List Segment
  unfolding take_hole sort_by_addr
  memory_seek total_size libres = take_hole total_size (c.list_sort sort_by_addr libres)
