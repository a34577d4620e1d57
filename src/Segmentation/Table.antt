-- ===== src/Segmentation/Table.antt =====
-- The segment table of one patota: a list of pointers, read through the heap.
use tp_2021_so_fin.Base.{
  ℕ, suc, Bool, ◌&&◌, List, [], ◌∷◌, Option, none, some, ltb, ◌==◌, if◌then◌else◌, erase_idx,
}
use tp_2021_so_fin.Segmentation.State.{Segment, pcb_type, tcb_type, task_type}

module _ (heap : ℕ → Segment) where
  -- -1 is `none`
  unfoldable pub get_last_index : List ℕ → Option ℕ
  get_last_index [] = none
  get_last_index (p ∷ []) = some (heap p).nro_segmento
  get_last_index (p ∷ q ∷ ps) = get_last_index (q ∷ ps)

  -- the loop of the three searches: the first segment that passes, NULL if there is none
  unfoldable pub find_pointer : (Segment → Bool) → List ℕ → Option ℕ
  find_pointer test [] = none
  find_pointer test (p ∷ ps) = if test (heap p) then some p else find_pointer test ps

  -- `id >= 0` as an `int`
  unfoldable pub find_tcb_segment : ℕ → List ℕ → Option ℕ
  unfolding find_pointer
  find_tcb_segment id self =
      if ltb id 2147483648 then find_pointer (λ s. s.id == id && s.type == tcb_type) self else none

  unfoldable pub find_task_segment : List ℕ → Option ℕ
  unfolding find_pointer
  find_task_segment self = find_pointer (λ s. s.type == task_type) self

  unfoldable pub find_pcb_segment : List ℕ → Option ℕ
  unfolding find_pointer
  find_pcb_segment self = find_pointer (λ s. s.type == pcb_type) self

  -- the index at which the loop of `remove_segment_from_table` stops: the first segment with the
  -- number, or else the last
  unfoldable pub index_of : ℕ → List ℕ → ℕ
  index_of nro [] = 0
  index_of nro (p ∷ []) = 0
  index_of nro (p ∷ q ∷ ps) =
      if (heap p).nro_segmento == nro then 0 else suc (index_of nro (q ∷ ps))

  unfoldable pub remove_segment_from_table : ℕ → List ℕ → List ℕ
  unfolding index_of
  remove_segment_from_table p self = erase_idx self (index_of (heap p).nro_segmento self)

abbrev pub next_index : Option ℕ → ℕ
next_index none = 0
next_index (some n) = suc n

unfoldable pub get_next_segment : List ℕ → Option ℕ
get_next_segment [] = none
get_next_segment (p ∷ ps) = some p
