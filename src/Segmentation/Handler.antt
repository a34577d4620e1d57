-- ===== src/Segmentation/Handler.antt =====
-- `segmentation_handler`: one branch of the switch to a function. A result of `none` is a read
-- through NULL or past a block. The map, the log and the dump file are left out.
pub mod Freed
pub mod Updates
pub mod Expelled
pub mod Served
pub mod Reached
use tp_2021_so_fin.Base.Options.{◌>>=◌}
use tp_2021_so_fin.Base.{
  ℕ, zero, suc, ◌+◌, ◌%◌, Bool, true, false, List, [], ◌∷◌, Option, none, some, ◌==◌, if◌then◌else◌,
  length,
}
use tp_2021_so_fin.Base.Bytes.{Bytes, u32, put32, put8, get32}
use tp_2021_so_fin.Commons.{Commons, lookup, replace_value}
use tp_2021_so_fin.Segmentation.State.{Segment, Ram, hole}
use tp_2021_so_fin.Segmentation.Holes.{sort_by_addr}
use tp_2021_so_fin.Segmentation.Table.{
  find_tcb_segment, find_task_segment, get_next_segment, remove_segment_from_table,
}
use tp_2021_so_fin.Segmentation.Records.{
  Tcb, save_tcb_in_memory, get_tcb_from_memory, remove_segment_from_memory,
}
use tp_2021_so_fin.Segmentation.Tasks.{get_next_task}
use tp_2021_so_fin.Base.Texts.{until_nul}
use tp_2021_so_fin.Segmentation.Patota.{
  Reply, success, error_no_hay_tareas, error_guardar_tcb, no_reply, respuesta, iniciar_patota,
}

-- `error` is read without having been set: the parameter says whether it is -1.
abbrev pub answer : Bool → Reply
answer true = error_guardar_tcb
answer false = success respuesta

-- the segment of a tripulante, through the table of its patota
unfoldable pub tcb_segment : Ram → ℕ → ℕ → Option Segment
unfolding lookup find_tcb_segment
tcb_segment r pid tid = do
  table ← lookup pid r.table_collection
  p ← find_tcb_segment r.heap tid table
  some (r.heap p)

unfoldable pub recibir_estado : Bool → Ram → Bytes → Option (Ram × Reply)
unfolding tcb_segment put8 get32
recibir_estado error r buffer = do
  s ← tcb_segment r (get32 buffer 0) (get32 buffer 4)
  some (record r { memory = put8 r.memory (s.base_addr + 8) (buffer 8) }, answer error)

unfoldable pub recibir_ubicacion : Bool → Ram → Bytes → Option (Ram × Reply)
unfolding tcb_segment put32 get32
recibir_ubicacion error r buffer = do
  s ← tcb_segment r (get32 buffer 0) (get32 buffer 4)
  let m = put32 r.memory (s.base_addr + 9) (get32 buffer 8)
  some (record r { memory = put32 m (s.base_addr + 13) (get32 buffer 12) }, answer error)

-- what is done with the task found: the next one starts past its bar
unfoldable pub send_task : Ram → Segment → Tcb → Option (List ℕ) → Option (Ram × Reply)
unfolding save_tcb_in_memory until_nul
send_task r s t none = some (r, error_no_hay_tareas)
send_task r s t (some tarea) =
    let t' = record t { next = (t.next + (length (until_nul tarea) + 1)) % u32 } in
    some (
      record r { memory = (save_tcb_in_memory r.memory r.mem_size s t').0 },
      success (until_nul tarea),
    )

-- on a patota that is in the dictionary
unfoldable pub next_task_of : Ram → List ℕ → ℕ → Option (Ram × Reply)
unfolding find_tcb_segment find_task_segment get_tcb_from_memory get_next_task send_task
next_task_of r table tid = do
  p ← find_tcb_segment r.heap tid table
  q ← find_task_segment r.heap table
  t ← get_tcb_from_memory r.memory r.mem_size (r.heap p)
  tarea ← get_next_task r.memory t.next (r.heap q).limit (r.heap q).base_addr
  send_task r (r.heap p) t tarea

unfoldable pub enviar_tarea : Ram → Bytes → Option (Ram × Reply)
unfolding lookup next_task_of get32
enviar_tarea r buffer = elim (lookup (get32 buffer 0) r.table_collection) [
  | none ↦ some (r, error_no_hay_tareas)
  | some table ↦ next_task_of r table (get32 buffer 4)
]

module _ (c : Commons) where
  -- A copy of the segment joins the free ones, and the segment leaves its table.
  unfoldable pub free_segment : Ram → ℕ → List ℕ → ℕ → Ram
  unfolding sort_by_addr remove_segment_from_table replace_value
  free_segment r key table p =
      let s = r.heap p in
      record r {
        segmentos_libres =
            c.list_add_sorted sort_by_addr (hole s.base_addr s.limit) r.segmentos_libres;
        table_collection =
            replace_value key (remove_segment_from_table r.heap p table) r.table_collection;
      }

  -- The body of the loop: 1 and -1 both pass the test of what `remove_segment_from_memory` returns.
  unfoldable pub eliminar_one : Ram → ℕ → List ℕ → ℕ → Ram
  unfolding free_segment remove_segment_from_memory
  eliminar_one r key table p =
      let admin = (remove_segment_from_memory r.admin r.mem_size (r.heap p)).0 in
      free_segment (record r { admin = admin }) key table p

  -- The loop, with as many rounds as there are segments and one more; `none` if that is too few.
  unfoldable pub eliminar_loop : ℕ → Ram → ℕ → List ℕ → Option Ram
  unfolding get_next_segment eliminar_one remove_segment_from_table
  eliminar_loop zero r key table = none
  eliminar_loop (suc fuel) r key table = elim (get_next_segment table) [
    | none ↦ some r
    | some p ↦
        eliminar_loop fuel (eliminar_one r key table p) key
          (remove_segment_from_table r.heap p table)
  ]

  unfoldable pub eliminar_patota : Ram → Bytes → Option (Ram × Reply)
  unfolding lookup eliminar_loop get32
  eliminar_patota r buffer = elim (lookup (get32 buffer 0) r.table_collection) [
    | none ↦ some (r, success respuesta)
    | some table ↦ (do
      r' ← eliminar_loop (suc (length table)) r (get32 buffer 0) table
      some (r', success respuesta))
  ]

  abbrev free_found : Ram → ℕ → List ℕ → Option ℕ → Ram
  free_found r key table none = r
  free_found r key table (some p) = free_segment r key table p

  unfoldable pub expulsar_tripulante : Ram → Bytes → Option (Ram × Reply)
  unfolding lookup find_tcb_segment free_segment get32
  expulsar_tripulante r buffer = do
    table ← lookup (get32 buffer 0) r.table_collection
    some (
      free_found r (get32 buffer 0) table (find_tcb_segment r.heap (get32 buffer 4) table),
      success respuesta,
    )

  unfoldable pub segmentation_handler : Bool → Ram → ℕ → Bytes → Option (Ram × Reply)
  unfolding iniciar_patota recibir_estado recibir_ubicacion enviar_tarea eliminar_patota
      expulsar_tripulante
  segmentation_handler error r opcode buffer =
      if opcode == 500
      then iniciar_patota c r buffer
      else if opcode == 501
      then recibir_estado error r buffer
      else if opcode == 502
      then recibir_ubicacion error r buffer
      else if opcode == 520
      then enviar_tarea r buffer
      else if opcode == 599
      then eliminar_patota r buffer
      else if opcode == 530
      then expulsar_tripulante r buffer
      else some (r, no_reply)

-- `main` under the segmentation scheme: one hole, as large as the memory.
unfoldable pub start : Commons → ℕ → Bool → Ram
start c mem_size is_best_fit = record {
  memory = c.malloc mem_size;
  admin = λ a. 0;
  mem_size = mem_size;
  is_best_fit = is_best_fit;
  heap = λ p. hole 0 0;
  next_ptr = 0;
  segmentos_libres = hole 0 mem_size ∷ [];
  table_collection = [];
}
