-- ===== src/Segmentation/Patota.antt =====
-- `segmentation_handler` on INICIAR_PATOTA: the segments of a new patota.
pub mod Entries
pub mod Pushed
pub mod Added
pub mod Room
use tp_2021_so_fin.Base.{
  ℕ, zero, suc, ◌+◌, ◌*◌, ◌%◌, ◌||◌, List, [], ◌∷◌, ◌++◌, Option, none, some, leb, ◌==◌,
  if◌then◌else◌,
}
use tp_2021_so_fin.Base.Bytes.{Bytes, u32, memcpy, put8, get32}
use tp_2021_so_fin.Commons.{Commons}
use tp_2021_so_fin.Segmentation.State.{Segment, Ram, pcb_type, tcb_type, task_type, to_u32, update}
use tp_2021_so_fin.Segmentation.Holes.{mem_space}
use tp_2021_so_fin.Segmentation.Compaction.{allocate}
use tp_2021_so_fin.Segmentation.Table.{get_last_index, next_index}
use tp_2021_so_fin.Segmentation.Records.{
  Tcb, save_tcb_in_memory, save_pcb_in_memory, save_task_in_memory,
}

-- The answers of the handlers, with what they carry.
pub data Reply : Type 0 where
  success : List ℕ → Reply
  error_por_falta_de_memoria error_no_hay_tareas error_guardar_tcb no_reply : Reply

-- `string_append(&respuesta, "Respuesta")`
abbrev pub respuesta : List ℕ
respuesta = b'R' ∷ b'e' ∷ b's' ∷ b'p' ∷ b'u' ∷ b'e' ∷ b's' ∷ b't' ∷ b'a' ∷ []

-- the i-th tripulante of the message, whose fields take 17 bytes
unfoldable pub read_tcb : Bytes → ℕ → Tcb
unfolding get32
read_tcb buffer offset = record {
  tid = get32 buffer offset;
  pid = get32 buffer (offset + 4);
  status = buffer (offset + 8);
  xpos = get32 buffer (offset + 9);
  ypos = get32 buffer (offset + 13);
  next = 0;
}

-- a new entry of a table: its id, type and size
pub record Entry : Type 0 where
  pub id : ℕ
  pub type : ℕ
  pub size : ℕ

module _ (c : Commons) where
  -- `malloc` of the segment, `queue_push` on the table, `dictionary_put` of the table
  unfoldable pub push_segment : Ram → ℕ → List ℕ → Segment → Ram × List ℕ
  push_segment r key table s =
      let table' = table ++ r.next_ptr ∷ [] in
      (
        record r {
          heap = update r.heap r.next_ptr s;
          next_ptr = suc r.next_ptr;
          table_collection = c.dictionary_put r.table_collection key table';
        },
        table',
      )

  -- Finds space, compacting if need be, saves the data there and adds the segment. What is found is
  -- not looked at again: the -1 of a second failure becomes the address.
  unfoldable pub add_segment :
      Ram → ℕ → List ℕ → Entry → (ℕ → Bytes → ℕ → Segment → Bytes) → Ram × List ℕ
  unfolding allocate get_last_index push_segment
  add_segment r key table e save =
      let (found, r₁) = allocate c r e.size in
      let base = to_u32 found in
      let s : Segment = record {
        id = e.id;
        type = e.type;
        nro_segmento = next_index (get_last_index r₁.heap table);
        base_addr = base;
        limit = (base + e.size) % u32;
      } in
      push_segment (record r₁ { memory = save base r₁.memory r₁.mem_size s }) key table s

  unfoldable pub add_pcb : Ram → ℕ → ℕ → Ram × List ℕ
  unfolding add_segment save_pcb_in_memory
  add_pcb r pid cant =
      add_segment r pid [] (record { id = pid; type = pcb_type; size = 8 })
        (λ base memory mem_size s.
          (save_pcb_in_memory memory mem_size s
            (record { pid = pid; tasks = (base + 8 + cant * 21) % u32 })).0)

  unfoldable pub add_tcb : Ram → ℕ → List ℕ → Tcb → Ram × List ℕ
  unfolding add_segment save_tcb_in_memory
  add_tcb r pid table t =
      add_segment r pid table (record { id = t.tid; type = tcb_type; size = 21 })
        (λ base memory mem_size s. (save_tcb_in_memory memory mem_size s t).0)

  -- the loop over the tripulantes of the message
  unfoldable pub add_crew : ℕ → Bytes → ℕ → ℕ → Ram × List ℕ → Ram × List ℕ
  unfolding add_tcb read_tcb
  add_crew zero buffer offset pid (r, table) = (r, table)
  add_crew (suc n) buffer offset pid (r, table) =
      add_crew n buffer (offset + 17) pid (add_tcb r pid table (read_tcb buffer offset))

  unfoldable pub add_tasks : Bytes → ℕ → ℕ → Ram × List ℕ → Ram
  unfolding add_segment save_task_in_memory
  add_tasks data_tareas tam pid (r, table) =
      (add_segment r pid table (record { id = pid; type = task_type; size = tam })
        (λ base memory mem_size s. (save_task_in_memory memory mem_size s data_tareas).0)).0

  -- `data_tareas`, a copy of the text with a terminator
  unfoldable pub copy_tasks : Bytes → ℕ → Bytes
  unfolding memcpy put8
  copy_tasks buffer tam = put8 (memcpy (c.malloc (tam + 1)) 0 buffer 8 tam) tam 0

  -- With no tripulantes the answer is sent from a pointer that was never set: a fault. The text's
  -- length, the number of tripulantes and `size_a_guardar` are `int`s: an overflow of the size, and a
  -- negative number, which here is one from 2 ^ 31 on, are faults.
  unfoldable pub iniciar_patota : Ram → Bytes → Option (Ram × Reply)
  unfolding add_pcb add_crew add_tasks copy_tasks mem_space get32
  iniciar_patota r buffer =
      let pid = get32 buffer 0 in
      let tam = get32 buffer 4 in
      let cant = get32 buffer (8 + tam) in
      let saved =
        add_tasks (copy_tasks buffer tam) tam pid
          (add_crew cant buffer (12 + tam) pid (add_pcb r pid cant)) in
      if cant == 0 || leb 2147483648 (8 + tam + cant * 21)
      then none
      else if mem_space r.mem_size (8 + tam + cant * 21) r.segmentos_libres
      then some (saved, success respuesta)
      else some (r, error_por_falta_de_memoria)
