-- ===== src/Segmentation/Tests.antt =====
-- Runs of the segmentation scheme on a memory of 40 bytes, and the theorems applied to them.
use tp_2021_so_fin.Base.Texts.{bytes_of, read}
use tp_2021_so_fin.Base.{
  ℕ, ◌+◌, ◌*◌, ◌≤◌, ◌<◌, ◌≡◌, ◌≢◌, ◌⊎◌, inr, refl, true, List, [], ◌∷◌, Option, none, some, arith,
  leb, leb→le, ltb→lt, sum_by, if◌then◌else◌, ◌%◌,
}
use tp_2021_so_fin.Base.Bytes.{Bytes, get32}
use tp_2021_so_fin.Commons.{lookup}
use tp_2021_so_fin.Commons.Examples.{commons, put, sort, insert}
use tp_2021_so_fin.Segmentation.State.{Segment, Ram, hole, size_of}
use tp_2021_so_fin.Segmentation.Regions.{extent, table_weight}
use tp_2021_so_fin.Segmentation.Table.{find_tcb_segment, remove_segment_from_table}
use tp_2021_so_fin.Segmentation.Holes.{memory_best_fit, memory_seek, mem_space}
use tp_2021_so_fin.Segmentation.Holes.Choice.{
  IsFirst, memory_best_fit-IsFirst, memory_seek-IsFirst, mem_space-eq,
}
use tp_2021_so_fin.Segmentation.Compaction.{memory_compaction, allocate}
use tp_2021_so_fin.Segmentation.Invariant.{IsSound, nothing, free_bytes, tables_count}
use tp_2021_so_fin.Segmentation.Invariant.Allocated.{IsAllocated, allocate-IsAllocated}
use tp_2021_so_fin.Segmentation.Invariant.Compacted.{memory_compaction-IsSound}
use tp_2021_so_fin.Segmentation.Invariant.Preserved.{memory_compaction-bytes}
use tp_2021_so_fin.Segmentation.Records.{Pcb, save_pcb_in_memory, get_pcb_from_memory}
use tp_2021_so_fin.Segmentation.Records.Layout.{get_pcb-save_pcb}
use tp_2021_so_fin.Segmentation.Tasks.{get_next_task}
use tp_2021_so_fin.Segmentation.Tasks.Bars.{until_bar, tally, rest_of, get_next_task-until_bar}
use tp_2021_so_fin.Segmentation.Patota.{
  Reply, success, error_por_falta_de_memoria, respuesta, iniciar_patota,
}
use tp_2021_so_fin.Segmentation.Patota.Pushed.{IsStored}
use tp_2021_so_fin.Segmentation.Patota.Room.{
  patota_entries, iniciar_patota-saves, iniciar_patota-refuses,
}
use tp_2021_so_fin.Segmentation.Patota.Entries.{entries}
use tp_2021_so_fin.Segmentation.Handler.{
  answer, tcb_segment, free_segment, eliminar_patota, expulsar_tripulante, recibir_estado,
  recibir_ubicacion, segmentation_handler, start,
}
use tp_2021_so_fin.Segmentation.Handler.Freed.{free_segment-IsSound}
use tp_2021_so_fin.Segmentation.Handler.Expelled.{expulsar-IsSound, eliminar-IsSound, found_bytes}
use tp_2021_so_fin.Segmentation.Handler.Updates.{
  recibir_ubicacion-recibir_estado, recibir_ubicacion-writes,
}
use tp_2021_so_fin.Segmentation.Handler.Reached.{Reached, started, served, Reached-IsSound}

-- patota 1: the tasks "A|B", and tripulante 1 with status N at (5, 6)
abbrev crew : Bytes
crew = bytes_of (
    1 ∷ 0 ∷ 0 ∷ 0 ∷ 3 ∷ 0 ∷ 0 ∷ 0 ∷ 65 ∷ 124 ∷ 66 ∷ 1 ∷ 0 ∷ 0 ∷ 0 ∷ 1 ∷ 0 ∷ 0 ∷ 0 ∷ 1 ∷ 0 ∷ 0 ∷ 0
    ∷ 78 ∷ 5 ∷ 0 ∷ 0 ∷ 0 ∷ 6 ∷ 0 ∷ 0 ∷ 0 ∷ [])

-- patota 1 and tripulante 1, a status or a position after them
abbrev who : Bytes
who = bytes_of (1 ∷ 0 ∷ 0 ∷ 0 ∷ 1 ∷ 0 ∷ 0 ∷ 0 ∷ 69 ∷ 0 ∷ 0 ∷ 0 ∷ 7 ∷ 0 ∷ 0 ∷ 0 ∷ [])

abbrev state_of : Ram → Option (Ram × Reply) → Ram
state_of r none = r
state_of r (some (r', reply)) = r'

abbrev empty_ram : Ram
empty_ram = start commons 40 true

abbrev with_patota : Ram
with_patota = state_of empty_ram (segmentation_handler commons true empty_ram 500 crew)

-- with two holes, of 8 and 21 bytes
abbrev with_holes : Ram
with_holes = state_of with_patota (segmentation_handler commons true with_patota 530 who)

iniciar_test :
    segmentation_handler commons true empty_ram 500 crew ≡ some (with_patota, success respuesta)
unfolding segmentation_handler start iniciar_patota
iniciar_test = refl

crew_new : IsStored empty_ram.table_collection (get32 crew 0) []
unfolding start lookup
crew_new = inr (refl, refl)

patota_run : Reached commons 40 true with_patota
patota_run = served started true 500 crew (success respuesta) (λ e. crew_new) iniciar_test

expulsar_test :
    segmentation_handler commons true with_patota 530 who ≡ some (with_holes, success respuesta)
unfolding segmentation_handler start iniciar_patota expulsar_tripulante put sort insert
expulsar_test = refl

holes_run : Reached commons 40 true with_holes
holes_run = served patota_run true 530 who (success respuesta) (λ e. ground arith) expulsar_test

Reached-IsSound_example : IsSound nothing with_holes
Reached-IsSound_example = Reached-IsSound commons 40 true (ground arith) with_holes holes_run

empty-IsSound : IsSound nothing empty_ram
empty-IsSound = Reached-IsSound commons 40 true (ground arith) empty_ram started

patota-IsSound : IsSound nothing with_patota
patota-IsSound = Reached-IsSound commons 40 true (ground arith) with_patota patota_run

holes-IsSound : IsSound nothing with_holes
holes-IsSound = Reached-IsSound commons 40 true (ground arith) with_holes holes_run

crew_fits : 8 + get32 crew 4 + get32 crew (8 + get32 crew 4) * 21 ≤ free_bytes empty_ram
unfolding start get32
crew_fits = ground arith

crew_some : get32 crew (8 + get32 crew 4) ≢ 0
unfolding get32
crew_some = λ e. absurd (omega (arith, e))

crew_int : 8 + get32 crew 4 + get32 crew (8 + get32 crew 4) * 21 < 2147483648
unfolding get32
crew_int = ground arith

iniciar_patota-saves_example :
    (r' : Ram) × (table : List ℕ) × (iniciar_patota commons empty_ram crew
      ≡ some (r', success respuesta))
    × IsSound nothing r'
    × (free_bytes r' + (8 + get32 crew 4 + get32 crew (8 + get32 crew 4) * 21)
        ≡ free_bytes empty_ram)
    × (lookup (get32 crew 0) r'.table_collection ≡ some table)
    × (entries r'.heap table ≡ patota_entries crew)
iniciar_patota-saves_example =
    iniciar_patota-saves commons empty_ram crew empty-IsSound crew_new crew_some crew_fits

crew_large : free_bytes with_holes < 8 + get32 crew 4 + get32 crew (8 + get32 crew 4) * 21
unfolding segmentation_handler start iniciar_patota expulsar_tripulante put sort insert get32
crew_large = ltb→lt _ _ refl

iniciar_patota-refuses_example :
    iniciar_patota commons with_holes crew ≡ some (with_holes, error_por_falta_de_memoria)
iniciar_patota-refuses_example =
    iniciar_patota-refuses commons with_holes crew holes-IsSound crew_some crew_int crew_large

holes_free : 25 ≤ free_bytes with_holes
unfolding segmentation_handler start iniciar_patota expulsar_tripulante put sort insert
holes_free = leb→le _ _ refl

-- no hole is as large as that: the memory is compacted
allocate-IsAllocated_example : IsAllocated commons 25 with_holes (allocate commons with_holes 25)
allocate-IsAllocated_example = allocate-IsAllocated commons 25 with_holes holes-IsSound holes_free

memory_compaction-IsSound_example : IsSound nothing (memory_compaction commons with_holes)
memory_compaction-IsSound_example = memory_compaction-IsSound commons with_holes holes-IsSound

-- the segment of the tasks
tasks_held : 0 < tables_count 2 with_holes.table_collection
unfolding segmentation_handler start iniciar_patota expulsar_tripulante put sort insert
tasks_held = ltb→lt _ _ refl

memory_compaction-bytes_example :
    let new = (memory_compaction commons with_holes).heap 2 in
    (extent new ≡ extent (with_holes.heap 2))
    × (new.limit ≤ with_holes.mem_size)
    × ((k : ℕ)
        → k < extent (with_holes.heap 2)
        → (memory_compaction commons with_holes).memory (new.base_addr + k)
          ≡ with_holes.memory ((with_holes.heap 2).base_addr + k))
memory_compaction-bytes_example =
    memory_compaction-bytes commons with_holes holes-IsSound 2 tasks_held

abbrev patota_table : List ℕ
patota_table = 0 ∷ 1 ∷ 2 ∷ []

patota_stored : lookup (get32 who 0) with_patota.table_collection ≡ some patota_table
unfolding segmentation_handler start iniciar_patota lookup get32 put sort insert
patota_stored = refl

patota_stored_one : lookup 1 with_patota.table_collection ≡ some patota_table
unfolding segmentation_handler start iniciar_patota lookup put sort insert
patota_stored_one = refl

free_segment-IsSound_example :
    IsSound nothing (free_segment commons with_patota 1 patota_table 1)
    × (free_bytes (free_segment commons with_patota 1 patota_table 1)
        ≡ free_bytes with_patota + extent (with_patota.heap 1))
    × (lookup 1 (free_segment commons with_patota 1 patota_table 1).table_collection
        ≡ some (remove_segment_from_table with_patota.heap 1 patota_table))
free_segment-IsSound_example =
    free_segment-IsSound commons with_patota 1 1 patota_table patota-IsSound patota_stored_one
      (ground arith)

expulsar-IsSound_example :
    (r' : Ram) × (expulsar_tripulante commons with_patota who ≡ some (r', success respuesta))
    × IsSound nothing r'
    × (free_bytes r'
        ≡ free_bytes with_patota
          + found_bytes with_patota (find_tcb_segment with_patota.heap (get32 who 4) patota_table))
expulsar-IsSound_example =
    expulsar-IsSound commons with_patota who patota_table patota-IsSound patota_stored

eliminar-IsSound_example :
    (r' : Ram) × (eliminar_patota commons with_patota who ≡ some (r', success respuesta))
    × IsSound nothing r'
    × (free_bytes r' ≡ free_bytes with_patota + table_weight with_patota.heap extent patota_table)
    × (lookup (get32 who 0) r'.table_collection ≡ some [])
eliminar-IsSound_example =
    eliminar-IsSound commons with_patota who patota_table patota-IsSound patota_stored

abbrev libres : List Segment
libres = hole 0 9 ∷ hole 11 17 ∷ hole 20 30 ∷ []

best_fit_found : (memory_best_fit commons 5 libres).0 ≡ some 11
unfolding memory_best_fit sort
best_fit_found = refl

memory_best_fit-IsFirst_example : (h : Segment) × IsFirst size_of 5 11 libres h
memory_best_fit-IsFirst_example = memory_best_fit-IsFirst commons 5 libres 11 best_fit_found

seek_found : (memory_seek commons 5 libres).0 ≡ some 0
unfolding memory_seek sort
seek_found = refl

memory_seek-IsFirst_example : (h : Segment) × IsFirst (λ s. s.base_addr) 5 0 libres h
memory_seek-IsFirst_example = memory_seek-IsFirst commons 5 libres 0 seek_found

mem_space-eq_example : mem_space 30 25 libres ≡ leb 25 (sum_by extent libres)
mem_space-eq_example = mem_space-eq 30 25 libres (ground arith) (ground arith) (ground arith)

-- "A|B"
abbrev text : Bytes
text = bytes_of (65 ∷ 124 ∷ 66 ∷ [])

text_lines : tally b'\n' (rest_of text 2 3 0) ≡ 0
unfolding read
text_lines = refl

get_next_task-until_bar_example :
    get_next_task text 2 3 0
    ≡ some (if leb 3 (2 + 0) then none else some (until_bar (rest_of text 2 3 0)))
get_next_task-until_bar_example = get_next_task-until_bar text 2 3 0 text_lines

abbrev pcb : Pcb
pcb = record { pid = 1; tasks = 29 }

get_pcb-save_pcb_example :
    get_pcb_from_memory (save_pcb_in_memory crew 40 (hole 8 16) pcb).0 40 (hole 8 16) ≡ some pcb
get_pcb-save_pcb_example =
    get_pcb-save_pcb crew 40 (hole 8 16) pcb (ground arith) (ground arith) (ground arith)

who_found : tcb_segment with_patota (get32 who 0) (get32 who 4) ≡ some (with_patota.heap 1)
unfolding segmentation_handler start iniciar_patota lookup get32 tcb_segment find_tcb_segment put
    sort insert
who_found = refl

recibir_ubicacion-recibir_estado_example :
    (m m' : Bytes) × (recibir_estado true with_patota who
      ≡ some (record with_patota { memory = m }, answer true))
    × (recibir_ubicacion true (record with_patota { memory = m }) who
        ≡ some (record with_patota { memory = m' }, answer true))
    × (m' ((with_patota.heap 1).base_addr + 8) ≡ who 8 % 256)
    × (get32 m' ((with_patota.heap 1).base_addr + 9) ≡ get32 who 8)
    × (get32 m' ((with_patota.heap 1).base_addr + 13) ≡ get32 who 12)
    × ((a : ℕ)
        → (a < (with_patota.heap 1).base_addr + 8) ⊎ ((with_patota.heap 1).base_addr + 17 ≤ a)
        → m' a ≡ with_patota.memory a)
recibir_ubicacion-recibir_estado_example =
    recibir_ubicacion-recibir_estado true with_patota who who (with_patota.heap 1) who_found
      who_found (unfold get32 in ground arith) (unfold get32 in ground arith)

recibir_ubicacion-writes_example :
    (m : Bytes) × (recibir_ubicacion true with_patota who
      ≡ some (record with_patota { memory = m }, answer true))
    × (get32 m ((with_patota.heap 1).base_addr + 9) ≡ get32 who 8)
    × (get32 m ((with_patota.heap 1).base_addr + 13) ≡ get32 who 12)
    × ((a : ℕ)
        → (a < (with_patota.heap 1).base_addr + 9) ⊎ ((with_patota.heap 1).base_addr + 17 ≤ a)
        → m a ≡ with_patota.memory a)
recibir_ubicacion-writes_example =
    recibir_ubicacion-writes true with_patota who (with_patota.heap 1) who_found
      (unfold get32 in ground arith) (unfold get32 in ground arith)
