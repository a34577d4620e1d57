-- ===== src/Segmentation/Patota/Room.antt =====
-- INICIAR_PATOTA: the room for the segments of a new patota, and the invariant.
use tp_2021_so_fin.Base.{
  ℕ, ◌+◌, ◌*◌, ◌%◌, ◌≤◌, ◌<◌, ◌≡◌, ◌≢◌, ◌∙◌, true, false, List, [], ◌∷◌, ◌++◌, ap, some, arith, leb,
  inl, le→leb,
}
use tp_2021_so_fin.Base.Bytes.{Bytes, u32, get32}
use tp_2021_so_fin.Commons.{Commons, lookup}
use tp_2021_so_fin.Segmentation.State.{Segment, Ram, pcb_type, task_type}
use tp_2021_so_fin.Segmentation.Holes.{mem_space}
use tp_2021_so_fin.Segmentation.Holes.Choice.{mem_space-eq}
use tp_2021_so_fin.Segmentation.Invariant.{free_bytes, IsSound, nothing}
use tp_2021_so_fin.Segmentation.Records.{save_pcb_in_memory, save_task_in_memory}
use tp_2021_so_fin.Segmentation.Patota.{
  Entry, success, error_por_falta_de_memoria, respuesta, add_segment, add_pcb, add_crew, add_tasks,
  iniciar_patota, copy_tasks,
}
use tp_2021_so_fin.Segmentation.Patota.Pushed.{IsStored}
use tp_2021_so_fin.Segmentation.Patota.Entries.{entries}
use tp_2021_so_fin.Segmentation.Patota.Added.{
  IsAdded, IsAdded-trans, crew_entries, add_segment-IsAdded, add_crew-IsAdded,
}

-- What the segments of the patota in a message are for: the PCB, the tripulantes and the tasks.
abbrev pub patota_entries : Bytes → List Entry
patota_entries buffer =
    let pid = get32 buffer 0 in
    let tam = get32 buffer 4 in
    record { id = pid; type = pcb_type; size = 8 }
    ∷ (crew_entries (get32 buffer (8 + tam)) buffer (12 + tam)
        ++ record { id = pid; type = task_type; size = tam } ∷ [])

module _ (c : Commons) (r : Ram) (buffer : Bytes) (i : IsSound nothing r) where
  abbrev pid : ℕ
  pid = get32 buffer 0

  abbrev tam : ℕ
  tam = get32 buffer 4

  abbrev cant : ℕ
  cant = get32 buffer (8 + tam)

  abbrev pcb_entry : Entry
  pcb_entry = record { id = pid; type = pcb_type; size = 8 }

  abbrev task_entry : Entry
  task_entry = record { id = pid; type = task_type; size = tam }

  -- the state with the new patota
  abbrev with_crew : Ram × List ℕ
  with_crew = add_crew c cant buffer (12 + tam) pid (add_pcb c r pid cant)

  add_pcb-IsAdded :
      IsStored r.table_collection pid []
      → 8 ≤ free_bytes r
      → IsAdded pid 8 (pcb_entry ∷ []) r [] (add_pcb c r pid cant)
  unfolding add_pcb
  add_pcb-IsAdded stored le =
      add_segment-IsAdded c r pid [] _
        (λ base memory mem_size s.
          (save_pcb_in_memory memory mem_size s
            (record { pid = pid; tasks = (base + 8 + cant * 21) % u32 })).0)
        i stored le

  with_crew-IsAdded :
      IsStored r.table_collection pid []
      → 8 + cant * 21 ≤ free_bytes r
      → IsAdded pid (8 + cant * 21) (pcb_entry ∷ crew_entries cant buffer (12 + tam)) r [] with_crew
  with_crew-IsAdded stored le =
      let p = add_pcb c r pid cant in
      let a = add_pcb-IsAdded stored (omega arith) in
      IsAdded-trans c pid 8 (cant * 21) (pcb_entry ∷ []) (crew_entries cant buffer (12 + tam)) r []
        p _ a
        (add_crew-IsAdded c cant buffer (12 + tam) pid p.0 p.1 a.sound a.stored
          (omega (arith, a.used)))

  add_tasks-IsAdded :
      (text : Bytes) (r₁ : Ram) (table : List ℕ)
      → IsSound nothing r₁
      → lookup pid r₁.table_collection ≡ some table
      → tam ≤ free_bytes r₁
      → (table' : List ℕ) × IsAdded pid tam
          (task_entry ∷ [])
          r₁
          table
          (add_tasks c text tam pid (r₁, table), table')
  unfolding add_tasks
  add_tasks-IsAdded text r₁ table i₁ stored le =
      let save : ℕ → Bytes → ℕ → Segment → Bytes =
        λ base memory mem_size s. (save_task_in_memory memory mem_size s text).0 in
      (
        (add_segment c r₁ pid table task_entry save).1,
        add_segment-IsAdded c r₁ pid table task_entry save i₁ (inl stored) le,
      )

  mem_space-free : (k : ℕ) → mem_space r.mem_size k r.segmentos_libres ≡ leb k (free_bytes r)
  mem_space-free k =
      let t = i.tiled.total in
      let d = i.tiled.sound in
      mem_space-eq r.mem_size k r.segmentos_libres i.small (omega arith) (omega arith)

  iniciar-saved :
      cant ≢ 0
      → 8 + tam + cant * 21 < 2147483648
      → mem_space r.mem_size (8 + tam + cant * 21) r.segmentos_libres ≡ true
      → iniciar_patota c r buffer
        ≡ some (add_tasks c (copy_tasks c buffer tam) tam pid with_crew, success respuesta)
  unfolding iniciar_patota
  iniciar-saved h k e = ground arith

  iniciar-refused :
      cant ≢ 0
      → 8 + tam + cant * 21 < 2147483648
      → mem_space r.mem_size (8 + tam + cant * 21) r.segmentos_libres ≡ false
      → iniciar_patota c r buffer ≡ some (r, error_por_falta_de_memoria)
  unfolding iniciar_patota
  iniciar-refused h k e = ground arith

  -- INICIAR_PATOTA in a sound state, for a pid that has no segments and at least one tripulante:
  -- if the free bytes, in however many holes, are enough for the patota, the answer is success,
  -- the state stays sound, those bytes are no longer free, and the table of the pid has the
  -- segments of the PCB, of every TCB and of the tasks, in this order and no others, each with its
  -- type, its size and its id, which is the pid, or the tid of the message for a TCB.
  pub iniciar_patota-saves :
      IsStored r.table_collection pid []
      → cant ≢ 0
      → 8 + tam + cant * 21 ≤ free_bytes r
      → (r' : Ram) × (table : List ℕ) × (iniciar_patota c r buffer ≡ some (r', success respuesta))
        × IsSound nothing r'
        × (free_bytes r' + (8 + tam + cant * 21) ≡ free_bytes r)
        × (lookup pid r'.table_collection ≡ some table)
        × (entries r'.heap table ≡ patota_entries buffer)
  iniciar_patota-saves stored h le =
      let total = i.tiled.total in
      let small = i.small in
      let a = with_crew-IsAdded stored (omega arith) in
      let (table, b) =
        add_tasks-IsAdded (copy_tasks c buffer tam) with_crew.0 with_crew.1 a.sound a.stored
          (omega (arith, a.used)) in
      (
        add_tasks c (copy_tasks c buffer tam) tam pid with_crew,
        table,
        iniciar-saved h (omega arith) (mem_space-free (8 + tam + cant * 21) ∙ le→leb _ _ le),
        b.sound,
        omega (arith, a.used, b.used),
        b.stored,
        b.described ∙ ap (λ xs. xs ++ task_entry ∷ []) a.described,
      )

  -- INICIAR_PATOTA in a sound state, with at least one tripulante and a size that is an `int`: if the
  -- free bytes are too few, the answer is the error, and nothing has changed.
  pub iniciar_patota-refuses :
      cant ≢ 0
      → 8 + tam + cant * 21 < 2147483648
      → free_bytes r < 8 + tam + cant * 21
      → iniciar_patota c r buffer ≡ some (r, error_por_falta_de_memoria)
  iniciar_patota-refuses h k lt =
      iniciar-refused h k (mem_space-free (8 + tam + cant * 21) ∙ too_many)
    where
      too_many : leb (8 + tam + cant * 21) (free_bytes r) ≡ false
      too_many = ground arith
