-- ===== src/Discordiador/Patotas/Saved.antt =====
-- The message of a new patota, in MiRAMHQ's segmentation scheme.
use tp_2021_so_fin.Base.{
  ℕ, ◌+◌, ◌*◌, ◌≤◌, ◌<◌, ◌≡◌, ◌≢◌, ◌∙◌, sym, subst, refl, List, [], ◌∷◌, ◌++◌, some, arith, length,
}
use tp_2021_so_fin.Base.Bytes.{u32, get32}
use tp_2021_so_fin.Commons.{Commons, All, lookup}
use tp_2021_so_fin.Segmentation.State.{Ram, pcb_type, task_type}
use tp_2021_so_fin.Segmentation.Invariant.{free_bytes, IsSound, nothing}
use tp_2021_so_fin.Segmentation.Patota.{Entry, success, respuesta, iniciar_patota}
use tp_2021_so_fin.Segmentation.Patota.Pushed.{IsStored}
use tp_2021_so_fin.Segmentation.Patota.Entries.{entries}
use tp_2021_so_fin.Segmentation.Patota.Room.{iniciar_patota-saves}
use tp_2021_so_fin.Discordiador.State.{Tcb}
use tp_2021_so_fin.Discordiador.Patotas.Crew.{tripulantes_en_ram, crew_entries-mensaje}
use tp_2021_so_fin.Discordiador.Patotas.Read.{
  IsSmall, mensaje, mensaje-pid, mensaje-tam, mensaje-cant,
}

-- what the segments of a patota are for: the pcb, the tripulantes by their tids, and the tasks
abbrev pub patota_en_ram : ℕ → List ℕ → List Tcb → List Entry
patota_en_ram pid tareas ts =
    record { id = pid; type = pcb_type; size = 8 }
    ∷ (tripulantes_en_ram ts ++ record { id = pid; type = task_type; size = length tareas } ∷ [])

-- MiRAMHQ takes the message of a new patota with at least one tripulante, whose numbers are below
-- 2 ^ 32, if the segments are sound, its pid is not in use, and the free bytes suffice: the answer is
-- SUCCESS, the segments stay sound, and the table of the patota has, in this order and no others, a
-- segment for the pcb with the pid, one for every tripulante with its tid, and one for the tasks
-- with the pid, each with its type and its size.
pub mensaje-saves :
    (c : Commons) (r : Ram) (pid : ℕ) (tareas : List ℕ) (ts : List Tcb)
    → IsSound nothing r
    → IsStored r.table_collection pid []
    → pid < u32
    → length tareas < u32
    → length ts ≢ 0
    → All IsSmall ts
    → 8 + length tareas + length ts * 21 ≤ free_bytes r
    → (r' : Ram) × (table : List ℕ) × (iniciar_patota c r (mensaje pid tareas ts)
        ≡ some (r', success respuesta))
      × IsSound nothing r'
      × (lookup pid r'.table_collection ≡ some table)
      × (entries r'.heap table ≡ patota_en_ram pid tareas ts)
mensaje-saves c r pid tareas ts i stored a b ne h le =
    let p = mensaje-pid pid tareas ts a in
    let t = mensaje-tam pid tareas ts b in
    let n =
      subst (λ k. get32 (mensaje pid tareas ts) (8 + k) ≡ length ts) (sym t)
        (mensaje-cant pid tareas ts (omega (arith, i.small, i.tiled.total))) in
    let (r', table, e, s, f, l, m) =
      iniciar_patota-saves c r (mensaje pid tareas ts) i
        (subst (λ k. IsStored r.table_collection k []) (sym p) stored) (λ z. ne (sym n ∙ z))
        (omega arith) in
    (
      r',
      table,
      e,
      s,
      subst (λ k. lookup k r'.table_collection ≡ some table) p l,
      m
          ∙ rw
              (
                p,
                t,
                mensaje-cant pid tareas ts (omega (arith, i.small, i.tiled.total)),
                crew_entries-mensaje pid tareas ts h,
              )
              refl,
    )
