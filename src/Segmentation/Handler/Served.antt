-- ===== src/Segmentation/Handler/Served.antt =====
-- The branches of `segmentation_handler` and the invariant.
use tp_2021_so_fin.Base.{
  ℕ, ◌+◌, ◌*◌, ◌<◌, ◌≡◌, ◌≢◌, Bool, true, List, [], Option, none, some, arith, leb, ◌==◌, inl, inr,
  Bool-cases, Option-cases, ==→≡, ◌||◌, leb→le, leb→lt,
}
use tp_2021_so_fin.Base.Bytes.{Bytes, get32}
use tp_2021_so_fin.Commons.{Commons, lookup}
use tp_2021_so_fin.Segmentation.State.{Segment, Ram}
use tp_2021_so_fin.Segmentation.Invariant.{IsSound, nothing, free_bytes}
use tp_2021_so_fin.Segmentation.Patota.{Reply, success, respuesta, iniciar_patota}
use tp_2021_so_fin.Segmentation.Patota.Pushed.{IsStored}
use tp_2021_so_fin.Segmentation.Patota.Room.{iniciar_patota-saves, iniciar_patota-refuses}
use tp_2021_so_fin.Segmentation.Records.{Tcb, get_tcb_from_memory}
use tp_2021_so_fin.Segmentation.Table.{find_tcb_segment, find_task_segment}
use tp_2021_so_fin.Segmentation.Tasks.{get_next_task}
use tp_2021_so_fin.Segmentation.Handler.{
  tcb_segment, recibir_estado, recibir_ubicacion, send_task, next_task_of, enviar_tarea,
  eliminar_patota, expulsar_tripulante, segmentation_handler,
}
use tp_2021_so_fin.Segmentation.Handler.Expelled.{expulsar-IsSound, eliminar-IsSound}

-- What a handler returns, if it returns, is sound.
abbrev pub Keeps : Option (Ram × Reply) → Type 0
Keeps none = Unit
Keeps (some (r, reply)) = IsSound nothing r

-- The invariant does not read the memory.
memory-IsSound :
    (r : Ram) (m : Bytes) → IsSound nothing r → IsSound nothing (record r { memory = m })
memory-IsSound r m i = record {
  small = i.small;
  tiled = i.tiled;
  once = i.once;
  fresh = i.fresh;
  numbered = i.numbered;
}

module _ (r : Ram) (i : IsSound nothing r) (buffer : Bytes) where
  estado-Keeps : (error : Bool) → Keeps (recibir_estado error r buffer)
  unfolding recibir_estado
  estado-Keeps error = elim (Option-cases (tcb_segment r (get32 buffer 0) (get32 buffer 4))) [
    | inl e ↦ rw e tt
    | inr (s, e) ↦ rw e (memory-IsSound r _ i)
  ]

  ubicacion-Keeps : (error : Bool) → Keeps (recibir_ubicacion error r buffer)
  unfolding recibir_ubicacion
  ubicacion-Keeps error = elim (Option-cases (tcb_segment r (get32 buffer 0) (get32 buffer 4))) [
    | inl e ↦ rw e tt
    | inr (s, e) ↦ rw e (memory-IsSound r _ i)
  ]

  send-Keeps : (s : Segment) (t : Tcb) (tarea : Option (List ℕ)) → Keeps (send_task r s t tarea)
  unfolding send_task
  send-Keeps s t none = i
  send-Keeps s t (some tarea) = memory-IsSound r _ i

  next_task-Keeps : (table : List ℕ) (tid : ℕ) → Keeps (next_task_of r table tid)
  unfolding next_task_of
  next_task-Keeps table tid = elim (Option-cases (find_tcb_segment r.heap tid table)) [
    | inl e ↦ rw e tt
    | inr (p, e) ↦ rw e (elim (Option-cases (find_task_segment r.heap table)) [
      | inl e ↦ rw e tt
      | inr (q, e) ↦
          rw e (elim (Option-cases (get_tcb_from_memory r.memory r.mem_size (r.heap p))) [
            | inl e ↦ rw e tt
            | inr (t, e) ↦
                rw e
                  (elim (Option-cases
                    (get_next_task r.memory t.next (r.heap q).limit (r.heap q).base_addr)) [
                      | inl e ↦ rw e tt
                      | inr (tarea, e) ↦ rw e (send-Keeps (r.heap p) t tarea)
                    ])
          ])
    ])
  ]

  enviar-Keeps : Keeps (enviar_tarea r buffer)
  unfolding enviar_tarea
  enviar-Keeps = elim (Option-cases (lookup (get32 buffer 0) r.table_collection)) [
    | inl e ↦ rw (e, enviar_tarea) i
    | inr (table, e) ↦ rw (e, enviar_tarea) (next_task-Keeps table (get32 buffer 4))
  ]

  module _ (c : Commons) where
    eliminar-missing :
        lookup (get32 buffer 0) r.table_collection ≡ none
        → eliminar_patota c r buffer ≡ some (r, success respuesta)
    unfolding eliminar_patota
    eliminar-missing e = rw (e, eliminar_patota)

    eliminar-Keeps : Keeps (eliminar_patota c r buffer)
    eliminar-Keeps = elim (Option-cases (lookup (get32 buffer 0) r.table_collection)) [
      | inl e ↦ rw (eliminar-missing e) i
      | inr (table, e) ↦ let (r', q, j, _, _) = eliminar-IsSound c r buffer table i e in rw q j
    ]

    expulsar-missing_patota :
        lookup (get32 buffer 0) r.table_collection ≡ none → expulsar_tripulante c r buffer ≡ none
    unfolding expulsar_tripulante
    expulsar-missing_patota e = rw e

    expulsar-Keeps : Keeps (expulsar_tripulante c r buffer)
    expulsar-Keeps = elim (Option-cases (lookup (get32 buffer 0) r.table_collection)) [
      | inl e ↦ rw (expulsar-missing_patota e) tt
      | inr (table, e) ↦ let (r', q, j, _) = expulsar-IsSound c r buffer table i e in rw q j
    ]

    abbrev cant : ℕ
    cant = get32 buffer (8 + get32 buffer 4)

    iniciar-faults :
        (cant == 0 || leb 2147483648 (8 + get32 buffer 4 + cant * 21)) ≡ true
        → iniciar_patota c r buffer ≡ none
    unfolding iniciar_patota
    iniciar-faults e = rw e

    iniciar-Keeps :
        IsStored r.table_collection (get32 buffer 0) [] → Keeps (iniciar_patota c r buffer)
    iniciar-Keeps stored =
        elim (Bool-cases (cant == 0 || leb 2147483648 (8 + get32 buffer 4 + cant * 21))) [
          | inl bad ↦ rw (iniciar-faults bad) tt
          | inr good ↦
              let some_crew : cant ≢ 0 = ground arith in
              let in_int : 8 + get32 buffer 4 + cant * 21 < 2147483648 = ground arith in
              elim (Bool-cases (leb (8 + get32 buffer 4 + cant * 21) (free_bytes r))) [
                | inl room ↦
                    let (r', table, q, j, _, _, _) =
                      iniciar_patota-saves c r buffer i stored some_crew (leb→le _ _ room) in
                    rw q j
                | inr full ↦
                    rw (iniciar_patota-refuses c r buffer i some_crew in_int (leb→lt _ _ full)) i
              ]
        ]

    pub handler-Keeps :
        (error : Bool) (opcode : ℕ)
        → (opcode ≡ 500 → IsStored r.table_collection (get32 buffer 0) [])
        → Keeps (segmentation_handler c error r opcode buffer)
    unfolding segmentation_handler
    handler-Keeps error opcode stored = elim (Bool-cases (opcode == 500)) [
      | inl e ↦ rw e (iniciar-Keeps (stored (==→≡ _ _ e)))
      | inr e ↦ rw e (elim (Bool-cases (opcode == 501)) [
        | inl e ↦ rw e (estado-Keeps error)
        | inr e ↦ rw e (elim (Bool-cases (opcode == 502)) [
          | inl e ↦ rw e (ubicacion-Keeps error)
          | inr e ↦ rw e (elim (Bool-cases (opcode == 520)) [
            | inl e ↦ rw e enviar-Keeps
            | inr e ↦ rw e (elim (Bool-cases (opcode == 599)) [
              | inl e ↦ rw e eliminar-Keeps
              | inr e ↦ rw e (elim (Bool-cases (opcode == 530)) [
                | inl e ↦ rw e expulsar-Keeps
                | inr e ↦ rw e i
              ])
            ])
          ])
        ])
      ])
    ]
