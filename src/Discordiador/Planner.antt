-- ===== src/Discordiador/Planner.antt =====
-- The threads of the planner, in Discordiador/planificador.c: what a round does behind its
-- semaphore, and after the test of `planificacion_viva`. A result of `none` is a NULL that is read.
pub mod Emergency
use tp_2021_so_fin.Base.{
  ℕ, zero, suc, ◌+◌, ◌&&◌, Bool, not, List, [], ◌∷◌, ◌++◌, Option, none, some, ltb, ◌==◌,
  if◌then◌else◌, length, get_elem?, erase_idx,
}
use tp_2021_so_fin.Base.Options.{◌>>=◌}
use tp_2021_so_fin.Base.Texts.{codes}
use tp_2021_so_fin.Messages.{string, int}
use tp_2021_so_fin.Discordiador.State.{
  Tcb, Pcb, Buffer, Colas, Nave, Entorno, ram, ims, Enviado, con_tcb, con_colas, estado_ready,
  estado_exec, estado_bloq_io, estado_exit, codigo_success, codigo_iniciar_patota,
  codigo_enviar_tarea, codigo_expulsar_tripulante, codigo_eliminar_patota,
  codigo_finalizar_ejecucion_tarea,
}
use tp_2021_so_fin.Discordiador.Tripulante.{
  enviar, con_estado, tarea_recibida, respuesta, pedir_proxima_tarea,
}

-- `list_remove`, with what is left; out of range it gives NULL
unfoldable pub list_remove : ℕ → List ℕ → Option (ℕ × List ℕ)
list_remove i ps = do p ← get_elem? ps i; some (p, erase_idx ps i)

-- The position of the first tcb with an id; the -1 is `none`.
unfoldable pub list_iterate_obtener_posicion : (ℕ → Tcb) → List ℕ → ℕ → Option ℕ
list_iterate_obtener_posicion tcbs [] id = none
list_iterate_obtener_posicion tcbs (p ∷ ps) id =
    let resto = list_iterate_obtener_posicion tcbs ps id in
    if (tcbs p).tid == id then some 0 else resto >>= λ i. some (suc i)

-- The tcb with an id leaves a queue.
unfoldable pub sacar : (ℕ → Tcb) → List ℕ → ℕ → Option (ℕ × List ℕ)
unfolding list_iterate_obtener_posicion list_remove
sacar tcbs ps id = list_iterate_obtener_posicion tcbs ps id >>= λ i. list_remove i ps

unfoldable pub get_pcb_by_id : List Pcb → ℕ → Option Pcb
get_pcb_by_id [] id = none
get_pcb_by_id (b ∷ bs) id = if b.pid == id then some b else get_pcb_by_id bs id

-- how many of the tcbs are in EXIT
abbrev pub terminados : (ℕ → Tcb) → List ℕ → ℕ
terminados tcbs [] = 0
terminados tcbs (p ∷ ps) = (if (tcbs p).status == estado_exit then 1 else 0) + terminados tcbs ps

unfoldable pub list_iterate_todos_terminaron : (ℕ → Tcb) → List ℕ → Bool
list_iterate_todos_terminaron tcbs ps = terminados tcbs ps == length ps

-- A walk over a list that it saved; it stops at a fault.
unfoldable pub list_iterate : (ℕ → Nave → Option Nave) → List ℕ → Nave → Option Nave
list_iterate f [] n = some n
list_iterate f (p ∷ ps) n = f p n >>= list_iterate f ps

-- EXEC -> BLOCKED_IO, for one tripulante
unfoldable pub funcion_cambio_exec_io : ℕ → Nave → Option Nave
unfolding sacar
funcion_cambio_exec_io p n =
    if (n.tcbs p).status == estado_bloq_io
    then (do
      (q, exec) ← sacar n.tcbs n.colas.exec (n.tcbs p).tid
      some (con_colas n (record (n.colas) { exec = exec; bloq_io = n.colas.bloq_io ++ q ∷ [] })))
    else some n

unfoldable pub funcion_h_exec_a_bloq_io : Nave → Option Nave
unfolding list_iterate funcion_cambio_exec_io
funcion_h_exec_a_bloq_io n = list_iterate funcion_cambio_exec_io n.colas.exec n

-- EXEC -> READY, for one tripulante
unfoldable pub funcion_cambio_exec_ready : ℕ → Nave → Option Nave
unfolding sacar
funcion_cambio_exec_ready p n =
    if (n.tcbs p).status == estado_ready
    then (do
      (q, exec) ← sacar n.tcbs n.colas.exec (n.tcbs p).tid
      some (con_colas n (record (n.colas) { exec = exec; ready = n.colas.ready ++ q ∷ [] })))
    else some n

unfoldable pub funcion_h_exec_a_ready : Nave → Option Nave
unfolding list_iterate funcion_cambio_exec_ready
funcion_h_exec_a_ready n = list_iterate funcion_cambio_exec_ready n.colas.exec n

unfoldable pub termina_un_ciclo : ℕ → Nave → Nave
termina_un_ciclo p n = con_tcb n p (record (n.tcbs p) { ciclo_cpu_cumplido = 0 })

unfoldable pub deletear_tripulante : ℕ → Nave → Nave
deletear_tripulante p n =
    if (n.tcbs p).esta_vivo_el_hilo == 1
    then con_tcb n p (record (n.tcbs p) { esta_vivo_el_hilo = 0 })
    else n

-- a walk that cannot fail
abbrev pub recorrer : (ℕ → Nave → Nave) → List ℕ → Nave → Nave
recorrer f [] n = n
recorrer f (p ∷ ps) n = recorrer f ps (f p n)

-- The pcb with an id is marked as finished.
abbrev pub marcar : ℕ → List Pcb → List Pcb
marcar id [] = []
marcar id (b ∷ bs) =
    if b.pid == id then record b { todos_los_tcbs_terminaron = 1 } ∷ bs else b ∷ marcar id bs

module _ (e : Entorno) where
  -- the first task of one tripulante
  unfoldable pub primera_tarea : ℕ → Nave → Nave
  unfolding enviar tarea_recibida
  primera_tarea p n =
      let t = n.tcbs p in
      let n' = enviar ram codigo_enviar_tarea (int t.pid ∷ int t.tid ∷ []) n in
      let r = respuesta e n' in
      if r.command == codigo_success
      then con_tcb n' p
          (record t { instruccion_actual = some (tarea_recibida r.payload); status = estado_ready })
      else con_tcb n' p (record t { status = estado_exit })

  unfoldable pub iterate_next_task : List ℕ → Nave → Nave
  unfolding enviar tarea_recibida
  iterate_next_task ps n = recorrer primera_tarea ps n

  -- One of the patotas that wait to be sent: its bytes go to MiRAMHQ.
  unfoldable pub iniciar : Buffer → Nave → Option Nave
  unfolding get_pcb_by_id iterate_next_task
  iniciar b n =
      let m : Enviado = record {
        destino = ram;
        command = codigo_iniciar_patota;
        payload = b.payload;
      } in
      let n' = record n { enviados = n.enviados ++ m ∷ [] } in
      if (respuesta e n').command == codigo_success
      then (do
        patota ← get_pcb_by_id n'.lista_pcb b.command
        some (iterate_next_task patota.lista_tcb n'))
      else some n'

  unfoldable pub enviar_buffers : List Buffer → Nave → Option Nave
  unfolding get_pcb_by_id iterate_next_task
  enviar_buffers [] n = some n
  enviar_buffers (b ∷ bs) n = iniciar b (record n { buffers_a_enviar = bs }) >>= enviar_buffers bs

  -- the loop that empties `cola_new`
  unfoldable pub vaciar_new : List ℕ → Nave → Nave
  vaciar_new [] n = n
  vaciar_new (p ∷ ps) n = vaciar_new ps (
      con_colas n (
        if (n.tcbs p).status == estado_ready
        then record (n.colas) { cola_new = ps; ready = n.colas.ready ++ p ∷ [] }
        else record (n.colas) { cola_new = ps; cola_exit = n.colas.cola_exit ++ p ∷ [] }))

  unfoldable pub funcion_h_new_a_ready : Nave → Option Nave
  unfolding enviar_buffers vaciar_new
  funcion_h_new_a_ready n = do
    n' ← enviar_buffers n.buffers_a_enviar n
    some (vaciar_new n'.colas.cola_new n')

  -- The loop that fills `exec` from `ready`, up to the degree of multitasking.
  unfoldable pub llenar_exec : List ℕ → Nave → Nave
  unfolding con_estado
  llenar_exec [] n = n
  llenar_exec (p ∷ ps) n =
      let n' = con_estado p estado_exec (con_colas n (record (n.colas) { ready = ps })) in
      let resto =
        llenar_exec ps (con_colas n' (record (n'.colas) { exec = n'.colas.exec ++ p ∷ [] })) in
      if ltb (length n.colas.exec) e.grado_multitarea then resto else n

  unfoldable pub funcion_h_ready_a_exec : Nave → Nave
  unfolding llenar_exec
  funcion_h_ready_a_exec n = llenar_exec n.colas.ready n

  -- ELIMINAR_PATOTA, if all its tripulantes are in EXIT
  unfoldable pub eliminar_si_terminaron : Pcb → Nave → Nave
  unfolding enviar list_iterate_todos_terminaron
  eliminar_si_terminaron patota n =
      let n' = enviar ram codigo_eliminar_patota (int patota.pid ∷ []) n in
      if list_iterate_todos_terminaron n.tcbs patota.lista_tcb
      then (if (respuesta e n').command == codigo_success
          then record n' { lista_pcb = marcar patota.pid n'.lista_pcb }
          else n')
      else n

  -- EXEC -> EXIT, for one tripulante
  unfoldable pub funcion_cambio_exec_exit : ℕ → Nave → Option Nave
  unfolding sacar enviar get_pcb_by_id eliminar_si_terminaron
  funcion_cambio_exec_exit p n =
      if (n.tcbs p).status == estado_exit
      then (do
        (q, exec) ← sacar n.tcbs n.colas.exec (n.tcbs p).tid
        let n₁ =
            con_colas n (record (n.colas) { exec = exec; cola_exit = n.colas.cola_exit ++ q ∷ [] })
        let n₂ =
            enviar ram codigo_expulsar_tripulante (int (n.tcbs q).pid ∷ int (n.tcbs q).tid ∷ []) n₁
        patota ← get_pcb_by_id n₂.lista_pcb (n.tcbs q).pid
        some (eliminar_si_terminaron patota n₂))
      else some n

  unfoldable pub funcion_h_exec_a_exit : Nave → Option Nave
  unfolding list_iterate funcion_cambio_exec_exit
  funcion_h_exec_a_exit n = list_iterate funcion_cambio_exec_exit n.colas.exec n

  -- The tripulante at the head of `bloq_io` is done: it asks for its next task. In EXIT it is put in
  -- no queue.
  unfoldable pub salir_de_bloq_io : ℕ → List ℕ → List ℕ → Nave → Nave
  unfolding enviar pedir_proxima_tarea con_estado
  salir_de_bloq_io p ps nombre n =
      let n₁ =
        con_tcb (con_colas n (record (n.colas) { bloq_io = ps })) p
          (record (n.tcbs p) { tiempo_en_bloq_io = 0 }) in
      let n₂ = pedir_proxima_tarea e p (
        enviar ims codigo_finalizar_ejecucion_tarea (int (n₁.tcbs p).tid ∷ string nombre ∷ [])
          n₁) in
      if (n₂.tcbs p).status == estado_exit
      then n₂
      else (let n₃ = con_estado p estado_ready n₂ in
          con_colas n₃ (record (n₃.colas) { ready = n₃.colas.ready ++ p ∷ [] }))

  -- A cycle at the head of `bloq_io`, which is followed by `ps`.
  unfoldable pub contar_en_bloq_io : ℕ → List ℕ → ℕ → List ℕ → Nave → Nave
  unfolding enviar pedir_proxima_tarea con_estado
  contar_en_bloq_io p ps tiempo nombre n =
      let t = n.tcbs p in
      let n' =
        if t.tiempo_en_bloq_io == tiempo
        then n
        else con_tcb n p (record t { tiempo_en_bloq_io = suc t.tiempo_en_bloq_io }) in
      if (n'.tcbs p).tiempo_en_bloq_io == tiempo then salir_de_bloq_io p ps nombre n' else n'

  unfoldable pub funcion_contador_en_bloq_io : ℕ → List ℕ → Nave → Option Nave
  unfolding enviar pedir_proxima_tarea con_estado
  funcion_contador_en_bloq_io p ps n = do
    instruccion ← (n.tcbs p).instruccion_actual
    let tarea = e.string_split instruccion (codes " ")
    nombre ← get_elem? tarea 0
    parametros ← get_elem? tarea 1
    tiempo ← get_elem? (e.string_split parametros (codes ";")) 3
    some (contar_en_bloq_io p ps (e.atoi tiempo) nombre n)

  unfoldable pub en_bloq_io : List ℕ → Nave → Option Nave
  unfolding funcion_contador_en_bloq_io
  en_bloq_io [] n = some n
  en_bloq_io (p ∷ ps) n = funcion_contador_en_bloq_io p ps n

  unfoldable pub funcion_h_bloq_io : Nave → Option Nave
  unfolding funcion_contador_en_bloq_io
  funcion_h_bloq_io n = if n.sabotaje_activado then some n else en_bloq_io n.colas.bloq_io n
