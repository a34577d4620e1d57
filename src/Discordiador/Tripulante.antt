-- ===== src/Discordiador/Tripulante.antt =====
-- The thread of a tripulante, `funcionTripulante`, and what it calls, in Discordiador/patotas.c. A
-- result of `none` is a fault of the process: a NULL that is read, or a bad `free`.
pub mod Moves
use tp_2021_so_fin.Base.{
  ℕ, suc, ◌-◌, ◌&&◌, Bool, not, List, [], ◌∷◌, ◌++◌, Option, none, some, ltb, ◌==◌, if◌then◌else◌,
  get_elem?,
}
use tp_2021_so_fin.Base.Options.{◌>>=◌}
use tp_2021_so_fin.Base.Bytes.{Bytes, get32}
use tp_2021_so_fin.Base.Texts.{read, until_nul, codes}
use tp_2021_so_fin.Store.Tasks.{same_text}
use tp_2021_so_fin.Messages.{Argumento, string, int, char, payload_de}
use tp_2021_so_fin.Discordiador.State.{
  Tcb, Nave, Entorno, Modulo, ram, ims, Respuesta, con_tcb, estado_ready, estado_exec,
  estado_bloq_io, estado_exit, codigo_success, codigo_enviar_cambio_de_estado,
  codigo_enviar_ubicacion_tripulante, codigo_enviar_tarea, codigo_error_no_hay_tareas,
  codigo_mover_tripulante, codigo_comenzar_ejecucion_tarea, codigo_finalizar_ejecucion_tarea,
  codigo_invocar_fsck,
}

-- `_serialize` of the arguments, `_connect` and `_send_message`
unfoldable pub enviar : Modulo → ℕ → List Argumento → Nave → Nave
unfolding payload_de
enviar destino command args n = record n {
  enviados =
      n.enviados ++ record { destino = destino; command = command; payload = payload_de args } ∷ [];
}

-- the message ENVIAR_CAMBIO_DE_ESTADO, with the status that the tcb has
unfoldable pub enviar_estado : ℕ → Nave → Nave
unfolding enviar
enviar_estado p n =
    let t = n.tcbs p in
    enviar ram codigo_enviar_cambio_de_estado (int t.pid ∷ int t.tid ∷ char t.status ∷ []) n

-- a change of status, and its message
unfoldable pub con_estado : ℕ → ℕ → Nave → Nave
unfolding enviar_estado
con_estado p estado n = enviar_estado p (con_tcb n p (record (n.tcbs p) { status = estado }))

-- The messages of a move, from the position where the tripulante was to that where it is.
unfoldable pub avisar_movimiento : ℕ → ℕ → ℕ → Nave → Nave
unfolding enviar
avisar_movimiento p x_vieja y_vieja n =
    let t = n.tcbs p in
    enviar ims codigo_mover_tripulante
      (int t.tid ∷ int x_vieja ∷ int y_vieja ∷ int t.posicion_x ∷ int t.posicion_y ∷ [])
      (enviar ram codigo_enviar_ubicacion_tripulante
        (int t.pid ∷ int t.tid ∷ int t.posicion_x ∷ int t.posicion_y ∷ []) n)

unfoldable pub mover_tripulante_uno : ℕ → ℕ → ℕ → Nave → Nave
unfolding avisar_movimiento
mover_tripulante_uno p x_final y_final n =
    let t = n.tcbs p in
    let x = t.posicion_x in
    let y = t.posicion_y in
    if ltb x x_final
    then avisar_movimiento p x y (con_tcb n p (record t { posicion_x = suc x }))
    else if ltb x_final x
    then avisar_movimiento p x y (con_tcb n p (record t { posicion_x = x - 1 }))
    else if ltb y y_final
    then avisar_movimiento p x y (con_tcb n p (record t { posicion_y = suc y }))
    else if ltb y_final y
    then avisar_movimiento p x y (con_tcb n p (record t { posicion_y = y - 1 }))
    else n

unfoldable pub llego_a_posicion : Tcb → ℕ → ℕ → Bool
llego_a_posicion t x y = t.posicion_x == x && t.posicion_y == y

-- the task in the payload of an answer: its length, and its bytes
unfoldable pub tarea_recibida : Bytes → List ℕ
unfolding read until_nul get32
tarea_recibida payload = until_nul (read payload 4 (get32 payload 0))

-- what `esTareaIO` returns: 1, 0 and -1
pub data EsTareaIo : Type 0 where
  tarea_io tarea_normal formato_incorrecto : EsTareaIo

abbrev pub tiene_punto_y_coma : List ℕ → EsTareaIo
tiene_punto_y_coma [] = formato_incorrecto
tiene_punto_y_coma (c ∷ cs) = if c == b';' then tarea_normal else tiene_punto_y_coma cs

unfoldable pub es_tarea_io : List ℕ → EsTareaIo
unfolding same_text
es_tarea_io tarea =
    if same_text tarea (codes "GENERAR_OXIGENO")
    then tarea_io
    else if same_text tarea (codes "CONSUMIR_OXIGENO")
    then tarea_io
    else if same_text tarea (codes "GENERAR_COMIDA")
    then tarea_io
    else if same_text tarea (codes "CONSUMIR_COMIDA")
    then tarea_io
    else if same_text tarea (codes "GENERAR_BASURA")
    then tarea_io
    else if same_text tarea (codes "DESCARTAR_BASURA")
    then tarea_io
    else tiene_punto_y_coma tarea

-- The first tcb of a list with an id.
unfoldable pub get_by_id : (ℕ → Tcb) → List ℕ → ℕ → Option ℕ
get_by_id tcbs [] id = none
get_by_id tcbs (p ∷ ps) id = if (tcbs p).tid == id then some p else get_by_id tcbs ps id

module _ (e : Entorno) where
  -- The answer of MiRAMHQ to the message sent last.
  abbrev pub respuesta : Nave → Respuesta
  respuesta n = e.ram n.enviados

  unfoldable pub pedir_proxima_tarea : ℕ → Nave → Nave
  unfolding enviar con_estado tarea_recibida
  pedir_proxima_tarea p n =
      let t = n.tcbs p in
      let n' = enviar ram codigo_enviar_tarea (int t.pid ∷ int t.tid ∷ []) n in
      let r = respuesta n' in
      if r.command == codigo_success
      then con_tcb n' p (record t { instruccion_actual = some (tarea_recibida r.payload) })
      else if r.command == codigo_error_no_hay_tareas
      then con_estado p estado_exit n'
      else n'

  -- the test of the quantum
  abbrev pub cumplio_quantum : Tcb → Bool
  cumplio_quantum t = e.es_rr && t.ciclos_cumplidos == e.quantum_rr

  -- the end of a quantum: READY, and the cycles start again
  unfoldable pub fin_de_quantum : ℕ → Nave → Nave
  unfolding con_estado
  fin_de_quantum p n =
      con_estado p estado_ready (con_tcb n p (record (n.tcbs p) { ciclos_cumplidos = 0 }))

  abbrev pub un_ciclo : ℕ → Nave → Nave
  un_ciclo p n =
      con_tcb n p (record (n.tcbs p) { ciclos_cumplidos = suc (n.tcbs p).ciclos_cumplidos })

  -- `FSCK` is asked for in the first cycle of the repair.
  unfoldable pub reparar : ℕ → Nave → Nave
  unfolding enviar
  reparar p n =
      let n' =
        if n.ciclos_transcurridos_sabotaje == 0
        then enviar ims codigo_invocar_fsck (string (codes "Se invoco FSCK") ∷ []) n
        else n in
      un_ciclo p
        (record n' { ciclos_transcurridos_sabotaje = suc n'.ciclos_transcurridos_sabotaje })

  unfoldable pub resolviendo_sabotaje : ℕ → Nave → Nave
  unfolding llego_a_posicion mover_tripulante_uno fin_de_quantum enviar
  resolviendo_sabotaje p n =
      let n' =
        if llego_a_posicion (n.tcbs p) n.pos_sabotaje_x n.pos_sabotaje_y
        then reparar p n
        else un_ciclo p (mover_tripulante_uno p n.pos_sabotaje_x n.pos_sabotaje_y n) in
      if cumplio_quantum (n'.tcbs p) then fin_de_quantum p n' else n'

  -- the pieces of the parameters of a task, `atoi` of all but the first
  unfoldable pub parametros_de : List ℕ → Option (List ℕ × ℕ × ℕ × ℕ)
  parametros_de texto = do
    let partes = e.string_split texto (codes ";")
    primero ← get_elem? partes 0
    x ← get_elem? partes 1
    y ← get_elem? partes 2
    tiempo ← get_elem? partes 3
    some (primero, e.atoi x, e.atoi y, e.atoi tiempo)

  -- the message that the task begins, if it was not sent yet
  unfoldable pub comenzar : ℕ → List ℕ → ℕ → ℕ → ℕ → Nave → Nave
  unfolding enviar
  comenzar p nombre x y tiempo n =
      let t = n.tcbs p in
      if t.mensaje_inicial_ims == 0
      then con_tcb
          (enviar ims codigo_comenzar_ejecucion_tarea
            (int t.tid ∷ string nombre ∷ int x ∷ int y ∷ int tiempo ∷ []) n)
          p (record t { mensaje_inicial_ims = 1 })
      else n

  -- the end of a normal task, and the next one
  unfoldable pub terminar : ℕ → List ℕ → Nave → Nave
  unfolding enviar pedir_proxima_tarea
  terminar p nombre n =
      let n' =
        pedir_proxima_tarea p (
          enviar ims codigo_finalizar_ejecucion_tarea (int (n.tcbs p).tid ∷ string nombre ∷ [])
            n) in
      con_tcb n' p (record (n'.tcbs p) { tiempo_en_exec = 0; mensaje_inicial_ims = 0 })

  -- the counters of a cycle of work
  abbrev pub contar : ℕ → Nave → Nave
  contar p n =
      let t = n.tcbs p in
      con_tcb n p (record t {
        tiempo_en_exec = suc t.tiempo_en_exec;
        ciclos_cumplidos = suc t.ciclos_cumplidos;
      })

  -- one cycle of work at the place of the task
  unfoldable pub trabajar : ℕ → List ℕ → ℕ → ℕ → ℕ → Nave → Nave
  unfolding enviar pedir_proxima_tarea
  trabajar p nombre x y tiempo n =
      let n₂ = contar p (comenzar p nombre x y tiempo n) in
      if (n₂.tcbs p).tiempo_en_exec == tiempo then terminar p nombre n₂ else n₂

  unfoldable pub tarea_normal_en : ℕ → List ℕ → ℕ → ℕ → ℕ → Nave → Nave
  unfolding llego_a_posicion mover_tripulante_uno fin_de_quantum pedir_proxima_tarea enviar
  tarea_normal_en p nombre x y tiempo n =
      if llego_a_posicion (n.tcbs p) x y
      then (let n' = trabajar p nombre x y tiempo n in
          if cumplio_quantum (n'.tcbs p) && not ((n'.tcbs p).status == estado_exit)
          then fin_de_quantum p n'
          else n')
      else (let n' = un_ciclo p (mover_tripulante_uno p x y n) in
          if cumplio_quantum (n'.tcbs p) then fin_de_quantum p n' else n')

  unfoldable pub operando_sin_sabotaje_tarea_normal : ℕ → List ℕ → Nave → Option Nave
  unfolding parametros_de tarea_normal_en
  operando_sin_sabotaje_tarea_normal p tarea n = do
    (nombre, x, y, tiempo) ← parametros_de tarea
    some (tarea_normal_en p nombre x y tiempo n)

  -- The start of the task of input and output, and the way to BLOQ_IO.
  unfoldable pub bloquear : ℕ → List ℕ → ℕ → ℕ → ℕ → ℕ → Nave → Nave
  unfolding enviar con_estado
  bloquear p nombre parametro x y tiempo n =
      let n' = con_estado p estado_bloq_io (
        enviar ims codigo_comenzar_ejecucion_tarea
          (int (n.tcbs p).tid ∷ string nombre ∷ int parametro ∷ int x ∷ int y ∷ int tiempo ∷ [])
          n) in
      con_tcb n' p (record (n'.tcbs p) { ciclos_cumplidos = 0 })

  unfoldable pub tarea_io_en : ℕ → List ℕ → ℕ → ℕ → ℕ → ℕ → Nave → Nave
  unfolding llego_a_posicion mover_tripulante_uno fin_de_quantum enviar con_estado
  tarea_io_en p nombre parametro x y tiempo n =
      let n' =
        if llego_a_posicion (n.tcbs p) x y then n else un_ciclo p (mover_tripulante_uno p x y n) in
      if llego_a_posicion (n'.tcbs p) x y
      then bloquear p nombre parametro x y tiempo n'
      else if cumplio_quantum (n'.tcbs p)
      then fin_de_quantum p n'
      else n'

  unfoldable pub operando_sin_sabotaje_tarea_io : ℕ → List ℕ → List ℕ → Nave → Option Nave
  unfolding parametros_de tarea_io_en
  operando_sin_sabotaje_tarea_io p nombre parametros n = do
    (parametro, x, y, tiempo) ← parametros_de parametros
    some (tarea_io_en p nombre (e.atoi parametro) x y tiempo n)

  -- A task of no known format counts as one of input and output, since -1 is not 0.
  unfoldable pub segun_tarea : EsTareaIo → ℕ → List ℕ → List (List ℕ) → Nave → Option Nave
  unfolding operando_sin_sabotaje_tarea_normal operando_sin_sabotaje_tarea_io
  segun_tarea tarea_normal p nombre tarea n = operando_sin_sabotaje_tarea_normal p nombre n
  segun_tarea _ p nombre tarea n =
      get_elem? tarea 1 >>= λ parametros. operando_sin_sabotaje_tarea_io p nombre parametros n

  unfoldable pub operando_sin_sabotaje : ℕ → Nave → Option Nave
  unfolding es_tarea_io segun_tarea
  operando_sin_sabotaje p n = do
    instruccion ← (n.tcbs p).instruccion_actual
    let tarea = e.string_split instruccion (codes " ")
    nombre ← get_elem? tarea 0
    segun_tarea (es_tarea_io nombre) p nombre tarea n

  unfoldable pub hilo_tripulante_y_plani_vivos : ℕ → Nave → Option Nave
  unfolding resolviendo_sabotaje operando_sin_sabotaje
  hilo_tripulante_y_plani_vivos p n =
      if (n.tcbs p).status == estado_exec
      then (if n.sabotaje_activado
          then some (resolviendo_sabotaje p n)
          else operando_sin_sabotaje p n)
      else some n

  -- A cycle of CPU, unless the tripulante had one already.
  unfoldable pub ciclo_cpu : ℕ → Nave → Option Nave
  unfolding hilo_tripulante_y_plani_vivos
  ciclo_cpu p n =
      if not ((n.tcbs p).esta_vivo_el_hilo == 0)
        && n.planificacion_viva
        && (n.tcbs p).ciclo_cpu_cumplido == 0
      then (do
        n' ← hilo_tripulante_y_plani_vivos p n
        some (con_tcb n' p (record (n'.tcbs p) { ciclo_cpu_cumplido = 1 })))
      else some n

  -- The round of `funcionTripulante` behind its semaphore. The tcb is looked up in `exec`: a NULL
  -- is read below, and a thread that is to end frees a pointer into the array of threads.
  unfoldable pub funcion_tripulante : ℕ → Nave → Option Nave
  unfolding get_by_id hilo_tripulante_y_plani_vivos
  funcion_tripulante id n = do
    p ← get_by_id n.tcbs n.colas.exec id
    n' ← ciclo_cpu p n
    if (n'.tcbs p).esta_vivo_el_hilo == 0 then none else some n'
