-- ===== src/Discordiador/Console.antt =====
-- The console, Discordiador/consola.c: what each command does to the data of the Discordiador. The
-- logs of LISTAR_TRIPULANTES and the release of the memory are left out. A result of `none` is a
-- fault, as a pointer that is read behind a `free`.
use tp_2021_so_fin.Base.{
  ℕ, suc, ◌||◌, Bool, true, false, List, [], ◌∷◌, ◌++◌, Option, none, some, ◌==◌, if◌then◌else◌,
}
use tp_2021_so_fin.Base.Options.{◌>>=◌}
use tp_2021_so_fin.Base.Bytes.{Bytes, get32}
use tp_2021_so_fin.Base.Texts.{codes}
use tp_2021_so_fin.Store.Tasks.{same_text}
use tp_2021_so_fin.Messages.{int}
use tp_2021_so_fin.Discordiador.State.{
  Tcb, Pcb, Colas, Nave, Entorno, ram, ims, con_tcb, con_colas, estado_new, estado_ready,
  estado_exec, estado_bloq_io, estado_bloq_emer, estado_exit, codigo_success,
  codigo_expulsar_tripulante, codigo_enviar_obtener_bitacora,
}
use tp_2021_so_fin.Discordiador.Tripulante.{enviar, get_by_id, respuesta}
use tp_2021_so_fin.Discordiador.Planner.{list_remove, get_pcb_by_id, eliminar_si_terminaron}
use tp_2021_so_fin.Discordiador.Patotas.{crear_pcb, iniciar_tcbs, nuevos_semaforos}

-- what `obtener_tipo_mensaje_consola` tells apart; the last is the -1
pub data Comando : Type 0 where
  c_iniciar_planificacion c_pausar_planificacion c_iniciar_patota c_listar_tripulantes : Comando
  c_expulsar_tripulante c_obtener_bitacora c_salir desconocido : Comando

unfoldable pub obtener_tipo_mensaje_consola : List ℕ → Comando
unfolding same_text
obtener_tipo_mensaje_consola mensaje =
    if same_text mensaje (codes "INICIAR_PLANIFICACION")
    then c_iniciar_planificacion
    else if same_text mensaje (codes "PAUSAR_PLANIFICACION")
    then c_pausar_planificacion
    else if same_text mensaje (codes "INICIAR_PATOTA")
    then c_iniciar_patota
    else if same_text mensaje (codes "LISTAR_TRIPULANTES")
    then c_listar_tripulantes
    else if same_text mensaje (codes "EXPULSAR_TRIPULANTE")
    then c_expulsar_tripulante
    else if same_text mensaje (codes "OBTENER_BITACORA")
    then c_obtener_bitacora
    else if same_text mensaje (codes "SALIR")
    then c_salir
    else desconocido

-- `iterar_en_lista` with `extraerTripulante`, on the nodes that are still to be visited: the queue,
-- `cola_exit`, and the position, which is not moved back when a node is taken out. Where another
-- node than the visited one is taken out, that is the next one, which is then read after its
-- `free`; or there is none, and NULL goes to `cola_exit`.
unfoldable pub iterar_en_lista : (ℕ → Tcb) → ℕ → List ℕ → List ℕ → List ℕ → Option (List ℕ × List ℕ)
unfolding list_remove
iterar_en_lista tcbs posicion [] cola salida = some (cola, salida)
iterar_en_lista tcbs posicion (p ∷ ps) cola salida =
    let sigue = iterar_en_lista tcbs (suc posicion) ps cola salida in
    if (tcbs p).status == estado_exit
    then (do
      (q, cola') ← list_remove posicion cola
      if q == p then iterar_en_lista tcbs (suc posicion) ps cola' (salida ++ q ∷ []) else none)
    else sigue

-- What is found of the tripulante to expel: its status is set, and the queue is walked over.
unfoldable pub expulsar_hallado : Option ℕ → List ℕ → Nave → Option (Nave × List ℕ × List ℕ)
unfolding iterar_en_lista
expulsar_hallado none cola n = some (n, cola, n.colas.cola_exit)
expulsar_hallado (some p) cola n = do
  let n' = con_tcb n p (record (n.tcbs p) { status = estado_exit })
  (cola', salida) ← iterar_en_lista n'.tcbs 0 cola cola n.colas.cola_exit
  some (n', cola', salida)

-- `expulsarNodo`: the tripulante with the id in the queue, the queue and `cola_exit` after it
unfoldable pub expulsar_nodo : ℕ → List ℕ → Nave → Option (Nave × List ℕ × List ℕ)
unfolding get_by_id expulsar_hallado
expulsar_nodo id cola n = expulsar_hallado (get_by_id n.tcbs cola id) cola n

-- the switch over the status of the tripulante
unfoldable pub expulsar_de_cola : ℕ → ℕ → Nave → Option Nave
unfolding expulsar_nodo
expulsar_de_cola status id n =
    let c = n.colas in
    if status == estado_new
    then (do
      (n', cola, salida) ← expulsar_nodo id c.cola_new n
      some (con_colas n' (record c { cola_new = cola; cola_exit = salida })))
    else if status == estado_ready
    then (do
      (n', cola, salida) ← expulsar_nodo id c.ready n
      some (con_colas n' (record c { ready = cola; cola_exit = salida })))
    else if status == estado_exec
    then (do
      (n', cola, salida) ← expulsar_nodo id c.exec n
      some (con_colas n' (record c { exec = cola; cola_exit = salida })))
    else if status == estado_bloq_io
    then (do
      (n', cola, salida) ← expulsar_nodo id c.bloq_io n
      some (con_colas n' (record c { bloq_io = cola; cola_exit = salida })))
    else if status == estado_bloq_emer
    then (do
      (n', cola, salida) ← expulsar_nodo id c.bloq_emer n
      some (con_colas n' (record c { bloq_emer = cola; cola_exit = salida })))
    else some n

unfoldable pub obtener_tcb_en_lista_pcb : (ℕ → Tcb) → List Pcb → ℕ → Option ℕ
unfolding get_by_id
obtener_tcb_en_lista_pcb tcbs [] id = none
obtener_tcb_en_lista_pcb tcbs (b ∷ bs) id = elim (get_by_id tcbs b.lista_tcb id) [
  | some p ↦ some p
  | none ↦ obtener_tcb_en_lista_pcb tcbs bs id
]

abbrev pub hay : List ℕ → Bool
hay [] = false
hay (p ∷ ps) = true

unfoldable pub hay_tripulantes_nave : Colas → Bool
hay_tripulantes_nave c =
    hay c.cola_new
    || hay c.ready
    || hay c.exec
    || hay c.bloq_io
    || hay c.bloq_emer
    || hay c.cola_exit

-- COMIENZA_SABOTAJE, in `handler` of sabotaje.c
unfoldable pub comienza_sabotaje : Bytes → Nave → Nave
unfolding get32
comienza_sabotaje payload n = record n {
  sabotaje_activado = true;
  sabotaje_terminado = false;
  ciclos_transcurridos_sabotaje = 0;
  pos_sabotaje_x = get32 payload 0;
  pos_sabotaje_y = get32 payload 4;
}

unfoldable pub obtener_bitacora : ℕ → Nave → Nave
unfolding enviar
obtener_bitacora id n = enviar ims codigo_enviar_obtener_bitacora (int id ∷ []) n

module _ (e : Entorno) where
  -- the tripulante is found: MiRAMHQ is asked first, and the patota may be finished by it
  unfoldable pub expulsar_encontrado : ℕ → ℕ → Nave → Option Nave
  unfolding expulsar_de_cola get_pcb_by_id eliminar_si_terminaron enviar
  expulsar_encontrado p id n = do
    let n' = enviar ram codigo_expulsar_tripulante (int (n.tcbs p).pid ∷ int id ∷ []) n
    n'' ←
        (if (respuesta e n').command == codigo_success
          then expulsar_de_cola (n'.tcbs p).status id n'
          else some n')
    patota ← get_pcb_by_id n''.lista_pcb (n''.tcbs p).pid
    some (eliminar_si_terminaron e patota n'')

  unfoldable pub expulsar_si_esta : Option ℕ → ℕ → Nave → Option Nave
  unfolding expulsar_encontrado
  expulsar_si_esta none id n = some n
  expulsar_si_esta (some p) id n = expulsar_encontrado p id n

  unfoldable pub expulsar_tripulante : ℕ → Nave → Option Nave
  unfolding obtener_tcb_en_lista_pcb expulsar_si_esta
  expulsar_tripulante id n =
      if n.planificacion_viva
      then expulsar_si_esta (obtener_tcb_en_lista_pcb n.tcbs n.lista_pcb id) id n
      else some n

  -- The patota is made and its tripulantes go to `cola_new`; with the new semaphores.
  unfoldable pub iniciar_patota : List (List ℕ) → Nave → Option (Nave × List ℕ)
  unfolding crear_pcb iniciar_tcbs
  iniciar_patota parametros n = do
    (n₁, patota) ← crear_pcb e parametros n
    let n₂ = iniciar_tcbs patota.lista_tcb (record n₁ { lista_pcb = n₁.lista_pcb ++ patota ∷ [] })
    some (record n₂ { cantidad_vieja = n₂.cantidad_actual }, nuevos_semaforos patota.lista_tcb)
