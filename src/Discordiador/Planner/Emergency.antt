-- ===== src/Discordiador/Planner/Emergency.antt =====
-- The sabotage in the planner: READY and EXEC -> BLOCKED_EMER and back, in
-- Discordiador/planificador.c, with the comparators of Discordiador/sabotaje.c; and the rounds of
-- EXIT.
pub mod Nearest
pub mod Started
use tp_2021_so_fin.Base.{
  ℕ, suc, ◌+◌, ◌-◌, ◌*◌, ◌&&◌, Bool, true, false, List, [], ◌∷◌, ◌++◌, Option, none, some, ltb,
  ◌==◌, if◌then◌else◌,
}
use tp_2021_so_fin.Base.Options.{◌>>=◌}
use tp_2021_so_fin.Base.Texts.{codes}
use tp_2021_so_fin.Messages.{string, int}
use tp_2021_so_fin.Discordiador.State.{
  Tcb, Pcb, Colas, Nave, Entorno, ims, con_tcb, con_colas, estado_ready, estado_bloq_emer,
  codigo_atiende_sabotaje, codigo_resolucion_sabotaje,
}
use tp_2021_so_fin.Discordiador.Tripulante.{enviar, con_estado}
use tp_2021_so_fin.Discordiador.Planner.{
  sacar, recorrer, termina_un_ciclo, deletear_tripulante, eliminar_si_terminaron,
}

unfoldable pub comparador_tid : (ℕ → Tcb) → ℕ → ℕ → Bool
comparador_tid tcbs p q = ltb (tcbs p).tid (tcbs q).tid

-- the square of a distance along an axis
abbrev pub cuadrado : ℕ → ℕ → ℕ
cuadrado a b = (a - b + (b - a)) * (a - b + (b - a))

-- The square of the distance to the sabotage: the code takes its root, which keeps the order.
abbrev pub modulo : Nave → ℕ → ℕ
modulo n p =
    cuadrado n.pos_sabotaje_x (n.tcbs p).posicion_x
    + cuadrado n.pos_sabotaje_y (n.tcbs p).posicion_y

unfoldable pub ordenar_mas_cercano : Nave → ℕ → ℕ → Bool
ordenar_mas_cercano n p q =
    if modulo n p == modulo n q
    then ltb (n.tcbs p).tid (n.tcbs q).tid
    else ltb (modulo n p) (modulo n q)

-- the copy of the fixer's tcb, which is malloc'ed: what is not copied is never read
unfoldable pub copiar : Tcb → Tcb
copiar t = record {
  tid = t.tid;
  pid = t.pid;
  status = 0;
  posicion_x = t.posicion_x;
  posicion_y = t.posicion_y;
  instruccion_actual = t.instruccion_actual;
  esta_vivo_el_hilo = t.esta_vivo_el_hilo;
  tiempo_en_exec = t.tiempo_en_exec;
  tiempo_en_bloq_io = t.tiempo_en_bloq_io;
  ciclos_cumplidos = t.ciclos_cumplidos;
  mensaje_inicial_ims = 0;
  ciclo_cpu_cumplido = 0;
}

-- What is restored from the copy; the position and the status are not.
unfoldable pub restaurar : Tcb → Tcb → Tcb
restaurar t copia = record t {
  tid = copia.tid;
  pid = copia.pid;
  esta_vivo_el_hilo = copia.esta_vivo_el_hilo;
  tiempo_en_exec = copia.tiempo_en_exec;
  tiempo_en_bloq_io = copia.tiempo_en_bloq_io;
  ciclos_cumplidos = copia.ciclos_cumplidos;
  instruccion_actual = copia.instruccion_actual;
}

-- The fixer is the head of `exec`, or else of `ready`; NULL is read if both are empty.
unfoldable pub sacar_fixer : List ℕ → List ℕ → Colas → Option (ℕ × Colas)
sacar_fixer (p ∷ exec) ready c = some (p, record c { exec = exec })
sacar_fixer [] (p ∷ ready) c = some (p, record c { ready = ready })
sacar_fixer [] [] c = none

-- The head of the copies; NULL is read if there is none.
abbrev pub sacar_copia : List Tcb → Option (Tcb × List Tcb)
sacar_copia [] = none
sacar_copia (t ∷ ts) = some (t, ts)

-- the sabotage is over: the fixer goes to the end of `bloq_emer`
unfoldable pub completar_sabotaje : Nave → Option Nave
unfolding sacar_fixer con_estado restaurar
completar_sabotaje n = do
  (p, colas) ← sacar_fixer n.colas.exec n.colas.ready n.colas
  let n₁ =
      con_estado p estado_bloq_emer
        (record n { colas = colas; sabotaje_terminado = true; primer_ciclo_sabotaje = false })
  (copia, copias) ← sacar_copia n₁.cola_cont_sab
  let n₂ = con_tcb n₁ p (restaurar (n₁.tcbs p) copia)
  some (record n₂ {
    cola_cont_sab = copias;
    colas = record (n₂.colas) { bloq_emer = n₂.colas.bloq_emer ++ p ∷ [] };
  })

-- the loop that empties `bloq_emer`
unfoldable pub vaciar_bloq_emer : List ℕ → Nave → Nave
unfolding con_estado
vaciar_bloq_emer [] n = n
vaciar_bloq_emer (p ∷ ps) n =
    let n' = con_estado p estado_ready (con_colas n (record (n.colas) { bloq_emer = ps })) in
    vaciar_bloq_emer ps (con_colas n' (record (n'.colas) { ready = n'.colas.ready ++ p ∷ [] }))

unfoldable pub funcion_h_bloq_emer_a_ready : Nave → Nave
unfolding vaciar_bloq_emer enviar
funcion_h_bloq_emer_a_ready n =
    if n.sabotaje_activado && n.sabotaje_terminado
    then enviar ims codigo_resolucion_sabotaje (string (codes "Se resolvio el sabotaje") ∷ [])
        (record (vaciar_bloq_emer n.colas.bloq_emer n) { sabotaje_activado = false })
    else n

abbrev pub vacia : List ℕ → Bool
vacia [] = true
vacia (p ∷ ps) = false

module _ (e : Entorno) where
  -- A tripulante that left its queue goes to `bloq_emer` and, in order, to `bloq_emer_sorted`.
  unfoldable pub a_bloq_emer : ℕ → Nave → Nave
  unfolding con_estado ordenar_mas_cercano
  a_bloq_emer p n =
      let n' = con_estado p estado_bloq_emer n in
      record n' {
        colas = record (n'.colas) { bloq_emer = n'.colas.bloq_emer ++ p ∷ [] };
        bloq_emer_sorted = e.commons.list_add_sorted (ordenar_mas_cercano n') p n'.bloq_emer_sorted;
      }

  -- the two loops
  unfoldable pub vaciar_exec : List ℕ → Nave → Nave
  unfolding a_bloq_emer
  vaciar_exec [] n = n
  vaciar_exec (p ∷ ps) n =
      vaciar_exec ps (a_bloq_emer p (con_colas n (record (n.colas) { exec = ps })))

  unfoldable pub vaciar_ready : List ℕ → Nave → Nave
  unfolding a_bloq_emer
  vaciar_ready [] n = n
  vaciar_ready (p ∷ ps) n =
      vaciar_ready ps (a_bloq_emer p (con_colas n (record (n.colas) { ready = ps })))

  -- Both queues are sorted by tid and emptied.
  unfoldable pub vaciar_ambas : Nave → Nave
  unfolding vaciar_exec vaciar_ready comparador_tid
  vaciar_ambas n =
      let n₁ = vaciar_exec (e.commons.list_sort (comparador_tid n.tcbs) n.colas.exec) n in
      vaciar_ready (e.commons.list_sort (comparador_tid n₁.tcbs) n₁.colas.ready) n₁

  -- The context of the fixer is kept, its counters start again, and IMongoStore is told.
  unfoldable pub guardar_contexto : ℕ → Nave → Nave
  unfolding copiar enviar
  guardar_contexto p n =
      let t = n.tcbs p in
      enviar ims codigo_atiende_sabotaje (int t.tid ∷ []) (
        con_tcb
          (record n { bloq_emer_sorted = []; cola_cont_sab = n.cola_cont_sab ++ copiar t ∷ [] }) p
          (record t { ciclos_cumplidos = 0; tiempo_en_exec = 0; tiempo_en_bloq_io = 0 }))

  -- The fixer, found, goes from `bloq_emer` to `ready`. A tripulante without a task cannot be copied.
  unfoldable pub elegir_fixer : ℕ → Nave → Option Nave
  unfolding guardar_contexto sacar con_estado
  elegir_fixer p n = do
    instruccion ← (n.tcbs p).instruccion_actual
    let n₁ = guardar_contexto p n
    (q, bloq_emer) ← sacar n₁.tcbs n₁.colas.bloq_emer (n.tcbs p).tid
    let n₂ = con_estado q estado_ready (con_colas n₁ (record (n₁.colas) { bloq_emer = bloq_emer }))
    some (record n₂ {
      colas = record (n₂.colas) { ready = n₂.colas.ready ++ q ∷ [] };
      primer_ciclo_sabotaje = true;
    })

  -- the head of `bloq_emer_sorted`, which is NULL if there is none
  unfoldable pub elegir : List ℕ → Nave → Option Nave
  unfolding elegir_fixer
  elegir [] n = none
  elegir (p ∷ ps) n = elegir_fixer p n

  unfoldable pub empezar_sabotaje : Nave → Option Nave
  unfolding vaciar_ambas elegir_fixer
  empezar_sabotaje n = let n' = vaciar_ambas n in elegir n'.bloq_emer_sorted n'

  unfoldable pub funcion_h_exec_ready_a_bloq_emer : Nave → Option Nave
  unfolding completar_sabotaje empezar_sabotaje
  funcion_h_exec_ready_a_bloq_emer n =
      if n.sabotaje_activado
      then (if n.ciclos_transcurridos_sabotaje == e.duracion_sabotaje
          then completar_sabotaje n
          else if n.primer_ciclo_sabotaje
          then some n
          else empezar_sabotaje n)
      else some n

  -- `eliminarPatotaEnRAM`
  unfoldable pub eliminar_patota_en_ram : Pcb → Nave → Nave
  unfolding eliminar_si_terminaron
  eliminar_patota_en_ram patota n =
      if patota.todos_los_tcbs_terminaron == 0 then eliminar_si_terminaron e patota n else n

  unfoldable pub eliminar_patotas : List Pcb → Nave → Nave
  unfolding eliminar_patota_en_ram
  eliminar_patotas [] n = n
  eliminar_patotas (b ∷ bs) n = eliminar_patotas bs (eliminar_patota_en_ram b n)

  -- With tripulantes in `cola_exit`: their threads are told to end, and the patotas go when no
  -- tripulante is left.
  unfoldable pub finalizar : Nave → Nave
  unfolding deletear_tripulante eliminar_patota_en_ram
  finalizar n =
      let n' = recorrer deletear_tripulante n.colas.cola_exit n in
      let c = n.colas in
      if vacia c.cola_exit
      then n
      else if vacia c.cola_new
          && vacia c.ready
          && vacia c.exec
          && vacia c.bloq_io
          && vacia c.bloq_emer
      then eliminar_patotas n'.lista_pcb n'
      else n'

  unfoldable pub funcion_h_exit : Nave → Nave
  unfolding finalizar termina_un_ciclo
  funcion_h_exit n =
      let c = n.colas in
      let n' = recorrer termina_un_ciclo c.bloq_emer (
        recorrer termina_un_ciclo c.bloq_io
          (recorrer termina_un_ciclo c.exec (recorrer termina_un_ciclo c.ready (finalizar n)))) in
      record n' { contador_ciclo_cpu = suc n'.contador_ciclo_cpu }
