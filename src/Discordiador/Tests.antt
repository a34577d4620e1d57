-- ===== src/Discordiador/Tests.antt =====
-- Runs of the Discordiador with one patota of two tripulantes, and the theorems applied to them.
use tp_2021_so_fin.Base.{
  ℕ, ◌+◌, ◌-◌, ◌*◌, ◌≤◌, ◌≡◌, ◌≢◌, inr, refl, true, false, List, [], ◌∷◌, ◌++◌, none, some, arith,
  length, ◌==◌, if◌then◌else◌,
}
use tp_2021_so_fin.Base.Texts.{codes, read, until_nul}
use tp_2021_so_fin.Base.Bytes.{get32}
use tp_2021_so_fin.Base.Counts.{count}
use tp_2021_so_fin.Commons.{All, lookup}
use tp_2021_so_fin.Commons.Examples.{commons, sort, insert}
use tp_2021_so_fin.Segmentation.State.{Ram}
use tp_2021_so_fin.Segmentation.Invariant.{IsSound, nothing, free_bytes}
use tp_2021_so_fin.Segmentation.Patota.{
  success, respuesta, iniciar_patota as ram_iniciar_patota, read_tcb,
}
use tp_2021_so_fin.Discordiador.State.{
  Tcb, Nave, Semaforos, Entorno, globales, funcion_planificador, sem_init, estado_ready,
}
use tp_2021_so_fin.Messages.{payload_de}
use tp_2021_so_fin.Discordiador.Tripulante.{
  llego_a_posicion, enviar, enviar_estado, con_estado, tarea_recibida,
}
use tp_2021_so_fin.Discordiador.Planner.{
  funcion_h_new_a_ready, enviar_buffers, iniciar, get_pcb_by_id, iterate_next_task, primera_tarea,
  vaciar_new, funcion_h_exec_a_bloq_io, list_iterate, funcion_h_ready_a_exec, llenar_exec, sacar,
  list_iterate_obtener_posicion, list_remove,
}
use tp_2021_so_fin.Discordiador.Planner.Emergency.{
  modulo, ordenar_mas_cercano, comparador_tid, copiar, a_bloq_emer, vaciar_exec, vaciar_ready,
  vaciar_ambas, guardar_contexto, elegir_fixer, elegir, empezar_sabotaje,
}
use tp_2021_so_fin.Discordiador.Planner.Emergency.Started.{empezar_sabotaje-elige}
use tp_2021_so_fin.Discordiador.Tripulante.Moves.{mover_veces, distancia, mover_veces-llega}
use tp_2021_so_fin.Discordiador.Patotas.{
  crear_tcb, crear_pcb, posiciones, get_tareas, juntar_lineas, crear_tcbs, guardar_tcbs,
  buffer_a_enviar, crew_bytes, tcb_bytes, iniciar_tcbs,
}
use tp_2021_so_fin.Discordiador.Patotas.Read.{IsSmall, en_ram, mensaje, mensaje-read}
use tp_2021_so_fin.Discordiador.Patotas.Saved.{patota_en_ram, mensaje-saves}
use tp_2021_so_fin.Segmentation.Patota.Entries.{entries}
use tp_2021_so_fin.Segmentation.Handler.{start}
use tp_2021_so_fin.Segmentation.Handler.Reached.{started, Reached-IsSound}
use tp_2021_so_fin.Segmentation.Patota.Pushed.{IsStored}
use tp_2021_so_fin.Discordiador.Console.{c_iniciar_planificacion, c_iniciar_patota, iniciar_patota}
use tp_2021_so_fin.Discordiador.Threads.{
  h_new_a_ready, h_exec_a_bloq_io, h_ready_a_exec, hilo, comando, Alcanza, inicio, luego, consola,
  ronda, inicial, iniciar_planificacion, despertar, signal_hilos_tripulantes, post_en,
}
use tp_2021_so_fin.Discordiador.Queues.Created.{IsAtMostOne}
use tp_2021_so_fin.Discordiador.Queues.Reached.{Alcanza-IsAtMostOne}
use tp_2021_so_fin.Discordiador.Turns.{IsTurn}
use tp_2021_so_fin.Discordiador.Turns.Reached.{Alcanza-IsTurn}

-- the pieces of a text between a character
abbrev partir : ℕ → List ℕ → List ℕ → List (List ℕ)
partir c [] acc = acc ∷ []
partir c (x ∷ xs) acc =
    let corte = partir c xs [] in
    let sigue = partir c xs (acc ++ x ∷ []) in if x == c then acc ∷ corte else sigue

abbrev separador : List ℕ → ℕ
separador [] = 0
separador (c ∷ cs) = c

abbrev numero : ℕ → List ℕ → ℕ
numero k [] = k
numero k (c ∷ cs) = numero (10 * k + (c - 48)) cs

-- FIFO with two tripulantes at a time; MiRAMHQ always answers SUCCESS, with an empty task.
abbrev entorno : Entorno
entorno = record {
  commons = commons;
  string_split = λ s sep. partir (separador sep) s [];
  atoi = numero 0;
  ram = λ ms. record { command = 200; payload = λ a. 0 };
  getline = λ ruta. some (codes "REGAR;1;2;3" ∷ []);
  grado_multitarea = 2;
  es_rr = false;
  quantum_rr = 0;
  duracion_sabotaje = 2;
}

abbrev linea : List (List ℕ)
linea = codes "INICIAR_PATOTA" ∷ codes "2" ∷ codes "tareas.txt" ∷ codes "1|1" ∷ []

-- The planning is started, a patota of two is made, and its tripulantes come to EXEC.
abbrev alcanzado : (x : Semaforos × Nave) × Alcanza entorno 1 x
unfolding inicial globales funcion_planificador sem_init consola iniciar_planificacion
    iniciar_patota crear_pcb posiciones get_tareas juntar_lineas until_nul crear_tcbs crear_tcb
    guardar_tcbs buffer_a_enviar crew_bytes tcb_bytes iniciar_tcbs ronda funcion_h_new_a_ready
    enviar_buffers iniciar get_pcb_by_id iterate_next_task primera_tarea enviar payload_de
    tarea_recibida read get32 vaciar_new funcion_h_exec_a_bloq_io list_iterate
    funcion_h_ready_a_exec llenar_exec con_estado enviar_estado despertar signal_hilos_tripulantes
    post_en
alcanzado = (
  _,
  luego
      (luego
        (luego
          (luego
            (luego (luego inicio (comando c_iniciar_planificacion [] refl))
              (comando c_iniciar_patota linea refl))
            (hilo h_new_a_ready refl))
          (hilo h_new_a_ready refl))
        (hilo h_exec_a_bloq_io refl))
      (hilo h_ready_a_exec refl),
)

-- Both are in `exec`.
alcanzado_exec : alcanzado.0.1.colas.exec ≡ 0 ∷ 1 ∷ []
unfolding alcanzado inicial globales funcion_planificador sem_init consola iniciar_planificacion
    iniciar_patota crear_pcb posiciones get_tareas juntar_lineas until_nul crear_tcbs crear_tcb
    guardar_tcbs buffer_a_enviar crew_bytes tcb_bytes iniciar_tcbs ronda funcion_h_new_a_ready
    enviar_buffers iniciar get_pcb_by_id iterate_next_task primera_tarea enviar payload_de
    tarea_recibida read get32 vaciar_new funcion_h_exec_a_bloq_io list_iterate
    funcion_h_ready_a_exec llenar_exec con_estado enviar_estado despertar signal_hilos_tripulantes
    post_en
alcanzado_exec = refl

Alcanza-IsAtMostOne_example : IsAtMostOne 2 alcanzado.0.1
Alcanza-IsAtMostOne_example = Alcanza-IsAtMostOne entorno alcanzado.1

Alcanza-IsTurn_example : IsTurn 1 alcanzado.0.0
Alcanza-IsTurn_example = Alcanza-IsTurn entorno alcanzado.1 (omega arith)

abbrev nave : Nave
unfolding funcion_planificador globales
nave = funcion_planificador globales

mover_veces-llega_example : llego_a_posicion ((mover_veces 3 0 1 2 nave).tcbs 0) 1 2 ≡ true
unfolding distancia globales funcion_planificador
mover_veces-llega_example = mover_veces-llega 3 0 1 2 nave

abbrev tripulantes : List Tcb
unfolding crear_tcb
tripulantes = crear_tcb 1 5 6 0 ∷ crear_tcb 1 7 8 1 ∷ []

segundo-IsSmall : IsSmall (crear_tcb 1 7 8 1)
unfolding crear_tcb
segundo-IsSmall = record { tid = omega arith; pid = omega arith; x = omega arith; y = omega arith }

mensaje-read_example :
    (get32 (mensaje 1 (codes "A|B") tripulantes) 0 ≡ 1)
    × (get32 (mensaje 1 (codes "A|B") tripulantes) 4 ≡ 3)
    × (read (mensaje 1 (codes "A|B") tripulantes) 8 3 ≡ codes "A|B")
    × (get32 (mensaje 1 (codes "A|B") tripulantes) (8 + 3) ≡ 2)
    × (read_tcb (mensaje 1 (codes "A|B") tripulantes) (12 + 3 + 17 * 1)
        ≡ en_ram (crear_tcb 1 7 8 1))
unfolding tripulantes
mensaje-read_example =
    mensaje-read 1 (codes "A|B") tripulantes 1 (crear_tcb 1 7 8 1) (omega arith) (omega arith)
      (omega arith) refl segundo-IsSmall

tripulantes-IsSmall : All IsSmall tripulantes
unfolding tripulantes crear_tcb
tripulantes-IsSmall = (
  record { tid = omega arith; pid = omega arith; x = omega arith; y = omega arith },
  (record { tid = omega arith; pid = omega arith; x = omega arith; y = omega arith }, tt),
)

abbrev ram_vacia : Ram
unfolding start
ram_vacia = start commons 100 true

ram_vacia-IsSound : IsSound nothing ram_vacia
unfolding ram_vacia
ram_vacia-IsSound = Reached-IsSound commons 100 true (ground arith) ram_vacia started

ram_vacia_new : IsStored ram_vacia.table_collection 1 []
unfolding ram_vacia start lookup
ram_vacia_new = inr (refl, refl)

dos : length tripulantes ≢ 0
unfolding tripulantes
dos = λ e. absurd (omega (arith, e))

cabe : 8 + length (codes "A|B") + length tripulantes * 21 ≤ free_bytes ram_vacia
unfolding tripulantes ram_vacia start
cabe = ground arith

mensaje-saves_example :
    (r' : Ram) × (table : List ℕ) × (ram_iniciar_patota commons ram_vacia
        (mensaje 1 (codes "A|B") tripulantes)
      ≡ some (r', success respuesta))
    × IsSound nothing r'
    × (lookup 1 r'.table_collection ≡ some table)
    × (entries r'.heap table ≡ patota_en_ram 1 (codes "A|B") tripulantes)
mensaje-saves_example =
    mensaje-saves commons ram_vacia 1 (codes "A|B") tripulantes ram_vacia-IsSound ram_vacia_new
      (omega arith) (omega arith) dos tripulantes-IsSmall cabe

-- two tripulantes in READY, at 5|6 and 1|2, and a sabotage at 0|0
abbrev atacada : Nave
unfolding nave globales funcion_planificador crear_tcb
atacada = record nave {
  tcbs = λ p. record (crear_tcb 1 (if p == 0 then 5 else 1) (if p == 0 then 6 else 2) p) {
    status = estado_ready;
    instruccion_actual = some (codes "REGAR;1;2;3");
  };
  colas = record (nave.colas) { ready = 0 ∷ 1 ∷ [] };
  sabotaje_activado = true;
}

abbrev empezada : (m : Nave) × (empezar_sabotaje entorno atacada ≡ some m)
unfolding nave globales funcion_planificador crear_tcb atacada empezar_sabotaje vaciar_ambas
    vaciar_exec vaciar_ready a_bloq_emer con_estado enviar_estado enviar payload_de
    ordenar_mas_cercano comparador_tid sort insert elegir elegir_fixer guardar_contexto copiar sacar
    list_iterate_obtener_posicion list_remove
empezada = (_, refl)

sin_orden : atacada.bloq_emer_sorted ≡ []
unfolding atacada nave globales funcion_planificador
sin_orden = refl

ocupadas : 1 ≤ count 0 atacada.colas.exec + count 0 atacada.colas.ready
unfolding atacada nave globales funcion_planificador
ocupadas = omega arith

con_tareas :
    (r : ℕ)
    → 1 ≤ count r atacada.colas.exec + count r atacada.colas.ready
    → (atacada.tcbs r).instruccion_actual ≢ none
unfolding atacada
con_tareas r l = λ h. absurd cc

empezar_sabotaje-elige_example :
    (n' : Nave) × (p : ℕ) × (empezar_sabotaje entorno atacada ≡ some n')
    × (elegir_fixer entorno p (vaciar_ambas entorno atacada) ≡ some n')
    × (1 ≤ count p atacada.colas.exec + count p atacada.colas.ready)
    × ((r : ℕ)
        → 1 ≤ count r atacada.colas.exec + count r atacada.colas.ready
        → modulo atacada p ≤ modulo atacada r)
empezar_sabotaje-elige_example =
    empezar_sabotaje-elige entorno atacada sin_orden 0 ocupadas con_tareas

-- The second is the nearer one: it is in READY, and the other one in BLOQ_EMER.
empezada_test : (empezada.0.colas.ready ≡ 1 ∷ []) × (empezada.0.colas.bloq_emer ≡ 0 ∷ [])
unfolding empezada nave globales funcion_planificador crear_tcb atacada empezar_sabotaje
    vaciar_ambas vaciar_exec vaciar_ready a_bloq_emer con_estado enviar_estado enviar payload_de
    ordenar_mas_cercano comparador_tid sort insert elegir elegir_fixer guardar_contexto copiar sacar
    list_iterate_obtener_posicion list_remove
empezada_test = (refl, refl)
