-- ===== src/Discordiador/Threads.antt =====
-- The threads of the Discordiador and their semaphores: a round of each is one step. A thread that
-- waits at a semaphore of 0 takes no step. The mutexes, `sleep` and the logs are left out, and so
-- is `validador`, which ends the process.
use tp_2021_so_fin.Base.{
  ℕ, zero, suc, ◌+◌, ◌&&◌, ◌≡◌, true, false, not, List, [], ◌∷◌, ◌++◌, Option, none, some, ◌==◌,
  if◌then◌else◌, length, get_elem?,
}
use tp_2021_so_fin.Base.Options.{◌>>=◌}
use tp_2021_so_fin.Base.Bytes.{Bytes}
use tp_2021_so_fin.Discordiador.State.{
  Tcb, Nave, Semaforos, Entorno, globales, funcion_planificador, sem_init,
}
use tp_2021_so_fin.Discordiador.Tripulante.{funcion_tripulante}
use tp_2021_so_fin.Discordiador.Planner.{
  funcion_h_new_a_ready, funcion_h_ready_a_exec, funcion_h_exec_a_bloq_io, funcion_h_exec_a_ready,
  funcion_h_exec_a_exit, funcion_h_bloq_io,
}
use tp_2021_so_fin.Discordiador.Planner.Emergency.{
  vacia, funcion_h_exec_ready_a_bloq_emer, funcion_h_bloq_emer_a_ready, funcion_h_exit,
}
use tp_2021_so_fin.Discordiador.Console.{
  Comando, c_iniciar_planificacion, c_pausar_planificacion, c_iniciar_patota, c_listar_tripulantes,
  c_expulsar_tripulante, c_obtener_bitacora, c_salir, desconocido, obtener_tipo_mensaje_consola,
  expulsar_tripulante, iniciar_patota, obtener_bitacora, comienza_sabotaje,
}

-- `sem_wait`, which waits at 0
abbrev pub sem_wait : ℕ → Option ℕ
sem_wait zero = none
sem_wait (suc k) = some k

-- `sem_post` on an element of a list of semaphores; past its end `list_get` gives NULL
unfoldable pub post_en : ℕ → List ℕ → Option (List ℕ)
post_en id [] = none
post_en zero (k ∷ ks) = some (suc k ∷ ks)
post_en (suc id) (k ∷ ks) = post_en id ks >>= λ ks'. some (k ∷ ks')

-- `sem_wait` on an element of a list of semaphores
unfoldable pub wait_en : ℕ → List ℕ → Option (List ℕ)
wait_en id [] = none
wait_en zero (k ∷ ks) = sem_wait k >>= λ k'. some (k' ∷ ks)
wait_en (suc id) (k ∷ ks) = wait_en id ks >>= λ ks'. some (k ∷ ks')

-- `list_iterate(exec->elements, signalHilosTripulantes)`
unfoldable pub signal_hilos_tripulantes : (ℕ → Tcb) → List ℕ → List ℕ → Option (List ℕ)
unfolding post_en
signal_hilos_tripulantes tcbs [] ks = some ks
signal_hilos_tripulantes tcbs (p ∷ ps) ks =
    post_en (tcbs p).tid ks >>= signal_hilos_tripulantes tcbs ps

-- `_signal(1, cantidadTCBEnExec, &semER)`, where `exec` has that many tcbs
unfoldable pub signal : ℕ → Semaforos → Semaforos
signal en_exec s =
    if suc s.contador_sem_global == s.cantidad_tcb_en_exec
    then record s { cantidad_tcb_en_exec = en_exec; contador_sem_global = 0; sem_er = suc s.sem_er }
    else record s { contador_sem_global = suc s.contador_sem_global }

-- The threads of the planner.
pub data Hilo : Type 0 where
  h_new_a_ready h_ready_a_exec h_exec_a_bloq_io h_exec_a_ready h_exec_a_exit : Hilo
  h_bloq_io h_exec_ready_a_bloq_emer h_bloq_emer_a_ready h_exit : Hilo

-- only while `planificacion_viva`
abbrev pub si_viva : (Nave → Option Nave) → Nave → Option Nave
si_viva f n = if n.planificacion_viva then f n else some n

-- READY -> EXEC: every tripulante in `exec` gets a signal; if there is none, BLOQ_IO does.
unfoldable pub despertar : (ℕ → Tcb) → List ℕ → Semaforos → Option Semaforos
unfolding signal_hilos_tripulantes
despertar tcbs [] s = some (record s { cantidad_tcb_en_exec = 0; sem_blockio = suc s.sem_blockio })
despertar tcbs (p ∷ ps) s = do
  ks ← signal_hilos_tripulantes tcbs (p ∷ ps) s.lista_semaforos
  some (record s { cantidad_tcb_en_exec = length (p ∷ ps); lista_semaforos = ks })

-- INICIAR_PLANIFICACION; what is tested is as the code has it, without `cola_new`.
unfoldable pub iniciar_planificacion : Semaforos → Nave → Semaforos × Nave
iniciar_planificacion s n =
    let c = n.colas in
    let s' = record s { pausar = suc s.pausar } in
    (
      (if vacia c.ready && vacia c.exec && vacia c.bloq_io && vacia c.bloq_emer && vacia c.cola_exit
          then record s' { sem_nr = suc s.sem_nr }
          else s'),
      record n { planificacion_viva = true },
    )

module _ (e : Entorno) where
  -- One round. That of NEW -> READY is two steps: `pausar` is passed before `semNR`.
  unfoldable pub ronda : Hilo → Semaforos → Nave → Option (Semaforos × Nave)
  unfolding funcion_h_new_a_ready funcion_h_ready_a_exec funcion_h_exec_a_bloq_io
      funcion_h_exec_a_ready funcion_h_exec_a_exit funcion_h_bloq_io
      funcion_h_exec_ready_a_bloq_emer funcion_h_bloq_emer_a_ready funcion_h_exit despertar
  ronda h_new_a_ready s n =
      if s.esperando
      then (do
        k ← sem_wait s.sem_nr
        n' ←
            (if n.planificacion_viva && not n.sabotaje_activado
              then funcion_h_new_a_ready e n
              else some n)
        some (record s { sem_nr = k; esperando = false; sem_ebio = suc s.sem_ebio }, n'))
      else (do k ← sem_wait s.pausar; some (record s { pausar = k; esperando = true }, n))
  ronda h_ready_a_exec s n = do
    k ← sem_wait s.sem_re
    n' ← si_viva (λ m. some (funcion_h_ready_a_exec e m)) n
    s' ← despertar n'.tcbs n'.colas.exec (record s { sem_re = k })
    some (s', n')
  ronda h_exec_a_bloq_io s n = do
    k ← sem_wait s.sem_ebio
    n' ← si_viva funcion_h_exec_a_bloq_io n
    some (record s { sem_ebio = k; sem_re = suc s.sem_re }, n')
  ronda h_exec_a_ready s n = do
    k ← sem_wait s.sem_er
    n' ← si_viva funcion_h_exec_a_ready n
    some (record s { sem_er = k; sem_eax = suc s.sem_eax }, n')
  ronda h_exec_a_exit s n = do
    k ← sem_wait s.sem_eax
    n' ← si_viva (funcion_h_exec_a_exit e) n
    some (record s { sem_eax = k; sem_blockio = suc s.sem_blockio }, n')
  ronda h_bloq_io s n = do
    k ← sem_wait s.sem_blockio
    n' ← si_viva (funcion_h_bloq_io e) n
    let s' = record s { sem_blockio = k }
    some (
      (if n'.sabotaje_activado
          then record s' { sem_erm = suc s.sem_erm }
          else record s' { sem_exit = suc s.sem_exit }),
      n',
    )
  ronda h_exec_ready_a_bloq_emer s n = do
    k ← sem_wait s.sem_erm
    n' ← si_viva (funcion_h_exec_ready_a_bloq_emer e) n
    some (record s { sem_erm = k; sem_mr = suc s.sem_mr }, n')
  ronda h_bloq_emer_a_ready s n = do
    k ← sem_wait s.sem_mr
    n' ← si_viva (λ m. some (funcion_h_bloq_emer_a_ready m)) n
    some (record s { sem_mr = k; sem_exit = suc s.sem_exit }, n')
  ronda h_exit s n = do
    k ← sem_wait s.sem_exit
    n' ← si_viva (λ m. some (funcion_h_exit e m)) n
    some (record s { sem_exit = k; pausar = suc s.pausar; sem_nr = suc s.sem_nr }, n')

  -- The round of the thread of a tripulante, which has the number of its semaphore.
  unfoldable pub ronda_tripulante : ℕ → Semaforos → Nave → Option (Semaforos × Nave)
  unfolding wait_en funcion_tripulante signal
  ronda_tripulante id s n = do
    ks ← wait_en id s.lista_semaforos
    n' ← funcion_tripulante e id n
    some (signal (length n'.colas.exec) (record s { lista_semaforos = ks }), n')

  -- One command of the console. PAUSAR_PLANIFICACION waits for `pausar`; SALIR ends the process.
  unfoldable pub consola : Comando → List (List ℕ) → Semaforos → Nave → Option (Semaforos × Nave)
  unfolding iniciar_planificacion expulsar_tripulante iniciar_patota obtener_bitacora
  consola c_iniciar_planificacion parametros s n = some (iniciar_planificacion s n)
  consola c_pausar_planificacion parametros s n = do
    k ← sem_wait s.pausar
    some (record s { pausar = k }, n)
  consola c_iniciar_patota parametros s n = do
    (n', ks) ← iniciar_patota e parametros n
    some (record s { lista_semaforos = s.lista_semaforos ++ ks }, n')
  consola c_listar_tripulantes parametros s n = some (s, n)
  consola c_expulsar_tripulante parametros s n = do
    id ← get_elem? parametros 1
    n' ← expulsar_tripulante e (e.atoi id) n
    some (s, n')
  consola c_obtener_bitacora parametros s n = do
    id ← get_elem? parametros 1
    some (s, obtener_bitacora (e.atoi id) n)
  consola c_salir parametros s n = none
  consola desconocido parametros s n = some (s, n)

  -- A line of the console.
  unfoldable pub funcion_consola : List (List ℕ) → Semaforos → Nave → Option (Semaforos × Nave)
  unfolding consola obtener_tipo_mensaje_consola
  funcion_consola parametros s n = do
    mensaje ← get_elem? parametros 0
    consola (obtener_tipo_mensaje_consola mensaje) parametros s n

-- the state that main.c sets up
unfoldable pub inicial : Semaforos × Nave
unfolding globales funcion_planificador sem_init
inicial = (sem_init, funcion_planificador globales)

-- how often a command is INICIAR_PLANIFICACION
abbrev pub inicios : Comando → ℕ
inicios c_iniciar_planificacion = 1
inicios c = 0

-- A step of the system: a round of a thread, a command of the console, or the message
-- COMIENZA_SABOTAJE.
pub data Paso (e : Entorno) (x y : Semaforos × Nave) : Type 0 where
  hilo : (h : Hilo) → ronda e h x.0 x.1 ≡ some y → Paso e x y
  tripulante : (id : ℕ) → ronda_tripulante e id x.0 x.1 ≡ some y → Paso e x y
  comando :
      (c : Comando) (parametros : List (List ℕ))
      → consola e c parametros x.0 x.1 ≡ some y
      → Paso e x y
  sabotaje : (payload : Bytes) → y ≡ (x.0, comienza_sabotaje payload x.1) → Paso e x y

-- the INICIAR_PLANIFICACION commands of a step
abbrev pub inicios_de : {e : Entorno} {x y : Semaforos × Nave} → Paso e x y → ℕ
inicios_de (comando c parametros h) = inicios c
inicios_de p = 0

-- The states that are reached with so many INICIAR_PLANIFICACION commands.
pub data Alcanza (e : Entorno) : ℕ → Semaforos × Nave → Type 0 where
  inicio : Alcanza e 0 inicial
  luego :
      {k : ℕ} {x y : Semaforos × Nave}
      → Alcanza e k x
      → (p : Paso e x y) → Alcanza e (inicios_de p + k) y
