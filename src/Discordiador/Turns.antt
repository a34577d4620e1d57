-- ===== src/Discordiador/Turns.antt =====
-- The semaphores hand one turn around: the threads of the planner take it one after the other, and
-- in between the tripulantes in `exec` have it together.
pub mod Reached
use tp_2021_so_fin.Base.Options.{
  ◌>>=◌, Returns, Returns-some, Returns-none, Returns-if, Returns-bind, Returns-map, if-holds,
}
use tp_2021_so_fin.Base.{
  ℕ, zero, suc, ◌+◌, ◌≤◌, ◌≡◌, refl, sym, subst, ap, ◌⊎◌, inl, inr, ◌&&◌, Bool, true, false, not,
  List, [], ◌∷◌, ◌++◌, Option, none, some, arith, length, get_elem?, if◌then◌else◌, ◌==◌, sum_by,
  sum_by-append, Bool-cases,
}
use tp_2021_so_fin.Discordiador.State.{Tcb, Nave, Semaforos, Entorno, sem_init}
use tp_2021_so_fin.Discordiador.Tripulante.{funcion_tripulante}
use tp_2021_so_fin.Discordiador.Planner.{funcion_h_ready_a_exec}
use tp_2021_so_fin.Discordiador.Patotas.{nuevos_semaforos, crear_pcb}
use tp_2021_so_fin.Discordiador.Console.{
  Comando, c_iniciar_planificacion, c_pausar_planificacion, c_iniciar_patota, c_listar_tripulantes,
  c_expulsar_tripulante, c_obtener_bitacora, c_salir, desconocido, expulsar_tripulante,
  iniciar_patota,
}
use tp_2021_so_fin.Discordiador.Threads.{
  Hilo, h_new_a_ready, h_ready_a_exec, h_exec_a_bloq_io, h_exec_a_ready, h_exec_a_exit, h_bloq_io,
  h_exec_ready_a_bloq_emer, h_bloq_emer_a_ready, h_exit, sem_wait, post_en, wait_en,
  signal_hilos_tripulantes, signal, si_viva, despertar, ronda, ronda_tripulante,
  iniciar_planificacion, consola, inicios, inicial, Paso, hilo, tripulante, comando, sabotaje,
  inicios_de, Alcanza, inicio, luego,
}

-- the turns that the threads of the planner have
unfoldable pub turnos : Semaforos → ℕ
turnos s =
    s.sem_nr + s.sem_ebio + s.sem_re + s.sem_er + s.sem_eax + s.sem_blockio + s.sem_erm + s.sem_mr
    + s.sem_exit

-- the tripulantes that were woken and have not run yet
abbrev pub despiertos : Semaforos → ℕ
despiertos s = sum_by (λ k. k) s.lista_semaforos

-- The planner has the turn, or the tripulantes have it: as many as were woken, but for those that
-- are counted.
unfoldable pub IsTurn : ℕ → Semaforos → Type 0
IsTurn k s =
    ((despiertos s ≡ 0) × (s.contador_sem_global ≡ 0) × (turnos s ≤ k))
    ⊎ ((turnos s ≡ 0)
        × (1 ≤ k)
        × (1 ≤ despiertos s)
        × (despiertos s + s.contador_sem_global ≡ s.cantidad_tcb_en_exec))

sem_wait-lem : (k : ℕ) → Returns (λ j. k ≡ suc j) (sem_wait k)
sem_wait-lem zero = Returns-none
sem_wait-lem (suc k) = Returns-some refl

post_en-lem :
    (id : ℕ) (ks : List ℕ)
    → Returns (λ js. sum_by (λ k. k) js ≡ suc (sum_by (λ k. k) ks)) (post_en id ks)
unfolding post_en
post_en-lem id [] = Returns-none
post_en-lem zero (k ∷ ks) = Returns-some (omega arith)
post_en-lem (suc id) (k ∷ ks) =
    Returns-bind (post_en id ks)
      (λ js h. Returns-some (omega (arith, (post_en-lem id ks).holds js h)))

wait_en-lem :
    (id : ℕ) (ks : List ℕ)
    → Returns (λ js. sum_by (λ k. k) ks ≡ suc (sum_by (λ k. k) js)) (wait_en id ks)
unfolding wait_en
wait_en-lem id [] = Returns-none
wait_en-lem zero (k ∷ ks) =
    Returns-bind (sem_wait k) (λ j h. Returns-some (omega (arith, (sem_wait-lem k).holds j h)))
wait_en-lem (suc id) (k ∷ ks) =
    Returns-bind (wait_en id ks)
      (λ js h. Returns-some (omega (arith, (wait_en-lem id ks).holds js h)))

signal_hilos-lem :
    (tcbs : ℕ → Tcb) (ps ks : List ℕ)
    → Returns
        (λ js. sum_by (λ k. k) js ≡ sum_by (λ k. k) ks + length ps)
        (signal_hilos_tripulantes tcbs ps ks)
unfolding signal_hilos_tripulantes
signal_hilos-lem tcbs [] ks = Returns-some (omega arith)
signal_hilos-lem tcbs (p ∷ ps) ks = Returns-bind (post_en (tcbs p).tid ks) (λ js h. record {
  holds = λ is k.
      omega
        (arith, (post_en-lem (tcbs p).tid ks).holds js h, (signal_hilos-lem tcbs ps js).holds is k);
})

-- A thread that has a turn has the only one.
tomado :
    (k : ℕ) (s : Semaforos)
    → IsTurn k s
    → 1 ≤ turnos s
    → (despiertos s ≡ 0) × (s.contador_sem_global ≡ 0) × (turnos s ≤ k)
unfolding IsTurn
tomado k s (inl h) l = h
tomado k s (inr h) l = absurd (omega (arith, h.0))

-- READY -> EXEC gives the turn to the tripulantes, or past them if there is none.
despertar-IsTurn :
    (tcbs : ℕ → Tcb) (ps : List ℕ) (k : ℕ) (s : Semaforos)
    → k ≤ 1
    → (despiertos s ≡ 0) × (s.contador_sem_global ≡ 0) × (suc (turnos s) ≤ k)
    → Returns (IsTurn k) (despertar tcbs ps s)
unfolding IsTurn despertar turnos
despertar-IsTurn tcbs [] k s h (a, b, c) = Returns-some (inl (a, b, omega arith))
despertar-IsTurn tcbs (p ∷ ps) k s h (a, b, c) =
    Returns-bind (signal_hilos_tripulantes tcbs (p ∷ ps) s.lista_semaforos) (λ ks j.
      let w = (signal_hilos-lem tcbs (p ∷ ps) s.lista_semaforos).holds ks j in
      Returns-some (inr (omega arith, omega arith, omega arith, omega arith)))

-- The last of the tripulantes gives the turn back.
signal-IsTurn :
    (n k : ℕ) (s : Semaforos)
    → turnos s ≡ 0
    → 1 ≤ k
    → suc (despiertos s) + s.contador_sem_global ≡ s.cantidad_tcb_en_exec
    → IsTurn k (signal n s)
unfolding IsTurn signal turnos
signal-IsTurn n k s h l c =
    elim (Bool-cases (suc s.contador_sem_global == s.cantidad_tcb_en_exec)) [
      | inl e ↦ rw e (inl (ground arith, refl, omega arith))
      | inr e ↦ rw e (inr (h, l, ground arith, omega arith))
    ]

module _ (e : Entorno) (k : ℕ) (l : k ≤ 1) where
  -- A round takes one turn and gives one.
  cede-IsTurn :
      (n : Nave) (s : Semaforos) (w : ℕ) (o : Option Nave) (t : ℕ → Nave → Semaforos)
      → IsTurn k s
      → w ≤ turnos s
      → ((j : ℕ) (m : Nave)
          → w ≡ suc j
          → turnos (t j m) ≡ turnos s
            × ((t j m).lista_semaforos ≡ s.lista_semaforos)
            × ((t j m).contador_sem_global ≡ s.contador_sem_global))
      → Returns
          (λ (y : Semaforos × Nave). IsTurn k y.0)
          (sem_wait w >>= λ j. o >>= λ m. some (t j m, m))
  unfolding IsTurn
  cede-IsTurn n s w o t i le h = Returns-bind (sem_wait w) (λ j a. Returns-bind o (λ m _.
      let b = (sem_wait-lem w).holds j a in
      let (c, d, f) = h j m b in
      let (x, y, z) = tomado k s i (omega arith) in
      Returns-some (inl (omega (arith, ap (sum_by (λ k. k)) d), omega arith, omega arith))))

  pub ronda-IsTurn :
      (h : Hilo) (s : Semaforos) (n : Nave)
      → IsTurn k s
      → Returns (λ (y : Semaforos × Nave). IsTurn k y.0) (ronda e h s n)
  unfolding ronda turnos IsTurn
  ronda-IsTurn h_new_a_ready s n i =
      Returns-if s.esperando
        (cede-IsTurn n s s.sem_nr _ _ i (omega arith) (λ j m a. (omega arith, refl, refl)))
        (Returns-bind (sem_wait s.pausar) (λ j a. Returns-some i))
  ronda-IsTurn h_ready_a_exec s n i = Returns-bind (sem_wait s.sem_re) (λ j a.
      let b = (sem_wait-lem s.sem_re).holds j a in
      let (x, y, z) = tomado k s i (omega arith) in
      Returns-bind (si_viva (λ m. some (funcion_h_ready_a_exec e m)) n) (λ m _.
        Returns-bind (despertar m.tcbs m.colas.exec (record s { sem_re = j })) (λ t c.
          Returns-some (
            (despertar-IsTurn m.tcbs m.colas.exec k (record s { sem_re = j }) l
                (x, y, omega arith)).holds
              t c))))
  ronda-IsTurn h_exec_a_bloq_io s n i =
      cede-IsTurn n s s.sem_ebio _ _ i (omega arith) (λ j m a. (omega arith, refl, refl))
  ronda-IsTurn h_exec_a_ready s n i =
      cede-IsTurn n s s.sem_er _ _ i (omega arith) (λ j m a. (omega arith, refl, refl))
  ronda-IsTurn h_exec_a_exit s n i =
      cede-IsTurn n s s.sem_eax _ _ i (omega arith) (λ j m a. (omega arith, refl, refl))
  ronda-IsTurn h_bloq_io s n i =
      cede-IsTurn n s s.sem_blockio _ _ i (omega arith)
        (λ j m a. (ground arith, ground arith, ground arith))
  ronda-IsTurn h_exec_ready_a_bloq_emer s n i =
      cede-IsTurn n s s.sem_erm _ _ i (omega arith) (λ j m a. (omega arith, refl, refl))
  ronda-IsTurn h_bloq_emer_a_ready s n i =
      cede-IsTurn n s s.sem_mr _ _ i (omega arith) (λ j m a. (omega arith, refl, refl))
  ronda-IsTurn h_exit s n i =
      cede-IsTurn n s s.sem_exit _ _ i (omega arith) (λ j m a. (omega arith, refl, refl))

  pub ronda_tripulante-IsTurn :
      (id : ℕ) (s : Semaforos) (n : Nave)
      → IsTurn k s
      → Returns (λ (y : Semaforos × Nave). IsTurn k y.0) (ronda_tripulante e id s n)
  unfolding ronda_tripulante IsTurn turnos
  ronda_tripulante-IsTurn id s n i = Returns-bind (wait_en id s.lista_semaforos) (λ ks a.
      let w = (wait_en-lem id s.lista_semaforos).holds ks a in
      let (x, y, z) = dormido ks i w in
      Returns-bind (funcion_tripulante e id n) (λ m _.
        Returns-some
          (signal-IsTurn (length m.colas.exec) k (record s { lista_semaforos = ks }) x y z)))
    where
      dormido :
          (ks : List ℕ)
          → IsTurn k s
          → despiertos s ≡ suc (sum_by (λ k. k) ks)
          → (turnos s ≡ 0)
            × (1 ≤ k)
            × (suc (sum_by (λ k. k) ks) + s.contador_sem_global ≡ s.cantidad_tcb_en_exec)
      dormido ks (inl h) w = absurd (omega (arith, h.0))
      dormido ks (inr h) w = (h.0, h.1, omega (arith, h.3))
