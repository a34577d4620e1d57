-- ===== src/Discordiador/Turns/Reached.antt =====
-- The turn in the states that the Discordiador reaches.
use tp_2021_so_fin.Base.Options.{Returns, Returns-some, Returns-none, Returns-bind}
use tp_2021_so_fin.Base.{
  ℕ, ◌+◌, ◌≤◌, ◌≡◌, refl, sym, subst, inl, inr, List, [], ◌∷◌, ◌++◌, arith, get_elem?, sum_by,
  sum_by-append,
}
use tp_2021_so_fin.Discordiador.State.{Nave, Semaforos, Entorno, sem_init}
use tp_2021_so_fin.Discordiador.Patotas.{nuevos_semaforos, crear_pcb}
use tp_2021_so_fin.Discordiador.Console.{
  Comando, c_iniciar_planificacion, c_pausar_planificacion, c_iniciar_patota, c_listar_tripulantes,
  c_expulsar_tripulante, c_obtener_bitacora, c_salir, desconocido, expulsar_tripulante,
  iniciar_patota,
}
use tp_2021_so_fin.Discordiador.Threads.{
  sem_wait, iniciar_planificacion, consola, inicios, inicial, Paso, hilo, tripulante, comando,
  sabotaje, inicios_de, Alcanza, inicio, luego,
}
use tp_2021_so_fin.Discordiador.Turns.{IsTurn, turnos, ronda-IsTurn, ronda_tripulante-IsTurn}

nuevos-lem : (ps : List ℕ) → sum_by (λ k. k) (nuevos_semaforos ps) ≡ 0
nuevos-lem [] = refl
nuevos-lem (p ∷ ps) = omega (arith, nuevos-lem ps)

-- New semaphores are not posted.
con_nuevos-IsTurn :
    (k : ℕ) (s : Semaforos) (ks : List ℕ)
    → sum_by (λ k. k) ks ≡ 0
    → IsTurn k s
    → IsTurn k (record s { lista_semaforos = s.lista_semaforos ++ ks })
unfolding IsTurn turnos
con_nuevos-IsTurn k s ks h (inl (a, b, c)) =
    inl (omega (arith, sum_by-append (λ k. k) s.lista_semaforos ks), b, c)
con_nuevos-IsTurn k s ks h (inr (a, b, c, d)) =
    let f = sum_by-append (λ k. k) s.lista_semaforos ks in inr (a, b, omega arith, omega arith)

cero-IsTurn : (k : ℕ) (s : Semaforos) → IsTurn k s → IsTurn (0 + k) s
cero-IsTurn k s i = let h : k ≡ 0 + k = omega arith in subst (λ j. IsTurn j s) h i

iniciar-IsTurn :
    (k : ℕ) (s : Semaforos) (n : Nave)
    → 1 + k ≤ 1
    → IsTurn k s
    → IsTurn (1 + k) (iniciar_planificacion s n).0
unfolding IsTurn turnos iniciar_planificacion
iniciar-IsTurn k s n l (inl (a, b, c)) = inl (ground arith, ground arith, ground arith)
iniciar-IsTurn k s n l (inr (a, b, c, d)) = absurd (omega arith)

module _ (e : Entorno) where
  patota-lem :
      (parametros : List (List ℕ)) (n : Nave)
      → Returns (λ (r : Nave × List ℕ). sum_by (λ k. k) r.1 ≡ 0) (iniciar_patota e parametros n)
  unfolding iniciar_patota
  patota-lem parametros n =
      Returns-bind (crear_pcb e parametros n) (λ r _. Returns-some (nuevos-lem r.1.lista_tcb))

  consola-IsTurn :
      (c : Comando) (parametros : List (List ℕ)) (k : ℕ) (s : Semaforos) (n : Nave)
      → inicios c + k ≤ 1
      → IsTurn k s
      → Returns (λ (y : Semaforos × Nave). IsTurn (inicios c + k) y.0) (consola e c parametros s n)
  unfolding consola IsTurn turnos
  consola-IsTurn c_iniciar_planificacion parametros k s n l i =
      Returns-some (iniciar-IsTurn k s n l i)
  consola-IsTurn c_pausar_planificacion parametros k s n l i =
      Returns-bind (sem_wait s.pausar) (λ j _. Returns-some (cero-IsTurn k s i))
  consola-IsTurn c_iniciar_patota parametros k s n l i =
      Returns-bind (iniciar_patota e parametros n) (λ r h. Returns-some (
        cero-IsTurn k (record s { lista_semaforos = s.lista_semaforos ++ r.1 })
          (con_nuevos-IsTurn k s r.1 ((patota-lem parametros n).holds r h) i)))
  consola-IsTurn c_listar_tripulantes parametros k s n l i = Returns-some (cero-IsTurn k s i)
  consola-IsTurn c_expulsar_tripulante parametros k s n l i =
      Returns-bind (get_elem? parametros 1) (λ id _.
        Returns-bind (expulsar_tripulante e (e.atoi id) n)
          (λ m _. Returns-some (cero-IsTurn k s i)))
  consola-IsTurn c_obtener_bitacora parametros k s n l i =
      Returns-bind (get_elem? parametros 1) (λ id _. Returns-some (cero-IsTurn k s i))
  consola-IsTurn c_salir parametros k s n l i = Returns-none
  consola-IsTurn desconocido parametros k s n l i = Returns-some (cero-IsTurn k s i)

  Paso-IsTurn :
      {x y : Semaforos × Nave} (k : ℕ) (p : Paso e x y)
      → inicios_de p + k ≤ 1
      → IsTurn k x.0
      → IsTurn (inicios_de p + k) y.0
  Paso-IsTurn {x} {y} k (hilo h a) l i =
      cero-IsTurn k y.0 ((ronda-IsTurn e k (omega arith) h x.0 x.1 i).holds y a)
  Paso-IsTurn {x} {y} k (tripulante id a) l i =
      cero-IsTurn k y.0 ((ronda_tripulante-IsTurn e k (omega arith) id x.0 x.1 i).holds y a)
  Paso-IsTurn {x} {y} k (comando c parametros a) l i =
      (consola-IsTurn c parametros k x.0 x.1 l i).holds y a
  Paso-IsTurn {x} {y} k (sabotaje payload a) l i =
      cero-IsTurn k y.0 (subst (λ z. IsTurn k z.0) (sym a) i)

  -- With INICIAR_PLANIFICACION given once at most, one turn goes around, whatever else is done: of
  -- the nine threads of the planner one at most may pass its semaphore, and then no tripulante is
  -- awake; or none of them may, and the tripulantes that were woken, with those that were counted
  -- since, are as many as `cantidadTCBEnExec` says.
  pub Alcanza-IsTurn : {k : ℕ} {x : Semaforos × Nave} → Alcanza e k x → k ≤ 1 → IsTurn k x.0
  unfolding inicial sem_init IsTurn turnos
  Alcanza-IsTurn inicio l = inl (refl, refl, omega arith)
  Alcanza-IsTurn (luego {k} r p) l = Paso-IsTurn k p l (Alcanza-IsTurn r (omega arith))
