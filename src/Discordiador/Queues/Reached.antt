-- ===== src/Discordiador/Queues/Reached.antt =====
-- Every step of the Discordiador: the queues in the states that are reached.
use tp_2021_so_fin.Base.Options.{
  ◌>>=◌, Returns, Returns-some, Returns-none, Returns-if, Returns-bind, Returns-map,
}
use tp_2021_so_fin.Base.{ℕ, refl, sym, subst, ◌&&◌, not, List, Option, some, arith, get_elem?}
use tp_2021_so_fin.Discordiador.State.{Nave, Semaforos, Entorno, globales, funcion_planificador}
use tp_2021_so_fin.Discordiador.Tripulante.{enviar}
use tp_2021_so_fin.Discordiador.Quiet.{funcion_tripulante-IsQuiet}
use tp_2021_so_fin.Discordiador.Planner.{
  funcion_h_ready_a_exec, funcion_h_exec_a_bloq_io, funcion_h_exec_a_ready, funcion_h_exec_a_exit,
  funcion_h_bloq_io,
}
use tp_2021_so_fin.Discordiador.Planner.Emergency.{
  funcion_h_exec_ready_a_bloq_emer, funcion_h_bloq_emer_a_ready, funcion_h_exit,
}
use tp_2021_so_fin.Discordiador.Console.{
  Comando, c_iniciar_planificacion, c_pausar_planificacion, c_iniciar_patota, c_listar_tripulantes,
  c_expulsar_tripulante, c_obtener_bitacora, c_salir, desconocido, expulsar_tripulante,
  iniciar_patota, obtener_bitacora, comienza_sabotaje,
}
use tp_2021_so_fin.Discordiador.Threads.{
  Hilo, h_new_a_ready, h_ready_a_exec, h_exec_a_bloq_io, h_exec_a_ready, h_exec_a_exit, h_bloq_io,
  h_exec_ready_a_bloq_emer, h_bloq_emer_a_ready, h_exit, sem_wait, wait_en, si_viva, despertar,
  ronda, ronda_tripulante, iniciar_planificacion, consola, inicial, Paso, hilo, tripulante, comando,
  sabotaje, Alcanza, inicio, luego,
}
use tp_2021_so_fin.Discordiador.Queues.{veces, IsKept, IsKept-refl, IsQuiet-IsKept}
use tp_2021_so_fin.Discordiador.Queues.Moved.{
  exec_a_bloq_io-IsKept, exec_a_ready-IsKept, exec_a_exit-IsKept, new_a_ready-IsKept,
}
use tp_2021_so_fin.Discordiador.Queues.Filled.{ready_a_exec-IsKept, bloq_io-IsKept}
use tp_2021_so_fin.Discordiador.Queues.Emergency.{
  exec_ready_a_bloq_emer-IsKept, bloq_emer_a_ready-IsKept, exit-IsKept,
}
use tp_2021_so_fin.Discordiador.Queues.Crew.{expulsar_tripulante-IsKept}
use tp_2021_so_fin.Discordiador.Queues.Created.{
  IsAtMostOne, IsKept-IsAtMostOne, iniciar_patota-IsAtMostOne,
}

module _ (e : Entorno) where
  abbrev g : ℕ
  g = e.grado_multitarea

  si_viva-IsKept :
      (f : Nave → Option Nave) (n : Nave)
      → Returns (IsKept g n) (f n)
      → Returns (IsKept g n) (si_viva f n)
  si_viva-IsKept f n h = Returns-if n.planificacion_viva h (Returns-some (IsKept-refl n))

  -- A round waits, works, and posts.
  trabajo-IsKept :
      {A : Type 0} (n : Nave) (w : Option A) (o : Option Nave) (s : A → Nave → Semaforos)
      → Returns (IsKept g n) o
      → Returns (λ (y : Semaforos × Nave). IsKept g n y.1) (w >>= λ k. o >>= λ m. some (s k m, m))
  trabajo-IsKept n w o s h =
      Returns-bind w (λ k _. Returns-bind o (λ m l. Returns-some (h.holds m l)))

  ronda-IsKept :
      (h : Hilo) (s : Semaforos) (n : Nave)
      → Returns (λ (y : Semaforos × Nave). IsKept g n y.1) (ronda e h s n)
  unfolding ronda
  ronda-IsKept h_new_a_ready s n =
      Returns-if s.esperando
        (trabajo-IsKept n (sem_wait s.sem_nr) _ _ (
          Returns-if (n.planificacion_viva && not n.sabotaje_activado) (new_a_ready-IsKept e n)
            (Returns-some (IsKept-refl n))))
        (Returns-bind (sem_wait s.pausar) (λ k _. Returns-some (IsKept-refl n)))
  ronda-IsKept h_ready_a_exec s n = Returns-bind (sem_wait s.sem_re) (λ k _.
      Returns-bind (si_viva (λ m. some (funcion_h_ready_a_exec e m)) n) (λ m l.
        Returns-bind (despertar m.tcbs m.colas.exec (record s { sem_re = k })) (λ s' _.
          Returns-some (
            (si_viva-IsKept (λ m. some (funcion_h_ready_a_exec e m)) n
                (Returns-some (ready_a_exec-IsKept e n))).holds
              m l))))
  ronda-IsKept h_exec_a_bloq_io s n =
      trabajo-IsKept n (sem_wait s.sem_ebio) _ _
        (si_viva-IsKept funcion_h_exec_a_bloq_io n (exec_a_bloq_io-IsKept n))
  ronda-IsKept h_exec_a_ready s n =
      trabajo-IsKept n (sem_wait s.sem_er) _ _
        (si_viva-IsKept funcion_h_exec_a_ready n (exec_a_ready-IsKept n))
  ronda-IsKept h_exec_a_exit s n =
      trabajo-IsKept n (sem_wait s.sem_eax) _ _
        (si_viva-IsKept (funcion_h_exec_a_exit e) n (exec_a_exit-IsKept e n))
  ronda-IsKept h_bloq_io s n =
      trabajo-IsKept n (sem_wait s.sem_blockio) _ _
        (si_viva-IsKept (funcion_h_bloq_io e) n (bloq_io-IsKept e n))
  ronda-IsKept h_exec_ready_a_bloq_emer s n =
      trabajo-IsKept n (sem_wait s.sem_erm) _ _
        (si_viva-IsKept (funcion_h_exec_ready_a_bloq_emer e) n (exec_ready_a_bloq_emer-IsKept e n))
  ronda-IsKept h_bloq_emer_a_ready s n = trabajo-IsKept n (sem_wait s.sem_mr) _ _ (
      si_viva-IsKept (λ m. some (funcion_h_bloq_emer_a_ready m)) n
        (Returns-some (bloq_emer_a_ready-IsKept n)))
  ronda-IsKept h_exit s n =
      trabajo-IsKept n (sem_wait s.sem_exit) _ _
        (si_viva-IsKept (λ m. some (funcion_h_exit e m)) n (Returns-some (exit-IsKept e n)))

  ronda_tripulante-IsKept :
      (id : ℕ) (s : Semaforos) (n : Nave)
      → Returns (λ (y : Semaforos × Nave). IsKept g n y.1) (ronda_tripulante e id s n)
  unfolding ronda_tripulante
  ronda_tripulante-IsKept id s n =
      trabajo-IsKept n (wait_en id s.lista_semaforos) _ _
        (Returns-map (λ m q. IsQuiet-IsKept q) (funcion_tripulante-IsQuiet e id n))

  consola-IsAtMostOne :
      (c : Comando) (parametros : List (List ℕ)) (s : Semaforos) (n : Nave)
      → IsAtMostOne g n
      → Returns (λ (y : Semaforos × Nave). IsAtMostOne g y.1) (consola e c parametros s n)
  unfolding consola iniciar_planificacion obtener_bitacora enviar
  consola-IsAtMostOne c_iniciar_planificacion parametros s n i =
      Returns-some (record { once = i.once; never = i.never; within = i.within })
  consola-IsAtMostOne c_pausar_planificacion parametros s n i =
      Returns-bind (sem_wait s.pausar) (λ k _. Returns-some i)
  consola-IsAtMostOne c_iniciar_patota parametros s n i =
      Returns-bind (iniciar_patota e parametros n)
        (λ r k. Returns-some ((iniciar_patota-IsAtMostOne e parametros n i).holds r k))
  consola-IsAtMostOne c_listar_tripulantes parametros s n i = Returns-some i
  consola-IsAtMostOne c_expulsar_tripulante parametros s n i =
      Returns-bind (get_elem? parametros 1) (λ id _.
        Returns-bind (expulsar_tripulante e (e.atoi id) n) (λ m k.
          Returns-some
            (IsKept-IsAtMostOne g ((expulsar_tripulante-IsKept e (e.atoi id) n).holds m k) i)))
  consola-IsAtMostOne c_obtener_bitacora parametros s n i =
      Returns-bind (get_elem? parametros 1)
        (λ id _. Returns-some (record { once = i.once; never = i.never; within = i.within }))
  consola-IsAtMostOne c_salir parametros s n i = Returns-none
  consola-IsAtMostOne desconocido parametros s n i = Returns-some i

  Paso-IsAtMostOne : {x y : Semaforos × Nave} → Paso e x y → IsAtMostOne g x.1 → IsAtMostOne g y.1
  unfolding comienza_sabotaje
  Paso-IsAtMostOne {x} {y} (hilo h k) i =
      IsKept-IsAtMostOne g ((ronda-IsKept h x.0 x.1).holds y k) i
  Paso-IsAtMostOne {x} {y} (tripulante id k) i =
      IsKept-IsAtMostOne g ((ronda_tripulante-IsKept id x.0 x.1).holds y k) i
  Paso-IsAtMostOne {x} {y} (comando c parametros k) i =
      (consola-IsAtMostOne c parametros x.0 x.1 i).holds y k
  Paso-IsAtMostOne {x} {y} (sabotaje payload k) i =
      subst (λ z. IsAtMostOne g z.1) (sym k)
        (record { once = i.once; never = i.never; within = i.within })

  -- In every state that is reached, whatever the threads, the console, MiRAMHQ and the sabotages do:
  -- no tripulante stands twice in the six queues together, none stands in them that was not made,
  -- and `exec` has no more tripulantes than the degree of multitasking.
  pub Alcanza-IsAtMostOne : {k : ℕ} {x : Semaforos × Nave} → Alcanza e k x → IsAtMostOne g x.1
  unfolding inicial funcion_planificador globales veces
  Alcanza-IsAtMostOne inicio = record {
    once = λ p. omega arith;
    never = λ p l. refl;
    within = omega arith;
  }
  Alcanza-IsAtMostOne (luego r p) = Paso-IsAtMostOne p (Alcanza-IsAtMostOne r)
