-- ===== src/Discordiador/Queues/Moved.antt =====
-- The rounds of the planner move a tripulante from queue to queue, or take it out.
use tp_2021_so_fin.Base.Options.{Returns, Returns-some, Returns-if, Returns-bind}
use tp_2021_so_fin.Base.Counts.{occurs, count}
use tp_2021_so_fin.Base.{
  ℕ, ◌+◌, ◌≡◌, refl, inl, inr, List, [], ◌∷◌, ◌++◌, arith, Bool-cases, ◌==◌, ap, ◌∙◌,
}
use tp_2021_so_fin.Discordiador.State.{Pcb, Buffer, Nave, Entorno, estado_ready, con_colas}
use tp_2021_so_fin.Discordiador.Tripulante.{enviar}
use tp_2021_so_fin.Discordiador.Quiet.{IsQuiet}
use tp_2021_so_fin.Discordiador.Planner.{
  sacar, get_pcb_by_id, funcion_cambio_exec_io, funcion_h_exec_a_bloq_io, funcion_cambio_exec_ready,
  funcion_h_exec_a_ready, termina_un_ciclo, deletear_tripulante, primera_tarea, iterate_next_task,
  iniciar, enviar_buffers, vaciar_new, funcion_h_new_a_ready, eliminar_si_terminaron,
  funcion_cambio_exec_exit, funcion_h_exec_a_exit,
}
use tp_2021_so_fin.Discordiador.Queues.{
  veces, IsKept, IsKept-trans, IsKept-refl, IsQuiet-IsKept, count-snoc, list_iterate-IsKept,
  recorrer-IsKept, sacar-IsTaken,
}

module _ {g : ℕ} where
  cambio_exec_io-IsKept : (p : ℕ) (n : Nave) → Returns (IsKept g n) (funcion_cambio_exec_io p n)
  unfolding funcion_cambio_exec_io veces
  cambio_exec_io-IsKept p n =
      Returns-if _
        (Returns-bind (sacar n.tcbs n.colas.exec (n.tcbs p).tid) (λ r k.
          let t = (sacar-IsTaken n.tcbs n.colas.exec (n.tcbs p).tid).holds r k in
          Returns-some (record {
            fewer = λ q. omega (arith, t.parts q, count-snoc q r.0 n.colas.bloq_io);
            same_total = refl;
            within = λ h. omega (arith, t.size);
          })))
        (Returns-some (IsKept-refl n))

  cambio_exec_ready-IsKept :
      (p : ℕ) (n : Nave) → Returns (IsKept g n) (funcion_cambio_exec_ready p n)
  unfolding funcion_cambio_exec_ready veces
  cambio_exec_ready-IsKept p n =
      Returns-if _
        (Returns-bind (sacar n.tcbs n.colas.exec (n.tcbs p).tid) (λ r k.
          let t = (sacar-IsTaken n.tcbs n.colas.exec (n.tcbs p).tid).holds r k in
          Returns-some (record {
            fewer = λ q. omega (arith, t.parts q, count-snoc q r.0 n.colas.ready);
            same_total = refl;
            within = λ h. omega (arith, t.size);
          })))
        (Returns-some (IsKept-refl n))

  pub exec_a_bloq_io-IsKept : (n : Nave) → Returns (IsKept g n) (funcion_h_exec_a_bloq_io n)
  unfolding funcion_h_exec_a_bloq_io
  exec_a_bloq_io-IsKept n =
      list_iterate-IsKept funcion_cambio_exec_io cambio_exec_io-IsKept n.colas.exec n

  pub exec_a_ready-IsKept : (n : Nave) → Returns (IsKept g n) (funcion_h_exec_a_ready n)
  unfolding funcion_h_exec_a_ready
  exec_a_ready-IsKept n =
      list_iterate-IsKept funcion_cambio_exec_ready cambio_exec_ready-IsKept n.colas.exec n

pub termina-IsQuiet : (p : ℕ) (n : Nave) → IsQuiet n (termina_un_ciclo p n)
unfolding termina_un_ciclo
termina-IsQuiet p n = record { same = refl }

pub deletear-IsQuiet : (p : ℕ) (n : Nave) → IsQuiet n (deletear_tripulante p n)
unfolding deletear_tripulante
deletear-IsQuiet p n = record { same = ground arith }

module _ (e : Entorno) where
  primera_tarea-IsQuiet : (p : ℕ) (n : Nave) → IsQuiet n (primera_tarea e p n)
  unfolding primera_tarea enviar
  primera_tarea-IsQuiet p n = record { same = ground arith }

  pub eliminar-IsQuiet : (b : Pcb) (n : Nave) → IsQuiet n (eliminar_si_terminaron e b n)
  unfolding eliminar_si_terminaron enviar
  eliminar-IsQuiet b n = record { same = ground arith }

module _ (e : Entorno) {g : ℕ} where
  iterate_next_task-IsKept : (ps : List ℕ) (n : Nave) → IsKept g n (iterate_next_task e ps n)
  unfolding iterate_next_task
  iterate_next_task-IsKept ps n =
      recorrer-IsKept (primera_tarea e) (λ p m. IsQuiet-IsKept (primera_tarea-IsQuiet e p m)) ps n

  cambio_exec_exit-IsKept :
      (p : ℕ) (n : Nave) → Returns (IsKept g n) (funcion_cambio_exec_exit e p n)
  unfolding funcion_cambio_exec_exit veces enviar
  cambio_exec_exit-IsKept p n =
      Returns-if _
        (Returns-bind (sacar n.tcbs n.colas.exec (n.tcbs p).tid) (λ r k.
          let t = (sacar-IsTaken n.tcbs n.colas.exec (n.tcbs p).tid).holds r k in
          Returns-bind (get_pcb_by_id n.lista_pcb (n.tcbs r.0).pid) (λ b k'. Returns-some (
            IsKept-trans
              (record {
                fewer = λ q. omega (arith, t.parts q, count-snoc q r.0 n.colas.cola_exit);
                same_total = refl;
                within = λ h. omega (arith, t.size);
              })
              (IsQuiet-IsKept (eliminar-IsQuiet e b _))))))
        (Returns-some (IsKept-refl n))

  pub exec_a_exit-IsKept : (n : Nave) → Returns (IsKept g n) (funcion_h_exec_a_exit e n)
  unfolding funcion_h_exec_a_exit
  exec_a_exit-IsKept n =
      list_iterate-IsKept (funcion_cambio_exec_exit e) cambio_exec_exit-IsKept n.colas.exec n

  iniciar-IsKept : (b : Buffer) (n : Nave) → Returns (IsKept g n) (iniciar e b n)
  unfolding iniciar
  iniciar-IsKept b n =
      Returns-if _
        (Returns-bind (get_pcb_by_id n.lista_pcb b.command) (λ patota k. Returns-some (
          IsKept-trans (IsQuiet-IsKept (record { same = refl }))
            (iterate_next_task-IsKept patota.lista_tcb _))))
        (Returns-some (IsQuiet-IsKept (record { same = refl })))

  enviar_buffers-IsKept :
      (bs : List Buffer) (n : Nave) → Returns (IsKept g n) (enviar_buffers e bs n)
  unfolding enviar_buffers
  enviar_buffers-IsKept [] n = Returns-some (IsKept-refl n)
  enviar_buffers-IsKept (b ∷ bs) n =
      let n' = record n { buffers_a_enviar = bs } in
      Returns-bind (iniciar e b n') (λ m k. record {
        holds = λ o l.
            let i = (iniciar-IsKept b n').holds m k in
            let r = (enviar_buffers-IsKept bs m).holds o l in
            record {
              fewer = λ p. omega (arith, i.fewer p, r.fewer p);
              same_total = r.same_total ∙ i.same_total;
              within = λ h. r.within (i.within h);
            };
      })

  vaciar_new-IsKept :
      (ps : List ℕ) (n : Nave) → n.colas.cola_new ≡ ps → IsKept g n (vaciar_new e ps n)
  unfolding vaciar_new veces
  vaciar_new-IsKept [] n h = IsKept-refl n
  vaciar_new-IsKept (p ∷ ps) n h = elim (Bool-cases ((n.tcbs p).status == estado_ready)) [
    | inl s ↦ rw s (IsKept-trans a_ready (vaciar_new-IsKept ps _ refl))
    | inr s ↦ rw s (IsKept-trans a_exit (vaciar_new-IsKept ps _ refl))
  ]
    where
      head : (q : ℕ) → count q n.colas.cola_new ≡ occurs q p + count q ps
      head q = ap (count q) h

      a_ready :
          IsKept g n
            (con_colas n (record (n.colas) { cola_new = ps; ready = n.colas.ready ++ p ∷ [] }))
      a_ready = record {
        fewer = λ q. omega (arith, head q, count-snoc q p n.colas.ready);
        same_total = refl;
        within = λ l. l;
      }

      a_exit : IsKept g n (
          con_colas n (record (n.colas) { cola_new = ps; cola_exit = n.colas.cola_exit ++ p ∷ [] }))
      a_exit = record {
        fewer = λ q. omega (arith, head q, count-snoc q p n.colas.cola_exit);
        same_total = refl;
        within = λ l. l;
      }

  pub new_a_ready-IsKept : (n : Nave) → Returns (IsKept g n) (funcion_h_new_a_ready e n)
  unfolding funcion_h_new_a_ready
  new_a_ready-IsKept n = Returns-bind (enviar_buffers e n.buffers_a_enviar n) (λ m k. Returns-some (
      IsKept-trans ((enviar_buffers-IsKept n.buffers_a_enviar n).holds m k)
        (vaciar_new-IsKept m.colas.cola_new m refl)))
