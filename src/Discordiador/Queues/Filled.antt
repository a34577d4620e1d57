-- ===== src/Discordiador/Queues/Filled.antt =====
-- The queues in the rounds of READY -> EXEC and BLOCKED_IO.
use tp_2021_so_fin.Base.Options.{Returns, Returns-some, Returns-if, Returns-bind, if-holds}
use tp_2021_so_fin.Base.Counts.{count}
use tp_2021_so_fin.Base.{
  ℕ, suc, ◌<◌, ◌≡◌, refl, inl, inr, List, [], ◌∷◌, ◌++◌, arith, length, length-append, ltb, ltb→lt,
  Bool-cases, ◌==◌, ap, if◌then◌else◌, get_elem?,
}
use tp_2021_so_fin.Base.Texts.{codes}
use tp_2021_so_fin.Messages.{string, int}
use tp_2021_so_fin.Discordiador.State.{
  Nave, Entorno, ims, estado_ready, codigo_finalizar_ejecucion_tarea, con_tcb, con_colas,
}
use tp_2021_so_fin.Discordiador.Tripulante.{enviar, enviar_estado, con_estado, pedir_proxima_tarea}
use tp_2021_so_fin.Discordiador.Quiet.{IsQuiet, IsQuiet-trans, con_estado-IsQuiet, pedir-IsQuiet}
use tp_2021_so_fin.Discordiador.Planner.{
  llenar_exec, funcion_h_ready_a_exec, salir_de_bloq_io, contar_en_bloq_io,
  funcion_contador_en_bloq_io, en_bloq_io, funcion_h_bloq_io,
}
use tp_2021_so_fin.Discordiador.Queues.{
  veces, IsKept, IsKept-trans, IsKept-refl, IsQuiet-IsKept, count-snoc,
}

-- The head of `ready` goes to `exec`, which has room.
module _ {g : ℕ} (p : ℕ) (ps : List ℕ) (n : Nave) (h : n.colas.ready ≡ p ∷ ps) where
  a_exec-IsKept :
      length n.colas.exec < g
      → IsKept g n (con_colas n (record (n.colas) { ready = ps; exec = n.colas.exec ++ p ∷ [] }))
  unfolding veces
  a_exec-IsKept lt = record {
    fewer = λ q. omega (arith, ap (count q) h, count-snoc q p n.colas.exec);
    same_total = refl;
    within = λ l. omega (arith, length-append n.colas.exec (p ∷ []));
  }

module _ (e : Entorno) where
  llenar_exec-IsKept :
      (ps : List ℕ) (n : Nave)
      → n.colas.ready ≡ ps
      → IsKept e.grado_multitarea n (llenar_exec e ps n)
  unfolding llenar_exec con_estado enviar_estado enviar
  llenar_exec-IsKept [] n h = IsKept-refl n
  llenar_exec-IsKept (p ∷ ps) n h =
      elim (Bool-cases (ltb (length n.colas.exec) e.grado_multitarea)) [
        | inl l ↦ rw l (
            IsKept-trans
              (IsKept-trans (a_exec-IsKept p ps n h (ltb→lt _ _ l))
                (IsQuiet-IsKept (record { same = refl })))
              (llenar_exec-IsKept ps _ refl))
        | inr l ↦ rw l (IsKept-refl n)
      ]

  pub ready_a_exec-IsKept : (n : Nave) → IsKept e.grado_multitarea n (funcion_h_ready_a_exec e n)
  unfolding funcion_h_ready_a_exec
  ready_a_exec-IsKept n = llenar_exec-IsKept n.colas.ready n refl

-- The head of `bloq_io` is taken out, and goes to `ready` at most.
module _ {g : ℕ} (p : ℕ) (ps : List ℕ) (n : Nave) (h : n.colas.bloq_io ≡ p ∷ ps) where
  module _ (m : Nave) (s : IsQuiet (con_colas n (record (n.colas) { bloq_io = ps })) m) where
    fuera-IsKept : IsKept g n m
    unfolding veces
    fuera-IsKept = record {
      fewer = λ q. omega (arith, ap (count q) h, ap (λ t. veces q t.0) s.same);
      same_total = ap (λ t. t.1) s.same;
      within = λ l. omega (arith, ap (λ t. length t.0.exec) s.same);
    }

    a_ready-IsKept : IsKept g n (con_colas m (record (m.colas) { ready = m.colas.ready ++ p ∷ [] }))
    unfolding veces
    a_ready-IsKept = record {
      fewer = λ q.
          omega (arith, ap (count q) h, ap (λ t. veces q t.0) s.same, count-snoc q p m.colas.ready);
      same_total = ap (λ t. t.1) s.same;
      within = λ l. omega (arith, ap (λ t. length t.0.exec) s.same);
    }

module _ (e : Entorno) {g : ℕ} where
  salir-IsKept :
      (p : ℕ) (ps nombre : List ℕ) (n : Nave)
      → n.colas.bloq_io ≡ p ∷ ps
      → IsKept g n (salir_de_bloq_io e p ps nombre n)
  unfolding salir_de_bloq_io enviar
  salir-IsKept p ps nombre n h =
      if-holds (IsKept g n) _ _ _ (fuera-IsKept p ps n h _ pedido)
        (a_ready-IsKept p ps n h _ (IsQuiet-trans pedido (con_estado-IsQuiet p estado_ready _)))
    where
      n₁ : Nave
      n₁ =
          con_tcb (con_colas n (record (n.colas) { bloq_io = ps })) p
            (record (n.tcbs p) { tiempo_en_bloq_io = 0 })

      n₂ : Nave
      n₂ = enviar ims codigo_finalizar_ejecucion_tarea (int (n₁.tcbs p).tid ∷ string nombre ∷ []) n₁

      pedido :
          IsQuiet (con_colas n (record (n.colas) { bloq_io = ps })) (pedir_proxima_tarea e p n₂)
      pedido = record { same = (pedir-IsQuiet e p n₂).same }

  contar-IsKept :
      (p : ℕ) (ps : List ℕ) (tiempo : ℕ) (nombre : List ℕ) (n : Nave)
      → n.colas.bloq_io ≡ p ∷ ps
      → IsKept g n (contar_en_bloq_io e p ps tiempo nombre n)
  unfolding contar_en_bloq_io
  contar-IsKept p ps tiempo nombre n h =
      elim (Bool-cases ((n.tcbs p).tiempo_en_bloq_io == tiempo)) [
        | inl t ↦ rw t (fin n (IsKept-refl n) h)
        | inr t ↦ rw t (fin esperado (IsQuiet-IsKept (record { same = refl })) h)
      ]
    where
      esperado : Nave
      esperado =
          con_tcb n p (record (n.tcbs p) { tiempo_en_bloq_io = suc (n.tcbs p).tiempo_en_bloq_io })

      fin :
          (m : Nave)
          → IsKept g n m
          → m.colas.bloq_io ≡ p ∷ ps
          → IsKept g n (
              if (m.tcbs p).tiempo_en_bloq_io == tiempo
              then salir_de_bloq_io e p ps nombre m
              else m)
      fin m k i = if-holds (IsKept g n) _ _ _ (IsKept-trans k (salir-IsKept p ps nombre m i)) k

  en_bloq_io-IsKept :
      (ps : List ℕ) (n : Nave) → n.colas.bloq_io ≡ ps → Returns (IsKept g n) (en_bloq_io e ps n)
  unfolding en_bloq_io funcion_contador_en_bloq_io
  en_bloq_io-IsKept [] n h = Returns-some (IsKept-refl n)
  en_bloq_io-IsKept (p ∷ ps) n h = Returns-bind (n.tcbs p).instruccion_actual (λ texto k.
      let tarea = e.string_split texto (codes " ") in
      Returns-bind (get_elem? tarea 0) (λ nombre k₁.
        Returns-bind (get_elem? tarea 1) (λ parametros k₂.
          Returns-bind (get_elem? (e.string_split parametros (codes ";")) 3)
            (λ tiempo k₃. Returns-some (contar-IsKept p ps (e.atoi tiempo) nombre n h)))))

  pub bloq_io-IsKept : (n : Nave) → Returns (IsKept g n) (funcion_h_bloq_io e n)
  unfolding funcion_h_bloq_io
  bloq_io-IsKept n =
      Returns-if n.sabotaje_activado (Returns-some (IsKept-refl n))
        (en_bloq_io-IsKept n.colas.bloq_io n refl)
