-- ===== src/Discordiador/Queues/Created.antt =====
-- INICIAR_PATOTA: the tripulantes of a new patota are in `cola_new`, and in no other queue.
use tp_2021_so_fin.Base.Options.{Returns, Returns-some, Returns-bind}
use tp_2021_so_fin.Base.Counts.{occurs, count}
use tp_2021_so_fin.Base.{
  ℕ, suc, ◌+◌, ◌≤◌, ◌<◌, ◌≡◌, refl, ◌⊎◌, inl, inr, List, [], ◌∷◌, ◌++◌, arith, length, ap,
  get_elem?, drop,
}
use tp_2021_so_fin.Discordiador.State.{Tcb, Pcb, Nave, Entorno, con_tcb, con_colas}
use tp_2021_so_fin.Discordiador.Patotas.{
  get_tareas, crear_tcbs, con_nuevo, guardar_tcbs, posiciones, crear_pcb, iniciar_tcbs,
}
use tp_2021_so_fin.Discordiador.Console.{iniciar_patota}
use tp_2021_so_fin.Discordiador.Queues.{veces, IsKept, count-snoc}

lt_or_ge : (a b : ℕ) → (a < b) ⊎ (b ≤ a)
lt_or_ge a b = ground arith

-- No tripulante stands twice in the queues, and one that was not made stands in none.
pub record IsAtMostOne (g : ℕ) (n : Nave) : Type 0 where
  pub once : (p : ℕ) → veces p n.colas ≤ 1
  pub never : (p : ℕ) → n.cantidad_tcb_totales ≤ p → veces p n.colas ≡ 0
  pub within : length n.colas.exec ≤ g

pub IsKept-IsAtMostOne : (g : ℕ) {n m : Nave} → IsKept g n m → IsAtMostOne g n → IsAtMostOne g m
IsKept-IsAtMostOne g k i = record {
  once = λ p. omega (arith, k.fewer p, i.once p);
  never = λ p l. omega (arith, k.fewer p, i.never p (omega (arith, k.same_total)));
  within = k.within i.within;
}

-- The pointers of new tcbs: each once, behind those that were made before.
record IsNew (n : Nave) (r : Nave × List ℕ) : Type 0 where
  colas : r.0.colas ≡ n.colas
  grown : n.cantidad_tcb_totales ≤ r.0.cantidad_tcb_totales
  once : (p : ℕ) → count p r.1 ≤ 1
  fresh : (p : ℕ) → (p < n.cantidad_tcb_totales) ⊎ (r.0.cantidad_tcb_totales ≤ p) → count p r.1 ≡ 0

guardar_tcbs-IsNew : (ts : List Tcb) (n : Nave) → IsNew n (guardar_tcbs ts n)
unfolding guardar_tcbs
guardar_tcbs-IsNew [] n = record {
  colas = refl;
  grown = omega arith;
  once = λ p. omega arith;
  fresh = λ p l. refl;
}
guardar_tcbs-IsNew (t ∷ ts) n =
    let i = guardar_tcbs-IsNew ts (con_nuevo n t) in
    record {
      colas = i.colas;
      grown = omega (arith, i.grown);
      once = λ p. otra p (i.once p) (i.fresh p);
      fresh = λ p l. ninguna p (i.fresh p) i.grown l;
    }
  where
    k : ℕ
    k = n.cantidad_tcb_totales

    r : Nave × List ℕ
    r = guardar_tcbs ts (con_nuevo n t)

    otra :
        (p : ℕ)
        → count p r.1 ≤ 1
        → ((p < suc k) ⊎ (r.0.cantidad_tcb_totales ≤ p) → count p r.1 ≡ 0)
        → occurs p k + count p r.1 ≤ 1
    otra p l h = ground arith

    ninguna :
        (p : ℕ)
        → ((p < suc k) ⊎ (r.0.cantidad_tcb_totales ≤ p) → count p r.1 ≡ 0)
        → suc k ≤ r.0.cantidad_tcb_totales
        → (p < k) ⊎ (r.0.cantidad_tcb_totales ≤ p)
        → occurs p k + count p r.1 ≡ 0
    ninguna p h g l = ground arith

-- the tripulantes are pushed to `cola_new`
record IsPushed (ps : List ℕ) (n m : Nave) : Type 0 where
  counts : (p : ℕ) → veces p m.colas ≡ veces p n.colas + count p ps
  same_total : m.cantidad_tcb_totales ≡ n.cantidad_tcb_totales
  same_exec : m.colas.exec ≡ n.colas.exec

iniciar_tcbs-IsPushed : (ps : List ℕ) (n : Nave) → IsPushed ps n (iniciar_tcbs ps n)
unfolding iniciar_tcbs veces
iniciar_tcbs-IsPushed [] n = record {
  counts = λ p. omega arith;
  same_total = refl;
  same_exec = refl;
}
iniciar_tcbs-IsPushed (p ∷ ps) n =
    let n' = con_tcb n p (record (n.tcbs p) { esta_vivo_el_hilo = 1 }) in
    let i =
      iniciar_tcbs-IsPushed ps
        (con_colas n' (record (n'.colas) { cola_new = n'.colas.cola_new ++ p ∷ [] })) in
    record {
      counts = λ q. omega (arith, i.counts q, count-snoc q p n.colas.cola_new);
      same_total = i.same_total;
      same_exec = i.same_exec;
    }

module _ (e : Entorno) where
  crear_pcb-IsNew :
      (parametros : List (List ℕ)) (n : Nave)
      → Returns (λ r. IsNew n (r.0, r.1.lista_tcb)) (crear_pcb e parametros n)
  unfolding crear_pcb
  crear_pcb-IsNew parametros n = Returns-bind (get_elem? parametros 1) (λ cantidad k₁.
      Returns-bind (get_elem? parametros 2) (λ ruta k₂. Returns-bind (e.getline ruta) (λ lineas k₃.
        Returns-bind (get_tareas lineas) (λ tareas k₄.
          Returns-bind (posiciones e (e.atoi cantidad) (drop 3 parametros)) (λ ps k₅.
            let i =
              guardar_tcbs-IsNew (crear_tcbs (suc n.contador_pcbs) n.cantidad_tcb_totales ps) n in
            Returns-some
              (record { colas = i.colas; grown = i.grown; once = i.once; fresh = i.fresh }))))))

module _ (e : Entorno) {g : ℕ} where
  pub iniciar_patota-IsAtMostOne :
      (parametros : List (List ℕ)) (n : Nave)
      → IsAtMostOne g n
      → Returns (λ r. IsAtMostOne g r.0) (iniciar_patota e parametros n)
  unfolding iniciar_patota
  iniciar_patota-IsAtMostOne parametros n s = Returns-bind (crear_pcb e parametros n) (λ r k.
      let i = (crear_pcb-IsNew e parametros n).holds r k in
      let m = record (r.0) { lista_pcb = r.0.lista_pcb ++ r.1 ∷ [] } in
      let j = iniciar_tcbs-IsPushed r.1.lista_tcb m in Returns-some (unida r j i))
    where
      unida :
          (r : Nave × Pcb) {m : Nave}
          → IsPushed r.1.lista_tcb (record (r.0) { lista_pcb = r.0.lista_pcb ++ r.1 ∷ [] }) m
          → IsNew n (r.0, r.1.lista_tcb)
          → IsAtMostOne g (record m { cantidad_vieja = m.cantidad_actual })
      unida r j i = record {
        once = λ p. elim (lt_or_ge p n.cantidad_tcb_totales) [
          | inl l ↦ omega (arith, j.counts p, ap (veces p) i.colas, i.fresh p (inl l), s.once p)
          | inr l ↦ omega (arith, j.counts p, ap (veces p) i.colas, i.once p, s.never p l)
        ];
        never = λ p l. omega (
          arith,
          j.counts p,
          ap (veces p) i.colas,
          i.fresh p (inr (omega (arith, j.same_total))),
          s.never p (omega (arith, j.same_total, i.grown)),
        );
        within = omega (arith, s.within, ap length j.same_exec, ap (λ c. length c.exec) i.colas);
      }
