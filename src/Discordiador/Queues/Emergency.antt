-- ===== src/Discordiador/Queues/Emergency.antt =====
-- The queues in the rounds of the sabotage and of EXIT.
use tp_2021_so_fin.Base.Options.{
  Returns, Returns-some, Returns-none, Returns-if, Returns-bind, if-holds,
}
use tp_2021_so_fin.Base.Counts.{occurs, count}
use tp_2021_so_fin.Base.{
  ℕ, ◌+◌, ◌≤◌, ◌≡◌, refl, List, [], ◌∷◌, arith, length, ap, ◌&&◌, sum_by, sum_by-perm, sym, Perm,
}
use tp_2021_so_fin.Discordiador.State.{Pcb, Colas, Nave, Entorno, con_colas}
use tp_2021_so_fin.Discordiador.Tripulante.{enviar, enviar_estado, con_estado}
use tp_2021_so_fin.Discordiador.Quiet.{IsQuiet, IsQuiet-refl}
use tp_2021_so_fin.Discordiador.Planner.{sacar, recorrer, termina_un_ciclo, deletear_tripulante}
use tp_2021_so_fin.Discordiador.Planner.Emergency.{
  comparador_tid, sacar_fixer, sacar_copia, completar_sabotaje, a_bloq_emer, vaciar_exec,
  vaciar_ready, vaciar_ambas, guardar_contexto, elegir_fixer, elegir, empezar_sabotaje,
  funcion_h_exec_ready_a_bloq_emer, vaciar_bloq_emer, funcion_h_bloq_emer_a_ready,
  eliminar_patota_en_ram, eliminar_patotas, finalizar, funcion_h_exit,
}
use tp_2021_so_fin.Discordiador.Queues.{
  veces, IsKept, IsKept-trans, IsKept-refl, IsQuiet-IsKept, count-snoc, recorrer-IsKept,
  sacar-IsTaken,
}
use tp_2021_so_fin.Discordiador.Queues.Moved.{termina-IsQuiet, deletear-IsQuiet, eliminar-IsQuiet}

-- the queues without the fixer
record IsWithout (g p : ℕ) (c d : Colas) : Type 0 where
  parts : (q : ℕ) → veces q c ≡ veces q d + occurs q p
  shorter : length c.exec ≤ g → length d.exec ≤ g

sacar_fixer-IsWithout :
    {g : ℕ} (es rs : List ℕ) (c : Colas)
    → c.exec ≡ es
    → c.ready ≡ rs
    → Returns (λ r. IsWithout g r.0 c r.1) (sacar_fixer es rs c)
unfolding sacar_fixer veces
sacar_fixer-IsWithout (p ∷ es) rs c h i = Returns-some (record {
  parts = λ q. omega (arith, ap (count q) h);
  shorter = λ l. omega (arith, ap length h);
})
sacar_fixer-IsWithout [] (p ∷ rs) c h i =
    Returns-some (record { parts = λ q. omega (arith, ap (count q) i); shorter = λ l. l })
sacar_fixer-IsWithout [] [] c h i = Returns-none

module _ {g : ℕ} where
  completar-IsKept : (n : Nave) → Returns (IsKept g n) (completar_sabotaje n)
  unfolding completar_sabotaje con_estado enviar_estado enviar veces
  completar-IsKept n =
      let c = n.colas in
      Returns-bind (sacar_fixer c.exec c.ready c) (λ r k.
        let w = (sacar_fixer-IsWithout {g = g} c.exec c.ready c refl refl).holds r k in
        Returns-bind (sacar_copia n.cola_cont_sab) (λ s k'. Returns-some (record {
          fewer = λ q. omega (arith, w.parts q, count-snoc q r.0 r.1.bloq_emer);
          same_total = refl;
          within = w.shorter;
        })))

length-sum : (ps : List ℕ) → length ps ≡ sum_by (λ p. 1) ps
length-sum [] = refl
length-sum (p ∷ ps) = omega (arith, length-sum ps)

-- a queue that was sorted
record IsSame (ps qs : List ℕ) : Type 0 where
  counts : (q : ℕ) → count q ps ≡ count q qs
  size : length ps ≡ length qs

Perm-IsSame : {ps qs : List ℕ} → Perm ps qs → IsSame qs ps
Perm-IsSame {ps} {qs} h = record {
  counts = λ q. sym (sum_by-perm (occurs q) h);
  size = omega (arith, length-sum ps, length-sum qs, sum_by-perm (λ p. 1) h);
}

IsSame-refl : (ps : List ℕ) → IsSame ps ps
IsSame-refl ps = record { counts = λ q. refl; size = refl }

module _ (e : Entorno) where
  eliminar_en_ram-IsQuiet : (b : Pcb) (n : Nave) → IsQuiet n (eliminar_patota_en_ram e b n)
  unfolding eliminar_patota_en_ram
  eliminar_en_ram-IsQuiet b n = if-holds (IsQuiet n) _ _ _ (eliminar-IsQuiet e b n) (IsQuiet-refl n)

module _ (e : Entorno) {g : ℕ} where
  -- the head of `exec` goes to `bloq_emer`
  de_exec-IsKept :
      (p : ℕ) (ps : List ℕ) (n : Nave)
      → IsSame n.colas.exec (p ∷ ps)
      → IsKept g n (a_bloq_emer e p (con_colas n (record (n.colas) { exec = ps })))
  unfolding a_bloq_emer con_estado enviar_estado enviar veces
  de_exec-IsKept p ps n s = record {
    fewer = λ q. omega (arith, s.counts q, count-snoc q p n.colas.bloq_emer);
    same_total = refl;
    within = λ l. omega (arith, s.size);
  }

  de_ready-IsKept :
      (p : ℕ) (ps : List ℕ) (n : Nave)
      → IsSame n.colas.ready (p ∷ ps)
      → IsKept g n (a_bloq_emer e p (con_colas n (record (n.colas) { ready = ps })))
  unfolding a_bloq_emer con_estado enviar_estado enviar veces
  de_ready-IsKept p ps n s = record {
    fewer = λ q. omega (arith, s.counts q, count-snoc q p n.colas.bloq_emer);
    same_total = refl;
    within = λ l. l;
  }

  vaciar_exec-IsKept :
      (ps : List ℕ) (n : Nave) → IsSame n.colas.exec ps → IsKept g n (vaciar_exec e ps n)
  unfolding vaciar_exec a_bloq_emer con_estado enviar_estado enviar
  vaciar_exec-IsKept [] n s = IsKept-refl n
  vaciar_exec-IsKept (p ∷ ps) n s =
      IsKept-trans (de_exec-IsKept p ps n s) (vaciar_exec-IsKept ps _ (IsSame-refl ps))

  vaciar_ready-IsKept :
      (ps : List ℕ) (n : Nave) → IsSame n.colas.ready ps → IsKept g n (vaciar_ready e ps n)
  unfolding vaciar_ready a_bloq_emer con_estado enviar_estado enviar
  vaciar_ready-IsKept [] n s = IsKept-refl n
  vaciar_ready-IsKept (p ∷ ps) n s =
      IsKept-trans (de_ready-IsKept p ps n s) (vaciar_ready-IsKept ps _ (IsSame-refl ps))

  pub vaciar_ambas-IsKept : (n : Nave) → IsKept g n (vaciar_ambas e n)
  unfolding vaciar_ambas
  vaciar_ambas-IsKept n =
      let n₁ = vaciar_exec e (e.commons.list_sort (comparador_tid n.tcbs) n.colas.exec) n in
      IsKept-trans
        (vaciar_exec-IsKept _ n
          (Perm-IsSame (e.commons.list_sort-perm (comparador_tid n.tcbs) n.colas.exec)))
        (vaciar_ready-IsKept _ n₁
          (Perm-IsSame (e.commons.list_sort-perm (comparador_tid n₁.tcbs) n₁.colas.ready)))

  -- the fixer goes from `bloq_emer` to `ready`
  elegir_fixer-IsKept : (p : ℕ) (n : Nave) → Returns (IsKept g n) (elegir_fixer e p n)
  unfolding elegir_fixer guardar_contexto con_estado enviar_estado enviar veces
  elegir_fixer-IsKept p n = Returns-bind (n.tcbs p).instruccion_actual (λ texto k.
      let n₁ = guardar_contexto e p n in
      Returns-bind (sacar n₁.tcbs n.colas.bloq_emer (n.tcbs p).tid) (λ r k'.
        let t = (sacar-IsTaken n₁.tcbs n.colas.bloq_emer (n.tcbs p).tid).holds r k' in
        Returns-some (record {
          fewer = λ q. omega (arith, t.parts q, count-snoc q r.0 n.colas.ready);
          same_total = refl;
          within = λ l. l;
        })))

  elegir-IsKept : (ps : List ℕ) (n : Nave) → Returns (IsKept g n) (elegir e ps n)
  unfolding elegir
  elegir-IsKept [] n = Returns-none
  elegir-IsKept (p ∷ ps) n = elegir_fixer-IsKept p n

  pub exec_ready_a_bloq_emer-IsKept :
      (n : Nave) → Returns (IsKept g n) (funcion_h_exec_ready_a_bloq_emer e n)
  unfolding funcion_h_exec_ready_a_bloq_emer empezar_sabotaje
  exec_ready_a_bloq_emer-IsKept n =
      Returns-if n.sabotaje_activado
        (Returns-if _ (completar-IsKept n)
          (Returns-if n.primer_ciclo_sabotaje (Returns-some (IsKept-refl n)) empezar))
        (Returns-some (IsKept-refl n))
    where
      empezar :
          Returns (IsKept g n) (elegir e (vaciar_ambas e n).bloq_emer_sorted (vaciar_ambas e n))
      empezar = record {
        holds = λ m k.
            IsKept-trans (vaciar_ambas-IsKept n) ((elegir-IsKept _ (vaciar_ambas e n)).holds m k);
      }

  eliminar_patotas-IsKept : (bs : List Pcb) (n : Nave) → IsKept g n (eliminar_patotas e bs n)
  unfolding eliminar_patotas
  eliminar_patotas-IsKept [] n = IsKept-refl n
  eliminar_patotas-IsKept (b ∷ bs) n =
      IsKept-trans (IsQuiet-IsKept (eliminar_en_ram-IsQuiet e b n)) (eliminar_patotas-IsKept bs _)

  finalizar-IsKept : (n : Nave) → IsKept g n (finalizar e n)
  unfolding finalizar
  finalizar-IsKept n =
      if-holds (IsKept g n) _ _ _ (IsKept-refl n)
        (if-holds (IsKept g n) _ _ _ (IsKept-trans borrar (eliminar_patotas-IsKept _ _)) borrar)
    where
      borrar : IsKept g n (recorrer deletear_tripulante n.colas.cola_exit n)
      borrar =
          recorrer-IsKept deletear_tripulante (λ p m. IsQuiet-IsKept (deletear-IsQuiet p m))
            n.colas.cola_exit n

  pub exit-IsKept : (n : Nave) → IsKept g n (funcion_h_exit e n)
  unfolding funcion_h_exit
  exit-IsKept n =
      let k = IsKept-trans (finalizar-IsKept n) (
        IsKept-trans (ciclo n.colas.ready _) (
          IsKept-trans (ciclo n.colas.exec _)
            (IsKept-trans (ciclo n.colas.bloq_io _) (ciclo n.colas.bloq_emer _)))) in
      record { fewer = k.fewer; same_total = k.same_total; within = k.within }
    where
      ciclo : (ps : List ℕ) (m : Nave) → IsKept g m (recorrer termina_un_ciclo ps m)
      ciclo ps m =
          recorrer-IsKept termina_un_ciclo (λ p o. IsQuiet-IsKept (termina-IsQuiet p o)) ps m

module _ {g : ℕ} where
  vaciar_bloq_emer-IsKept :
      (ps : List ℕ) (n : Nave) → n.colas.bloq_emer ≡ ps → IsKept g n (vaciar_bloq_emer ps n)
  unfolding vaciar_bloq_emer con_estado enviar_estado enviar veces
  vaciar_bloq_emer-IsKept [] n h = IsKept-refl n
  vaciar_bloq_emer-IsKept (p ∷ ps) n h =
      let r = vaciar_bloq_emer-IsKept ps _ refl in
      IsKept-trans
        (record {
          fewer = λ q. omega (arith, ap (count q) h, count-snoc q p n.colas.ready);
          same_total = refl;
          within = λ l. l;
        })
        r

  pub bloq_emer_a_ready-IsKept : (n : Nave) → IsKept g n (funcion_h_bloq_emer_a_ready n)
  unfolding funcion_h_bloq_emer_a_ready enviar
  bloq_emer_a_ready-IsKept n =
      let k = vaciar_bloq_emer-IsKept n.colas.bloq_emer n refl in
      if-holds (IsKept g n) (n.sabotaje_activado && n.sabotaje_terminado) _ _
        (record { fewer = k.fewer; same_total = k.same_total; within = k.within }) (IsKept-refl n)
