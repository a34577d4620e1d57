-- ===== src/Discordiador/Queues/Crew.antt =====
-- The queues in the commands of the console: a tripulante is expelled, or a patota begins.
use tp_2021_so_fin.Base.Options.{
  ◌>>=◌, Returns, Returns-some, Returns-none, Returns-if, Returns-bind, Returns-map,
}
use tp_2021_so_fin.Base.Counts.{count}
use tp_2021_so_fin.Base.{
  ℕ, suc, ◌+◌, ◌≤◌, ◌≡◌, refl, List, [], ◌∷◌, ◌++◌, Option, none, some, arith, length, ap, ◌==◌,
  if◌then◌else◌,
}
use tp_2021_so_fin.Discordiador.State.{
  Tcb, Colas, Nave, Entorno, ram, codigo_success, estado_exit, con_tcb, con_colas,
  codigo_expulsar_tripulante,
}
use tp_2021_so_fin.Messages.{int}
use tp_2021_so_fin.Discordiador.Tripulante.{enviar, get_by_id, respuesta}
use tp_2021_so_fin.Discordiador.Quiet.{IsQuiet}
use tp_2021_so_fin.Discordiador.Planner.{list_remove, get_pcb_by_id}
use tp_2021_so_fin.Discordiador.Console.{
  iterar_en_lista, expulsar_hallado, expulsar_nodo, expulsar_de_cola, obtener_tcb_en_lista_pcb,
  expulsar_encontrado, expulsar_si_esta, expulsar_tripulante,
}
use tp_2021_so_fin.Discordiador.Queues.{
  veces, IsKept, IsKept-trans, IsKept-refl, IsQuiet-IsKept, count-snoc, list_remove-IsTaken,
  IsTaken,
}
use tp_2021_so_fin.Discordiador.Queues.Moved.{eliminar-IsQuiet}

-- a queue and `cola_exit`, and what they become
record IsExtracted (cola salida : List ℕ) (r : List ℕ × List ℕ) : Type 0 where
  fewer : (q : ℕ) → count q r.0 + count q r.1 ≤ count q cola + count q salida
  shorter : length r.0 ≤ length cola

extraer-IsExtracted :
    {cola salida : List ℕ} {s : List ℕ × List ℕ}
    → (t : ℕ × List ℕ) → IsTaken cola t
    → IsExtracted t.1 (salida ++ t.0 ∷ []) s
    → IsExtracted cola salida s
extraer-IsExtracted {salida} t k x = record {
  fewer = λ q. omega (arith, x.fewer q, k.parts q, count-snoc q t.0 salida);
  shorter = omega (arith, x.shorter, k.size);
}

iterar-IsExtracted :
    (tcbs : ℕ → Tcb) (i : ℕ) (ps cola salida : List ℕ)
    → Returns (IsExtracted cola salida) (iterar_en_lista tcbs i ps cola salida)
unfolding iterar_en_lista
iterar-IsExtracted tcbs i [] cola salida =
    Returns-some (record { fewer = λ q. omega arith; shorter = omega arith })
iterar-IsExtracted tcbs i (p ∷ ps) cola salida =
    Returns-if _
      (Returns-bind (list_remove i cola) (λ r k.
        Returns-if _
          (Returns-map (λ s x. extraer-IsExtracted r ((list_remove-IsTaken i cola).holds r k) x)
            (iterar-IsExtracted tcbs (suc i) ps r.1 (salida ++ r.0 ∷ [])))
          Returns-none))
      (iterar-IsExtracted tcbs (suc i) ps cola salida)

-- The expelled tripulante leaves the queue; its status alone changes beside.
record IsExpelled (n : Nave) (cola : List ℕ) (r : Nave × List ℕ × List ℕ) : Type 0 where
  quiet : IsQuiet n r.0
  extracted : IsExtracted cola n.colas.cola_exit (r.1, r.2)

expulsar_hallado-IsExpelled :
    (o : Option ℕ) (cola : List ℕ) (n : Nave)
    → Returns (IsExpelled n cola) (expulsar_hallado o cola n)
unfolding expulsar_hallado
expulsar_hallado-IsExpelled none cola n = Returns-some (record {
  quiet = record { same = refl };
  extracted = record { fewer = λ q. omega arith; shorter = omega arith };
})
expulsar_hallado-IsExpelled (some p) cola n =
    let n' = con_tcb n p (record (n.tcbs p) { status = estado_exit }) in
    Returns-bind (iterar_en_lista n'.tcbs 0 cola cola n.colas.cola_exit) (λ r k.
      Returns-some (record {
        quiet = record { same = refl };
        extracted = (iterar-IsExtracted n'.tcbs 0 cola cola n.colas.cola_exit).holds r k;
      }))

module _ {g : ℕ} where
  -- the queues with what became of one of them and of `cola_exit`
  con-IsKept :
      (n : Nave) (cola : List ℕ) (r : Nave × List ℕ × List ℕ)
      → IsExpelled n cola r
      → (c : Colas)
      → ((q : ℕ)
          → veces q c + (count q cola + count q n.colas.cola_exit)
            ≡ veces q n.colas + (count q r.1 + count q r.2))
      → (length r.1 ≤ length cola → length c.exec ≤ length n.colas.exec)
      → IsKept g n (con_colas r.0 c)
  con-IsKept n cola r x c h l = record {
    fewer = λ q. omega (arith, x.extracted.fewer q, h q);
    same_total = ap (λ t. t.1) x.quiet.same;
    within = λ m. omega (arith, l x.extracted.shorter);
  }

  de_cola-IsKept :
      (id : ℕ) (n : Nave) (cola : List ℕ) (con : List ℕ → List ℕ → Colas)
      → ((ys zs : List ℕ) (q : ℕ)
          → veces q (con ys zs) + (count q cola + count q n.colas.cola_exit)
            ≡ veces q n.colas + (count q ys + count q zs))
      → ((ys zs : List ℕ) → length ys ≤ length cola → length (con ys zs).exec ≤ length n.colas.exec)
      → Returns (IsKept g n) (expulsar_nodo id cola n >>= λ r. some (con_colas r.0 (con r.1 r.2)))
  unfolding expulsar_nodo
  de_cola-IsKept id n cola con h l =
      let o = get_by_id n.tcbs cola id in
      Returns-bind (expulsar_hallado o cola n) (λ r k. Returns-some (
        con-IsKept n cola r ((expulsar_hallado-IsExpelled o cola n).holds r k) (con r.1 r.2)
          (h r.1 r.2) (l r.1 r.2)))

  pub expulsar_de_cola-IsKept :
      (status id : ℕ) (n : Nave) → Returns (IsKept g n) (expulsar_de_cola status id n)
  unfolding expulsar_de_cola veces
  expulsar_de_cola-IsKept status id n =
      let c = n.colas in
      Returns-if _
        (de_cola-IsKept id n c.cola_new (λ ys zs. record c { cola_new = ys; cola_exit = zs })
          (λ ys zs q. omega arith) (λ ys zs l. omega arith))
        (Returns-if _
          (de_cola-IsKept id n c.ready (λ ys zs. record c { ready = ys; cola_exit = zs })
            (λ ys zs q. omega arith) (λ ys zs l. omega arith))
          (Returns-if _
            (de_cola-IsKept id n c.exec (λ ys zs. record c { exec = ys; cola_exit = zs })
              (λ ys zs q. omega arith) (λ ys zs l. l))
            (Returns-if _
              (de_cola-IsKept id n c.bloq_io (λ ys zs. record c { bloq_io = ys; cola_exit = zs })
                (λ ys zs q. omega arith) (λ ys zs l. omega arith))
              (Returns-if _
                (de_cola-IsKept id n c.bloq_emer
                  (λ ys zs. record c { bloq_emer = ys; cola_exit = zs }) (λ ys zs q. omega arith)
                  (λ ys zs l. omega arith))
                (Returns-some (IsKept-refl n))))))

module _ (e : Entorno) {g : ℕ} where
  expulsar_encontrado-IsKept :
      (p id : ℕ) (n : Nave) → Returns (IsKept g n) (expulsar_encontrado e p id n)
  unfolding expulsar_encontrado enviar
  expulsar_encontrado-IsKept p id n =
      let n' = enviar ram codigo_expulsar_tripulante (int (n.tcbs p).pid ∷ int id ∷ []) n in
      let q : IsKept g n n' = IsQuiet-IsKept (record { same = refl }) in
      Returns-bind _ (λ m k. Returns-bind (get_pcb_by_id m.lista_pcb (m.tcbs p).pid) (λ b k'.
        Returns-some (
          IsKept-trans (IsKept-trans q (expulsado.holds m k))
            (IsQuiet-IsKept (eliminar-IsQuiet e b m)))))
    where
      n' : Nave
      n' = enviar ram codigo_expulsar_tripulante (int (n.tcbs p).pid ∷ int id ∷ []) n

      expulsado : Returns (IsKept g n') (
          if (respuesta e n').command == codigo_success
          then expulsar_de_cola (n.tcbs p).status id n'
          else some n')
      expulsado =
          Returns-if _ (expulsar_de_cola-IsKept (n.tcbs p).status id n')
            (Returns-some (IsKept-refl n'))

  expulsar_si_esta-IsKept :
      (o : Option ℕ) (id : ℕ) (n : Nave) → Returns (IsKept g n) (expulsar_si_esta e o id n)
  unfolding expulsar_si_esta
  expulsar_si_esta-IsKept none id n = Returns-some (IsKept-refl n)
  expulsar_si_esta-IsKept (some p) id n = expulsar_encontrado-IsKept p id n

  pub expulsar_tripulante-IsKept :
      (id : ℕ) (n : Nave) → Returns (IsKept g n) (expulsar_tripulante e id n)
  unfolding expulsar_tripulante
  expulsar_tripulante-IsKept id n =
      Returns-if n.planificacion_viva
        (expulsar_si_esta-IsKept (obtener_tcb_en_lista_pcb n.tcbs n.lista_pcb id) id n)
        (Returns-some (IsKept-refl n))
