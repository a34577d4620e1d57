-- ===== src/Discordiador/Planner/Emergency/Started.antt =====
-- The first cycle of a sabotage, from queues in which every tripulante has a task.
use mathlib.Core.Option.{some-injective}
use tp_2021_so_fin.Base.Options.{◌>>=◌}
use tp_2021_so_fin.Base.Counts.{occurs, count}
use tp_2021_so_fin.Base.{
  ℕ, suc, ◌+◌, ◌≤◌, ◌≡◌, ◌≢◌, refl, sym, subst, ◌∙◌, ap, Option, false, inl, inr, List, [], ◌∷◌,
  none, some, arith, ◌==◌, Bool-cases, sum_by-perm, sum_by-append, get_elem?, erase_idx, ==→≡,
}
use tp_2021_so_fin.Discordiador.State.{Tcb, Nave, Entorno, estado_bloq_emer, con_colas}
use tp_2021_so_fin.Discordiador.Tripulante.{enviar, enviar_estado, con_estado}
use tp_2021_so_fin.Discordiador.Planner.{sacar, list_remove, list_iterate_obtener_posicion}
use tp_2021_so_fin.Discordiador.Planner.Emergency.{
  comparador_tid, modulo, ordenar_mas_cercano, a_bloq_emer, vaciar_exec, vaciar_ready, vaciar_ambas,
  guardar_contexto, elegir_fixer, elegir, empezar_sabotaje,
}
use tp_2021_so_fin.Discordiador.Planner.Emergency.Nearest.{
  vaciar_ambas-IsSorting, empezar_sabotaje-nearest,
}

-- A tcb with the id that is looked for is found.
posicion-found :
    (tcbs : ℕ → Tcb) (ps : List ℕ) (p id : ℕ)
    → (tcbs p).tid ≡ id
    → 1 ≤ count p ps
    → (i : ℕ) × (a : ℕ) × (list_iterate_obtener_posicion tcbs ps id ≡ some i)
      × (get_elem? ps i ≡ some a)
unfolding list_iterate_obtener_posicion
posicion-found tcbs [] p id h c = absurd (omega arith)
posicion-found tcbs (q ∷ ps) p id h c = elim (Bool-cases ((tcbs q).tid == id)) [
  | inl e ↦ (0, q, rw e refl, refl)
  | inr e ↦
      let (i, a, f, g) = posicion-found tcbs ps p id h (detras e) in (suc i, a, rw (e, f) refl, g)
]
  where
    detras : ((tcbs q).tid == id) ≡ false → 1 ≤ count p ps
    detras e = elim (Bool-cases (q == p)) [
      | inl i ↦
          let s : (tcbs q).tid ≡ id = ap (λ r. (tcbs r).tid) (==→≡ q p i) ∙ h in
          absurd (ground (arith, e, s))
      | inr i ↦ ground (arith, c, i)
    ]

sacar-some :
    (tcbs : ℕ → Tcb) (ps : List ℕ) (p id : ℕ)
    → (tcbs p).tid ≡ id
    → 1 ≤ count p ps
    → (r : ℕ × List ℕ) × (sacar tcbs ps id ≡ some r)
unfolding sacar list_remove
sacar-some tcbs ps p id h c =
    let (i, a, e, g) = posicion-found tcbs ps p id h c in
    ((a, erase_idx ps i), rw (sacar, e, list_remove, g) refl)

-- What is in `bloq_emer_sorted` is in `bloq_emer`, and the tasks are those of `o`.
record IsGathered (o n : Nave) : Type 0 where
  tasks : (q : ℕ) → (n.tcbs q).instruccion_actual ≡ (o.tcbs q).instruccion_actual
  blocked : (q : ℕ) → count q n.bloq_emer_sorted ≤ count q n.colas.bloq_emer

tarea-con_estado :
    (p s : ℕ) (n : Nave) (q : ℕ)
    → ((con_estado p s n).tcbs q).instruccion_actual ≡ (n.tcbs q).instruccion_actual
unfolding con_estado enviar_estado enviar
tarea-con_estado p s n q = elim (Bool-cases (q == p)) [
  | inl h ↦ rw h (ap (λ r. (n.tcbs r).instruccion_actual) (sym (==→≡ q p h)))
  | inr h ↦ rw h refl
]

-- A chain goes on behind a call that returns.
bind-returns :
    {A B : Type 0} (o : Option A) (f : A → Option B) (a : A)
    → o ≡ some a
    → (b : B) × (f a ≡ some b)
    → (b : B) × ((o >>= f) ≡ some b)
bind-returns none f a h s = absurd cc
bind-returns (some a') f a h s =
    (s.0, subst (λ x. f x ≡ some s.0) (some-injective a a' (sym h)) s.1)

elegir_fixer-some :
    (e : Entorno) (p : ℕ) (n : Nave)
    → (n.tcbs p).instruccion_actual ≢ none
    → 1 ≤ count p n.colas.bloq_emer
    → (n' : Nave) × (elegir_fixer e p n ≡ some n')
unfolding elegir_fixer guardar_contexto
elegir_fixer-some e p n t c = con_tarea (n.tcbs p).instruccion_actual refl
  where
    n₁ : Nave
    n₁ = guardar_contexto e p n

    mismo : ((guardar_contexto e p n).tcbs p).tid ≡ (n.tcbs p).tid
    mismo = elim (Bool-cases (p == p)) [ inl h ↦ rw h refl | inr h ↦ rw h refl ]

    dentro : 1 ≤ count p n₁.colas.bloq_emer
    dentro = c

    con_tarea :
        (o : Option (List ℕ))
        → (n.tcbs p).instruccion_actual ≡ o
        → (n' : Nave) × (elegir_fixer e p n ≡ some n')
    con_tarea none h = absurd (t h)
    con_tarea (some x) h =
        let (r, s) = sacar-some n₁.tcbs n₁.colas.bloq_emer p (n.tcbs p).tid mismo dentro in
        bind-returns (n.tcbs p).instruccion_actual _ x h
          (bind-returns (sacar n₁.tcbs n₁.colas.bloq_emer (n.tcbs p).tid) _ r s (_, refl))

module _ (e : Entorno) (o : Nave) where
  a_bloq_emer-IsGathered : (p : ℕ) (n : Nave) → IsGathered o n → IsGathered o (a_bloq_emer e p n)
  unfolding a_bloq_emer con_estado enviar_estado enviar
  a_bloq_emer-IsGathered p n s = record {
    tasks = λ q. tarea-con_estado p estado_bloq_emer n q ∙ s.tasks q;
    blocked = λ q.
        let c =
          sum_by-perm (occurs q)
            (e.commons.list_add_sorted-perm (ordenar_mas_cercano n') p n.bloq_emer_sorted) in
        let l = s.blocked q in
        omega (arith, c, sum_by-append (occurs q) n.colas.bloq_emer (p ∷ []));
  }
    where
      n' : Nave
      n' = con_estado p estado_bloq_emer n

  vaciar_exec-IsGathered :
      (ps : List ℕ) (n : Nave) → IsGathered o n → IsGathered o (vaciar_exec e ps n)
  unfolding vaciar_exec
  vaciar_exec-IsGathered [] n s = s
  vaciar_exec-IsGathered (p ∷ ps) n s = vaciar_exec-IsGathered ps _ (
      a_bloq_emer-IsGathered p (con_colas n (record (n.colas) { exec = ps }))
        (record { tasks = s.tasks; blocked = s.blocked }))

  vaciar_ready-IsGathered :
      (ps : List ℕ) (n : Nave) → IsGathered o n → IsGathered o (vaciar_ready e ps n)
  unfolding vaciar_ready
  vaciar_ready-IsGathered [] n s = s
  vaciar_ready-IsGathered (p ∷ ps) n s = vaciar_ready-IsGathered ps _ (
      a_bloq_emer-IsGathered p (con_colas n (record (n.colas) { ready = ps }))
        (record { tasks = s.tasks; blocked = s.blocked }))

module _ (e : Entorno) (n : Nave) (v : n.bloq_emer_sorted ≡ []) where
  vaciar_ambas-IsGathered : IsGathered n (vaciar_ambas e n)
  unfolding vaciar_ambas
  vaciar_ambas-IsGathered =
      vaciar_ready-IsGathered e n (e.commons.list_sort (comparador_tid n₁.tcbs) n₁.colas.ready) n₁ (
        vaciar_exec-IsGathered e n l₁ n
          (record { tasks = λ q. refl; blocked = λ q. let h = ap (count q) v in omega (arith, h) }))
    where
      l₁ : List ℕ
      l₁ = e.commons.list_sort (comparador_tid n.tcbs) n.colas.exec

      n₁ : Nave
      n₁ = vaciar_exec e l₁ n

  elegir-some :
      (q : ℕ) (ps : List ℕ) (m : Nave)
      → 1 ≤ count q ps
      → ((r : ℕ)
          → 1 ≤ count r ps
          → ((m.tcbs r).instruccion_actual ≢ none) × (1 ≤ count r m.colas.bloq_emer))
      → (n' : Nave) × (elegir e ps m ≡ some n')
  unfolding elegir
  elegir-some q [] m h l = absurd (omega arith)
  elegir-some q (p ∷ ps) m h l = let (t, c) = l p (propio p) in elegir_fixer-some e p m t c
    where
      propio : (p : ℕ) → 1 ≤ count p (p ∷ ps)
      propio p = ground arith

  -- If a tripulante is in EXEC or READY and each there has a task, the first cycle of a sabotage passes
  -- without a fault: the fixer is one of these tripulantes, and none of them is nearer to the sabotage;
  -- `bloq_emer_sorted` is empty before.
  pub empezar_sabotaje-elige :
      (q : ℕ)
      → 1 ≤ count q n.colas.exec + count q n.colas.ready
      → ((r : ℕ)
          → 1 ≤ count r n.colas.exec + count r n.colas.ready
          → (n.tcbs r).instruccion_actual ≢ none)
      → (n' : Nave) × (p : ℕ) × (empezar_sabotaje e n ≡ some n')
        × (elegir_fixer e p (vaciar_ambas e n) ≡ some n')
        × (1 ≤ count p n.colas.exec + count p n.colas.ready)
        × ((r : ℕ) → 1 ≤ count r n.colas.exec + count r n.colas.ready → modulo n p ≤ modulo n r)
  unfolding empezar_sabotaje
  empezar_sabotaje-elige q h t =
      let m = vaciar_ambas e n in
      let s = vaciar_ambas-IsSorting e n v in
      let g = vaciar_ambas-IsGathered in
      let (n', f) = elegir-some q m.bloq_emer_sorted m (omega (arith, h, s.counts q)) (λ r l. (
        λ w. t r (omega (arith, l, s.counts r)) (sym (g.tasks r) ∙ w),
        omega (arith, l, g.blocked r),
      )) in
      let (p, a, b, c) = empezar_sabotaje-nearest e n v n' f in (n', p, f, a, b, c)
