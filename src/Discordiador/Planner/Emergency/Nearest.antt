-- ===== src/Discordiador/Planner/Emergency/Nearest.antt =====
-- The tripulante that is chosen to repair a sabotage.
use tp_2021_so_fin.Base.Options.{Returns, Returns-none}
use tp_2021_so_fin.Base.Counts.{occurs, count}
use tp_2021_so_fin.Base.{
  ℕ, ◌+◌, ◌≤◌, ◌≡◌, refl, sym, subst, ◌∙◌, ap, true, false, inl, inr, List, [], ◌∷◌, some, arith,
  ltb, ◌==◌, if◌then◌else◌, ==→≡, Bool-cases, sum_by-perm,
}
use tp_2021_so_fin.Commons.{All, IsSorted}
use tp_2021_so_fin.Discordiador.State.{Nave, Entorno, estado_bloq_emer, con_colas}
use tp_2021_so_fin.Discordiador.Tripulante.{enviar, enviar_estado, con_estado}
use tp_2021_so_fin.Discordiador.Planner.Emergency.{
  comparador_tid, modulo, ordenar_mas_cercano, a_bloq_emer, vaciar_exec, vaciar_ready, vaciar_ambas,
  elegir_fixer, elegir, empezar_sabotaje,
}

-- `bloq_emer_sorted` has so many of each tripulante, in the order of the distances in `o`.
pub record IsSorting (o : Nave) (d : ℕ → ℕ) (n : Nave) : Type 0 where
  sorted : IsSorted (modulo o) n.bloq_emer_sorted
  same : (q : ℕ) → modulo n q ≡ modulo o q
  pub counts : (q : ℕ) → count q n.bloq_emer_sorted ≡ d q

modulo-con_estado : (p s : ℕ) (n : Nave) (q : ℕ) → modulo (con_estado p s n) q ≡ modulo n q
unfolding con_estado enviar_estado enviar
modulo-con_estado p s n q = elim (Bool-cases (q == p)) [
  | inl h ↦ rw h (ap (modulo n) (sym (iguales q p h)))
  | inr h ↦ rw h refl
]
  where
    iguales : (a b : ℕ) → (a == b) ≡ true → a ≡ b
    iguales a b h = ground arith

cercano-before :
    (o n : Nave) (p q : ℕ)
    → ((r : ℕ) → modulo n r ≡ modulo o r)
    → ordenar_mas_cercano n p q ≡ true
    → modulo o p ≤ modulo o q
unfolding ordenar_mas_cercano
cercano-before o n p q h c = ordenado (n.tcbs p).tid (n.tcbs q).tid (h p) (h q) c
  where
    ordenado :
        {a b a' b' : ℕ} (s t : ℕ)
        → a ≡ a'
        → b ≡ b'
        → (if a == b then ltb s t else ltb a b) ≡ true
        → a' ≤ b'
    ordenado s t e f g = ground arith

cercano-after :
    (o n : Nave) (p q : ℕ)
    → ((r : ℕ) → modulo n r ≡ modulo o r)
    → ordenar_mas_cercano n p q ≡ false
    → modulo o q ≤ modulo o p
unfolding ordenar_mas_cercano
cercano-after o n p q h c = ordenado (n.tcbs p).tid (n.tcbs q).tid (h p) (h q) c
  where
    ordenado :
        {a b a' b' : ℕ} (s t : ℕ)
        → a ≡ a'
        → b ≡ b'
        → (if a == b then ltb s t else ltb a b) ≡ false
        → b' ≤ a'
    ordenado s t e f g = ground arith

module _ (e : Entorno) (o : Nave) where
  a_bloq_emer-IsSorting :
      (p : ℕ) (d : ℕ → ℕ) (n : Nave)
      → IsSorting o d n
      → IsSorting o (λ q. occurs q p + d q) (a_bloq_emer e p n)
  unfolding a_bloq_emer con_estado enviar_estado enviar
  a_bloq_emer-IsSorting p d n s = record {
    sorted =
        e.commons.list_add_sorted-IsSorted (ordenar_mas_cercano n') (modulo o)
          (λ x y. cercano-before o n' x y igual) (λ x y. cercano-after o n' x y igual) p
          n'.bloq_emer_sorted ordenado;
    same = igual;
    counts = λ q.
        sum_by-perm (occurs q)
          (e.commons.list_add_sorted-perm (ordenar_mas_cercano n') p n'.bloq_emer_sorted)
        ∙ ap (λ k. occurs q p + k) (contados q);
  }
    where
      n' : Nave
      n' = con_estado p estado_bloq_emer n

      igual : (q : ℕ) → modulo n' q ≡ modulo o q
      igual q = modulo-con_estado p estado_bloq_emer n q ∙ s.same q

      ordenado : IsSorted (modulo o) n'.bloq_emer_sorted
      ordenado = s.sorted

      contados : (q : ℕ) → count q n'.bloq_emer_sorted ≡ d q
      contados q = s.counts q

  vaciar_exec-IsSorting :
      (ps : List ℕ) (d : ℕ → ℕ) (n : Nave)
      → IsSorting o d n
      → IsSorting o (λ q. count q ps + d q) (vaciar_exec e ps n)
  unfolding vaciar_exec
  vaciar_exec-IsSorting [] d n s = record {
    sorted = s.sorted;
    same = s.same;
    counts = λ q. omega (arith, s.counts q);
  }
  vaciar_exec-IsSorting (p ∷ ps) d n s =
      let a =
        a_bloq_emer-IsSorting p d (con_colas n (record (n.colas) { exec = ps }))
          (record { sorted = s.sorted; same = s.same; counts = s.counts }) in
      let r = vaciar_exec-IsSorting ps (λ q. occurs q p + d q) _ a in
      record { sorted = r.sorted; same = r.same; counts = λ q. omega (arith, r.counts q) }

  vaciar_ready-IsSorting :
      (ps : List ℕ) (d : ℕ → ℕ) (n : Nave)
      → IsSorting o d n
      → IsSorting o (λ q. count q ps + d q) (vaciar_ready e ps n)
  unfolding vaciar_ready
  vaciar_ready-IsSorting [] d n s = record {
    sorted = s.sorted;
    same = s.same;
    counts = λ q. omega (arith, s.counts q);
  }
  vaciar_ready-IsSorting (p ∷ ps) d n s =
      let a =
        a_bloq_emer-IsSorting p d (con_colas n (record (n.colas) { ready = ps }))
          (record { sorted = s.sorted; same = s.same; counts = s.counts }) in
      let r = vaciar_ready-IsSorting ps (λ q. occurs q p + d q) _ a in
      record { sorted = r.sorted; same = r.same; counts = λ q. omega (arith, r.counts q) }

  vaciar_exec-ready : (ps : List ℕ) (n : Nave) → (vaciar_exec e ps n).colas.ready ≡ n.colas.ready
  unfolding vaciar_exec a_bloq_emer con_estado enviar_estado enviar
  vaciar_exec-ready [] n = refl
  vaciar_exec-ready (p ∷ ps) n = vaciar_exec-ready ps _

module _ (e : Entorno) (n : Nave) (v : n.bloq_emer_sorted ≡ []) where
  pub vaciar_ambas-IsSorting :
      IsSorting n (λ q. count q n.colas.exec + count q n.colas.ready) (vaciar_ambas e n)
  unfolding vaciar_ambas
  vaciar_ambas-IsSorting = record {
    sorted = b.sorted;
    same = b.same;
    counts = λ q. b.counts q ∙ cuenta q;
  }
    where
      n₁ : Nave
      n₁ = vaciar_exec e (e.commons.list_sort (comparador_tid n.tcbs) n.colas.exec) n

      nada : IsSorting n (λ q. 0) n
      nada = record {
        sorted = subst (IsSorted (modulo n)) (sym v) tt;
        same = λ q. refl;
        counts = λ q. ap (count q) v;
      }

      l₁ : List ℕ
      l₁ = e.commons.list_sort (comparador_tid n.tcbs) n.colas.exec

      l₂ : List ℕ
      l₂ = e.commons.list_sort (comparador_tid n₁.tcbs) n₁.colas.ready

      b : IsSorting n (λ q. count q l₂ + (count q l₁ + 0)) (vaciar_ready e l₂ n₁)
      b =
          vaciar_ready-IsSorting e n l₂ (λ q. count q l₁ + 0) n₁
            (vaciar_exec-IsSorting e n l₁ (λ q. 0) n nada)

      cuenta :
          (q : ℕ) → count q l₂ + (count q l₁ + 0) ≡ count q n.colas.exec + count q n.colas.ready
      cuenta q = omega (
        arith,
        sum_by-perm (occurs q) (e.commons.list_sort-perm (comparador_tid n.tcbs) n.colas.exec),
        sum_by-perm (occurs q) (e.commons.list_sort-perm (comparador_tid n₁.tcbs) n₁.colas.ready),
        ap (count q) (vaciar_exec-ready e n l₁ n),
      )

  -- one of a list, of which all have a distance of at least `k`
  All-count :
      (key : ℕ → ℕ) (k : ℕ) (ps : List ℕ)
      → All (λ q. k ≤ key q) ps
      → (q : ℕ) → 1 ≤ count q ps
      → k ≤ key q
  All-count key k [] a q h = absurd (omega arith)
  All-count key k (p ∷ ps) a q h = elim (Bool-cases (p == q)) [
    | inl i ↦ subst (λ r. k ≤ key r) (==→≡ p q i) a.0
    | inr i ↦ All-count key k ps a.1 q (ground arith)
  ]

  -- The head of the queue is the nearest.
  elegido :
      (ps : List ℕ) (m : Nave)
      → IsSorted (modulo n) ps
      → Returns
          (λ n'.
            (p : ℕ) × (elegir_fixer e p m ≡ some n')
            × (1 ≤ count p ps)
            × ((q : ℕ) → 1 ≤ count q ps → modulo n p ≤ modulo n q))
          (elegir e ps m)
  unfolding elegir
  elegido [] m s = Returns-none
  elegido (p ∷ ps) m s = record {
    holds = λ n' h.
        (p, h, propio p, λ q. All-count (modulo n) (modulo n p) (p ∷ ps) (omega arith, s.0) q);
  }
    where
      propio : (p : ℕ) → 1 ≤ count p (p ∷ ps)
      propio p = ground arith

  -- At the first cycle of a sabotage the fixer is one of the tripulantes in EXEC and READY, and none
  -- of these is nearer to the sabotage; `bloq_emer_sorted` is empty before.
  pub empezar_sabotaje-nearest :
      (n' : Nave)
      → empezar_sabotaje e n ≡ some n'
      → (p : ℕ) × (elegir_fixer e p (vaciar_ambas e n) ≡ some n')
        × (1 ≤ count p n.colas.exec + count p n.colas.ready)
        × ((q : ℕ) → 1 ≤ count q n.colas.exec + count q n.colas.ready → modulo n p ≤ modulo n q)
  unfolding empezar_sabotaje
  empezar_sabotaje-nearest n' h =
      let m = vaciar_ambas e n in
      let s = vaciar_ambas-IsSorting in
      let (p, f, c, a) = (elegido m.bloq_emer_sorted m s.sorted).holds n' h in
      (p, f, omega (arith, s.counts p), λ q l. a q (omega (arith, s.counts q)))
