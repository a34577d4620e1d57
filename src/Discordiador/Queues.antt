-- ===== src/Discordiador/Queues.antt =====
-- How often a tripulante stands in the queues, and what the rounds of the planner keep of it.
pub mod Moved
pub mod Filled
pub mod Emergency
pub mod Crew
pub mod Created
pub mod Reached
use tp_2021_so_fin.Base.Options.{Returns, Returns-some, Returns-none, Returns-if, Returns-bind}
use mathlib.Core.Option.{some-injective}
use tp_2021_so_fin.Base.Counts.{occurs, count}
use tp_2021_so_fin.Base.{
  ℕ, zero, suc, ◌+◌, ◌≤◌, ◌≡◌, refl, ap, ◌∙◌, List, [], ◌∷◌, ◌++◌, Option, none, some, arith,
  length, get_elem?, erase_idx, sum_by-append, length-append, ◌==◌, if◌then◌else◌,
}
use tp_2021_so_fin.Discordiador.State.{Tcb, Colas, Nave, Entorno}
use tp_2021_so_fin.Discordiador.Quiet.{IsQuiet}
use tp_2021_so_fin.Discordiador.Planner.{
  list_remove, list_iterate_obtener_posicion, sacar, list_iterate, recorrer,
}

-- how often a tripulante stands in the six queues
unfoldable pub veces : ℕ → Colas → ℕ
veces p c =
    count p c.cola_new
    + count p c.ready
    + count p c.exec
    + count p c.bloq_io
    + count p c.bloq_emer
    + count p c.cola_exit

-- No tripulante is added, none is made, and `exec` stays within `g`.
pub record IsKept (g : ℕ) (n m : Nave) : Type 0 where
  pub fewer : (p : ℕ) → veces p m.colas ≤ veces p n.colas
  pub same_total : m.cantidad_tcb_totales ≡ n.cantidad_tcb_totales
  pub within : length n.colas.exec ≤ g → length m.colas.exec ≤ g

pub count-snoc : (p q : ℕ) (ps : List ℕ) → count p (ps ++ q ∷ []) ≡ count p ps + occurs p q
count-snoc p q ps = omega (arith, sum_by-append (occurs p) ps (q ∷ []))

module _ {g : ℕ} where
  pub IsKept-trans : {n m o : Nave} → IsKept g n m → IsKept g m o → IsKept g n o
  IsKept-trans k l = record {
    fewer = λ p. omega (arith, k.fewer p, l.fewer p);
    same_total = l.same_total ∙ k.same_total;
    within = λ h. l.within (k.within h);
  }

  pub IsKept-refl : (n : Nave) → IsKept g n n
  IsKept-refl n = record { fewer = λ p. omega arith; same_total = refl; within = λ h. h }

  pub IsQuiet-IsKept : {n m : Nave} → IsQuiet n m → IsKept g n m
  IsQuiet-IsKept q = record {
    fewer = λ p. omega (arith, ap (λ t. veces p t.0) q.same);
    same_total = ap (λ t. t.1) q.same;
    within = λ h. omega (arith, ap (λ t. length t.0.exec) q.same);
  }

  pub list_iterate-IsKept :
      (f : ℕ → Nave → Option Nave)
      → ((p : ℕ) (m : Nave) → Returns (IsKept g m) (f p m))
      → (ps : List ℕ) (n : Nave) → Returns (IsKept g n) (list_iterate f ps n)
  unfolding list_iterate
  list_iterate-IsKept f h [] n = Returns-some (IsKept-refl n)
  list_iterate-IsKept f h (p ∷ ps) n = Returns-bind (f p n) (λ m k. record {
    holds = λ o l. IsKept-trans ((h p n).holds m k) ((list_iterate-IsKept f h ps m).holds o l);
  })

  pub recorrer-IsKept :
      (f : ℕ → Nave → Nave)
      → ((p : ℕ) (m : Nave) → IsKept g m (f p m))
      → (ps : List ℕ) (n : Nave) → IsKept g n (recorrer f ps n)
  recorrer-IsKept f h [] n = IsKept-refl n
  recorrer-IsKept f h (p ∷ ps) n = IsKept-trans (h p n) (recorrer-IsKept f h ps (f p n))

-- What was taken out of a queue, and what is left.
pub record IsTaken (ps : List ℕ) (r : ℕ × List ℕ) : Type 0 where
  pub parts : (p : ℕ) → count p ps ≡ occurs p r.0 + count p r.1
  pub size : length ps ≡ suc (length r.1)

erase-IsTaken : (i q : ℕ) (ps : List ℕ) → get_elem? ps i ≡ some q → IsTaken ps (q, erase_idx ps i)
erase-IsTaken i q [] h = absurd cc
erase-IsTaken zero q (x ∷ ps) h = record {
  parts = λ p. ap (λ z. occurs p z + count p ps) (some-injective x q h);
  size = refl;
}
erase-IsTaken (suc i) q (x ∷ ps) h =
    let t = erase-IsTaken i q ps h in
    record { parts = λ p. omega (arith, t.parts p); size = omega (arith, t.size) }

pub list_remove-IsTaken : (i : ℕ) (ps : List ℕ) → Returns (IsTaken ps) (list_remove i ps)
unfolding list_remove
list_remove-IsTaken i ps =
    Returns-bind (get_elem? ps i) (λ q k. Returns-some (erase-IsTaken i q ps k))

pub sacar-IsTaken :
    (tcbs : ℕ → Tcb) (ps : List ℕ) (id : ℕ) → Returns (IsTaken ps) (sacar tcbs ps id)
unfolding sacar
sacar-IsTaken tcbs ps id =
    Returns-bind (list_iterate_obtener_posicion tcbs ps id) (λ i k. list_remove-IsTaken i ps)
