-- ===== src/Discordiador/Tripulante/Moves.antt =====
-- The way of a tripulante to a position, by `moverTripulanteUno`.
use tp_2021_so_fin.Base.{
  ℕ, zero, suc, ◌+◌, ◌-◌, ◌≡◌, ◌∙◌, ap, inl, inr, true, arith, leb, ltb, Bool-cases, ◌==◌,
  if◌then◌else◌,
}
use tp_2021_so_fin.Discordiador.State.{Tcb, Nave}
use tp_2021_so_fin.Discordiador.Tripulante.{
  enviar, avisar_movimiento, mover_tripulante_uno, llego_a_posicion,
}

-- so many moves of a tripulante to a position
unfoldable pub mover_veces : ℕ → ℕ → ℕ → ℕ → Nave → Nave
unfolding mover_tripulante_uno
mover_veces zero p x y n = n
mover_veces (suc k) p x y n = mover_veces k p x y (mover_tripulante_uno p x y n)

-- how many units there are from a tripulante to a position, along the two axes
unfoldable pub distancia : Tcb → ℕ → ℕ → ℕ
distancia t x y = (t.posicion_x - x + (x - t.posicion_x)) + (t.posicion_y - y + (y - t.posicion_y))

-- the position after a move, on its own
abbrev movido : Tcb → ℕ → ℕ → Tcb
movido t x y =
    if ltb t.posicion_x x
    then record t { posicion_x = suc t.posicion_x }
    else if ltb x t.posicion_x
    then record t { posicion_x = t.posicion_x - 1 }
    else if ltb t.posicion_y y
    then record t { posicion_y = suc t.posicion_y }
    else if ltb y t.posicion_y
    then record t { posicion_y = t.posicion_y - 1 }
    else t

igual : (p : ℕ) → (p == p) ≡ true
igual p = ground arith

-- The move, case by case.
mover-tcb : (p x y : ℕ) (n : Nave) → (mover_tripulante_uno p x y n).tcbs p ≡ movido (n.tcbs p) x y
unfolding mover_tripulante_uno avisar_movimiento enviar
mover-tcb p x y n = elim (Bool-cases (ltb t.posicion_x x)) [
  | inl a ↦ rw (a, igual p)
  | inr a ↦ elim (Bool-cases (ltb x t.posicion_x)) [
    | inl b ↦ rw (a, b, igual p)
    | inr b ↦ elim (Bool-cases (ltb t.posicion_y y)) [
      | inl c ↦ rw (a, b, c, igual p)
      | inr c ↦ elim (Bool-cases (ltb y t.posicion_y)) [
        | inl d ↦ rw (a, b, c, d, igual p)
        | inr d ↦ rw (a, b, c, d)
      ]
    ]
  ]
]
  where
    t : Tcb
    t = n.tcbs p

movido-distancia : (t : Tcb) (x y : ℕ) → distancia (movido t x y) x y ≡ distancia t x y - 1
unfolding distancia
movido-distancia t x y = ground arith

mover-distancia :
    (p x y : ℕ) (n : Nave)
    → distancia ((mover_tripulante_uno p x y n).tcbs p) x y ≡ distancia (n.tcbs p) x y - 1
mover-distancia p x y n =
    ap (λ t. distancia t x y) (mover-tcb p x y n) ∙ movido-distancia (n.tcbs p) x y

mover_veces-distancia :
    (k p x y : ℕ) (n : Nave)
    → distancia ((mover_veces k p x y n).tcbs p) x y ≡ distancia (n.tcbs p) x y - k
unfolding mover_veces
mover_veces-distancia zero p x y n = omega arith
mover_veces-distancia (suc k) p x y n =
    omega
      (arith, mover-distancia p x y n, mover_veces-distancia k p x y (mover_tripulante_uno p x y n))

llego-lem : (t : Tcb) (x y : ℕ) → llego_a_posicion t x y ≡ leb (distancia t x y) 0
unfolding llego_a_posicion distancia
llego-lem t x y = ground arith

-- A tripulante gets to a position in as many moves as there are units to it along the two axes, and
-- in no fewer; it stays there at every further move.
pub mover_veces-llega :
    (k p x y : ℕ) (n : Nave)
    → llego_a_posicion ((mover_veces k p x y n).tcbs p) x y ≡ leb (distancia (n.tcbs p) x y) k
mover_veces-llega k p x y n =
    llego-lem ((mover_veces k p x y n).tcbs p) x y
    ∙ resta (distancia (n.tcbs p) x y) _ (mover_veces-distancia k p x y n)
  where
    resta : (d c : ℕ) → c ≡ d - k → leb c 0 ≡ leb d k
    resta d c h = ground arith
