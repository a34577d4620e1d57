-- ===== src/Discordiador/Quiet.antt =====
-- What leaves the queues alone: all that a tripulante does in its rounds, and the messages.
use tp_2021_so_fin.Base.Options.{
  ◌>>=◌, if-holds, Returns, Returns-some, Returns-none, Returns-if, Returns-bind,
}
use tp_2021_so_fin.Base.{
  ℕ, ◌≡◌, refl, ◌∙◌, Bool, true, false, List, [], ◌∷◌, Option, arith, if◌then◌else◌, get_elem?,
}
use tp_2021_so_fin.Base.Texts.{codes}
use tp_2021_so_fin.Discordiador.State.{Nave, Entorno, Colas, ims, codigo_finalizar_ejecucion_tarea}
use tp_2021_so_fin.Messages.{int, string}
use tp_2021_so_fin.Discordiador.Tripulante.{
  mover_tripulante_uno, avisar_movimiento, enviar, con_estado, enviar_estado, pedir_proxima_tarea,
  fin_de_quantum, resolviendo_sabotaje, comenzar, contar, terminar, trabajar, un_ciclo, bloquear,
  reparar, tarea_normal_en, tarea_io_en, parametros_de, segun_tarea, operando_sin_sabotaje,
  operando_sin_sabotaje_tarea_normal, operando_sin_sabotaje_tarea_io, EsTareaIo, tarea_io,
  tarea_normal, formato_incorrecto, es_tarea_io, hilo_tripulante_y_plani_vivos, ciclo_cpu,
  funcion_tripulante, get_by_id,
}

-- the queues, and the number of tcbs
abbrev pub quieto : Nave → Colas × ℕ
quieto n = (n.colas, n.cantidad_tcb_totales)

-- What leaves both alone.
pub record IsQuiet (n m : Nave) : Type 0 where
  pub same : quieto m ≡ quieto n

pub IsQuiet-trans : {n m o : Nave} → IsQuiet n m → IsQuiet m o → IsQuiet n o
IsQuiet-trans p q = record { same = q.same ∙ p.same }

pub IsQuiet-refl : (n : Nave) → IsQuiet n n
IsQuiet-refl n = record { same = refl }

pub mover-IsQuiet : (p x y : ℕ) (n : Nave) → IsQuiet n (mover_tripulante_uno p x y n)
unfolding mover_tripulante_uno avisar_movimiento enviar
mover-IsQuiet p x y n = record { same = ground arith }

pub con_estado-IsQuiet : (p s : ℕ) (n : Nave) → IsQuiet n (con_estado p s n)
unfolding con_estado enviar_estado enviar
con_estado-IsQuiet p s n = record { same = refl }

module _ (e : Entorno) where
  pub pedir-IsQuiet : (p : ℕ) (n : Nave) → IsQuiet n (pedir_proxima_tarea e p n)
  unfolding pedir_proxima_tarea con_estado enviar_estado enviar
  pedir-IsQuiet p n = record { same = ground arith }

  pub fin_de_quantum-IsQuiet : (p : ℕ) (n : Nave) → IsQuiet n (fin_de_quantum e p n)
  unfolding fin_de_quantum con_estado enviar_estado enviar
  fin_de_quantum-IsQuiet p n = record { same = refl }

  -- a round that may end a quantum
  quantum-IsQuiet :
      (b : Bool) (p : ℕ) (n : Nave) → IsQuiet n (if b then fin_de_quantum e p n else n)
  quantum-IsQuiet true p n = fin_de_quantum-IsQuiet p n
  quantum-IsQuiet false p n = IsQuiet-refl n

  un_ciclo-IsQuiet :
      (p x y : ℕ) (n : Nave) → IsQuiet n (un_ciclo e p (mover_tripulante_uno p x y n))
  un_ciclo-IsQuiet p x y n = record { same = (mover-IsQuiet p x y n).same }

  reparar-IsQuiet : (p : ℕ) (n : Nave) → IsQuiet n (reparar e p n)
  unfolding reparar enviar
  reparar-IsQuiet p n = record { same = ground arith }

  pub resolviendo-IsQuiet : (p : ℕ) (n : Nave) → IsQuiet n (resolviendo_sabotaje e p n)
  unfolding resolviendo_sabotaje
  resolviendo-IsQuiet p n =
      IsQuiet-trans (if-holds (IsQuiet n) _ _ _ (reparar-IsQuiet p n) (un_ciclo-IsQuiet p _ _ n))
        (quantum-IsQuiet _ p _)

  comenzar-IsQuiet :
      (p : ℕ) (nombre : List ℕ) (x y tiempo : ℕ) (n : Nave)
      → IsQuiet n (comenzar e p nombre x y tiempo n)
  unfolding comenzar enviar
  comenzar-IsQuiet p nombre x y tiempo n = record { same = ground arith }

  terminar-IsQuiet : (p : ℕ) (nombre : List ℕ) (n : Nave) → IsQuiet n (terminar e p nombre n)
  unfolding terminar enviar
  terminar-IsQuiet p nombre n =
      let q =
        pedir-IsQuiet p (
          enviar ims codigo_finalizar_ejecucion_tarea (int (n.tcbs p).tid ∷ string nombre ∷ [])
            n) in
      record { same = q.same }

  trabajar-IsQuiet :
      (p : ℕ) (nombre : List ℕ) (x y tiempo : ℕ) (n : Nave)
      → IsQuiet n (trabajar e p nombre x y tiempo n)
  unfolding trabajar
  trabajar-IsQuiet p nombre x y tiempo n =
      let c = comenzar-IsQuiet p nombre x y tiempo n in
      let d : IsQuiet n (contar e p (comenzar e p nombre x y tiempo n)) = record {
        same = c.same;
      } in
      if-holds (IsQuiet n) _ _ _ (IsQuiet-trans d (terminar-IsQuiet p nombre _)) d

  tarea_normal_en-IsQuiet :
      (p : ℕ) (nombre : List ℕ) (x y tiempo : ℕ) (n : Nave)
      → IsQuiet n (tarea_normal_en e p nombre x y tiempo n)
  unfolding tarea_normal_en
  tarea_normal_en-IsQuiet p nombre x y tiempo n =
      if-holds (IsQuiet n) _ _ _
        (IsQuiet-trans (trabajar-IsQuiet p nombre x y tiempo n) (quantum-IsQuiet _ p _))
        (IsQuiet-trans (un_ciclo-IsQuiet p x y n) (quantum-IsQuiet _ p _))

  bloquear-IsQuiet :
      (p : ℕ) (nombre : List ℕ) (parametro x y tiempo : ℕ) (n : Nave)
      → IsQuiet n (bloquear e p nombre parametro x y tiempo n)
  unfolding bloquear enviar con_estado enviar_estado
  bloquear-IsQuiet p nombre parametro x y tiempo n = record { same = refl }

  tarea_io_en-IsQuiet :
      (p : ℕ) (nombre : List ℕ) (parametro x y tiempo : ℕ) (n : Nave)
      → IsQuiet n (tarea_io_en e p nombre parametro x y tiempo n)
  unfolding tarea_io_en
  tarea_io_en-IsQuiet p nombre parametro x y tiempo n =
      let ida = if-holds (IsQuiet n) _ _ _ (IsQuiet-refl n) (un_ciclo-IsQuiet p x y n) in
      IsQuiet-trans ida (
        if-holds (IsQuiet _) _ _ _ (bloquear-IsQuiet p nombre parametro x y tiempo _)
          (quantum-IsQuiet _ p _))

  tarea_normal-IsQuiet :
      (p : ℕ) (nombre : List ℕ) (n : Nave)
      → Returns (IsQuiet n) (operando_sin_sabotaje_tarea_normal e p nombre n)
  unfolding operando_sin_sabotaje_tarea_normal
  tarea_normal-IsQuiet p nombre n =
      Returns-bind (parametros_de e nombre)
        (λ ps k. Returns-some (tarea_normal_en-IsQuiet p ps.0 ps.1 ps.2 ps.3 n))

  tarea_io-IsQuiet :
      (p : ℕ) (nombre : List ℕ) (parametros : Option (List ℕ)) (n : Nave)
      → Returns (IsQuiet n) (parametros >>= λ ps. operando_sin_sabotaje_tarea_io e p nombre ps n)
  unfolding operando_sin_sabotaje_tarea_io
  tarea_io-IsQuiet p nombre parametros n = Returns-bind parametros (λ t k.
      Returns-bind (parametros_de e t)
        (λ ps k'. Returns-some (tarea_io_en-IsQuiet p nombre (e.atoi ps.0) ps.1 ps.2 ps.3 n)))

  segun_tarea-IsQuiet :
      (t : EsTareaIo) (p : ℕ) (nombre : List ℕ) (tarea : List (List ℕ)) (n : Nave)
      → Returns (IsQuiet n) (segun_tarea e t p nombre tarea n)
  unfolding segun_tarea
  segun_tarea-IsQuiet tarea_normal p nombre tarea n = tarea_normal-IsQuiet p nombre n
  segun_tarea-IsQuiet tarea_io p nombre tarea n = tarea_io-IsQuiet p nombre (get_elem? tarea 1) n
  segun_tarea-IsQuiet formato_incorrecto p nombre tarea n =
      tarea_io-IsQuiet p nombre (get_elem? tarea 1) n

  operando-IsQuiet : (p : ℕ) (n : Nave) → Returns (IsQuiet n) (operando_sin_sabotaje e p n)
  unfolding operando_sin_sabotaje
  operando-IsQuiet p n = Returns-bind (n.tcbs p).instruccion_actual (λ texto k.
      let tarea = e.string_split texto (codes " ") in
      Returns-bind (get_elem? tarea 0)
        (λ nombre k'. segun_tarea-IsQuiet (es_tarea_io nombre) p nombre tarea n))

  hilo-IsQuiet : (p : ℕ) (n : Nave) → Returns (IsQuiet n) (hilo_tripulante_y_plani_vivos e p n)
  unfolding hilo_tripulante_y_plani_vivos
  hilo-IsQuiet p n =
      Returns-if _
        (Returns-if n.sabotaje_activado (Returns-some (resolviendo-IsQuiet p n))
          (operando-IsQuiet p n))
        (Returns-some (IsQuiet-refl n))

  ciclo_cpu-IsQuiet : (p : ℕ) (n : Nave) → Returns (IsQuiet n) (ciclo_cpu e p n)
  unfolding ciclo_cpu
  ciclo_cpu-IsQuiet p n =
      Returns-if _
        (Returns-bind (hilo_tripulante_y_plani_vivos e p n)
          (λ m k. Returns-some (record { same = ((hilo-IsQuiet p n).holds m k).same })))
        (Returns-some (IsQuiet-refl n))

  -- The round of a tripulante leaves the queues alone.
  pub funcion_tripulante-IsQuiet :
      (id : ℕ) (n : Nave) → Returns (IsQuiet n) (funcion_tripulante e id n)
  unfolding funcion_tripulante
  funcion_tripulante-IsQuiet id n = Returns-bind (get_by_id n.tcbs n.colas.exec id) (λ p k.
      Returns-bind (ciclo_cpu e p n)
        (λ m k'. Returns-if _ Returns-none (Returns-some ((ciclo_cpu-IsQuiet p n).holds m k'))))
