-- ===== src/Discordiador/Patotas.antt =====
-- The making of a patota: `crear_PCB`, `crear_TCB`, `get_tareas` and `iniciar_tcb` of
-- Discordiador/patotas.c. A result of `none` is a NULL that is read, or a write before a block.
pub mod Read
pub mod Crew
pub mod Saved
use tp_2021_so_fin.Base.{
  ℕ, zero, suc, ◌+◌, ◌-◌, List, [], ◌∷◌, ◌++◌, Option, none, some, length, take, get_elem?, drop,
}
use tp_2021_so_fin.Base.Options.{◌>>=◌}
use tp_2021_so_fin.Base.Texts.{until_nul, codes}
use tp_2021_so_fin.Messages.{int_bytes}
use tp_2021_so_fin.Discordiador.State.{
  Tcb, Pcb, Buffer, Nave, Entorno, con_tcb, con_colas, estado_new,
}

-- The new tcb; `estaVivoElHilo` is set by `iniciar_tcb`, before it is read.
unfoldable pub crear_tcb : ℕ → ℕ → ℕ → ℕ → Tcb
crear_tcb id_p pos_x pos_y id_t = record {
  tid = id_t;
  pid = id_p;
  status = estado_new;
  posicion_x = pos_x;
  posicion_y = pos_y;
  instruccion_actual = none;
  esta_vivo_el_hilo = 0;
  tiempo_en_exec = 0;
  tiempo_en_bloq_io = 0;
  ciclos_cumplidos = 0;
  mensaje_inicial_ims = 0;
  ciclo_cpu_cumplido = 0;
}

-- Every line, but for the last without its end, and a bar behind each.
unfoldable pub juntar_lineas : List (List ℕ) → List ℕ
unfolding until_nul
juntar_lineas [] = []
juntar_lineas (l ∷ []) = until_nul l ++ b'|' ∷ []
juntar_lineas (l ∷ m ∷ ls) = until_nul (take (length l - 1) l) ++ b'|' ∷ juntar_lineas (m ∷ ls)

-- The text of the tasks, without the last bar; of an empty file the byte before the text is
-- written.
unfoldable pub get_tareas : List (List ℕ) → Option (List ℕ)
unfolding juntar_lineas
get_tareas [] = none
get_tareas (l ∷ ls) = let t = juntar_lineas (l ∷ ls) in some (take (length t - 1) t)

-- The bytes of a tripulante in the message.
unfoldable pub tcb_bytes : Tcb → List ℕ
tcb_bytes t =
    int_bytes t.tid
    ++ (int_bytes t.pid ++ (b'R' ∷ (int_bytes t.posicion_x ++ int_bytes t.posicion_y)))

unfoldable pub crew_bytes : List Tcb → List ℕ
unfolding tcb_bytes
crew_bytes [] = []
crew_bytes (t ∷ ts) = tcb_bytes t ++ crew_bytes ts

-- The payload of INICIAR_PATOTA: the pid, the tasks behind their length, and the tripulantes behind
-- their number.
unfoldable pub buffer_a_enviar : ℕ → List ℕ → ℕ → List Tcb → List ℕ
unfolding tcb_bytes
buffer_a_enviar pid tareas cant ts =
    int_bytes pid ++ (int_bytes (length tareas) ++ (tareas ++ (int_bytes cant ++ crew_bytes ts)))

-- the tcbs of a patota, from the first free tid on
unfoldable pub crear_tcbs : ℕ → ℕ → List (ℕ × ℕ) → List Tcb
unfolding crear_tcb
crear_tcbs pid tid [] = []
crear_tcbs pid tid ((x, y) ∷ ps) = crear_tcb pid x y tid ∷ crear_tcbs pid (suc tid) ps

-- `malloc` of a tcb
abbrev pub con_nuevo : Nave → Tcb → Nave
con_nuevo n t =
    let p = n.cantidad_tcb_totales in record (con_tcb n p t) { cantidad_tcb_totales = suc p }

-- the new tcbs, which `list_add` adds to the list of the patota
unfoldable pub guardar_tcbs : List Tcb → Nave → Nave × List ℕ
guardar_tcbs [] n = (n, [])
guardar_tcbs (t ∷ ts) n =
    let (n', ps) = guardar_tcbs ts (con_nuevo n t) in (n', n.cantidad_tcb_totales ∷ ps)

module _ (e : Entorno) where
  -- The positions of the tripulantes: those that are not given are 0|0.
  unfoldable pub posiciones : ℕ → List (List ℕ) → Option (List (ℕ × ℕ))
  posiciones zero parametros = some []
  posiciones (suc k) [] = do ps ← posiciones k []; some ((0, 0) ∷ ps)
  posiciones (suc k) (texto ∷ parametros) = do
    let posicion = e.string_split texto (codes "|")
    x ← get_elem? posicion 0
    y ← get_elem? posicion 1
    ps ← posiciones k parametros
    some ((e.atoi x, e.atoi y) ∷ ps)

  -- The pcb, and the message in `buffersAEnviar`.
  unfoldable pub crear_pcb : List (List ℕ) → Nave → Option (Nave × Pcb)
  unfolding posiciones get_tareas crear_tcbs guardar_tcbs buffer_a_enviar
  crear_pcb parametros n = do
    cantidad ← get_elem? parametros 1
    ruta ← get_elem? parametros 2
    lineas ← e.getline ruta
    tareas ← get_tareas lineas
    let cant = e.atoi cantidad
    let pid = suc n.contador_pcbs
    ps ← posiciones cant (drop 3 parametros)
    let tcbs = crear_tcbs pid n.cantidad_tcb_totales ps
    let (n', lista) = guardar_tcbs tcbs n
    let buffer : Buffer = record { command = pid; payload = buffer_a_enviar pid tareas cant tcbs }
    some (
      record n' {
        contador_pcbs = pid;
        cantidad_actual = n'.cantidad_actual + cant;
        buffers_a_enviar = n'.buffers_a_enviar ++ buffer ∷ [];
      },
      record { pid = pid; todos_los_tcbs_terminaron = 0; lista_tcb = lista },
    )

-- `create_tcb_by_list` with `iniciar_tcb`: every tcb of the patota goes to `cola_new`, and gets a
-- thread. Its semaphore is the number of the one added last.
unfoldable pub iniciar_tcbs : List ℕ → Nave → Nave
iniciar_tcbs [] n = n
iniciar_tcbs (p ∷ ps) n =
    let n' = con_tcb n p (record (n.tcbs p) { esta_vivo_el_hilo = 1 }) in
    iniciar_tcbs ps (con_colas n' (record (n'.colas) { cola_new = n'.colas.cola_new ++ p ∷ [] }))

-- `list_add` of the semaphores of as many threads
abbrev pub nuevos_semaforos : List ℕ → List ℕ
nuevos_semaforos [] = []
nuevos_semaforos (p ∷ ps) = 0 ∷ nuevos_semaforos ps
