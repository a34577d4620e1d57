-- ===== src/Discordiador/Patotas/Read.antt =====
-- What MiRAMHQ reads of the message that `crear_PCB` makes.
use tp_2021_so_fin.Base.{
  ℕ, zero, suc, ◌+◌, ◌*◌, ◌<◌, ◌≡◌, refl, sym, ◌∙◌, ap, List, [], ◌∷◌, ◌++◌, some, arith, length,
  length-append, get_elem?,
}
use mathlib.Core.Option.{some-injective}
use tp_2021_so_fin.Base.Bytes.{Bytes, u32, get32}
use tp_2021_so_fin.Base.Texts.{read, bytes_of, read-same, read-bytes_of}
use tp_2021_so_fin.Messages.{int_bytes}
use tp_2021_so_fin.Messages.Framed.{append_assoc, take-front}
use tp_2021_so_fin.Discordiador.State.{Tcb}
use tp_2021_so_fin.Discordiador.Patotas.{tcb_bytes, crew_bytes, buffer_a_enviar}
use tp_2021_so_fin.Segmentation.Records.{Tcb as RamTcb}
use tp_2021_so_fin.Segmentation.Patota.{read_tcb}

-- the fields of a tripulante that are sent, each in 32 bits
pub record IsSmall (t : Tcb) : Type 0 where
  pub tid : t.tid < u32
  pub pid : t.pid < u32
  pub x : t.posicion_x < u32
  pub y : t.posicion_y < u32

-- the tripulante as MiRAMHQ keeps it: READY, and before its first task
abbrev pub en_ram : Tcb → RamTcb
en_ram t = record {
  tid = t.tid;
  pid = t.pid;
  status = b'R';
  xpos = t.posicion_x;
  ypos = t.posicion_y;
  next = 0;
}

pub bytes_of-append :
    (xs ys : List ℕ) (k j : ℕ) → k ≡ length xs + j → bytes_of (xs ++ ys) k ≡ bytes_of ys j
bytes_of-append [] ys k j h = ap (bytes_of ys) (omega arith)
bytes_of-append (x ∷ xs) ys zero j h = absurd (omega arith)
bytes_of-append (x ∷ xs) ys (suc k) j h = bytes_of-append xs ys k j (omega arith)

get32-append :
    (xs ys : List ℕ) (k j : ℕ)
    → k ≡ length xs + j
    → get32 (bytes_of (xs ++ ys)) k ≡ get32 (bytes_of ys) j
unfolding get32
get32-append xs ys k j h = omega (
  arith,
  bytes_of-append xs ys k j h,
  bytes_of-append xs ys (k + 1) (j + 1) (omega arith),
  bytes_of-append xs ys (k + 2) (j + 2) (omega arith),
  bytes_of-append xs ys (k + 3) (j + 3) (omega arith),
)

get32-int_bytes : (v : ℕ) (ys : List ℕ) → v < u32 → get32 (bytes_of (int_bytes v ++ ys)) 0 ≡ v
unfolding get32
get32-int_bytes v ys h = omega arith

-- where the i-th tripulante stands in the bytes of all
crew-split :
    (ts : List Tcb) (i : ℕ) (t : Tcb)
    → get_elem? ts i ≡ some t
    → (before behind : List ℕ) × (crew_bytes ts ≡ before ++ (tcb_bytes t ++ behind))
      × (length before ≡ 17 * i)
unfolding crew_bytes tcb_bytes
crew-split [] i t h = absurd cc
crew-split (s ∷ ts) zero t h =
    ([], crew_bytes ts, ap (λ u. tcb_bytes u ++ crew_bytes ts) (some-injective s t h), refl)
crew-split (s ∷ ts) (suc i) t h =
    let (before, behind, e, l) = crew-split ts i t h in
    (
      tcb_bytes s ++ before,
      behind,
      ap (λ xs. tcb_bytes s ++ xs) e
          ∙ sym (append_assoc (tcb_bytes s) before (tcb_bytes t ++ behind)),
      omega (arith, length-append (tcb_bytes s) before, length-tcb_bytes s),
    )
  where
    length-tcb_bytes : (u : Tcb) → length (tcb_bytes u) ≡ 17
    length-tcb_bytes u = refl

-- An integer that stands further on in a text.
get32-at :
    (xs ys zs : List ℕ) (k j v : ℕ)
    → k ≡ length xs + j
    → get32 (bytes_of ys) j ≡ get32 (bytes_of (int_bytes v ++ zs)) 0
    → v < u32
    → get32 (bytes_of (xs ++ ys)) k ≡ v
get32-at xs ys zs k j v h e l = get32-append xs ys k j h ∙ e ∙ get32-int_bytes v zs l

pub read_tcb-tcb_bytes :
    (t : Tcb) (xs ys : List ℕ) (k : ℕ)
    → k ≡ length xs
    → IsSmall t
    → read_tcb (bytes_of (xs ++ (tcb_bytes t ++ ys))) k ≡ en_ram t
unfolding read_tcb tcb_bytes get32
read_tcb-tcb_bytes t xs ys k h s =
    let zs = tcb_bytes t ++ ys in
    let xs' = int_bytes t.posicion_y ++ ys in
    let ps = b'R' ∷ (int_bytes t.posicion_x ++ xs') in
    let a = get32-at xs zs (int_bytes t.pid ++ ps) k 0 t.tid (omega arith) refl s.tid in
    let b = get32-at xs zs ps (k + 4) 4 t.pid (omega arith) refl s.pid in
    let c = bytes_of-append xs zs (k + 8) 8 (omega arith) in
    let d = get32-at xs zs xs' (k + 9) 9 t.posicion_x (omega arith) refl s.x in
    let f = get32-at xs zs ys (k + 13) 13 t.posicion_y (omega arith) refl s.y in junta a b c d f
  where
    junta :
        {a b c d f : ℕ}
        → a ≡ t.tid
        → b ≡ t.pid
        → c ≡ b'R'
        → d ≡ t.posicion_x
        → f ≡ t.posicion_y
        → ◌≡◌ {A = RamTcb}
            (record { tid = a; pid = b; status = c; xpos = d; ypos = f; next = 0 })
            (en_ram t)
    junta a b c d f = rw (a, b, c, d, f) refl

module _ (pid : ℕ) (tareas : List ℕ) (ts : List Tcb) where
  unfoldable pub mensaje : Bytes
  unfolding buffer_a_enviar
  mensaje = bytes_of (buffer_a_enviar pid tareas (length ts) ts)

  -- the bytes behind the tasks, and behind their length
  abbrev pub cola : List ℕ
  cola = int_bytes (length ts) ++ crew_bytes ts

  pub mensaje-pid : pid < u32 → get32 mensaje 0 ≡ pid
  unfolding mensaje buffer_a_enviar
  mensaje-pid h = get32-int_bytes pid (int_bytes (length tareas) ++ (tareas ++ cola)) h

  pub mensaje-tam : length tareas < u32 → get32 mensaje 4 ≡ length tareas
  unfolding mensaje buffer_a_enviar
  mensaje-tam h =
      get32-at (int_bytes pid) (int_bytes (length tareas) ++ (tareas ++ cola)) (tareas ++ cola) 4 0
        (length tareas) refl refl h

  mensaje-tareas : read mensaje 8 (length tareas) ≡ tareas
  unfolding mensaje buffer_a_enviar
  mensaje-tareas =
      read-same mensaje (bytes_of (tareas ++ cola)) 8 0 (length tareas) (λ j l.
        bytes_of-append (int_bytes pid ++ int_bytes (length tareas)) (tareas ++ cola) (8 + j)
          (0 + j) (omega arith))
      ∙ read-bytes_of (tareas ++ cola) 0 (length tareas) (omega (arith, length-append tareas cola))
      ∙ take-front tareas cola

  -- the bytes up to the tasks
  abbrev pub cabeza : List ℕ
  cabeza = int_bytes pid ++ int_bytes (length tareas) ++ tareas

  pub length-cabeza : length cabeza ≡ 8 + length tareas
  length-cabeza = omega arith

  pub mensaje-detras : buffer_a_enviar pid tareas (length ts) ts ≡ cabeza ++ cola
  unfolding buffer_a_enviar
  mensaje-detras = sym (append_assoc (int_bytes pid ++ int_bytes (length tareas)) tareas cola)

  pub mensaje-cant : length ts < u32 → get32 mensaje (8 + length tareas) ≡ length ts
  unfolding mensaje crew_bytes
  mensaje-cant h =
      ap (λ xs. get32 (bytes_of xs) (8 + length tareas)) mensaje-detras
      ∙ get32-at cabeza cola (crew_bytes ts) (8 + length tareas) 0 (length ts)
          (omega (arith, length-cabeza)) refl h

  mensaje-tcb :
      (i : ℕ) (t : Tcb)
      → get_elem? ts i ≡ some t
      → IsSmall t
      → read_tcb mensaje (12 + length tareas + 17 * i) ≡ en_ram t
  unfolding mensaje crew_bytes
  mensaje-tcb i t h s =
      let (before, behind, e, l) = crew-split ts i t h in
      let n = int_bytes (length ts) in
      let entero =
        mensaje-detras
        ∙ ap (λ xs. cabeza ++ (n ++ xs)) e
        ∙ sym (append_assoc cabeza (n ++ before) (tcb_bytes t ++ behind)) in
      ap (λ xs. read_tcb (bytes_of xs) (12 + length tareas + 17 * i)) entero
      ∙ read_tcb-tcb_bytes t (cabeza ++ (n ++ before)) behind (12 + length tareas + 17 * i)
          (omega (arith, length-append cabeza (n ++ before), length-cabeza)) s

  -- MiRAMHQ reads from the message what the Discordiador put into it: the pid, the tasks by their
  -- length, the number of tripulantes, and every tripulante, if all numbers are below 2 ^ 32.
  pub mensaje-read :
      (i : ℕ) (t : Tcb)
      → pid < u32
      → length tareas < u32
      → length ts < u32
      → get_elem? ts i ≡ some t
      → IsSmall t
      → (get32 mensaje 0 ≡ pid)
        × (get32 mensaje 4 ≡ length tareas)
        × (read mensaje 8 (length tareas) ≡ tareas)
        × (get32 mensaje (8 + length tareas) ≡ length ts)
        × (read_tcb mensaje (12 + length tareas + 17 * i) ≡ en_ram t)
  mensaje-read i t a b c h s =
      (mensaje-pid a, mensaje-tam b, mensaje-tareas, mensaje-cant c, mensaje-tcb i t h s)
