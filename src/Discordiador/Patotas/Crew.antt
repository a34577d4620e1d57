-- ===== src/Discordiador/Patotas/Crew.antt =====
-- The entries that MiRAMHQ makes of the tripulantes in a message of `crear_PCB`.
use tp_2021_so_fin.Base.{
  ℕ, ◌+◌, ◌≡◌, refl, sym, ◌∙◌, ap, List, [], ◌∷◌, ◌++◌, arith, length, length-append,
}
use tp_2021_so_fin.Base.Texts.{bytes_of}
use tp_2021_so_fin.Commons.{All}
use tp_2021_so_fin.Messages.{int_bytes}
use tp_2021_so_fin.Messages.Framed.{append_assoc}
use tp_2021_so_fin.Discordiador.State.{Tcb}
use tp_2021_so_fin.Discordiador.Patotas.{tcb_bytes, crew_bytes}
use tp_2021_so_fin.Discordiador.Patotas.Read.{
  IsSmall, en_ram, read_tcb-tcb_bytes, mensaje, cabeza, length-cabeza, mensaje-detras,
}
use tp_2021_so_fin.Segmentation.Patota.{Entry}
use tp_2021_so_fin.Segmentation.Patota.Added.{tcb_entry, crew_entries}

-- an entry for every tripulante, in their order
abbrev pub tripulantes_en_ram : List Tcb → List Entry
tripulantes_en_ram [] = []
tripulantes_en_ram (t ∷ ts) = tcb_entry (en_ram t) ∷ tripulantes_en_ram ts

crew_entries-bytes :
    (xs : List ℕ) (ts : List Tcb)
    → All IsSmall ts
    → crew_entries (length ts) (bytes_of (xs ++ crew_bytes ts)) (length xs) ≡ tripulantes_en_ram ts
unfolding crew_bytes
crew_entries-bytes xs [] h = refl
crew_entries-bytes xs (t ∷ ts) (s, h) =
    let e = append_assoc xs (tcb_bytes t) (crew_bytes ts) in
    let l : length (xs ++ tcb_bytes t) ≡ length xs + 17 =
      length-append xs (tcb_bytes t) ∙ ap (λ k. length xs + k) (largo t) in
    rw
      (
        read_tcb-tcb_bytes t xs (crew_bytes ts) (length xs) refl s,
        ← e,
        ← l,
        crew_entries-bytes (xs ++ tcb_bytes t) ts h,
      )
      refl
  where
    largo : (u : Tcb) → length (tcb_bytes u) ≡ 17
    largo u = unfold tcb_bytes in refl

pub crew_entries-mensaje :
    (pid : ℕ) (tareas : List ℕ) (ts : List Tcb)
    → All IsSmall ts
    → crew_entries (length ts) (mensaje pid tareas ts) (12 + length tareas) ≡ tripulantes_en_ram ts
unfolding mensaje
crew_entries-mensaje pid tareas ts h =
    let n = int_bytes (length ts) in
    let xs = cabeza pid tareas ts ++ n in
    let e =
      mensaje-detras pid tareas ts ∙ sym (append_assoc (cabeza pid tareas ts) n (crew_bytes ts)) in
    let l : 12 + length tareas ≡ length xs =
      omega (arith, length-append (cabeza pid tareas ts) n, length-cabeza pid tareas ts) in
    rw (e, l) (crew_entries-bytes xs ts h)
