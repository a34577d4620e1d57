-- ===== src/Store/Handler/RoundTrip.antt =====
-- A message that notes something in a bitácora, and the one that asks for it.
use mathlib.Core.List.{append_assoc}
use tp_2021_so_fin.Base.{
  ℕ, ◌+◌, ◌-◌, ◌≤◌, ◌<◌, ◌≡◌, refl, ap, sym, ◌∙◌, Bool, false, List, [], ◌∷◌, ◌++◌, none, some,
  arith, leb, ◌==◌, Bool-cases, inl, inr, length, take, length-append,
}
use tp_2021_so_fin.Base.Lists.{sum_by-append}
use tp_2021_so_fin.Base.Bytes.{Bytes, get32}
use tp_2021_so_fin.Base.Counts.{occurs}
use tp_2021_so_fin.Base.Texts.{until_nul, read, codes}
use tp_2021_so_fin.Store.State.{Fs, done}
use tp_2021_so_fin.Store.Saving.Blocks.{take-append_short, take-all}
use tp_2021_so_fin.Store.Bitacora.{obtener_bitacora}
use tp_2021_so_fin.Store.Bitacora.Stored.{IsText}
use tp_2021_so_fin.Store.Tasks.{escribir_en_bitacora, finaliza_ejecutar_tarea}
use tp_2021_so_fin.Store.Tasks.Written.{
  IsStored, capacidad, escribir_en_bitacora-IsStored, obtener_bitacora-IsStored,
}
use tp_2021_so_fin.Store.Handler.{
  handler, callado, responder, texto_tarea, tarea_en, responder_bitacora, finaliza_tarea,
  obtener_bitacora_code, respuesta_obtener_bitacora,
}

until_nul-IsText : (xs : List ℕ) → IsText (until_nul xs)
unfolding until_nul
until_nul-IsText [] = refl
until_nul-IsText (x ∷ xs) = elim (Bool-cases (x == 0)) [
  | inl nul ↦ rw nul refl
  | inr other ↦ let z = until_nul-IsText xs in rw other (ground arith)
]

texto_tarea-IsText : (payload : Bytes) → IsText (texto_tarea payload)
unfolding texto_tarea
texto_tarea-IsText payload = until_nul-IsText (read payload 8 (get32 payload 4))

IsText-append : (xs ys : List ℕ) → IsText xs → IsText ys → IsText (xs ++ ys)
IsText-append xs ys h k = omega (arith, h, k, sum_by-append (occurs 0) xs ys)

take-last : (xs : List ℕ) (c : ℕ) → take (length (xs ++ c ∷ []) - 1) (xs ++ c ∷ []) ≡ xs
take-last xs c =
    let e : length (xs ++ c ∷ []) - 1 ≡ length xs = omega (arith, length-append xs (c ∷ [])) in
    ap (λ n. take n (xs ++ c ∷ [])) e
    ∙ take-append_short (length xs) xs (c ∷ []) (omega arith)
    ∙ take-all (length xs) xs (omega arith)

responder_bitacora-bar :
    (xs : List ℕ)
    → responder_bitacora (xs ++ b'|' ∷ [])
      ≡ record { codigo = respuesta_obtener_bitacora; texto = xs; tamanio = 5 + length xs }
unfolding responder_bitacora
responder_bitacora-bar xs =
    let z : length (xs ++ b'|' ∷ []) == 0 ≡ false = ground (arith, length-append xs (b'|' ∷ [])) in
    let s : 4 + length (xs ++ b'|' ∷ []) ≡ 5 + length xs =
      omega (arith, length-append xs (b'|' ∷ [])) in
    rw (z, take-last xs b'|', s) refl

-- the text that `FINALIZA_TAREA` notes, without its bar
abbrev pub nota : Bytes → List ℕ
nota payload = codes "FINALIZA_EJECUCION_TAREA " ++ texto_tarea payload

module _ (md5sum : List ℕ → List ℕ) (string_split : List ℕ → List (List ℕ)) (itoa : ℕ → List ℕ)
    (fuel : ℕ) (memoria : ℕ → Bool) where
  handler-finaliza :
      (payload : Bytes) (fs fs' : Fs)
      → get32 payload 4 < 2147483647
      → escribir_en_bitacora md5sum fs (nota payload ++ b'|' ∷ []) (get32 payload 0) ≡ done fs'
      → handler md5sum string_split itoa fuel memoria finaliza_tarea payload fs ≡ done (fs', none)
  unfolding handler finaliza_ejecutar_tarea tarea_en
  handler-finaliza payload fs fs' h e =
      let b : leb 2147483647 (get32 payload 4) ≡ false = ground arith in rw b (ap callado e)

  handler-obtener :
      (payload : Bytes) (fs : Fs) (texto : List ℕ)
      → obtener_bitacora fs (get32 payload 0) ≡ some texto
      → handler md5sum string_split itoa fuel memoria obtener_bitacora_code payload fs
        ≡ done (fs, some (responder_bitacora texto))
  unfolding handler obtener_bitacora responder
  handler-obtener payload fs texto e = ap (responder fs) e

-- After `FINALIZA_TAREA` with a task whose length and one more is an `int`, for a tripulante whose
-- bitácora has room for the note, the answer to
-- `OBTENER_BITACORA` for the same tripulante is what the bitácora held before, and then the note,
-- without its bar; both messages are done.
pub handler-noted :
    (md5sum : List ℕ → List ℕ) (string_split : List ℕ → List (List ℕ)) (itoa : ℕ → List ℕ)
    (fuel : ℕ) (memoria : ℕ → Bool) (payload pregunta : Bytes) (fs : Fs) (texto : List ℕ)
    → 0 < fs.tamanio_bloque
    → get32 payload 4 < 2147483647
    → get32 pregunta 0 ≡ get32 payload 0
    → IsStored fs (get32 payload 0) texto
    → IsText texto
    → length texto + (length (nota payload) + 1) ≤ capacidad fs (get32 payload 0)
    → (fs' : Fs) × (handler md5sum string_split itoa fuel memoria finaliza_tarea payload fs
        ≡ done (fs', none))
      × (handler md5sum string_split itoa fuel memoria obtener_bitacora_code pregunta fs'
          ≡ done (
            fs',
            some (record {
              codigo = respuesta_obtener_bitacora;
              texto = texto ++ nota payload;
              tamanio = 5 + length (texto ++ nota payload);
            }),
          ))
handler-noted md5sum string_split itoa fuel memoria payload pregunta fs texto l h same stored text
      room =
    let nuevo = nota payload ++ b'|' ∷ [] in
    let ln : length nuevo ≡ length (nota payload) + 1 = length-append (nota payload) (b'|' ∷ []) in
    let lp = length-append (codes "FINALIZA_EJECUCION_TAREA ") (texto_tarea payload) in
    let (fs', returned, now, others) =
      escribir_en_bitacora-IsStored md5sum fs (get32 payload 0) texto nuevo l
        (omega (arith, ln, lp)) stored (omega (arith, ln, room)) in
    let is_text : IsText (texto ++ nuevo) = IsText-append texto nuevo text (
      IsText-append (nota payload) (b'|' ∷ [])
        (IsText-append (codes "FINALIZA_EJECUCION_TAREA ") (texto_tarea payload) refl
          (texto_tarea-IsText payload))
        refl) in
    let read_back = obtener_bitacora-IsStored fs' (get32 payload 0) (texto ++ nuevo) now is_text in
    (
      fs',
      handler-finaliza md5sum string_split itoa fuel memoria payload fs fs' h returned,
      handler-obtener md5sum string_split itoa fuel memoria pregunta fs' (texto ++ nuevo)
            (ap (obtener_bitacora fs') same ∙ read_back)
          ∙ ap (λ r. done (fs', some r))
              (ap responder_bitacora (sym (append_assoc texto (nota payload) (b'|' ∷ [])))
                ∙ responder_bitacora-bar (texto ++ nota payload)),
    )
