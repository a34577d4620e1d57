-- ===== src/Store/Handler.antt =====
-- The handler of the messages, in atenderTripulantes.c, and the copy of the blocks to the disk.
-- Payloads are read as the code reads them, from bytes.
pub mod RoundTrip
pub mod Synced
use tp_2021_so_fin.Base.{
  ℕ, ◌+◌, ◌-◌, ◌*◌, Bool, List, [], ◌∷◌, ◌++◌, Option, none, some, ◌==◌, leb, if◌then◌else◌, length,
  take,
}
use tp_2021_so_fin.Base.Bytes.{Bytes, memcpy, get32}
use tp_2021_so_fin.Base.Texts.{read, until_nul, codes}
use tp_2021_so_fin.Store.State.{Fs, Result, done, fault, ◌>>=◌}
use tp_2021_so_fin.Store.Bitacora.{obtener_bitacora}
use tp_2021_so_fin.Store.Tasks.{
  Tarea, no_io, comando_tarea, escribir_en_bitacora, comienza_ejecutar_tarea,
  finaliza_ejecutar_tarea,
}
use tp_2021_so_fin.Store.Repair.{protocolo_fsck}

-- `enum COMANDOS`, as far as the handler reads it, and the two answers
abbrev pub obtener_bitacora_code : ℕ
obtener_bitacora_code = 760

abbrev pub mover_tripulante : ℕ
mover_tripulante = 761

abbrev pub comienza_ejecucion_tarea : ℕ
comienza_ejecucion_tarea = 762

abbrev pub finaliza_tarea : ℕ
finaliza_tarea = 763

abbrev pub atender_sabotaje : ℕ
atender_sabotaje = 764

abbrev pub respuesta_obtener_bitacora : ℕ
respuesta_obtener_bitacora = 766

abbrev pub invocar_fsk : ℕ
invocar_fsk = 771

abbrev pub error_no_existe_bitacora : ℕ
error_no_existe_bitacora = 773

-- What is sent back: the code, the text that is serialized, and the length of the payload.
pub record Respuesta : Type 0 where
  pub codigo : ℕ
  pub texto : List ℕ
  pub tamanio : ℕ

-- The round of `actualizarArchivoBlocks`: Blocks.ims becomes the copy.
unfoldable pub actualizar_archivo_blocks : Fs → Fs
unfolding memcpy
actualizar_archivo_blocks fs = record fs {
  disk_blocks = memcpy fs.disk_blocks 0 fs.copia_blocks 0 (fs.tamanio_bloque * fs.cantidad_bloques);
}

-- The answer to `OBTENER_BITACORA`: of a text, its last byte is left out.
unfoldable pub responder_bitacora : List ℕ → Respuesta
responder_bitacora bitacora =
    if length bitacora == 0
    then record {
      codigo = error_no_existe_bitacora;
      texto = codes "Nothing";
      tamanio = 4 + length bitacora;
    }
    else record {
      codigo = respuesta_obtener_bitacora;
      texto = take (length bitacora - 1) bitacora;
      tamanio = 4 + length bitacora;
    }

-- `string_itoa` is the commons' function.
unfoldable pub str_mover_tripulante : (ℕ → List ℕ) → ℕ → ℕ → ℕ → ℕ → ℕ → List ℕ
str_mover_tripulante itoa id xv yv xn yn =
    codes "Se mueve de "
    ++ itoa xv
    ++ codes "-"
    ++ itoa yv
    ++ codes " a "
    ++ itoa xn
    ++ codes "-"
    ++ itoa yn

-- the text of a task in a payload: `tamTarea` bytes, as a C string
unfoldable pub texto_tarea : Bytes → List ℕ
unfolding read until_nul get32
texto_tarea payload = until_nul (read payload 8 (get32 payload 4))

-- The copy of that text. `tamTarea` is an `int`: if it is negative, which here is from 2 ^ 31 on, or
-- `tamTarea + 1` overflows, `malloc` and `memcpy` get sizes that no block has.
unfoldable pub tarea_en : Bytes → Result (List ℕ)
unfolding texto_tarea
tarea_en payload = if leb 2147483647 (get32 payload 4) then fault else done (texto_tarea payload)

-- a message without an answer
abbrev pub callado : Result Fs → Result (Fs × Option Respuesta)
callado r = r >>= λ fs. done (fs, none)

-- A text that could not be read is a fault.
abbrev pub responder : Fs → Option (List ℕ) → Result (Fs × Option Respuesta)
unfolding responder_bitacora
responder fs none = fault
responder fs (some bitacora) = done (fs, some (responder_bitacora bitacora))

module _ (md5sum : List ℕ → List ℕ) (string_split : List ℕ → List (List ℕ)) (itoa : ℕ → List ℕ)
    (fuel : ℕ) (memoria : ℕ → Bool) where
  -- One message. The last case is the command that is not known.
  unfoldable pub handler : ℕ → Bytes → Fs → Result (Fs × Option Respuesta)
  unfolding tarea_en get32 obtener_bitacora responder_bitacora str_mover_tripulante
      escribir_en_bitacora comando_tarea comienza_ejecutar_tarea finaliza_ejecutar_tarea
      protocolo_fsck
  handler comando payload fs =
      let id = get32 payload 0 in
      if comando == atender_sabotaje
      then callado (
          escribir_en_bitacora md5sum fs
            (codes "Se corre en panico hacia la Ubicacion del Sabotaje|") id)
      else if comando == invocar_fsk
      then callado (protocolo_fsck md5sum string_split fuel memoria fs)
      else if comando == obtener_bitacora_code
      then responder fs (obtener_bitacora fs id)
      else if comando == mover_tripulante
      then callado (
          escribir_en_bitacora md5sum fs
            (str_mover_tripulante itoa id (get32 payload 4) (get32 payload 8) (get32 payload 12)
                (get32 payload 16)
              ++ codes "|")
            id)
      else if comando == comienza_ejecucion_tarea
      then callado (
          tarea_en payload >>= λ tarea.
          comienza_ejecutar_tarea md5sum fs tarea (get32 payload (8 + get32 payload 4)) id)
      else if comando == finaliza_tarea
      then callado (tarea_en payload >>= λ tarea. finaliza_ejecutar_tarea md5sum fs tarea id)
      else done (fs, none)
