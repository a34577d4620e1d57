-- ===== src/Store/Bitacora.antt =====
-- `obtenerBitacora`: the text of a bitácora.
pub mod Stored
pub mod Refined
pub mod Grown
pub mod Appended
pub mod Rest
pub mod Filled
pub mod Obtained
use tp_2021_so_fin.Base.{
  ℕ, ◌+◌, ◌-◌, ◌*◌, List, [], ◌∷◌, ◌++◌, Option, none, some, ltb, if◌then◌else◌, length,
}
use tp_2021_so_fin.Base.Bytes.{Bytes}
use tp_2021_so_fin.Base.Texts.{read, until_nul}
use tp_2021_so_fin.Store.State.{File, Metadata, Fs}

-- The loop, on the text so far. More text than the file has would make the size of the last piece
-- negative: `none`.
unfoldable pub obtener_loop : Fs → ℕ → List ℕ → List ℕ → Option (List ℕ)
unfolding read until_nul
obtener_loop fs total buffer [] = some buffer
obtener_loop fs total buffer (b ∷ []) =
    if ltb total (length buffer)
    then none
    else some
        (buffer ++ until_nul (read fs.copia_blocks (b * fs.tamanio_bloque) (total - length buffer)))
obtener_loop fs total buffer (b ∷ c ∷ bs) =
    obtener_loop fs total
      (buffer ++ until_nul (read fs.copia_blocks (b * fs.tamanio_bloque) fs.tamanio_bloque))
      (c ∷ bs)

-- For a tripulante without a bitácora the text is empty.
unfoldable pub obtener_bitacora : Fs → ℕ → Option (List ℕ)
unfolding obtener_loop
obtener_bitacora fs id = elim (fs.files (File.tripulante id)) [
  | none ↦ some []
  | some m ↦ obtener_loop fs (m.size + 1) [] m.blocks
]
