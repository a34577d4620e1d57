-- ===== src/Store/Erasing.antt =====
-- `borrarEnBlocks`: as many bytes as a text has are taken off the end of a resource.
pub mod Erased
pub mod Loop
pub mod Whole
use tp_2021_so_fin.Base.{
  ℕ, zero, suc, ◌+◌, ◌-◌, ◌*◌, Bool, true, false, ◌||◌, List, [], ◌∷◌, Option, none, some, ltb, leb,
  ◌==◌, if◌then◌else◌, length,
}
use tp_2021_so_fin.Base.Bytes.{Bytes, memset}
use tp_2021_so_fin.Store.State.{
  File, Metadata, Fs, Result, done, fault, ◌>>=◌, save, last, without_last, with_bit, max_bit,
}
use tp_2021_so_fin.Store.Saving.{setear_md5}

-- `bitarray_clean_bit`, which writes past the map for a number that is not in it: a fault
unfoldable pub limpiar_bit : Fs → ℕ → Result Fs
limpiar_bit fs b = if ltb b (max_bit fs) then done (with_bit fs b false) else fault

unfoldable pub liberar_bloques : Fs → List ℕ → Result Fs
unfolding limpiar_bit
liberar_bloques fs [] = done fs
liberar_bloques fs (b ∷ bs) = limpiar_bit fs b >>= λ fs'. liberar_bloques fs' bs

-- `actualizarBlocks` on the text of the list, after BLOCK_COUNT has become `count - 1`: for 0 the
-- list is empty, and otherwise it ends before its last comma. With no comma what is left is no
-- list, and a count below 0 has no place in the model: `fault`.
unfoldable pub quitar_bloque : ℕ → List ℕ → Result (List ℕ)
quitar_bloque zero bs = fault
quitar_bloque (suc zero) bs = done []
quitar_bloque (suc (suc n)) [] = fault
quitar_bloque (suc (suc n)) (b ∷ []) = fault
quitar_bloque (suc (suc n)) (b ∷ c ∷ bs) = done (without_last (b ∷ c ∷ bs))

-- The loop, with at most `fuel` rounds; `fault` if they are too few. `desde` is where the last
-- block starts in the file, so that `posicion` is `size - desde`, which may be below 0. To write past
-- `copiaBlocks` is a fault.
unfoldable pub borrar_loop : ℕ → Fs → File → ℕ → Result Fs
unfolding quitar_bloque limpiar_bit memset
borrar_loop zero fs f a_borrar = fault
borrar_loop (suc fuel) fs f a_borrar = elim (a_borrar == 0) [
  | true ↦ done fs
  | false ↦ elim (fs.files f) [
    | none ↦ fault
    | some m ↦ elim (last m.blocks) [
      | none ↦ fault
      | some b ↦
          let t = fs.tamanio_bloque in
          let desde = length m.blocks * t - t in
          elim (ltb m.size (a_borrar + desde)) [
            | true ↦
                (limpiar_bit fs b >>= λ fs'. quitar_bloque m.block_count m.blocks >>= λ blocks.
                borrar_loop fuel
                  (save fs' f
                    (record m { size = desde; block_count = m.block_count - 1; blocks = blocks }))
                  f (a_borrar + desde - m.size))
            | false ↦
                let bar = b * t + (m.size - desde - a_borrar) in
                if ltb bar (fs.cantidad_bloques * t)
                then done (
                    save (record fs { copia_blocks = memset fs.copia_blocks bar b'|' 1 }) f
                      (record m { size = m.size - a_borrar }))
                else fault
          ]
    ]
  ]
]

module _ (md5sum : List ℕ → List ℕ) where
  -- A file that is not larger than the text loses all its blocks.
  unfoldable pub borrar_en_blocks : Fs → List ℕ → File → Result Fs
  unfolding liberar_bloques borrar_loop setear_md5
  borrar_en_blocks fs texto f = elim (fs.files f) [
    | none ↦ fault
    | some m ↦
        (if leb m.size (length texto)
          then (liberar_bloques fs m.blocks >>= λ fs'.
              done (save fs' f (record m { size = 0; block_count = 0; blocks = [] })))
          else borrar_loop (length m.blocks + 2) fs f (length texto))
        >>= λ fs'. setear_md5 md5sum fs' f
  ]
