-- ===== src/Store/Handler/Synced.antt =====
-- What the repairs read from the disk after a round of the copy.
use native.Mathlib.Nat.{mul-le-mul_right}
use tp_2021_so_fin.Base.{
  ℕ, suc, ◌+◌, ◌-◌, ◌*◌, ◌≤◌, ◌<◌, ◌≡◌, refl, ap, List, [], ◌∷◌, ◌++◌, arith, true, ltb, leb,
}
use tp_2021_so_fin.Base.Bytes.{memcpy}
use tp_2021_so_fin.Base.Counts.{count}
use tp_2021_so_fin.Base.Texts.{read-same}
use tp_2021_so_fin.Store.State.{Fs}
use tp_2021_so_fin.Store.Saving.Blocks.{block_text, blocks_text}
use tp_2021_so_fin.Store.Repair.{levantar}
use tp_2021_so_fin.Store.Handler.{actualizar_archivo_blocks}

block-synced :
    (fs : Fs) (b : ℕ)
    → b < fs.cantidad_bloques
    → block_text (actualizar_archivo_blocks fs).disk_blocks fs.tamanio_bloque b
      ≡ block_text fs.copia_blocks fs.tamanio_bloque b
unfolding actualizar_archivo_blocks memcpy
block-synced fs b h =
    read-same (actualizar_archivo_blocks fs).disk_blocks fs.copia_blocks (b * t) (b * t) t copied
  where
    t : ℕ
    t = fs.tamanio_bloque

    within : suc b * t ≤ fs.cantidad_bloques * t
    within = mul-le-mul_right t h

    copied :
        (j : ℕ)
        → j < t
        → (actualizar_archivo_blocks fs).disk_blocks (b * t + j) ≡ fs.copia_blocks (b * t + j)
    copied j l =
        let e : 0 + (b * t + j - 0) ≡ b * t + j = omega arith in
        let q = ap fs.copia_blocks e in
        let lo : leb 0 (b * t + j) ≡ true = ground arith in
        let hi : ltb (b * t + j) (0 + t * fs.cantidad_bloques) ≡ true = ground (arith, within) in
        rw (lo, hi) q

-- After a round of the copy, the repairs read from the disk, of a list of blocks that are less than
-- the number of blocks, the bytes that are in the memory of the process.
levantar-actualizar :
    (fs : Fs) (bs : List ℕ)
    → ((b : ℕ) → 0 < count b bs → b < fs.cantidad_bloques)
    → levantar (actualizar_archivo_blocks fs) bs ≡ blocks_text fs.copia_blocks fs.tamanio_bloque bs
unfolding actualizar_archivo_blocks levantar
levantar-actualizar fs [] h = refl
levantar-actualizar fs (b ∷ bs) h =
    let z = levantar-actualizar fs bs (λ c l. h c (omega arith)) in
    rw (block-synced fs b (h b (ground arith)))
      (ap (λ xs. block_text fs.copia_blocks fs.tamanio_bloque b ++ xs) z)
