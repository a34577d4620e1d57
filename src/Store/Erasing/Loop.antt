-- ===== src/Store/Erasing/Loop.antt =====
-- The loop of `borrarEnBlocks`, on a file whose values agree.
use tp_2021_so_fin.Base.{
  ℕ, zero, suc, ◌+◌, ◌-◌, ◌*◌, ◌≤◌, ◌<◌, ◌≡◌, refl, ap, ◌∙◌, true, false, List, [], ◌∷◌, some,
  arith, ltb, ◌==◌, Bool-cases, inl, inr, length, length-append,
}
use tp_2021_so_fin.Base.Bytes.{memset}
use tp_2021_so_fin.Base.Lists.{sum_by-append}
use tp_2021_so_fin.Base.Counts.{count, occurs}
use tp_2021_so_fin.Store.State.{
  File, Metadata, Fs, done, save, last, without_last, with_bit, max_bit,
}
use tp_2021_so_fin.Store.Bitacora.Filled.{last-split}
use tp_2021_so_fin.Store.Bitacora.Grown.{last-some}
use tp_2021_so_fin.Store.Bitacora.Appended.{same_file_refl}
use tp_2021_so_fin.Store.Erasing.{quitar_bloque, limpiar_bit, borrar_loop}
use tp_2021_so_fin.Store.Erasing.Erased.{
  IsConsistent, IsWithin, IsErased, desde, menos, menos-IsConsistent, block-IsErased, last-IsErased,
  nothing-IsErased,
}

quitar_bloque-eq :
    (n : ℕ) (bs : List ℕ)
    → n ≡ length bs
    → 2 ≤ length bs
    → quitar_bloque n bs ≡ done (without_last bs)
unfolding quitar_bloque
quitar_bloque-eq n [] e h = absurd (omega arith)
quitar_bloque-eq n (b ∷ []) e h = absurd (omega arith)
quitar_bloque-eq n (b ∷ c ∷ bs) e h =
    let z : n ≡ suc (suc (length bs)) = omega (arith, e) in rw z refl

loop-none : (fuel : ℕ) (fs : Fs) (f : File) → borrar_loop (suc fuel) fs f 0 ≡ done fs
unfolding borrar_loop
loop-none fuel fs f = refl

module _ (fuel : ℕ) (fs : Fs) (f : File) (m : Metadata) (a b : ℕ) (found : fs.files f ≡ some m)
    (at_end : last m.blocks ≡ some b) where
  loop-block :
      0 < a
      → m.size < a + desde fs m
      → b < max_bit fs
      → quitar_bloque m.block_count m.blocks ≡ done (without_last m.blocks)
      → borrar_loop (suc fuel) fs f a
        ≡ borrar_loop fuel (save (with_bit fs b false) f (menos fs m)) f (a + desde fs m - m.size)
  unfolding borrar_loop limpiar_bit
  loop-block pos h in_map q =
      let z : a == 0 ≡ false = ground arith in
      let l : ltb m.size (a + desde fs m) ≡ true = ground arith in
      let c : ltb b (max_bit fs) ≡ true = ground arith in
      rw (borrar_loop, z, found, at_end, l, limpiar_bit, c, q) refl

  loop-last :
      0 < a
      → a + desde fs m ≤ m.size
      → b * fs.tamanio_bloque + (m.size + 1) ≤ fs.cantidad_bloques * fs.tamanio_bloque
      → borrar_loop (suc fuel) fs f a
        ≡ done (
            save
              (record fs {
                copia_blocks =
                    memset fs.copia_blocks
                      (b * fs.tamanio_bloque + (m.size - desde fs m - a))
                      b'|'
                      1;
              })
              f
              (record m { size = m.size - a }))
  unfolding borrar_loop
  loop-last pos h on_disk =
      let z : a == 0 ≡ false = ground arith in
      let l : ltb m.size (a + desde fs m) ≡ false = ground arith in
      let d : ltb (b * fs.tamanio_bloque + (m.size - desde fs m - a))
            (fs.cantidad_bloques * fs.tamanio_bloque)
          ≡ true =
        ground arith in
      rw (borrar_loop, z, found, at_end, l, d) refl

two_blocks : (n t size a : ℕ) → a < size → size < a + (n * t - t) → 2 ≤ n
two_blocks zero t size a l h = omega arith
two_blocks (suc zero) t size a l h = omega arith
two_blocks (suc (suc n)) t size a l h = omega arith

last-count : (bs : List ℕ) (b : ℕ) → last bs ≡ some b → 0 < count b bs
last-count bs b e = omega (
  arith,
  ap (count b) (last-split bs b e),
  sum_by-append (occurs b) (without_last bs) (b ∷ []),
  uno b,
)
  where
    uno : (b : ℕ) → occurs b b ≡ 1
    uno b = ground arith

menos-IsWithin :
    (fs : Fs) (m : Metadata) (b : ℕ) (f : File)
    → last m.blocks ≡ some b
    → IsWithin fs m.blocks m.size
    → desde fs m ≤ m.size
    → IsWithin (save (with_bit fs b false) f (menos fs m)) (without_last m.blocks) (desde fs m)
menos-IsWithin fs m b f e w le = record {
  in_map = λ i h. w.in_map i (antes i h);
  on_disk = λ i h. let z = w.on_disk i (antes i h) in omega arith;
}
  where
    antes : (i : ℕ) → 0 < count i (without_last m.blocks) → 0 < count i m.blocks
    antes i h = omega (
      arith,
      h,
      ap (count i) (last-split m.blocks b e),
      sum_by-append (occurs i) (without_last m.blocks) (b ∷ []),
    )

-- On a file whose values agree, whose blocks are in the map and on the disk, and that has more bytes
-- than are to go, as many rounds are enough as
-- the file has blocks, and one more.
pub borrar_loop-IsErased :
    (fuel : ℕ) (fs : Fs) (f : File) (m : Metadata) (a : ℕ)
    → 0 < fs.tamanio_bloque
    → fs.files f ≡ some m
    → IsConsistent fs.tamanio_bloque m
    → IsWithin fs m.blocks m.size
    → a < m.size
    → length m.blocks < fuel
    → IsErased fs f m a (borrar_loop fuel fs f a)
borrar_loop-IsErased zero fs f m a l found h w some_left enough = absurd (omega arith)
borrar_loop-IsErased (suc fuel) fs f m a l found h w some_left enough = elim (Bool-cases (a == 0)) [
  | inl nothing ↦
      let z : a ≡ 0 = ground arith in rw (z, loop-none fuel fs f) (nothing-IsErased fs f m found h)
  | inr some_bytes ↦
      let (b, at_end) = last-some m.blocks (has (length m.blocks) h.below) in
      elim (Bool-cases (ltb m.size (a + desde fs m))) [
        | inl whole ↦
            let two =
              two_blocks (length m.blocks) fs.tamanio_bloque m.size a some_left (ground arith) in
            let q = quitar_bloque-eq m.block_count m.blocks h.counted two in
            let shorter =
              ap length (last-split m.blocks b at_end)
              ∙ length-append (without_last m.blocks) (b ∷ []) in
            let same = same_file_refl f in
            rw
              (loop-block fuel fs f m a b found at_end (ground arith) (ground arith)
                (w.in_map b (ultimo b at_end)) q)
              (block-IsErased fs f m a b _ at_end l two h (ground arith) (
                borrar_loop-IsErased fuel (save (with_bit fs b false) f (menos fs m)) f (menos fs m)
                  (a + desde fs m - m.size) l (rw same refl)
                  (menos-IsConsistent fs.tamanio_bloque m b a l at_end h two)
                  (menos-IsWithin fs m b f at_end w (omega (arith, h.above)))
                  (ground (arith, h.above)) (omega (arith, shorter))))
        | inr piece ↦
            rw
              (loop-last fuel fs f m a b found at_end (ground arith) (ground arith)
                (w.on_disk b (ultimo b at_end)))
              (last-IsErased fs f m a b at_end (ground arith) h (ground arith))
      ]
]
  where
    has : (n : ℕ) → m.size ≤ n * fs.tamanio_bloque → 0 < n
    has zero le = omega (arith, some_left)
    has (suc n) le = omega arith

    ultimo : (b : ℕ) → last m.blocks ≡ some b → 0 < count b m.blocks
    ultimo b e = last-count m.blocks b e
