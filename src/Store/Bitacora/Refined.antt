-- ===== src/Store/Bitacora/Refined.antt =====
-- A bitácora as the text that it holds: `guardarEnBlocks` adds to it and `obtenerBitacora` reads it.
use tp_2021_so_fin.Base.{
  ℕ, ◌+◌, ◌*◌, ◌≤◌, ◌<◌, ◌≡◌, refl, ap, true, false, List, [], ◌∷◌, ◌++◌, some, arith, ◌==◌, length,
}
use tp_2021_so_fin.Base.Counts.{count, clear_bits}
use tp_2021_so_fin.Store.State.{File, Metadata, Fs, done, exited, max_bit}
use tp_2021_so_fin.Store.Saving.{guardar_en_blocks}
use tp_2021_so_fin.Store.Bitacora.Stored.{IsHeld, IsBitacora, nothing_yet, written}
use tp_2021_so_fin.Store.Bitacora.{obtener_bitacora}
use tp_2021_so_fin.Store.Bitacora.Stored.{IsText}
use tp_2021_so_fin.Store.Bitacora.Obtained.{obtener_bitacora-IsBitacora}
use tp_2021_so_fin.Store.Bitacora.Grown.{last-some, bitacora-IsAppended, bitacora-exited}
use tp_2021_so_fin.Store.Bitacora.Appended.{IsAppended, resto-IsAppended}
use tp_2021_so_fin.Store.Bitacora.Rest.{guardar_resto-exited}

held-some : (fs : Fs) (bs texto : List ℕ) → 2 ≤ length texto → IsHeld fs bs texto → 0 < length bs
held-some fs [] texto l h = let z = h.fits in absurd (omega arith)
held-some fs (b ∷ bs) texto l h = omega arith

-- Where a bitácora holds a text of two bytes or more, or nothing yet, and the text to be added, of
-- two bytes or more, fits in what is left of its last block and in the free blocks, the call
-- returns: the bitácora holds the old text and then the new one, the other files are the same, and
-- so are the bytes of every used block of theirs, which stays used.
pub guardar_en_blocks-IsAppended :
    (md5sum : List ℕ → List ℕ) (fs : Fs) (m : Metadata) (f : File) (texto nuevo : List ℕ)
    → 0 < fs.tamanio_bloque
    → 2 ≤ length nuevo
    → fs.files f ≡ some m
    → IsBitacora fs m texto
    → length texto + length nuevo
      ≤ (length m.blocks + clear_bits (max_bit fs) fs.bitmap 0) * fs.tamanio_bloque
    → IsAppended fs m f (texto ++ nuevo) (guardar_en_blocks md5sum fs nuevo f false)
unfolding guardar_en_blocks
guardar_en_blocks-IsAppended md5sum fs m f [] nuevo l long found (nothing_yet z n) room =
    let e : m.size == 0 ≡ true = ground arith in
    let c = ap (λ bs. (length bs + clear_bits (max_bit fs) fs.bitmap 0) * fs.tamanio_bloque) n in
    rw (guardar_en_blocks, found, e)
      (resto-IsAppended md5sum fs m f fs.copia_blocks m.size [] nuevo (rw n refl)
        (λ b h. absurd (omega (arith, ap (count b) n))) (λ b. omega (arith, ap (count b) n)) l
        (omega arith) long z (λ b h. refl) (omega (arith, c)))
guardar_en_blocks-IsAppended md5sum fs m f texto nuevo l long found (written _ pos sized held)
      room =
    let (b, at_end) =
      last-some m.blocks (held-some fs m.blocks texto (omega (arith, sized)) held) in
    let e : m.size == 0 ≡ false = ground arith in
    rw (guardar_en_blocks, found, e)
      (bitacora-IsAppended md5sum fs m f texto nuevo b l long at_end sized held room)

-- Where a bitácora holds a text of two bytes or more, or nothing yet, and the text to be added, of
-- two bytes or more, does not fit in what is left of its last block and in the free blocks, the
-- process ends.
pub guardar_en_blocks-exited :
    (md5sum : List ℕ → List ℕ) (fs : Fs) (m : Metadata) (f : File) (texto nuevo : List ℕ)
    → 0 < fs.tamanio_bloque
    → 2 ≤ length nuevo
    → fs.files f ≡ some m
    → IsBitacora fs m texto
    → (length m.blocks + clear_bits (max_bit fs) fs.bitmap 0) * fs.tamanio_bloque
      < length texto + length nuevo
    → guardar_en_blocks md5sum fs nuevo f false ≡ exited
unfolding guardar_en_blocks
guardar_en_blocks-exited md5sum fs m f [] nuevo l long found (nothing_yet z n) room =
    let e : m.size == 0 ≡ true = ground arith in
    let c = ap (λ bs. (length bs + clear_bits (max_bit fs) fs.bitmap 0) * fs.tamanio_bloque) n in
    rw (guardar_en_blocks, found, e)
      (guardar_resto-exited md5sum fs nuevo f (fs, m) l (omega arith) (omega (arith, c)))
guardar_en_blocks-exited md5sum fs m f texto nuevo l long found (written _ pos sized held) room =
    let (b, at_end) =
      last-some m.blocks (held-some fs m.blocks texto (omega (arith, sized)) held) in
    let e : m.size == 0 ≡ false = ground arith in
    rw (guardar_en_blocks, found, e)
      (bitacora-exited md5sum fs m f texto nuevo b l long at_end sized held room)

-- Where the text to be added fits, as above, and with no terminator in the old and the new text, what
-- `obtener_bitacora` returns after it is the old text and then the new one.
pub obtener_bitacora-guardar_en_blocks :
    (md5sum : List ℕ → List ℕ) (fs : Fs) (m : Metadata) (id : ℕ) (texto nuevo : List ℕ)
    → 0 < fs.tamanio_bloque
    → 2 ≤ length nuevo
    → fs.files (File.tripulante id) ≡ some m
    → IsBitacora fs m texto
    → length texto + length nuevo
      ≤ (length m.blocks + clear_bits (max_bit fs) fs.bitmap 0) * fs.tamanio_bloque
    → IsText (texto ++ nuevo)
    → (fs' : Fs) × (guardar_en_blocks md5sum fs nuevo (File.tripulante id) false ≡ done fs')
      × (obtener_bitacora fs' id ≡ some (texto ++ nuevo))
obtener_bitacora-guardar_en_blocks md5sum fs m id texto nuevo l long found stored room text =
    let a =
      guardar_en_blocks-IsAppended md5sum fs m (File.tripulante id) texto nuevo l long found stored
        room in
    (
      a.fs',
      a.returned,
      obtener_bitacora-IsBitacora a.fs' id a.m' (texto ++ nuevo) a.found a.held text,
    )
