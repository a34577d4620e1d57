-- ===== src/Store/Bitacora/Appended.antt =====
-- `guardarEnBlocks` on a bitácora: a text is put behind the one that is there.
use tp_2021_so_fin.Base.{
  ℕ, ◌+◌, ◌*◌, ◌≤◌, ◌<◌, ◌≡◌, refl, ap, ◌∙◌, true, false, List, ◌++◌, some, arith, length,
  length-append,
}
use tp_2021_so_fin.Base.Bytes.{Bytes}
use tp_2021_so_fin.Base.Counts.{count, IsDistinct, clear_bits}
use tp_2021_so_fin.Store.State.{
  File, Metadata, Fs, Result, done, save, max_bit, cantidad_bloques, same_file,
}
use tp_2021_so_fin.Store.Saving.{guardar_por_bloque, guardar_resto}
use tp_2021_so_fin.Store.Saving.Blocks.{block_text, blocks_text}
use tp_2021_so_fin.Store.Saving.Saved.{IsSaved}
use tp_2021_so_fin.Store.Saving.Whole.{guardar_por_bloque-IsSaved}
use tp_2021_so_fin.Store.Bitacora.Stored.{IsHeld, IsBitacora, written}
use tp_2021_so_fin.Store.Bitacora.Rest.{
  cantidad_bloques-le, cantidad_bloques-gt, guardar_resto-done, saved-IsHeld,
}

-- The call returns, the file holds the text, and the other files and their blocks are as they were.
pub record IsAppended (fs : Fs) (m : Metadata) (f : File) (texto : List ℕ) (r : Result Fs)
    : Type 0 where
  pub fs' : Fs
  pub m' : Metadata
  pub returned : r ≡ done fs'
  pub found : fs'.files f ≡ some m'
  pub held : IsBitacora fs' m' texto
  pub others : (g : File) → same_file f g ≡ false → fs'.files g ≡ fs.files g
  pub kept :
      (b : ℕ)
      → fs.bitmap b ≡ true
      → count b m.blocks ≡ 0
      → (block_text fs'.copia_blocks fs.tamanio_bloque b
          ≡ block_text fs.copia_blocks fs.tamanio_bloque b)
        × (fs'.bitmap b ≡ true)

pub same_file_refl : (f : File) → same_file f f ≡ true
same_file_refl File.oxigeno = refl
same_file_refl File.comida = refl
same_file_refl File.basura = refl
same_file_refl (File.tripulante i) = ground arith

pub IsHeld-save :
    (fs : Fs) (f : File) (m : Metadata) (bs texto : List ℕ)
    → IsHeld fs bs texto
    → IsHeld (save fs f m) bs texto
IsHeld-save fs f m bs texto h = record {
  fits = h.fits;
  filled = h.filled;
  texted = h.texted;
  used = h.used;
  distinct = h.distinct;
}

-- What is left of the text goes to free blocks, once the blocks of the file are full.
module _ (md5sum : List ℕ → List ℕ) (fs : Fs) (m : Metadata) (f : File) (c : Bytes) (s1 : ℕ)
    (texto resto : List ℕ) (full : blocks_text c fs.tamanio_bloque m.blocks ≡ texto)
    (used : (b : ℕ) → 0 < count b m.blocks → fs.bitmap b ≡ true) (distinct : IsDistinct m.blocks)
    (l : 0 < fs.tamanio_bloque) (some_text : 0 < length resto) (long : 2 ≤ length (texto ++ resto))
    (sized : s1 ≡ length texto)
    (c-kept : (b : ℕ)
      → count b m.blocks ≡ 0
      → block_text c fs.tamanio_bloque b ≡ block_text fs.copia_blocks fs.tamanio_bloque b)
    (room : length resto ≤ clear_bits (max_bit fs) fs.bitmap 0 * fs.tamanio_bloque) where
  abbrev fs1 : Fs
  fs1 = record fs { copia_blocks = c }

  abbrev m1 : Metadata
  m1 = record m { size = s1 }

  abbrev k : ℕ
  k = cantidad_bloques fs.tamanio_bloque (length resto)

  abbrev out : Fs × Metadata
  out = guardar_por_bloque fs1 resto k false m1

  saved : IsSaved fs1 m1 k resto false 0 (max_bit fs) out
  saved =
      guardar_por_bloque-IsSaved fs1 resto false m1 l some_text
        (cantidad_bloques-le fs.tamanio_bloque (length resto) _ l some_text room)

  size_after : out.1.size + 1 ≡ length (texto ++ resto)
  size_after =
      let z = saved.sized in
      let q = cantidad_bloques-gt fs.tamanio_bloque (length resto) 0 l (omega arith) in
      ground (arith, length-append texto resto)

  marked : (b : ℕ) → fs.bitmap b ≡ true → out.0.bitmap b ≡ true
  marked b u = ground (arith, saved.bits b)

  pub resto-IsAppended :
      IsAppended fs m f (texto ++ resto) (guardar_resto md5sum fs resto f false (fs1, m1))
  resto-IsAppended = record {
    fs' = save out.0 f out.1;
    m' = out.1;
    returned = guardar_resto-done md5sum fs resto f (fs1, m1) l some_text room;
    found = let e = same_file_refl f in rw e refl;
    held = written (texto ++ resto) (omega (arith, size_after)) size_after (
        IsHeld-save out.0 f out.1 out.1.blocks (texto ++ resto) (
          saved-IsHeld fs1 m1 texto resto false (max_bit fs) out full used distinct l some_text
            saved));
    others = λ g e. rw e (ap (λ s. s.files g) saved.same);
    kept = λ b u n. (saved.kept b u ∙ c-kept b n, marked b u);
  }
