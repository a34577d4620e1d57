-- ===== src/Store/Erasing/Erased.antt =====
-- What is left of a file after bytes are taken off its end: a round of `borrarEnBlocks` and the
-- rounds that follow.
use mathlib.Core.List.{append-nil, append_assoc}
use tp_2021_so_fin.Base.{
  ℕ, ◌+◌, ◌-◌, ◌*◌, ◌≤◌, ◌<◌, ◌≡◌, refl, ap, sym, ◌∙◌, Bool, false, List, [], ◌∷◌, ◌++◌, some,
  arith, ltb, ◌==◌, if◌then◌else◌, Bool-cases, inl, inr, length, length-append,
}
use tp_2021_so_fin.Base.Lists.{sum_by-append}
use tp_2021_so_fin.Base.Bytes.{memset}
use tp_2021_so_fin.Base.Counts.{count, occurs}
use tp_2021_so_fin.Store.State.{
  File, Metadata, Fs, Result, done, same_file, save, last, without_last, with_bit, max_bit,
}
use tp_2021_so_fin.Store.Bitacora.Filled.{last-split}
use tp_2021_so_fin.Store.Bitacora.Appended.{same_file_refl}

-- BLOCK_COUNT is the length of the list, and SIZE ends in the last block.
pub record IsConsistent (t : ℕ) (m : Metadata) : Type 0 where
  pub counted : m.block_count ≡ length m.blocks
  pub above : length m.blocks * t ≤ m.size + t
  pub below : m.size ≤ length m.blocks * t

-- The blocks of a list are in the bitmap and on the disk, and as many bytes as `size` says, and one
-- more, from the start of each on.
pub record IsWithin (fs : Fs) (bs : List ℕ) (size : ℕ) : Type 0 where
  pub in_map : (b : ℕ) → 0 < count b bs → b < max_bit fs
  pub on_disk :
      (b : ℕ)
      → 0 < count b bs
      → b * fs.tamanio_bloque + (size + 1) ≤ fs.cantidad_bloques * fs.tamanio_bloque

-- `a` bytes are taken off the end: the last blocks are freed, and behind what is left stands a bar.
pub record IsErased (fs : Fs) (f : File) (m : Metadata) (a : ℕ) (r : Result Fs) : Type 0 where
  pub fs' : Fs
  pub m' : Metadata
  pub quitados : List ℕ
  pub returned : r ≡ done fs'
  pub found : fs'.files f ≡ some m'
  pub sized : m'.size + a ≡ m.size
  pub consistent : IsConsistent fs.tamanio_bloque m'
  pub blocks : m.blocks ≡ m'.blocks ++ quitados
  pub bits : (b : ℕ) → fs'.bitmap b ≡ (if ltb 0 (count b quitados) then false else fs.bitmap b)
  pub bar :
      0 < a
      → (b : ℕ) × (last m'.blocks ≡ some b)
        × (fs'.copia_blocks
            ≡ memset fs.copia_blocks
                (b * fs.tamanio_bloque
                  + (m'.size - (length m'.blocks * fs.tamanio_bloque - fs.tamanio_bloque)))
                b'|'
                1)
  pub others : (g : File) → same_file f g ≡ false → fs'.files g ≡ fs.files g
  pub same_size : fs'.tamanio_bloque ≡ fs.tamanio_bloque
  pub same_count : fs'.cantidad_bloques ≡ fs.cantidad_bloques

-- where the last block of a file starts in it
abbrev pub desde : Fs → Metadata → ℕ
desde fs m = length m.blocks * fs.tamanio_bloque - fs.tamanio_bloque

abbrev pub menos : Fs → Metadata → Metadata
menos fs m = record m {
  size = desde fs m;
  block_count = m.block_count - 1;
  blocks = without_last m.blocks;
}

-- the file as it is after a round that frees its last block
pub menos-IsConsistent :
    (t : ℕ) (m : Metadata) (b a : ℕ)
    → 0 < t
    → last m.blocks ≡ some b
    → IsConsistent t m
    → 2 ≤ length m.blocks
    → IsConsistent t (record m {
      size = length m.blocks * t - t;
      block_count = m.block_count - 1;
      blocks = without_last m.blocks;
    })
menos-IsConsistent t m b a l at_end h two =
    let n : length m.blocks ≡ length (without_last m.blocks) + 1 =
      ap length (last-split m.blocks b at_end) ∙ length-append (without_last m.blocks) (b ∷ []) in
    let p = ap (λ x. x * t) n in
    record {
      counted = omega (arith, n, h.counted);
      above = omega (arith, p);
      below = omega (arith, p);
    }

bits-append :
    (b : ℕ) (qs : List ℕ) (i : ℕ) (x : Bool)
    → (if ltb 0 (count i qs) then false else (if i == b then false else x))
      ≡ (if ltb 0 (count i (qs ++ b ∷ [])) then false else x)
bits-append b qs i x =
    let z : count i (qs ++ b ∷ []) ≡ count i qs + count i (b ∷ []) =
      sum_by-append (occurs i) qs (b ∷ []) in
    rw z (elim (Bool-cases (i == b)) [
      | inl here ↦ let o : occurs i b ≡ 1 = ground arith in ground arith
      | inr there ↦ let o : occurs i b ≡ 0 = ground arith in ground arith
    ])

-- a round that frees a block, and then the others
pub block-IsErased :
    (fs : Fs) (f : File) (m : Metadata) (a b : ℕ) (r : Result Fs)
    → last m.blocks ≡ some b
    → 0 < fs.tamanio_bloque
    → 2 ≤ length m.blocks
    → IsConsistent fs.tamanio_bloque m
    → m.size < a + desde fs m
    → IsErased
        (save (with_bit fs b false) f (menos fs m))
        f
        (menos fs m)
        (a + desde fs m - m.size)
        r
    → IsErased fs f m a r
block-IsErased fs f m a b r at_end l two h whole e = record {
  fs' = e.fs';
  m' = e.m';
  quitados = e.quitados ++ b ∷ [];
  returned = e.returned;
  found = e.found;
  sized = omega (arith, e.sized, h.above);
  consistent = e.consistent;
  blocks =
      last-split m.blocks b at_end
      ∙ ap (λ xs. xs ++ b ∷ []) e.blocks
      ∙ append_assoc e.m'.blocks e.quitados (b ∷ []);
  bits = λ i. e.bits i ∙ bits-append b e.quitados i (fs.bitmap i);
  bar = λ pos. e.bar (omega arith);
  others = λ g d. e.others g d ∙ rw d refl;
  same_size = e.same_size;
  same_count = e.same_count;
}

-- the round that ends within a block
pub last-IsErased :
    (fs : Fs) (f : File) (m : Metadata) (a b : ℕ)
    → last m.blocks ≡ some b
    → 0 < a
    → IsConsistent fs.tamanio_bloque m
    → a + desde fs m ≤ m.size
    → IsErased fs f m a (
        done (
          save
            (record fs {
              copia_blocks =
                  memset fs.copia_blocks (b * fs.tamanio_bloque + (m.size - desde fs m - a)) b'|' 1;
            })
            f
            (record m { size = m.size - a })))
last-IsErased fs f m a b at_end pos h piece = record {
  fs' = _;
  m' = record m { size = m.size - a };
  quitados = [];
  returned = refl;
  found = let r = same_file_refl f in rw r refl;
  sized = omega arith;
  consistent = record {
    counted = h.counted;
    above = omega (arith, piece);
    below = omega (arith, h.below);
  };
  blocks = sym (append-nil m.blocks);
  bits = λ i. refl;
  bar = λ p. (
    b,
    at_end,
    ap (λ k. memset fs.copia_blocks (b * fs.tamanio_bloque + k) b'|' 1) (omega arith),
  );
  others = λ g d. rw d refl;
  same_size = refl;
  same_count = refl;
}

pub nothing-IsErased :
    (fs : Fs) (f : File) (m : Metadata)
    → fs.files f ≡ some m
    → IsConsistent fs.tamanio_bloque m
    → IsErased fs f m 0 (done fs)
nothing-IsErased fs f m found h = record {
  fs' = fs;
  m' = m;
  quitados = [];
  returned = refl;
  found = found;
  sized = omega arith;
  consistent = h;
  blocks = sym (append-nil m.blocks);
  bits = λ i. refl;
  bar = λ p. absurd (omega arith);
  others = λ g d. refl;
  same_size = refl;
  same_count = refl;
}
