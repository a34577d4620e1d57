-- ===== src/Store/Bitacora/Stored.antt =====
-- A bitácora that holds a text, and how it is read.
use tp_2021_so_fin.Base.{
  ℕ, zero, suc, ◌+◌, ◌*◌, ◌≤◌, ◌<◌, ◌≡◌, refl, true, List, [], ◌∷◌, arith, ◌==◌, Bool-cases, inl,
  inr, length, take, drop,
}
use tp_2021_so_fin.Base.Counts.{count, IsDistinct}
use tp_2021_so_fin.Base.Texts.{until_nul}
use tp_2021_so_fin.Store.State.{Metadata, Fs}
use tp_2021_so_fin.Store.Saving.Blocks.{blocks_text}

-- a text without a terminator in it
abbrev pub IsText : List ℕ → Type 0
IsText xs = count 0 xs ≡ 0

-- the bytes of the blocks start with the text, and one block fewer would not do
pub record IsHeld (fs : Fs) (blocks : List ℕ) (texto : List ℕ) : Type 0 where
  pub fits : length texto ≤ length blocks * fs.tamanio_bloque
  pub filled : length blocks * fs.tamanio_bloque < length texto + fs.tamanio_bloque
  pub texted : take (length texto) (blocks_text fs.copia_blocks fs.tamanio_bloque blocks) ≡ texto
  pub used : (b : ℕ) → 0 < count b blocks → fs.bitmap b ≡ true
  pub distinct : IsDistinct blocks

-- SIZE is one below the length of the text. A text of one byte is taken for none.
pub data IsBitacora (fs : Fs) (m : Metadata) : List ℕ → Type 0 where
  nothing_yet : m.size ≡ 0 → m.blocks ≡ [] → IsBitacora fs m []
  written :
      (texto : List ℕ)
      → 0 < m.size
      → m.size + 1 ≡ length texto
      → IsHeld fs m.blocks texto
      → IsBitacora fs m texto

pub until_nul-text : (xs : List ℕ) → IsText xs → until_nul xs ≡ xs
unfolding until_nul
until_nul-text [] h = refl
until_nul-text (x ∷ xs) h = elim (Bool-cases (x == 0)) [
  | inl nul ↦ absurd (ground arith)
  | inr other ↦ let z = until_nul-text xs (ground arith) in rw (other, z) refl
]

pub IsText-take : (n : ℕ) (xs : List ℕ) → IsText xs → IsText (take n xs)
IsText-take zero xs h = refl
IsText-take (suc n) [] h = refl
IsText-take (suc n) (x ∷ xs) h = let z = IsText-take n xs (ground arith) in ground arith

pub IsText-drop : (n : ℕ) (xs : List ℕ) → IsText xs → IsText (drop n xs)
IsText-drop zero xs h = h
IsText-drop (suc n) [] h = refl
IsText-drop (suc n) (x ∷ xs) h = IsText-drop n xs (ground arith)
