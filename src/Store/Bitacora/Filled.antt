-- ===== src/Store/Bitacora/Filled.antt =====
-- The room that is left in the last block of a bitácora.
use mathlib.Core.List.{append_assoc}
use tp_2021_so_fin.Base.{
  ℕ, ◌+◌, ◌-◌, ◌*◌, ◌≤◌, ◌<◌, ◌≡◌, ◌≢◌, ap, sym, ◌∙◌, List, [], ◌∷◌, ◌++◌, some, arith, inl, subst,
  length, take, length-append,
}
use tp_2021_so_fin.Base.Lists.{sum_by-append}
use tp_2021_so_fin.Base.Bytes.{Bytes, memcpy-ne}
use tp_2021_so_fin.Base.Counts.{count, occurs}
use tp_2021_so_fin.Base.Texts.{read, bytes_of, length-read, read-append, read-same, read-memcpy}
use tp_2021_so_fin.Store.State.{Fs, last, without_last}
use tp_2021_so_fin.Store.Saving.{pegar}
use tp_2021_so_fin.Store.Saving.Blocks.{
  block_text, blocks_text, take-append_long, take-append_short, read-take, blocks_text-append,
  blocks_text-same, length-blocks_text, block_text-write,
}
use tp_2021_so_fin.Store.Bitacora.Stored.{IsHeld}

pub last-split : (bs : List ℕ) (b : ℕ) → last bs ≡ some b → bs ≡ without_last bs ++ b ∷ []
last-split [] b e = absurd cc
last-split (c ∷ []) b e = cc
last-split (c ∷ d ∷ bs) b e = ap (λ xs. c ∷ xs) (last-split (d ∷ bs) b e)

-- In the last block, behind the text, there is room for `n` bytes.
module _ (fs : Fs) (blocks texto : List ℕ) (b : ℕ) (nuevo : List ℕ) (n : ℕ)
    (held : IsHeld fs blocks texto) (at_end : last blocks ≡ some b)
    (room : length texto + n ≤ length blocks * fs.tamanio_bloque) (enough : n ≤ length nuevo) where
  abbrev t : ℕ
  t = fs.tamanio_bloque

  abbrev pub pegado : Fs
  unfolding pegar
  pegado = pegar fs (b * t + t - (length blocks * t - length texto)) nuevo 0 n

  abbrev ini : List ℕ
  ini = without_last blocks

  abbrev r : ℕ
  r = length texto - length ini * t

  counted : length blocks ≡ length ini + 1
  counted = ap length (last-split blocks b at_end) ∙ length-append ini (b ∷ [])

  begun : length ini * t < length texto
  begun = let z = ap (λ x. x * t) counted in omega (arith, held.filled)

  place : b * t + t - (length blocks * t - length texto) ≡ b * t + r
  place = let z = ap (λ x. x * t) counted in omega (arith, held.fits, begun)

  below : r + n ≤ t
  below = let z = ap (λ x. x * t) counted in omega (arith, begun, room)

  pub pegado-kept :
      (c : ℕ) → c ≢ b → block_text pegado.copia_blocks t c ≡ block_text fs.copia_blocks t c
  unfolding pegar
  pegado-kept c ne =
      block_text-write fs.copia_blocks t b _ (bytes_of nuevo) 0 n c (omega (arith, place, below))
        (omega (arith, place, below)) ne

  once : 0 < count b ini → ⊥
  once l =
      let q = ap (count b) (last-split blocks b at_end) ∙ sum_by-append (occurs b) ini (b ∷ []) in
      ground (arith, held.distinct b)

  ini-kept : blocks_text pegado.copia_blocks t ini ≡ blocks_text fs.copia_blocks t ini
  ini-kept =
      blocks_text-same pegado.copia_blocks fs.copia_blocks t ini
        (λ c l. pegado-kept c (λ e. once (subst (λ x. 0 < count x ini) e l)))

  before : (j : ℕ) → j < r → pegado.copia_blocks (b * t + j) ≡ fs.copia_blocks (b * t + j)
  unfolding pegar
  before j l =
      memcpy-ne fs.copia_blocks _ (bytes_of nuevo) 0 n (b * t + j) (inl (omega (arith, place)))

  -- the last block: what was there, and the new bytes
  tail_text :
      read pegado.copia_blocks (b * t) (r + n) ≡ read fs.copia_blocks (b * t) r ++ take n nuevo
  unfolding pegar
  tail_text =
      let e : 0 + n ≡ n = omega arith in
      read-append pegado.copia_blocks (b * t) r n
      ∙ ap (λ xs. xs ++ read pegado.copia_blocks (b * t + r) n)
          (read-same pegado.copia_blocks fs.copia_blocks (b * t) (b * t) r before)
      ∙ ap (λ xs. read fs.copia_blocks (b * t) r ++ xs)
          (ap (λ a. read pegado.copia_blocks a n) (sym place)
            ∙ read-memcpy fs.copia_blocks _ nuevo 0 n (omega arith))

  -- as much of the blocks as ends in the last one
  cut_text :
      (m : Bytes) (k : ℕ)
      → k ≤ t
      → take (length ini * t + k) (blocks_text m t blocks) ≡ blocks_text m t ini ++ read m (b * t) k
  cut_text m k l =
      let X = blocks_text m t ini in
      let B = block_text m t b in
      let lX = length-blocks_text m t ini in
      let e : length ini * t + k - length X ≡ k = omega (arith, lX) in
      ap (λ bs. take (length ini * t + k) (blocks_text m t bs)) (last-split blocks b at_end)
      ∙ ap (take (length ini * t + k)) (blocks_text-append m t ini (b ∷ []))
      ∙ take-append_long (length ini * t + k) X (B ++ []) (omega (arith, lX))
      ∙ ap (λ j. X ++ take j (B ++ [])) e
      ∙ ap (λ xs. X ++ xs)
          (take-append_short k B [] (omega (arith, length-read m (b * t) t))
            ∙ sym (read-take m (b * t) k t l))

  old_text : texto ≡ blocks_text fs.copia_blocks t ini ++ read fs.copia_blocks (b * t) r
  old_text =
      let e : length texto ≡ length ini * t + r = omega (arith, begun) in
      sym held.texted
      ∙ ap (λ j. take j (blocks_text fs.copia_blocks t blocks)) e
      ∙ cut_text fs.copia_blocks r (omega (arith, below))

  pub pegado-text :
      take (length texto + n) (blocks_text pegado.copia_blocks t blocks) ≡ texto ++ take n nuevo
  pegado-text =
      let e : length texto + n ≡ length ini * t + (r + n) = omega (arith, begun) in
      ap (λ j. take j (blocks_text pegado.copia_blocks t blocks)) e
      ∙ cut_text pegado.copia_blocks (r + n) below
      ∙ ap (λ xs. xs ++ read pegado.copia_blocks (b * t) (r + n)) ini-kept
      ∙ ap (λ xs. blocks_text fs.copia_blocks t ini ++ xs) tail_text
      ∙ sym (append_assoc (blocks_text fs.copia_blocks t ini) _ (take n nuevo))
      ∙ ap (λ xs. xs ++ take n nuevo) (sym old_text)
