-- ===== src/Store/Bitacora/Obtained.antt =====
-- What `obtenerBitacora` returns of a bitácora that holds a text.
use mathlib.Core.List.{append_assoc}
use tp_2021_so_fin.Base.{
  ℕ, zero, suc, ◌+◌, ◌-◌, ◌*◌, ◌≤◌, ◌<◌, ◌≡◌, refl, ap, sym, ◌∙◌, false, List, [], ◌∷◌, ◌++◌, some,
  arith, ltb, length, take, drop, length-append,
}
use tp_2021_so_fin.Base.Texts.{read, until_nul, length-read}
use tp_2021_so_fin.Store.State.{File, Metadata, Fs}
use tp_2021_so_fin.Store.Saving.Blocks.{
  read-take, block_text, blocks_text, take-append_short, length-drop, take-drop-append,
}
use tp_2021_so_fin.Store.Bitacora.{obtener_loop, obtener_bitacora}
use tp_2021_so_fin.Store.Bitacora.Stored.{
  IsText, IsHeld, IsBitacora, nothing_yet, written, until_nul-text, IsText-take, IsText-drop,
}

length-take_short : (n : ℕ) (xs : List ℕ) → n ≤ length xs → length (take n xs) ≡ n
length-take_short zero xs h = refl
length-take_short (suc n) [] h = absurd (omega arith)
length-take_short (suc n) (x ∷ xs) h = ap suc (length-take_short n xs (omega arith))

-- A text that is the start of two pieces, and longer than the first.
pieces :
    (xs ys r : List ℕ)
    → length xs ≤ length r
    → take (length r) (xs ++ ys) ≡ r
    → (xs ≡ take (length xs) r) × (take (length (drop (length xs) r)) ys ≡ drop (length xs) r)
pieces [] ys r h e = (refl, e)
pieces (x ∷ xs) ys [] h e = absurd (omega arith)
pieces (x ∷ xs) ys (y ∷ r) h e =
    let (p, q) = pieces xs ys r (omega arith) (ap (drop 1) e) in (cc, q)

obtener_loop-text :
    (fs : Fs) (total b : ℕ) (bs : List ℕ) (buffer r : List ℕ)
    → total ≡ length buffer + length r
    → IsText r
    → length r ≤ suc (length bs) * fs.tamanio_bloque
    → suc (length bs) * fs.tamanio_bloque < length r + fs.tamanio_bloque
    → take (length r) (blocks_text fs.copia_blocks fs.tamanio_bloque (b ∷ bs)) ≡ r
    → obtener_loop fs total buffer (b ∷ bs) ≡ some (buffer ++ r)
unfolding obtener_loop
obtener_loop-text fs total b [] buffer r all text fits filled held =
    let t = fs.tamanio_bloque in
    let e : total - length buffer ≡ length r = omega arith in
    let B = block_text fs.copia_blocks t b in
    let z : read fs.copia_blocks (b * t) (length r) ≡ r =
      read-take fs.copia_blocks (b * t) (length r) t (omega arith)
      ∙ sym
          (take-append_short (length r) B [] (omega (arith, length-read fs.copia_blocks (b * t) t)))
      ∙ held in
    let u = ap (λ xs. until_nul xs) z ∙ until_nul-text r text in
    let l : ltb total (length buffer) ≡ false = ground arith in rw (l, e, u) refl
obtener_loop-text fs total b (c ∷ bs) buffer r all text fits filled held =
    let t = fs.tamanio_bloque in
    let B = block_text fs.copia_blocks t b in
    let lB : length B ≡ t = length-read fs.copia_blocks (b * t) t in
    let (p, q) =
      (rw lB at (pieces B (blocks_text fs.copia_blocks t (c ∷ bs)) r (omega (arith, lB)) held)) in
    let u : until_nul B ≡ B = rw p (until_nul-text (take t r) (IsText-take t r text)) in
    let l : total ≡ length (buffer ++ B) + length (drop t r) =
      omega (arith, lB, length-append buffer B, length-drop t r) in
    rw u (
      obtener_loop-text fs total c bs (buffer ++ B) (drop t r) l (IsText-drop t r text)
        (omega (arith, length-drop t r)) (omega (arith, length-drop t r)) q
      ∙ ap some (
          append_assoc buffer B (drop t r)
          ∙ ap (λ xs. buffer ++ xs) (ap (λ xs. xs ++ drop t r) p ∙ take-drop-append t r)))

whole :
    (fs : Fs) (size : ℕ) (texto bs : List ℕ)
    → 0 < size
    → size + 1 ≡ length texto
    → IsHeld fs bs texto
    → IsText texto
    → obtener_loop fs (size + 1) [] bs ≡ some texto
whole fs size texto [] l s h text = let z = h.fits in absurd (omega arith)
whole fs size texto (b ∷ bs) l s h text =
    obtener_loop-text fs (size + 1) b bs [] texto (omega arith) text h.fits h.filled h.texted

-- The text that a bitácora holds is read.
pub obtener_bitacora-IsBitacora :
    (fs : Fs) (id : ℕ) (m : Metadata) (texto : List ℕ)
    → fs.files (File.tripulante id) ≡ some m
    → IsBitacora fs m texto
    → IsText texto
    → obtener_bitacora fs id ≡ some texto
unfolding obtener_loop obtener_bitacora
obtener_bitacora-IsBitacora fs id m [] e (nothing_yet z n) text = rw (obtener_bitacora, e, n) refl
obtener_bitacora-IsBitacora fs id m texto e (written _ l s h) text =
    rw (obtener_bitacora, e) (whole fs m.size texto m.blocks l s h text)
