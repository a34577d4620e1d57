-- ===== src/Store/Erasing/Whole.antt =====
-- `borrarEnBlocks`, on files that hold more than is to go and on those that do not.
use native.Mathlib.Nat.{mul-le-mul_right}
use tp_2021_so_fin.Base.{
  ℕ, suc, ◌+◌, ◌*◌, ◌/◌, ◌≤◌, ◌<◌, ◌≡◌, refl, sym, ap, subst, ◌∙◌, true, false, List, [], ◌∷◌, some,
  arith, ltb, leb, ◌==◌, if◌then◌else◌, Bool-cases, inl, inr, length, le→leb, lt→ltb,
}
use tp_2021_so_fin.Base.Lists.{sum_by-append}
use tp_2021_so_fin.Base.Counts.{count, occurs}
use tp_2021_so_fin.Store.State.{File, Metadata, Fs, Result, done, save, with_bit, max_bit}
use tp_2021_so_fin.Store.Saving.{setear_md5, texto_md5, dentro_de_copia}
use tp_2021_so_fin.Store.Bitacora.Appended.{same_file_refl}
use tp_2021_so_fin.Store.Erasing.{limpiar_bit, liberar_bloques, borrar_loop, borrar_en_blocks}
use tp_2021_so_fin.Store.Erasing.Erased.{IsConsistent, IsWithin, IsErased}
use tp_2021_so_fin.Store.Erasing.Loop.{borrar_loop-IsErased}

setear_md5-eq :
    (md5sum : List ℕ → List ℕ) (fs : Fs) (f : File) (m : Metadata)
    → fs.files f ≡ some m
    → dentro_de_copia fs m.blocks m.size ≡ true
    → setear_md5 md5sum fs f
      ≡ done (save fs f (record m { md5 = md5sum (texto_md5 fs m.blocks m.size) }))
unfolding setear_md5
setear_md5-eq md5sum fs f m e d = rw (setear_md5, e, d) refl

IsWithin-dentro :
    (fs : Fs) (bs : List ℕ) (size : ℕ) → IsWithin fs bs size → dentro_de_copia fs bs size ≡ true
unfolding dentro_de_copia
IsWithin-dentro fs [] size w = refl
IsWithin-dentro fs (b ∷ []) size w = let h = w.on_disk b (propio b) in le→leb _ _ h
  where
    propio : (b : ℕ) → 0 < count b (b ∷ [])
    propio b = ground arith
IsWithin-dentro fs (b ∷ c ∷ bs) size w =
    let h : suc b ≤ fs.cantidad_bloques = menor (w.in_map b (propio b)) in
    let k = mul-le-mul_right fs.tamanio_bloque h in
    let e : leb (b * fs.tamanio_bloque + fs.tamanio_bloque)
          (fs.cantidad_bloques * fs.tamanio_bloque)
        ≡ true =
      le→leb _ _ (omega (arith, k)) in
    rw e (
      IsWithin-dentro fs (c ∷ bs) size (record {
        in_map = λ i l. w.in_map i (omega (arith, l));
        on_disk = λ i l. w.on_disk i (omega (arith, l));
      }))
  where
    propio : (b : ℕ) → 0 < count b (b ∷ c ∷ bs)
    propio b = ground arith

    menor : b < max_bit fs → suc b ≤ fs.cantidad_bloques
    menor h = omega (arith, h)

-- what is left is within the disk, as it was
IsErased-IsWithin :
    (fs : Fs) (f : File) (m : Metadata) (a : ℕ) (r : Result Fs)
    → (e : IsErased fs f m a r) → IsWithin fs m.blocks m.size
    → IsWithin e.fs' e.m'.blocks e.m'.size
IsErased-IsWithin fs f m a r e w = record {
  in_map = λ b h. subst (λ c. b < c / 8 * 8) (sym e.same_count) (w.in_map b (antes b h));
  on_disk = λ b h.
      let z = w.on_disk b (antes b h) in rw (e.same_size, e.same_count) (omega (arith, z, e.sized));
}
  where
    antes : (b : ℕ) → 0 < count b e.m'.blocks → 0 < count b m.blocks
    antes b h =
        omega (arith, h, ap (count b) e.blocks, sum_by-append (occurs b) e.m'.blocks e.quitados)

setear_md5-IsErased :
    (md5sum : List ℕ → List ℕ) (fs : Fs) (f : File) (m : Metadata) (a : ℕ) (r : Result Fs)
    → (e : IsErased fs f m a r) → IsWithin fs m.blocks m.size
    → IsErased fs f m a (setear_md5 md5sum e.fs' f)
setear_md5-IsErased md5sum fs f m a r e w = record {
  fs' = _;
  m' = record e.m' { md5 = md5sum (texto_md5 e.fs' e.m'.blocks e.m'.size) };
  quitados = e.quitados;
  returned =
      setear_md5-eq md5sum e.fs' f e.m' e.found
        (IsWithin-dentro e.fs' e.m'.blocks e.m'.size (IsErased-IsWithin fs f m a r e w));
  found = let r = same_file_refl f in rw r refl;
  sized = e.sized;
  consistent = record {
    counted = e.consistent.counted;
    above = e.consistent.above;
    below = e.consistent.below;
  };
  blocks = e.blocks;
  bits = e.bits;
  bar = e.bar;
  others = λ g d. (rw d refl) ∙ e.others g d;
  same_size = e.same_size;
  same_count = e.same_count;
}

borrar-part :
    (md5sum : List ℕ → List ℕ) (fs fs' : Fs) (texto : List ℕ) (f : File) (m : Metadata)
    → fs.files f ≡ some m
    → length texto < m.size
    → borrar_loop (length m.blocks + 2) fs f (length texto) ≡ done fs'
    → borrar_en_blocks md5sum fs texto f ≡ setear_md5 md5sum fs' f
unfolding borrar_en_blocks
borrar-part md5sum fs fs' texto f m found h r =
    let c : leb m.size (length texto) ≡ false = ground arith in
    rw (borrar_en_blocks, found, c, r) refl

borrar-all :
    (md5sum : List ℕ → List ℕ) (fs fs' : Fs) (texto : List ℕ) (f : File) (m : Metadata)
    → fs.files f ≡ some m
    → m.size ≤ length texto
    → liberar_bloques fs m.blocks ≡ done fs'
    → borrar_en_blocks md5sum fs texto f
      ≡ setear_md5 md5sum (save fs' f (record m { size = 0; block_count = 0; blocks = [] })) f
unfolding borrar_en_blocks
borrar-all md5sum fs fs' texto f m found h r =
    let c : leb m.size (length texto) ≡ true = ground arith in
    rw (borrar_en_blocks, found, c, r) refl

pub borrar_en_blocks-IsErased :
    (md5sum : List ℕ → List ℕ) (fs : Fs) (texto : List ℕ) (f : File) (m : Metadata)
    → 0 < fs.tamanio_bloque
    → fs.files f ≡ some m
    → IsConsistent fs.tamanio_bloque m
    → IsWithin fs m.blocks m.size
    → length texto < m.size
    → IsErased fs f m (length texto) (borrar_en_blocks md5sum fs texto f)
borrar_en_blocks-IsErased md5sum fs texto f m l found h w more =
    let e =
      borrar_loop-IsErased (length m.blocks + 2) fs f m (length texto) l found h w more
        (omega arith) in
    rw (borrar-part md5sum fs e.fs' texto f m found more e.returned)
      (setear_md5-IsErased md5sum fs f m (length texto) _ e w)

liberar_bloques-bits :
    (bs : List ℕ) (fs : Fs)
    → ((b : ℕ) → 0 < count b bs → b < max_bit fs)
    → (fs' : Fs) × (liberar_bloques fs bs ≡ done fs')
      × ((b : ℕ) → fs'.bitmap b ≡ (if ltb 0 (count b bs) then false else fs.bitmap b))
unfolding liberar_bloques limpiar_bit
liberar_bloques-bits [] fs h = (fs, refl, λ b. refl)
liberar_bloques-bits (c ∷ bs) fs h =
    let l : ltb c (max_bit fs) ≡ true = lt→ltb _ _ (h c (propio c)) in
    let (fs', e, z) =
      liberar_bloques-bits bs (with_bit fs c false) (λ b k. h b (omega (arith, k))) in
    (
      fs',
      rw l e,
      λ b. z b ∙ (elim (Bool-cases (b == c)) [
        | inl here ↦ let o : occurs b c ≡ 1 = ground arith in ground arith
        | inr there ↦ let o : occurs b c ≡ 0 = ground arith in ground arith
      ]),
    )
  where
    propio : (b : ℕ) → 0 < count b (b ∷ bs)
    propio b = ground arith

-- A file that has no more bytes than the text and whose blocks are in the bitmap, whatever its other
-- values are, is left with no blocks and SIZE 0: the call returns, the bits of its blocks are clear
-- and no other bit changes.
pub borrar_en_blocks-emptied :
    (md5sum : List ℕ → List ℕ) (fs : Fs) (texto : List ℕ) (f : File) (m : Metadata)
    → fs.files f ≡ some m
    → m.size ≤ length texto
    → ((b : ℕ) → 0 < count b m.blocks → b < max_bit fs)
    → (fs' : Fs) × (borrar_en_blocks md5sum fs texto f ≡ done fs')
      × (fs'.files f ≡ some (record m { size = 0; block_count = 0; blocks = []; md5 = md5sum [] }))
      × ((b : ℕ) → fs'.bitmap b ≡ (if ltb 0 (count b m.blocks) then false else fs.bitmap b))
unfolding texto_md5 dentro_de_copia
borrar_en_blocks-emptied md5sum fs texto f m found h in_map =
    let (fs', e, bits) = liberar_bloques-bits m.blocks fs in_map in
    let r = same_file_refl f in
    let z : Metadata = record m { size = 0; block_count = 0; blocks = [] } in
    let md = setear_md5-eq md5sum (save fs' f z) f z (rw r refl) refl in
    (_, borrar-all md5sum fs fs' texto f m found h e ∙ md, rw r refl, bits)
