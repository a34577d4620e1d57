-- ===== src/Store/Bitacora/Grown.antt =====
-- `guardarEnBlocks` on a bitácora: both branches, and the whole call.
use mathlib.Core.List.{append_assoc}
use tp_2021_so_fin.Base.{
  ℕ, ◌+◌, ◌-◌, ◌*◌, ◌≤◌, ◌<◌, ◌≡◌, ◌≢◌, refl, ap, sym, ◌∙◌, true, false, List, [], ◌∷◌, ◌++◌, some,
  arith, ltb, leb, Bool-cases, inl, inr, subst, length, take, drop, length-append,
}
use tp_2021_so_fin.Base.Lists.{sum_by-append}
use tp_2021_so_fin.Base.Counts.{count, occurs, clear_bits}
use tp_2021_so_fin.Store.State.{File, Metadata, Fs, done, exited, save, max_bit, last, without_last}
use tp_2021_so_fin.Store.Saving.{guardar_resto, guardar_bitacora, pegar}
use tp_2021_so_fin.Store.Saving.Blocks.{
  blocks_text, length-blocks_text, take-all, length-drop, take-drop-append,
}
use tp_2021_so_fin.Store.Bitacora.Stored.{IsHeld, written}
use tp_2021_so_fin.Store.Bitacora.Filled.{pegado-kept, pegado-text, last-split}
use tp_2021_so_fin.Store.Bitacora.Appended.{
  IsAppended, IsHeld-save, same_file_refl, resto-IsAppended,
}
use tp_2021_so_fin.Store.Bitacora.Rest.{guardar_resto-exited}

pub last-some : (bs : List ℕ) → 0 < length bs → (b : ℕ) × (last bs ≡ some b)
last-some [] h = absurd (omega arith)
last-some (b ∷ []) h = (b, refl)
last-some (b ∷ c ∷ bs) h = last-some (c ∷ bs) (omega arith)

module _ (md5sum : List ℕ → List ℕ) (fs : Fs) (m : Metadata) (f : File) (texto nuevo : List ℕ)
    (b : ℕ) (l : 0 < fs.tamanio_bloque) (long : 2 ≤ length nuevo) (at_end : last m.blocks ≡ some b)
    (sized : m.size + 1 ≡ length texto) (held : IsHeld fs m.blocks texto) where
  abbrev faltante : ℕ
  faltante = length m.blocks * fs.tamanio_bloque - length texto

  bitacora-short :
      length nuevo ≤ faltante
      → guardar_bitacora md5sum fs nuevo f m
        ≡ done (
            save
              (pegar fs
                (b * fs.tamanio_bloque + fs.tamanio_bloque - faltante)
                nuevo
                0
                (length nuevo))
              f
              (record m { size = m.size + length nuevo }))
  unfolding guardar_bitacora pegar
  bitacora-short h =
      let v : ltb (length m.blocks * fs.tamanio_bloque) (length texto) ≡ false =
        ground (arith, held.fits) in
      let w : leb (length nuevo) faltante ≡ true = ground arith in
      rw (guardar_bitacora, at_end, sized, v, w) refl

  bitacora-long :
      faltante < length nuevo
      → guardar_bitacora md5sum fs nuevo f m
        ≡ guardar_resto md5sum fs (drop faltante nuevo) f false (
          pegar fs (b * fs.tamanio_bloque + fs.tamanio_bloque - faltante) nuevo 0 faltante,
          record m { size = m.size + (faltante + 1) },
        )
  unfolding guardar_bitacora pegar
  bitacora-long h =
      let v : ltb (length m.blocks * fs.tamanio_bloque) (length texto) ≡ false =
        ground (arith, held.fits) in
      let w : leb (length nuevo) faltante ≡ false = ground arith in
      rw (guardar_bitacora, at_end, sized, v, w) refl

  part : length texto + faltante ≡ length m.blocks * fs.tamanio_bloque
  part = omega (arith, held.fits)

  listed : (c : ℕ) → count c m.blocks ≡ 0 → c ≢ b
  listed c z e =
      let q =
        ap (count b) (last-split m.blocks b at_end)
        ∙ sum_by-append (occurs b) (without_last m.blocks) (b ∷ []) in
      let z' = subst (λ x. count x m.blocks ≡ 0) e z in ground arith

  abbrev con : ℕ → Fs
  unfolding pegar
  con n = pegar fs (b * fs.tamanio_bloque + fs.tamanio_bloque - faltante) nuevo 0 n

  short-IsHeld : length nuevo ≤ faltante → IsHeld (con (length nuevo)) m.blocks (texto ++ nuevo)
  unfolding pegar
  short-IsHeld h = record {
    fits = omega (arith, part, length-append texto nuevo);
    filled = omega (arith, held.filled, length-append texto nuevo);
    texted =
        let p =
          pegado-text fs m.blocks texto b nuevo (length nuevo) held at_end (omega (arith, part))
            (omega arith) in
        ap (λ j. take j (blocks_text (con (length nuevo)).copia_blocks fs.tamanio_bloque m.blocks))
          (length-append texto nuevo)
        ∙ p
        ∙ ap (λ xs. texto ++ xs) (take-all (length nuevo) nuevo (omega arith));
    used = held.used;
    distinct = held.distinct;
  }

  short-IsAppended :
      length nuevo ≤ faltante
      → IsAppended fs m f (texto ++ nuevo) (guardar_bitacora md5sum fs nuevo f m)
  unfolding pegar
  short-IsAppended h = rw (bitacora-short h) (record {
    fs' = save (con (length nuevo)) f (record m { size = m.size + length nuevo });
    m' = record m { size = m.size + length nuevo };
    returned = refl;
    found = let e = same_file_refl f in rw e refl;
    held =
        written (texto ++ nuevo) (omega arith) (omega (arith, sized, length-append texto nuevo)) (
          IsHeld-save (con (length nuevo)) f (record m { size = m.size + length nuevo }) m.blocks
            (texto ++ nuevo) (short-IsHeld h));
    others = λ g e. rw e refl;
    kept = λ c u n. (
      pegado-kept fs m.blocks texto b nuevo (length nuevo) held at_end (omega (arith, part))
          (omega arith) c (listed c n),
      u,
    );
  })

  full_text :
      faltante < length nuevo
      → blocks_text (con faltante).copia_blocks fs.tamanio_bloque m.blocks
        ≡ texto ++ take faltante nuevo
  unfolding pegar
  full_text h =
      let X = blocks_text (con faltante).copia_blocks fs.tamanio_bloque m.blocks in
      sym (
        take-all (length texto + faltante) X (
          omega (
            arith,
            part,
            length-blocks_text (con faltante).copia_blocks fs.tamanio_bloque m.blocks,
          )))
      ∙ pegado-text fs m.blocks texto b nuevo faltante held at_end (omega (arith, part))
          (omega arith)

  whole : (texto ++ take faltante nuevo) ++ drop faltante nuevo ≡ texto ++ nuevo
  whole =
      append_assoc texto (take faltante nuevo) (drop faltante nuevo)
      ∙ ap (λ xs. texto ++ xs) (take-drop-append faltante nuevo)

  long-IsAppended :
      faltante < length nuevo
      → length texto + length nuevo
        ≤ (length m.blocks + clear_bits (max_bit fs) fs.bitmap 0) * fs.tamanio_bloque
      → IsAppended fs m f (texto ++ nuevo) (guardar_bitacora md5sum fs nuevo f m)
  unfolding pegar
  long-IsAppended h room =
      let lw = ap length whole in
      let ld = length-drop faltante nuevo in
      let la = length-append (texto ++ take faltante nuevo) (drop faltante nuevo) in
      rw (bitacora-long h, sym whole)
        (resto-IsAppended md5sum fs m f (con faltante).copia_blocks (m.size + (faltante + 1))
          (texto ++ take faltante nuevo) (drop faltante nuevo) (full_text h) held.used held.distinct
          l (omega (arith, ld)) (omega (arith, lw, length-append texto nuevo))
          (omega (arith, sized, la, lw, ld, length-append texto nuevo))
          (λ c n.
            pegado-kept fs m.blocks texto b nuevo faltante held at_end (omega (arith, part))
              (omega arith) c (listed c n))
          (omega (arith, part, ld)))

  pub bitacora-IsAppended :
      length texto + length nuevo
        ≤ (length m.blocks + clear_bits (max_bit fs) fs.bitmap 0) * fs.tamanio_bloque
      → IsAppended fs m f (texto ++ nuevo) (guardar_bitacora md5sum fs nuevo f m)
  bitacora-IsAppended room = elim (Bool-cases (leb (length nuevo) faltante)) [
    | inl short ↦ short-IsAppended (ground arith)
    | inr no_room ↦ long-IsAppended (ground arith) room
  ]

  pub bitacora-exited :
      (length m.blocks + clear_bits (max_bit fs) fs.bitmap 0) * fs.tamanio_bloque
        < length texto + length nuevo
      → guardar_bitacora md5sum fs nuevo f m ≡ exited
  bitacora-exited room =
      bitacora-long (omega (arith, part))
      ∙ guardar_resto-exited md5sum fs (drop faltante nuevo) f _ l
          (omega (arith, part, length-drop faltante nuevo))
          (omega (arith, part, length-drop faltante nuevo))
