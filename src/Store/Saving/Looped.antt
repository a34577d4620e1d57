-- ===== src/Store/Saving/Looped.antt =====
-- The loop of `guardarPorBloque`: which blocks it takes, and what they hold.
use tp_2021_so_fin.Base.{
  ℕ, zero, suc, ◌+◌, ◌-◌, ◌*◌, ◌≤◌, ◌<◌, ◌≡◌, refl, ap, sym, Bool, true, false, List, arith, ◌==◌,
  if◌then◌else◌, Bool-cases, ◌⊎◌, inl, inr, length, drop,
}
use tp_2021_so_fin.Base.Counts.{clear_bits, clear_bits-same}
use tp_2021_so_fin.Store.State.{Metadata, Fs, with_bit}
use tp_2021_so_fin.Store.Saving.{pegar, agregar_bloque, guardar_loop}
use tp_2021_so_fin.Store.Saving.Saved.{IsSaved, nothing-IsSaved, more-IsSaved, step-IsSaved}
use tp_2021_so_fin.Store.Saving.Blocks.{length-drop}

module _ (texto : List ℕ) (a_usar : ℕ) (es_recurso : Bool) (usados pos : ℕ) (fs : Fs)
    (m : Metadata) where
  loop-full :
      (n i : ℕ)
      → usados == a_usar ≡ true
      → guardar_loop n i texto a_usar es_recurso usados pos fs m ≡ (fs, m)
  unfolding guardar_loop
  loop-full zero i e = refl
  loop-full (suc n) i e = ground arith

  loop-skip :
      (n i : ℕ)
      → usados == a_usar ≡ false
      → fs.bitmap i ≡ true
      → guardar_loop (suc n) i texto a_usar es_recurso usados pos fs m
        ≡ guardar_loop n (i + 1) texto a_usar es_recurso usados pos fs m
  unfolding guardar_loop
  loop-skip n i e h = ground arith

  loop-take :
      (n i bytes tamanio : ℕ)
      → usados == a_usar ≡ false
      → fs.bitmap i ≡ false
      → (if a_usar - usados == 1 then length texto - pos * fs.tamanio_bloque else fs.tamanio_bloque)
        ≡ bytes
      → (if a_usar - usados == 1
          then length texto - pos * fs.tamanio_bloque - 1
          else fs.tamanio_bloque)
        ≡ tamanio
      → guardar_loop (suc n) i texto a_usar es_recurso usados pos fs m
        ≡ guardar_loop n
            (i + 1)
            texto
            a_usar
            es_recurso
            (usados + 1)
            (pos + 1)
            (pegar
              (with_bit fs i true)
              (i * fs.tamanio_bloque)
              texto
              (pos * fs.tamanio_bloque)
              bytes)
            (agregar_bloque m i tamanio es_recurso)
  unfolding guardar_loop
  loop-take n i bytes tamanio e h eb et = rw (sym eb, sym et) (ground arith)

-- the last block, or one more behind this one
abbrev NoneOrMore : ℕ → ℕ → Type 0
NoneOrMore k t = ((k ≡ 0) × (k * t ≡ 0)) ⊎ ((0 < k) × (t ≤ k * t))

none_or_more : (k t : ℕ) → NoneOrMore k t
none_or_more zero t = inl (refl, omega arith)
none_or_more (suc k) t = inr (omega arith, omega arith)

module _ (texto : List ℕ) (es_recurso : Bool) (k usados pos : ℕ) (fs : Fs) (m : Metadata) (n i : ℕ)
    (libre : fs.bitmap i ≡ false)
    (all : length texto ≤ pos * fs.tamanio_bloque + suc k * fs.tamanio_bloque)
    (left : pos * fs.tamanio_bloque + k * fs.tamanio_bloque < length texto) where
  abbrev u : ℕ
  u = fs.tamanio_bloque

  abbrev bytes : ℕ
  bytes = if k == 0 then length texto - pos * u else u

  abbrev tamanio : ℕ
  tamanio = if k == 0 then length texto - pos * u - 1 else u

  fits : NoneOrMore k u → bytes ≤ u
  fits (inl (e, z)) = ground (arith, left)
  fits (inr (l, le)) = ground arith

  there : NoneOrMore k u → pos * u + bytes ≤ length texto
  there (inl (e, z)) = ground (arith, left)
  there (inr (l, le)) = ground (arith, left)

  full_or_last : NoneOrMore k u → (bytes ≡ u) ⊎ (length texto ≤ (pos + 1) * u)
  full_or_last (inl (e, z)) = inr (omega (arith, left))
  full_or_last (inr (l, le)) = inl (ground arith)

  parts :
      NoneOrMore k u → bytes + length (drop ((pos + 1) * u) texto) ≡ length (drop (pos * u) texto)
  parts (inl (e, z)) =
      ground (arith, left, length-drop (pos * u) texto, length-drop ((pos + 1) * u) texto)
  parts (inr (l, le)) =
      ground (arith, left, length-drop (pos * u) texto, length-drop ((pos + 1) * u) texto)

  sizes : NoneOrMore k u → tamanio + (if k == 0 then 1 else 0) ≡ bytes
  sizes (inl (e, z)) = ground (arith, left)
  sizes (inr (l, le)) = ground arith

  loop-taken :
      guardar_loop (suc n) i texto (usados + suc k) es_recurso usados pos fs m
      ≡ guardar_loop n
          (i + 1)
          texto
          (usados + suc k)
          es_recurso
          (usados + 1)
          (pos + 1)
          (pegar (with_bit fs i true) (i * fs.tamanio_bloque) texto (pos * fs.tamanio_bloque) bytes)
          (agregar_bloque m i tamanio es_recurso)
  unfolding pegar
  loop-taken =
      loop-take texto (usados + suc k) es_recurso usados pos fs m n i bytes tamanio (ground arith)
        libre (ground arith) (ground arith)

  taken-IsSaved :
      IsSaved
        (pegar (with_bit fs i true) (i * u) texto (pos * u) bytes)
        (agregar_bloque m i tamanio es_recurso)
        k
        (drop ((pos + 1) * u) texto)
        es_recurso
        (i + 1)
        n
        (guardar_loop n
          (i + 1)
          texto
          (usados + suc k)
          es_recurso
          (usados + 1)
          (pos + 1)
          (pegar (with_bit fs i true) (i * u) texto (pos * u) bytes)
          (agregar_bloque m i tamanio es_recurso))
      → IsSaved fs m
          (suc k)
          (drop (pos * u) texto)
          es_recurso
          i
          (suc n)
          (guardar_loop (suc n) i texto (usados + suc k) es_recurso usados pos fs m)
  unfolding pegar
  taken-IsSaved next =
      let c = none_or_more k u in
      rw loop-taken (
        step-IsSaved fs m texto es_recurso i n pos bytes tamanio libre (fits c) (there c) k _
          (full_or_last c) (parts c) (sizes c) next)

-- With at least as many free bits left as blocks are needed, and as many blocks as the rest of the
-- text needs, the loop saves it.
pub guardar_loop-IsSaved :
    (n i : ℕ) (texto : List ℕ) (es_recurso : Bool) (k usados pos : ℕ) (fs : Fs) (m : Metadata)
    → k ≤ clear_bits n fs.bitmap i
    → length texto ≤ pos * fs.tamanio_bloque + k * fs.tamanio_bloque
    → ((j : ℕ) → k ≡ suc j → pos * fs.tamanio_bloque + j * fs.tamanio_bloque < length texto)
    → IsSaved fs m k
        (drop (pos * fs.tamanio_bloque) texto)
        es_recurso
        i
        n
        (guardar_loop n i texto (usados + k) es_recurso usados pos fs m)
unfolding pegar
guardar_loop-IsSaved n i texto es_recurso zero usados pos fs m free all some_left =
    rw (loop-full texto (usados + 0) es_recurso usados pos fs m n i (ground arith)) (
      nothing-IsSaved fs m es_recurso i n (drop (pos * fs.tamanio_bloque) texto)
        (omega (arith, length-drop (pos * fs.tamanio_bloque) texto)))
guardar_loop-IsSaved zero i texto es_recurso (suc k) usados pos fs m free all some_left =
    absurd (omega (arith, free))
guardar_loop-IsSaved (suc n) i texto es_recurso (suc k) usados pos fs m free all some_left =
    elim (Bool-cases (fs.bitmap i)) [
      | inl used ↦
          rw (loop-skip texto (usados + suc k) es_recurso usados pos fs m n i (ground arith) used) (
            more-IsSaved fs m (suc k) (drop (pos * fs.tamanio_bloque) texto) es_recurso i n _ (
              guardar_loop-IsSaved n (i + 1) texto es_recurso (suc k) usados pos fs m (ground arith)
                all some_left))
      | inr libre ↦
          taken-IsSaved texto es_recurso k usados pos fs m n i libre all (some_left k refl) (
            let e : usados + suc k ≡ usados + 1 + k = omega arith in
            let z =
              clear_bits-same n fs.bitmap (with_bit fs i true).bitmap (i + 1)
                (λ j h. ground arith) in
            rw e (
              guardar_loop-IsSaved n (i + 1) texto es_recurso k (usados + 1) (pos + 1) _ _
                (ground arith) (omega arith) (λ j h. omega (arith, some_left (suc j) (ap suc h)))))
    ]
