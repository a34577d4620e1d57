-- ===== src/Store/Saving/Saved.antt =====
-- A text that was saved in free blocks: one block and then the rest.
use mathlib.Core.List.{append-nil, append_assoc}
use tp_2021_so_fin.Base.{
  ℕ, suc, ◌+◌, ◌-◌, ◌*◌, ◌≤◌, ◌<◌, ◌≡◌, ◌≢◌, refl, ap, sym, ◌∙◌, Bool, true, false, List, [], ◌∷◌,
  ◌++◌, arith, ltb, ◌==◌, if◌then◌else◌, Bool-cases, ◌⊎◌, inl, inr, subst, length, take, drop, ==→≡,
}
use tp_2021_so_fin.Base.Bytes.{Bytes, memcpy}
use tp_2021_so_fin.Base.Counts.{count, IsDistinct}
use tp_2021_so_fin.Base.Texts.{bytes_of, length-read}
use tp_2021_so_fin.Store.State.{Metadata, Fs, with_bit}
use tp_2021_so_fin.Store.Saving.{agregar_bloque}
use tp_2021_so_fin.Store.Saving.Blocks.{
  block_text, blocks_text, block_text-write, take-append_long, take-append_short, take-all,
  take-drop-append, take-written, drop-drop, length-drop,
}

-- The file gets `k` blocks that were free, which hold the text `resto`, and nothing else changes.
pub record IsSaved (fs : Fs) (m : Metadata) (k : ℕ) (resto : List ℕ) (es_recurso : Bool) (i n : ℕ)
    (out : Fs × Metadata) : Type 0 where
  pub nuevos : List ℕ
  pub blocks : out.1.blocks ≡ m.blocks ++ nuevos
  pub counted : length nuevos ≡ k
  pub sized : out.1.size + (if k == 0 then 0 else 1) ≡ m.size + length resto
  pub block_counted : out.1.block_count ≡ m.block_count + (if es_recurso then k else 0)
  pub llenado : out.1.caracter_llenado ≡ m.caracter_llenado
  pub texted : take (length resto) (blocks_text out.0.copia_blocks fs.tamanio_bloque nuevos) ≡ resto
  pub kept :
      (b : ℕ)
      → fs.bitmap b ≡ true
      → block_text out.0.copia_blocks fs.tamanio_bloque b
        ≡ block_text fs.copia_blocks fs.tamanio_bloque b
  pub fresh : (b : ℕ) → 0 < count b nuevos → (fs.bitmap b ≡ false) × (i ≤ b) × (b < i + n)
  pub bits : (b : ℕ) → out.0.bitmap b ≡ (if ltb 0 (count b nuevos) then true else fs.bitmap b)
  pub distinct : IsDistinct nuevos
  pub same : out.0 ≡ record fs { copia_blocks = out.0.copia_blocks; bitmap = out.0.bitmap }

pub nothing-IsSaved :
    (fs : Fs) (m : Metadata) (es_recurso : Bool) (i n : ℕ) (resto : List ℕ)
    → length resto ≡ 0
    → IsSaved fs m 0 resto es_recurso i n (fs, m)
nothing-IsSaved fs m es_recurso i n [] z = record {
  nuevos = [];
  blocks = sym (append-nil _);
  counted = refl;
  sized = refl;
  block_counted = ground arith;
  llenado = refl;
  texted = refl;
  kept = λ b h. refl;
  fresh = λ b h. absurd (omega (arith, h));
  bits = λ b. refl;
  distinct = λ p. omega arith;
  same = refl;
}
nothing-IsSaved fs m es_recurso i n (x ∷ xs) z = absurd (omega arith)

module _ (fs : Fs) (m : Metadata) (texto : List ℕ) (es_recurso : Bool) (i n pos bytes tamanio : ℕ)
    (libre : fs.bitmap i ≡ false) (fits : bytes ≤ fs.tamanio_bloque)
    (there : pos * fs.tamanio_bloque + bytes ≤ length texto) where
  abbrev t : ℕ
  t = fs.tamanio_bloque

  abbrev fs' : Fs
  fs' = record (with_bit fs i true) {
    copia_blocks = memcpy fs.copia_blocks (i * t) (bytes_of texto) (pos * t) bytes;
  }

  abbrev m' : Metadata
  m' = agregar_bloque m i tamanio es_recurso

  abbrev B : List ℕ
  B = block_text fs'.copia_blocks t i

  abbrev D : List ℕ
  D = drop (pos * t) texto

  lB : length B ≡ t
  lB = length-read fs'.copia_blocks (i * t) t

  lD : length D ≡ length texto - pos * t
  lD = length-drop (pos * t) texto

  lD' : length (drop ((pos + 1) * t) texto) ≡ length texto - (pos + 1) * t
  lD' = length-drop ((pos + 1) * t) texto

  -- the text in the block and in those that follow
  step-text :
      (c : Bytes) (bs : List ℕ)
      → block_text c t i ≡ block_text fs'.copia_blocks t i
      → (bytes ≡ t) ⊎ (length texto ≤ (pos + 1) * t)
      → length texto ≤ pos * t + bytes + length (drop ((pos + 1) * t) texto)
      → take (length (drop ((pos + 1) * t) texto)) (blocks_text c t bs) ≡ drop ((pos + 1) * t) texto
      → take (length (drop (pos * t) texto)) (block_text c t i ++ blocks_text c t bs)
        ≡ drop (pos * t) texto
  step-text c bs e (inl full) all ih =
      (rw e (
        take-append_long (length D) B (blocks_text c t bs) (omega (arith, lB, lD, full))
        ∙ ap (λ k. B ++ take k (blocks_text c t bs)) (omega (arith, lB, lD, lD', full))
        ∙ ap (λ ys. B ++ ys) ih
        ∙ ap (λ ys. ys ++ drop ((pos + 1) * t) texto) start
        ∙ ap (λ ys. take t D ++ ys) (sym (drop-drop (pos * t) t texto ∙ here))
        ∙ take-drop-append t D))
    where
      start : B ≡ take t D
      start =
          sym (take-all t B (omega (arith, lB)))
          ∙ subst (λ k. take k B ≡ take k D) full
              (take-written fs.copia_blocks t i texto (pos * t) bytes fits there)

      here : drop (pos * t + t) texto ≡ drop ((pos + 1) * t) texto
      here = ap (λ k. drop k texto) (omega arith)
  step-text c bs e (inr last_one) all ih =
      (rw e (
        take-append_short (length D) B (blocks_text c t bs) (omega (arith, lB, lD, lD'))
        ∙ ap (λ k. take k B) (omega (arith, lD, lD'))
        ∙ take-written fs.copia_blocks t i texto (pos * t) bytes fits there
        ∙ take-all bytes D (omega (arith, lD, lD'))))

  -- one block, and then those that the rest of the loop takes
  pub step-IsSaved :
      (k : ℕ) (out : Fs × Metadata)
      → (bytes ≡ t) ⊎ (length texto ≤ (pos + 1) * t)
      → bytes + length (drop ((pos + 1) * t) texto) ≡ length (drop (pos * t) texto)
      → tamanio + (if k == 0 then 1 else 0) ≡ bytes
      → IsSaved fs' m' k (drop ((pos + 1) * t) texto) es_recurso (i + 1) n out
      → IsSaved fs m (suc k) (drop (pos * t) texto) es_recurso i (suc n) out
  unfolding agregar_bloque
  step-IsSaved k out full parts sizes a = record {
    nuevos = i ∷ a.nuevos;
    blocks = a.blocks ∙ append_assoc m.blocks (i ∷ []) a.nuevos;
    counted = ap suc a.counted;
    sized = let z = a.sized in ground arith;
    block_counted = let z = a.block_counted in ground arith;
    llenado = a.llenado;
    texted =
        step-text out.0.copia_blocks a.nuevos (a.kept i (ground arith)) full
          (omega (arith, parts, length-drop (pos * t) texto)) a.texted;
    kept = λ b h. a.kept b (taken b h) ∙ unharmed b h;
    fresh = λ b h. new_ones b h (Bool-cases (i == b));
    bits = λ b. set_bits b;
    distinct = λ p. once p;
    same = a.same;
  }
    where
      other : (b : ℕ) → fs.bitmap b ≡ true → b ≢ i
      other b h e = let f : fs.bitmap b ≡ false = ap fs.bitmap e ∙ libre in cc

      taken : (b : ℕ) → fs.bitmap b ≡ true → fs'.bitmap b ≡ true
      taken b h = ground arith

      unharmed :
          (b : ℕ)
          → fs.bitmap b ≡ true
          → block_text fs'.copia_blocks t b ≡ block_text fs.copia_blocks t b
      unharmed b h =
          block_text-write fs.copia_blocks t i (i * t) (bytes_of texto) (pos * t) bytes b
            (omega arith) (omega arith) (other b h)

      still_free : (b : ℕ) → 0 < count b a.nuevos → fs'.bitmap b ≡ false
      still_free b h = (a.fresh b h).0

      new_ones :
          (b : ℕ)
          → 0 < count b (i ∷ a.nuevos)
          → (i == b ≡ true) ⊎ (i == b ≡ false)
          → (fs.bitmap b ≡ false) × (i ≤ b) × (b < i + suc n)
      new_ones b h (inl here) =
          let e : i ≡ b = ==→≡ i b here in (ap fs.bitmap (sym e) ∙ libre, omega arith, omega arith)
      new_ones b h (inr there) =
          let l : 0 < count b a.nuevos = ground arith in
          let (f, lo, hi) = a.fresh b l in (ground arith, omega arith, omega arith)

      set_bits :
          (b : ℕ) → out.0.bitmap b ≡ (if ltb 0 (count b (i ∷ a.nuevos)) then true else fs.bitmap b)
      set_bits b = let z = a.bits b in ground arith

      once : (p : ℕ) → count p (i ∷ a.nuevos) ≤ 1
      once p = elim (Bool-cases (ltb 0 (count p a.nuevos))) [
        | inl held ↦ let f = still_free p (ground arith) in let d = a.distinct p in ground arith
        | inr gone ↦ ground arith
      ]

pub more-IsSaved :
    (fs : Fs) (m : Metadata) (k : ℕ) (resto : List ℕ) (es_recurso : Bool) (i n : ℕ)
    (out : Fs × Metadata)
    → IsSaved fs m k resto es_recurso (i + 1) n out
    → IsSaved fs m k resto es_recurso i (suc n) out
more-IsSaved fs m k resto es_recurso i n out a = record {
  nuevos = a.nuevos;
  blocks = a.blocks;
  counted = a.counted;
  sized = a.sized;
  block_counted = a.block_counted;
  llenado = a.llenado;
  texted = a.texted;
  kept = a.kept;
  fresh = λ b h. let (f, lo, hi) = a.fresh b h in (f, omega arith, omega arith);
  bits = a.bits;
  distinct = a.distinct;
  same = a.same;
}
