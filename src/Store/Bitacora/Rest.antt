-- ===== src/Store/Bitacora/Rest.antt =====
-- A text that goes to blocks of its own, behind those that a file has.
use native.Mathlib.Nat.{mul-le-mul_right}
use tp_2021_so_fin.Base.{
  ℕ, zero, suc, ◌+◌, ◌-◌, ◌*◌, ◌≤◌, ◌<◌, ◌≡◌, refl, ap, sym, ◌∙◌, Bool, true, false, List, ◌++◌,
  arith, ltb, leb, Bool-cases, inl, inr, length, take, length-append,
}
use tp_2021_so_fin.Base.Lists.{sum_by-append}
use tp_2021_so_fin.Base.Counts.{count, occurs, IsDistinct, clear_bits}
use tp_2021_so_fin.Store.State.{File, Metadata, Fs, done, exited, save, max_bit, cantidad_bloques}
use tp_2021_so_fin.Store.Saving.{guardar_por_bloque, guardar_resto, validar_bits_libre}
use tp_2021_so_fin.Store.Saving.Blocks.{
  blocks_text, take-append_long, blocks_text-append, blocks_text-same, length-blocks_text,
}
use tp_2021_so_fin.Store.Saving.Saved.{IsSaved}
use tp_2021_so_fin.Store.Saving.Whole.{
  cantidad_bloques-bounds, cantidad_bloques-fits, cantidad_bloques-least, validar_bits_libre-eq,
}
use tp_2021_so_fin.Store.Bitacora.Stored.{IsHeld}

-- The blocks are enough for as many bytes as fit in that many free ones.
pub cantidad_bloques-le : (t n k : ℕ) → 0 < t → 0 < n → n ≤ k * t → cantidad_bloques t n ≤ k
cantidad_bloques-le t n k l some_text h = elim (Bool-cases (leb (cantidad_bloques t n) k)) [
  | inl le ↦ ground arith
  | inr gt ↦ absurd (over (cantidad_bloques t n) refl (ground arith))
]
  where
    over : (c : ℕ) → cantidad_bloques t n ≡ c → k < c → ⊥
    over zero e g = omega arith
    over (suc j) e g =
        let least = cantidad_bloques-least t n j l some_text e in
        let m : k * t ≤ j * t = mul-le-mul_right t (omega arith) in omega arith

pub cantidad_bloques-gt : (t n k : ℕ) → 0 < t → k * t < n → k < cantidad_bloques t n
cantidad_bloques-gt t n k l h = elim (Bool-cases (ltb k (cantidad_bloques t n))) [
  | inl lt ↦ ground arith
  | inr ge ↦
      let m : cantidad_bloques t n * t ≤ k * t = mul-le-mul_right t (ground arith) in
      absurd (omega (arith, cantidad_bloques-fits t n l))
]

module _ (md5sum : List ℕ → List ℕ) (fs : Fs) (resto : List ℕ) (f : File) (previo : Fs × Metadata)
    (l : 0 < fs.tamanio_bloque) (some_text : 0 < length resto) where
  abbrev k : ℕ
  k = cantidad_bloques fs.tamanio_bloque (length resto)

  validated : validar_bits_libre fs k ≡ leb k (clear_bits (max_bit fs) fs.bitmap 0)
  validated =
      validar_bits_libre-eq fs k
        (cantidad_bloques-gt fs.tamanio_bloque (length resto) 0 l (omega arith))

  pub guardar_resto-done :
      length resto ≤ clear_bits (max_bit fs) fs.bitmap 0 * fs.tamanio_bloque
      → guardar_resto md5sum fs resto f false previo
        ≡ done (
            save
              (guardar_por_bloque previo.0 resto k false previo.1).0
              f
              (guardar_por_bloque previo.0 resto k false previo.1).1)
  unfolding guardar_resto
  guardar_resto-done h =
      let q = cantidad_bloques-le fs.tamanio_bloque (length resto) _ l some_text h in
      let v : validar_bits_libre fs k ≡ true = ground (arith, validated) in rw v refl

  pub guardar_resto-exited :
      clear_bits (max_bit fs) fs.bitmap 0 * fs.tamanio_bloque < length resto
      → guardar_resto md5sum fs resto f false previo ≡ exited
  unfolding guardar_resto
  guardar_resto-exited h =
      let q = cantidad_bloques-gt fs.tamanio_bloque (length resto) _ l h in
      let v : validar_bits_libre fs k ≡ false = ground (arith, validated) in rw v refl

-- Behind blocks that are full of a text.
module _ (fs : Fs) (m : Metadata) (texto resto : List ℕ) (es_recurso : Bool) (n : ℕ)
    (out : Fs × Metadata) (full : blocks_text fs.copia_blocks fs.tamanio_bloque m.blocks ≡ texto)
    (used : (b : ℕ) → 0 < count b m.blocks → fs.bitmap b ≡ true) (distinct : IsDistinct m.blocks)
    (l : 0 < fs.tamanio_bloque) (some_text : 0 < length resto)
    (a : IsSaved fs m
      (cantidad_bloques fs.tamanio_bloque (length resto))
      resto
      es_recurso
      0
      n
      out) where
  abbrev t : ℕ
  t = fs.tamanio_bloque

  same_tamanio : out.0.tamanio_bloque ≡ t
  same_tamanio = ap (λ s. s.tamanio_bloque) a.same

  length_full : length texto ≡ length m.blocks * t
  length_full = ap length (sym full) ∙ length-blocks_text fs.copia_blocks t m.blocks

  length_blocks :
      length (m.blocks ++ a.nuevos) * t ≡ length texto + cantidad_bloques t (length resto) * t
  length_blocks =
      ap (λ x. x * t) (length-append m.blocks a.nuevos ∙ ap (λ x. length m.blocks + x) a.counted)
      ∙ omega (arith, length_full)

  old_kept : blocks_text out.0.copia_blocks t m.blocks ≡ texto
  old_kept =
      blocks_text-same out.0.copia_blocks fs.copia_blocks t m.blocks (λ b h. a.kept b (used b h))
      ∙ full

  all_text :
      take (length (texto ++ resto)) (blocks_text out.0.copia_blocks t (m.blocks ++ a.nuevos))
      ≡ texto ++ resto
  all_text =
      let e : length (texto ++ resto) - length texto ≡ length resto =
        omega (arith, length-append texto resto) in
      ap (take (length (texto ++ resto))) (
        blocks_text-append out.0.copia_blocks t m.blocks a.nuevos
        ∙ ap (λ xs. xs ++ blocks_text out.0.copia_blocks t a.nuevos) old_kept)
      ∙ take-append_long (length (texto ++ resto)) texto _
          (omega (arith, length-append texto resto))
      ∙ ap (λ j. texto ++ take j (blocks_text out.0.copia_blocks t a.nuevos)) e
      ∙ ap (λ xs. texto ++ xs) a.texted

  count_all : (b : ℕ) → count b (m.blocks ++ a.nuevos) ≡ count b m.blocks + count b a.nuevos
  count_all b = sum_by-append (occurs b) m.blocks a.nuevos

  once : (b : ℕ) → count b (m.blocks ++ a.nuevos) ≤ 1
  once b = elim (Bool-cases (ltb 0 (count b m.blocks))) [
    | inl old ↦ elim (Bool-cases (ltb 0 (count b a.nuevos))) [
      | inl new ↦
          let u = used b (ground arith) in let (v, lo, hi) = a.fresh b (ground arith) in absurd cc
      | inr gone ↦ ground (arith, count_all b, distinct b)
    ]
    | inr gone ↦ ground (arith, count_all b, a.distinct b)
  ]

  all_used : (b : ℕ) → 0 < count b (m.blocks ++ a.nuevos) → out.0.bitmap b ≡ true
  all_used b h = elim (Bool-cases (ltb 0 (count b m.blocks))) [
    | inl old ↦ let u = used b (ground arith) in ground (arith, a.bits b)
    | inr gone ↦ ground (arith, a.bits b, count_all b)
  ]

  pub saved-IsHeld : IsHeld out.0 out.1.blocks (texto ++ resto)
  saved-IsHeld = rw a.blocks (record {
    fits = rw same_tamanio (
        omega (
          arith,
          length_blocks,
          length-append texto resto,
          (cantidad_bloques-bounds t (length resto) l some_text).0,
        ));
    filled = rw same_tamanio (
        omega (
          arith,
          length_blocks,
          length-append texto resto,
          (cantidad_bloques-bounds t (length resto) l some_text).1,
        ));
    texted = rw same_tamanio all_text;
    used = all_used;
    distinct = once;
  })
