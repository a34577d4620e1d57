-- ===== src/Store/Saving/Whole.antt =====
-- `guardarPorBloque` and what it is called for: how many blocks a text needs, and whether as many
-- are free.
use native.Mathlib.Nat.{div-mul-le_self, lt-div-mul-add}
use tp_2021_so_fin.Base.{
  ℕ, zero, suc, refl, ◌+◌, ◌*◌, ◌/◌, ◌≤◌, ◌<◌, ◌≡◌, ap, Bool, List, arith, leb, ◌==◌, Bool-cases,
  inl, inr, length,
}
use tp_2021_so_fin.Base.Counts.{clear_bits}
use tp_2021_so_fin.Store.State.{Metadata, Fs, max_bit, cantidad_bloques}
use tp_2021_so_fin.Store.Saving.{contar_libres, validar_bits_libre, guardar_por_bloque}
use tp_2021_so_fin.Store.Saving.Saved.{IsSaved}
use tp_2021_so_fin.Store.Saving.Looped.{guardar_loop-IsSaved}

-- The blocks hold the text, and one block fewer would not.
pub cantidad_bloques-fits : (t n : ℕ) → 0 < t → n ≤ cantidad_bloques t n * t
unfolding cantidad_bloques
cantidad_bloques-fits t n l =
    let h : n < n / t * t + t = lt-div-mul-add l in
    elim (Bool-cases (n / t * t == n)) [
      | inl even ↦ let w : cantidad_bloques t n ≡ n / t = ground arith in rw w (ground arith)
      | inr odd ↦ let w : cantidad_bloques t n ≡ n / t + 1 = ground arith in rw w (omega arith)
    ]

pub cantidad_bloques-least : (t n j : ℕ) → 0 < t → 0 < n → cantidad_bloques t n ≡ suc j → j * t < n
unfolding cantidad_bloques
cantidad_bloques-least t n j l pos e =
    let h = div-mul-le_self n t in
    elim (Bool-cases (n / t * t == n)) [
      | inl even ↦ let w : n / t ≡ suc j = ground arith in let p = ap (λ x. x * t) w in ground arith
      | inr odd ↦ let w : n / t ≡ j = ground arith in let p = ap (λ x. x * t) w in ground arith
    ]

-- For blocks of one byte or more, a text of one byte or more fits in the blocks that are counted for
-- it, and leaves less than one block of them unused.
pub cantidad_bloques-bounds :
    (t n : ℕ) → 0 < t → 0 < n → (n ≤ cantidad_bloques t n * t) × (cantidad_bloques t n * t < n + t)
cantidad_bloques-bounds t n l some_text =
    (cantidad_bloques-fits t n l, tight (cantidad_bloques t n) refl)
  where
    tight : (c : ℕ) → cantidad_bloques t n ≡ c → c * t < n + t
    tight zero e = omega arith
    tight (suc j) e = omega (arith, cantidad_bloques-least t n j l some_text e)

contar_libres-eq :
    (n : ℕ) (bits : ℕ → Bool) (i a_usar contador : ℕ)
    → contador < a_usar
    → contar_libres n bits i a_usar contador ≡ leb a_usar (contador + clear_bits n bits i)
unfolding contar_libres
contar_libres-eq zero bits i a_usar contador h = ground arith
contar_libres-eq (suc n) bits i a_usar contador h = elim (Bool-cases (bits i)) [
  | inl used ↦ let z = contar_libres-eq n bits (i + 1) a_usar contador h in ground arith
  | inr libre ↦ elim (Bool-cases (contador + 1 == a_usar)) [
    | inl enough ↦ ground arith
    | inr few ↦
        let z = contar_libres-eq n bits (i + 1) a_usar (contador + 1) (ground arith) in ground arith
  ]
]

-- Whether as many blocks are free as are asked for.
pub validar_bits_libre-eq :
    (fs : Fs) (a_usar : ℕ)
    → 0 < a_usar
    → validar_bits_libre fs a_usar ≡ leb a_usar (clear_bits (max_bit fs) fs.bitmap 0)
unfolding validar_bits_libre
validar_bits_libre-eq fs a_usar h =
    let z = contar_libres-eq (max_bit fs) fs.bitmap 0 a_usar 0 h in ground arith

-- Where a text of one byte or more needs no more blocks than are free, the call takes that many
-- blocks, each of which was free and none twice, adds them to the list and, of a resource, to
-- BLOCK_COUNT, makes SIZE greater by one less than the bytes, and leaves their bytes as the text;
-- it changes no other bit, and no byte of a used block.
pub guardar_por_bloque-IsSaved :
    (fs : Fs) (texto : List ℕ) (es_recurso : Bool) (m : Metadata)
    → 0 < fs.tamanio_bloque
    → 0 < length texto
    → cantidad_bloques fs.tamanio_bloque (length texto) ≤ clear_bits (max_bit fs) fs.bitmap 0
    → IsSaved fs m
        (cantidad_bloques fs.tamanio_bloque (length texto))
        texto
        es_recurso
        0
        (max_bit fs)
        (guardar_por_bloque fs texto
          (cantidad_bloques fs.tamanio_bloque (length texto))
          es_recurso
          m)
unfolding guardar_por_bloque
guardar_por_bloque-IsSaved fs texto es_recurso m l pos free =
    let t = fs.tamanio_bloque in
    let k = cantidad_bloques t (length texto) in
    let e : 0 + k ≡ k = omega arith in
    let z : 0 * t ≡ 0 = omega arith in
    (rw (e, z) at
      (guardar_loop-IsSaved (max_bit fs) 0 texto es_recurso k 0 0 fs m free
        (omega (arith, cantidad_bloques-fits t (length texto) l))
        (λ j h. omega (arith, cantidad_bloques-least t (length texto) j l pos h))))
