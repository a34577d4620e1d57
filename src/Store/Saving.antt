-- ===== src/Store/Saving.antt =====
-- `guardarEnBlocks`: a text is added to a file, in the last block of the file and in free ones.
pub mod Blocks
pub mod Saved
pub mod Looped
pub mod Whole
use tp_2021_so_fin.Base.{
  ℕ, zero, suc, ◌+◌, ◌-◌, ◌*◌, ◌%◌, Bool, true, false, not, ◌&&◌, List, [], ◌∷◌, ◌++◌, Option, none,
  some, ltb, leb, ◌==◌, if◌then◌else◌, length, drop,
}
use tp_2021_so_fin.Base.Bytes.{Bytes, memcpy}
use tp_2021_so_fin.Base.Texts.{read, until_nul, bytes_of}
use tp_2021_so_fin.Store.State.{
  File, Metadata, Fs, Result, done, exited, fault, ◌>>=◌, present, save, last, with_bit, max_bit,
  cantidad_bloques,
}

-- The loop of `validarBitsLibre`, over the bits from `i` on, of which there are `n`.
unfoldable pub contar_libres : ℕ → (ℕ → Bool) → ℕ → ℕ → ℕ → Bool
contar_libres zero bits i a_usar contador = false
contar_libres (suc n) bits i a_usar contador = elim (bits i) [
  | true ↦ contar_libres n bits (i + 1) a_usar contador
  | false ↦ elim (contador + 1 == a_usar) [
    | true ↦ true
    | false ↦ contar_libres n bits (i + 1) a_usar (contador + 1)
  ]
]

-- `true` is 1, and `false` is -1.
unfoldable pub validar_bits_libre : Fs → ℕ → Bool
unfolding contar_libres
validar_bits_libre fs a_usar = contar_libres (max_bit fs) fs.bitmap 0 a_usar 0

-- `n` bytes of the text go into the block
unfoldable pub pegar : Fs → ℕ → List ℕ → ℕ → ℕ → Fs
unfolding memcpy
pegar fs at texto desde n = record fs {
  copia_blocks = memcpy fs.copia_blocks at (bytes_of texto) desde n;
}

-- `actualizarSize`, `actualizarBlocks` and, for a resource, `actualizarBlockCount`
unfoldable pub agregar_bloque : Metadata → ℕ → ℕ → Bool → Metadata
agregar_bloque m i tamanio es_recurso = record m {
  size = m.size + tamanio;
  blocks = m.blocks ++ i ∷ [];
  block_count = m.block_count + (if es_recurso then 1 else 0);
}

-- The loop of `guardarPorBloque`, over the bits from `i` on, of which there are `n`. The metadata
-- is written at its end.
unfoldable pub guardar_loop : ℕ → ℕ → List ℕ → ℕ → Bool → ℕ → ℕ → Fs → Metadata → Fs × Metadata
unfolding pegar agregar_bloque
guardar_loop zero i texto a_usar es_recurso usados pos fs m = (fs, m)
guardar_loop (suc n) i texto a_usar es_recurso usados pos fs m = elim (usados == a_usar) [
  | true ↦ (fs, m)
  | false ↦ elim (fs.bitmap i) [
    | true ↦ guardar_loop n (i + 1) texto a_usar es_recurso usados pos fs m
    | false ↦
        let t = fs.tamanio_bloque in
        let resto = length texto - pos * t in
        let ultimo = a_usar - usados == 1 in
        guardar_loop n (i + 1) texto a_usar es_recurso (usados + 1) (pos + 1)
          (pegar (with_bit fs i true) (i * t) texto (pos * t) (if ultimo then resto else t))
          (agregar_bloque m i (if ultimo then resto - 1 else t) es_recurso)
  ]
]

unfoldable pub guardar_por_bloque : Fs → List ℕ → ℕ → Bool → Metadata → Fs × Metadata
unfolding guardar_loop
guardar_por_bloque fs texto a_usar es_recurso m =
    guardar_loop (max_bit fs) 0 texto a_usar es_recurso 0 0 fs m

-- What `setearMD5` reads: the blocks, and from the start of the last one as many bytes as the
-- whole file has. Each piece ends at its first terminator.
unfoldable pub texto_md5 : Fs → List ℕ → ℕ → List ℕ
unfolding read until_nul
texto_md5 fs [] size = []
texto_md5 fs (b ∷ []) size = until_nul (read fs.copia_blocks (b * fs.tamanio_bloque) (size + 1))
texto_md5 fs (b ∷ c ∷ bs) size =
    until_nul (read fs.copia_blocks (b * fs.tamanio_bloque) fs.tamanio_bloque)
    ++ texto_md5 fs (c ∷ bs) size

-- Whether all of that is within `copiaBlocks`.
unfoldable pub dentro_de_copia : Fs → List ℕ → ℕ → Bool
dentro_de_copia fs [] size = true
dentro_de_copia fs (b ∷ []) size =
    leb (b * fs.tamanio_bloque + (size + 1)) (fs.cantidad_bloques * fs.tamanio_bloque)
dentro_de_copia fs (b ∷ c ∷ bs) size =
    leb (b * fs.tamanio_bloque + fs.tamanio_bloque) (fs.cantidad_bloques * fs.tamanio_bloque)
    && dentro_de_copia fs (c ∷ bs) size

-- `md5sum` is the program that the code runs: the digest of a text. A read past the end of
-- `copiaBlocks` is a fault.
module _ (md5sum : List ℕ → List ℕ) where
  unfoldable pub setear_md5 : Fs → File → Result Fs
  unfolding texto_md5 dentro_de_copia
  setear_md5 fs f = do
    m ← present (fs.files f)
    if dentro_de_copia fs m.blocks m.size
        then done (save fs f (record m { md5 = md5sum (texto_md5 fs m.blocks m.size) }))
        else fault

  -- what follows the writes: a resource has a digest
  abbrev terminar : Bool → File → Fs × Metadata → Result Fs
  terminar true f (fs, m) = setear_md5 (save fs f m) f
  terminar false f (fs, m) = done (save fs f m)

  -- The rest of the text goes to blocks of its own, if as many are free: `previo` is the state
  -- after the write to the last block of the file.
  unfoldable pub guardar_resto : Fs → List ℕ → File → Bool → Fs × Metadata → Result Fs
  unfolding validar_bits_libre guardar_por_bloque
  guardar_resto fs texto f es_recurso previo =
      let a_usar = cantidad_bloques fs.tamanio_bloque (length texto) in
      if not (validar_bits_libre fs a_usar)
      then exited
      else terminar es_recurso f (guardar_por_bloque previo.0 texto a_usar es_recurso previo.1)

  -- To a resource: its last byte, the bar, is written over. A block that holds nothing else is not
  -- looked for where the bar is, but right behind it.
  unfoldable pub guardar_recurso : Fs → List ℕ → File → Metadata → Result Fs
  unfolding pegar guardar_resto
  guardar_recurso fs texto f m = elim (last m.blocks) [
    | none ↦ fault
    | some b ↦
        let t = fs.tamanio_bloque in
        let total = length m.blocks * t in
        let faltante = total - m.size in
        let at = b * t + (t - faltante % t) in
        if ltb total m.size
        then fault
        else if leb (length texto) faltante
        then terminar true f
            (pegar fs at texto 0 (length texto), record m { size = m.size + (length texto - 1) })
        else guardar_resto fs (drop faltante texto) f true
            (pegar fs at texto 0 faltante, record m { size = m.size + faltante })
  ]

  -- To a bitácora: the text goes behind what is there.
  unfoldable pub guardar_bitacora : Fs → List ℕ → File → Metadata → Result Fs
  unfolding pegar guardar_resto
  guardar_bitacora fs texto f m = elim (last m.blocks) [
    | none ↦ fault
    | some b ↦
        let t = fs.tamanio_bloque in
        let total = length m.blocks * t in
        let faltante = total - (m.size + 1) in
        let at = b * t + t - faltante in
        if ltb total (m.size + 1)
        then fault
        else if leb (length texto) faltante
        then terminar false f
            (pegar fs at texto 0 (length texto), record m { size = m.size + length texto })
        else guardar_resto fs (drop faltante texto) f false
            (pegar fs at texto 0 faltante, record m { size = m.size + (faltante + 1) })
  ]

  unfoldable pub guardar_en_blocks : Fs → List ℕ → File → Bool → Result Fs
  unfolding guardar_resto guardar_recurso guardar_bitacora
  guardar_en_blocks fs texto f es_recurso = do
    m ← present (fs.files f)
    if m.size == 0
        then guardar_resto fs texto f es_recurso (fs, m)
        else if es_recurso
        then guardar_recurso fs texto f m
        else guardar_bitacora fs texto f m
