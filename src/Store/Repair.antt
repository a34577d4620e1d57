-- ===== src/Store/Repair.antt =====
-- The protocol after a sabotage, in sabotajes.c: the superblock and the files are checked, one
-- after the other, and what is found wrong is written anew.
pub mod Lists
pub mod Bitmap
use tp_2021_so_fin.Base.{
  ℕ, zero, suc, ◌+◌, ◌-◌, ◌*◌, ◌/◌, Bool, true, false, not, ◌||◌, List, [], ◌∷◌, ◌++◌, Option, none,
  some, ltb, leb, ◌==◌, if◌then◌else◌, length,
}
use tp_2021_so_fin.Base.Bytes.{Bytes, memcpy}
use tp_2021_so_fin.Base.Texts.{read, until_nul, bytes_of, codes}
use tp_2021_so_fin.Store.State.{
  File, Metadata, Fs, Result, done, exited, fault, ◌>>=◌, save, max_bit,
}
use tp_2021_so_fin.Store.Tasks.{same_text, repeat}

-- `validarCantidadBloques`
unfoldable pub validar_cantidad_bloques : Fs → Fs
validar_cantidad_bloques fs =
    let temporal = fs.size_blocks / fs.tamanio_bloque in
    if temporal == fs.cantidad_disco
    then fs
    else record fs { cantidad_bloques = temporal; cantidad_disco = temporal }

abbrev pub invalido : Fs → ℕ → Bool
invalido fs b = ltb fs.cantidad_bloques b || not (fs.bitmap b)

-- The loop of `validacionEsValidaListaRecursos`: the new list, and whether there was an error.
unfoldable pub lista_valida : Fs → List ℕ → List ℕ → Bool → List ℕ × Bool
lista_valida fs [] temporal error = (temporal, error)
lista_valida fs (b ∷ bs) temporal error = elim (invalido fs b) [
  | true ↦ lista_valida fs bs temporal true
  | false ↦ lista_valida fs bs (temporal ++ b ∷ []) error
]

unfoldable pub validacion_es_valida_lista_recursos : File → Fs → Fs
unfolding lista_valida
validacion_es_valida_lista_recursos f fs = elim (fs.files f) [
  | none ↦ fs
  | some m ↦
      let (temporal, error) = lista_valida fs m.blocks [] false in
      if error then save fs f (record m { blocks = temporal }) else fs
]

-- the blocks of a list, marked in `bitmapFalso`
unfoldable pub marcar : List ℕ → (ℕ → Bool) → ℕ → Bool
marcar [] falso = falso
marcar (b ∷ bs) falso = marcar bs (λ i. if i == b then true else falso i)

unfoldable pub marcar_recurso : Fs → File → (ℕ → Bool) → ℕ → Bool
unfolding marcar
marcar_recurso fs f falso = elim (fs.files f) [ none ↦ falso | some m ↦ marcar m.blocks falso ]

-- The loop over the bitácoras, up to the first tripulante who has none. It has at most `fuel`
-- rounds; `fault` if they are too few.
unfoldable pub marcar_bitacoras : ℕ → Fs → ℕ → (ℕ → Bool) → Result (ℕ → Bool)
unfolding marcar
marcar_bitacoras zero fs id falso = fault
marcar_bitacoras (suc fuel) fs id falso = elim (fs.files (File.tripulante id)) [
  | none ↦ done falso
  | some m ↦ marcar_bitacoras fuel fs (id + 1) (marcar m.blocks falso)
]

-- the map, with the i-th bit flipped if it differs
abbrev pub volteado : ℕ → (ℕ → Bool) → (ℕ → Bool) → ℕ → Bool
volteado i falso bits j = elim (bits i) [
  | true ↦ elim (falso i) [ true ↦ bits j | false ↦ if j == i then false else bits j ]
  | false ↦ elim (falso i) [ true ↦ if j == i then true else bits j | false ↦ bits j ]
]

-- The loop over the bits, from the i-th on; there are `n`.
unfoldable pub corregir : ℕ → ℕ → (ℕ → Bool) → (ℕ → Bool) → ℕ → Bool
corregir zero i falso bits = bits
corregir (suc n) i falso bits = corregir n (i + 1) falso (volteado i falso bits)

-- the blocks of the resources, marked after those of the bitácoras
abbrev pub marcar_recursos : Fs → (ℕ → Bool) → ℕ → Bool
unfolding marcar_recurso
marcar_recursos fs falso =
    marcar_recurso fs File.basura
      (marcar_recurso fs File.comida (marcar_recurso fs File.oxigeno falso))

-- The map is corrected, and its whole bytes are written.
abbrev pub con_bitmap : Fs → (ℕ → Bool) → Fs
unfolding corregir
con_bitmap fs falso =
    let bits = corregir fs.cantidad_bloques 0 falso fs.bitmap in
    record fs { bitmap = λ i. if ltb i (max_bit fs) then bits i else fs.bitmap i }

-- `validarBitmapSabotaje`. `memoria` is what the map that `malloc` returns holds.
unfoldable pub validar_bitmap_sabotaje : ℕ → (ℕ → Bool) → Fs → Result Fs
unfolding marcar_bitacoras
validar_bitmap_sabotaje fuel memoria fs = do
  falso ← marcar_bitacoras fuel fs 0 memoria
  done (con_bitmap fs (marcar_recursos fs falso))

-- the text of the blocks, as they are on the disk
unfoldable pub levantar : Fs → List ℕ → List ℕ
unfolding read
levantar fs [] = []
levantar fs (b ∷ bs) =
    read fs.disk_blocks (b * fs.tamanio_bloque) fs.tamanio_bloque ++ levantar fs bs

-- The loop that pastes the text that the file should have. Behind the text it reads zeros.
unfoldable pub pegar_nuevo : ℕ → List ℕ → List ℕ → ℕ → ℕ → Bytes → Bytes
unfolding memcpy
pegar_nuevo t [] temporal leidos tamanio disk = disk
pegar_nuevo t (b ∷ bs) temporal leidos tamanio disk = elim (leb t tamanio) [
  | true ↦
      pegar_nuevo t bs temporal (leidos + 1) (tamanio - t)
        (memcpy disk (t * b) (bytes_of temporal) (leidos * t) t)
  | false ↦
      pegar_nuevo t bs temporal (leidos + 1) 0
        (memcpy disk (t * b) (bytes_of temporal) (leidos * t) (tamanio + 1))
]

-- `BLOCK_COUNT` becomes the length of the list.
unfoldable pub validar_block_count_recurso : File → Fs → Fs
validar_block_count_recurso f fs = elim (fs.files f) [
  | none ↦ fs
  | some m ↦
      if length m.blocks == m.block_count
      then fs
      else save fs f (record m { block_count = length m.blocks })
]

-- `string_split` is the commons' function: the pieces of a text between the bars.
module _ (md5sum : List ℕ → List ℕ) (string_split : List ℕ → List (List ℕ)) where
  -- `stringPartido[0]`: a text without pieces has no first one to append.
  abbrev pub primera : List (List ℕ) → Result (List ℕ)
  primera [] = fault
  primera (p ∷ ps) = done p

  unfoldable pub validar_blocks_recursos : File → Fs → Result Fs
  unfolding until_nul levantar pegar_nuevo same_text repeat
  validar_blocks_recursos f fs = elim (fs.files f) [
    | none ↦ done fs
    | some m ↦
        (primera (string_split (until_nul (levantar fs m.blocks))) >>= λ p.
        (if same_text m.md5 (md5sum (p ++ codes "|"))
          then done fs
          else let temporal = repeat m.caracter_llenado m.size ++ codes "|" in
            let disk = pegar_nuevo fs.tamanio_bloque m.blocks temporal 0 m.size fs.disk_blocks in
            done (record fs {
              disk_blocks = disk;
              copia_blocks =
                  memcpy fs.copia_blocks 0 disk 0 (fs.tamanio_bloque * fs.cantidad_bloques);
            })))
  ]

  -- `SIZE` becomes the length of the text up to the first bar.
  unfoldable pub validar_size_recurso : File → Fs → Result Fs
  unfolding until_nul levantar
  validar_size_recurso f fs = elim (fs.files f) [
    | none ↦ done fs
    | some m ↦
        (primera (string_split (until_nul (levantar fs m.blocks))) >>= λ p.
        done (if length p == m.size then fs else save fs f (record m { size = length p })))
  ]

  -- The order of the checks, and of the files within each.
  unfoldable pub protocolo_fsck : ℕ → (ℕ → Bool) → Fs → Result Fs
  unfolding validacion_es_valida_lista_recursos validar_cantidad_bloques validar_bitmap_sabotaje
      validar_blocks_recursos validar_size_recurso validar_block_count_recurso
  protocolo_fsck fuel memoria fs =
      validar_bitmap_sabotaje fuel memoria (
        validar_cantidad_bloques (
          validacion_es_valida_lista_recursos File.basura (
            validacion_es_valida_lista_recursos File.comida
              (validacion_es_valida_lista_recursos File.oxigeno fs))))
      >>= validar_blocks_recursos File.oxigeno
      >>= validar_blocks_recursos File.comida
      >>= validar_blocks_recursos File.basura
      >>= validar_size_recurso File.oxigeno
      >>= validar_size_recurso File.comida
      >>= validar_size_recurso File.basura
      >>= λ fs'. done (
          validar_block_count_recurso File.basura (
            validar_block_count_recurso File.comida (validar_block_count_recurso File.oxigeno fs')))
