-- ===== src/Store/State.antt =====
-- The data of IMongoStore: the superblock, the blocks and the metadata files.
use tp_2021_so_fin.Base.{
  ℕ, ◌+◌, ◌*◌, ◌/◌, Bool, true, false, List, [], ◌∷◌, Option, none, some, ◌==◌, if◌then◌else◌,
}
use tp_2021_so_fin.Base.Bytes.{Bytes}

-- The files of metadata, by their paths.
pub data File : Type 0 where
  oxigeno comida basura : File
  tripulante : ℕ → File

abbrev pub same_file : File → File → Bool
same_file oxigeno oxigeno = true
same_file comida comida = true
same_file basura basura = true
same_file (tripulante i) (tripulante j) = i == j
same_file f g = false

-- The values of a file of metadata, as the config library reads them: BLOCKS as the numbers in its
-- list. That of a bitácora has SIZE and BLOCKS only.
pub record Metadata : Type 0 where
  pub size : ℕ
  pub block_count : ℕ
  pub blocks : List ℕ
  pub caracter_llenado : ℕ
  pub md5 : List ℕ

-- The files and the globals. `copia_blocks` is the process's copy of `disk_blocks`, Blocks.ims,
-- which has `size_blocks` bytes; the bitmap and `cantidad_disco` are those of SuperBloque.ims,
-- which every function maps anew.
pub record Fs : Type 0 where
  pub tamanio_bloque : ℕ
  pub cantidad_bloques : ℕ
  pub copia_blocks : Bytes
  pub disk_blocks : Bytes
  pub size_blocks : ℕ
  pub cantidad_disco : ℕ
  pub bitmap : ℕ → Bool
  pub files : File → Option Metadata

-- What a call comes to: it returns, or the process ends by `exit(-1)`, or it faults.
pub data Result (A : Type 0) : Type 0 where
  done : A → Result A
  exited fault : Result A

infixl 5 ◌>>=◌
abbrev pub ◌>>=◌ : {A B : Type 0} → Result A → (A → Result B) → Result B
done a >>= f = f a
exited >>= f = exited
fault >>= f = fault

-- `config_create`, whose NULL on a missing file is used: a fault
abbrev pub present : Option Metadata → Result Metadata
present none = fault
present (some m) = done m

-- `config_save`
abbrev pub save : Fs → File → Metadata → Fs
save fs f m = record fs { files = λ g. if same_file f g then some m else fs.files g }

abbrev pub remove : Fs → File → Fs
remove fs f = record fs { files = λ g. if same_file f g then none else fs.files g }

-- `listaBloques[contador - 1]`; before the list, if it is empty
abbrev pub last : List ℕ → Option ℕ
last [] = none
last (b ∷ []) = some b
last (b ∷ c ∷ bs) = last (c ∷ bs)

-- the list without its last number
abbrev pub without_last : List ℕ → List ℕ
without_last [] = []
without_last (b ∷ []) = []
without_last (b ∷ c ∷ bs) = b ∷ without_last (c ∷ bs)

-- `bitarray_set_bit` and `bitarray_clean_bit`, and the write of the map to SuperBloque.ims
abbrev pub with_bit : Fs → ℕ → Bool → Fs
with_bit fs b v = record fs { bitmap = λ i. if i == b then v else fs.bitmap i }

-- `bitarray_get_max_bit`
abbrev pub max_bit : Fs → ℕ
max_bit fs = fs.cantidad_bloques / 8 * 8

-- `cantidad_bloques`: `ceil` of a quotient of doubles, taken to be exact
unfoldable pub cantidad_bloques : ℕ → ℕ → ℕ
cantidad_bloques tamanio n =
    let whole = n / tamanio in if whole * tamanio == n then whole else whole + 1

-- `crearMetadataFiles`
unfoldable pub crear_metadata_files : ℕ → Metadata
crear_metadata_files c = record {
  size = 0;
  block_count = 0;
  blocks = [];
  caracter_llenado = c;
  md5 = b'0' ∷ [];
}

-- `crearMetadataBitacora`; the values that are not written are never read
unfoldable pub crear_metadata_bitacora : Metadata
crear_metadata_bitacora = record {
  size = 0;
  block_count = 0;
  blocks = [];
  caracter_llenado = 0;
  md5 = [];
}

-- `validarSuperBloque` and `validarBlocks` where the files are not there yet: all blocks are free,
-- and a new file holds zeros.
unfoldable pub inicializacion_fs : ℕ → ℕ → Fs
inicializacion_fs tamanio cantidad = record {
  tamanio_bloque = tamanio;
  cantidad_bloques = cantidad;
  copia_blocks = λ a. 0;
  disk_blocks = λ a. 0;
  size_blocks = tamanio * cantidad;
  cantidad_disco = cantidad;
  bitmap = λ i. false;
  files = λ f. none;
}
