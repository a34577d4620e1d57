-- ===== src/Store/Repair/Bitmap.antt =====
-- The check of the bitmap.
use tp_2021_so_fin.Base.{ℕ, zero, suc, ◌+◌, Bool, List, [], ◌++◌, Option, none, some, ltb}
use tp_2021_so_fin.Base.Counts.{count}
use tp_2021_so_fin.Store.State.{File, Metadata, Fs}

abbrev pub listados : Option Metadata → List ℕ
listados none = []
listados (some m) = m.blocks

-- the blocks of the resources
abbrev pub de_recursos : Fs → List ℕ
de_recursos fs =
    listados (fs.files File.oxigeno)
    ++ listados (fs.files File.comida)
    ++ listados (fs.files File.basura)

-- the blocks in the bitácoras of `n` tripulantes, from the one given on
abbrev pub de_bitacoras : ℕ → Fs → ℕ → List ℕ
de_bitacoras zero fs id = []
de_bitacoras (suc n) fs id = listados (fs.files (File.tripulante id)) ++ de_bitacoras n fs (id + 1)

abbrev pub en_lista : ℕ → List ℕ → Bool
en_lista b bs = ltb 0 (count b bs)
