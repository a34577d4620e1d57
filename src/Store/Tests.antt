-- ===== src/Store/Tests.antt =====
-- Runs of IMongoStore on a few small blocks, and the theorems applied to them.
use tp_2021_so_fin.Base.{
  ℕ, ◌+◌, ◌*◌, ◌≤◌, ◌<◌, ◌≡◌, refl, Bool, true, false, List, [], ◌∷◌, ◌++◌, none, some, arith, ltb,
  ◌==◌, if◌then◌else◌, length,
}
use tp_2021_so_fin.Base.Bytes.{Bytes, get32}
use tp_2021_so_fin.Base.Counts.{count}
use tp_2021_so_fin.Base.Texts.{bytes_of, codes, read}
use tp_2021_so_fin.Store.State.{
  File, Metadata, Fs, done, exited, same_file, save, max_bit, cantidad_bloques,
  crear_metadata_bitacora, inicializacion_fs,
}
use tp_2021_so_fin.Store.Saving.{guardar_por_bloque, guardar_en_blocks}
use tp_2021_so_fin.Store.Saving.Saved.{IsSaved}
use tp_2021_so_fin.Store.Saving.Whole.{cantidad_bloques-bounds, guardar_por_bloque-IsSaved}
use tp_2021_so_fin.Store.Erasing.{borrar_en_blocks}
use tp_2021_so_fin.Store.Erasing.Erased.{IsWithin}
use tp_2021_so_fin.Store.Erasing.Whole.{borrar_en_blocks-emptied}
use tp_2021_so_fin.Store.Bitacora.{obtener_bitacora}
use tp_2021_so_fin.Store.Bitacora.Stored.{IsHeld, IsBitacora, nothing_yet, written}
use tp_2021_so_fin.Store.Bitacora.Appended.{IsAppended}
use tp_2021_so_fin.Store.Bitacora.Refined.{
  guardar_en_blocks-IsAppended, guardar_en_blocks-exited, obtener_bitacora-guardar_en_blocks,
}
use tp_2021_so_fin.Store.Tasks.{escribir_en_bitacora}
use tp_2021_so_fin.Store.Tasks.Written.{IsStored, absent, there, escribir_en_bitacora-IsStored}
use tp_2021_so_fin.Store.Repair.{validacion_es_valida_lista_recursos}
use tp_2021_so_fin.Store.Repair.Lists.{Quedan, validacion_es_valida_lista_recursos-validos}
use tp_2021_so_fin.Store.Handler.{
  handler, texto_tarea, finaliza_tarea, obtener_bitacora_code, respuesta_obtener_bitacora,
}
use tp_2021_so_fin.Store.Handler.RoundTrip.{nota, handler-noted}

-- the library functions, as functions that are as simple as can be
abbrev digest : List ℕ → List ℕ
digest xs = b'0' ∷ []

abbrev split : List ℕ → List (List ℕ)
split xs = xs ∷ []

abbrev itoa : ℕ → List ℕ
itoa n = (b'0' + n) ∷ []

abbrev no_bits : ℕ → Bool
no_bits i = false

-- sixteen blocks of eight bytes
abbrev empty_fs : Fs
unfolding inicializacion_fs
empty_fs = inicializacion_fs 8 16

-- the bitácora of tripulante 1 holds "AB", in block 0
abbrev meta_ab : Metadata
meta_ab = record { size = 1; block_count = 0; blocks = 0 ∷ []; caracter_llenado = 0; md5 = [] }

abbrev fs_ab : Fs
unfolding empty_fs
fs_ab = record empty_fs {
  copia_blocks = bytes_of (codes "AB");
  bitmap = λ i. i == 0;
  files = λ f. if same_file (File.tripulante 1) f then some meta_ab else none;
}

IsHeld-ab : IsHeld fs_ab (0 ∷ []) (codes "AB")
unfolding fs_ab read
IsHeld-ab = record {
  fits = omega arith;
  filled = omega arith;
  texted = refl;
  used = λ b h. ground arith;
  distinct = λ b. ground arith;
}

IsBitacora-ab : IsBitacora fs_ab meta_ab (codes "AB")
IsBitacora-ab = written (codes "AB") (omega arith) refl IsHeld-ab

guardar_en_blocks-IsAppended_example :
    IsAppended fs_ab meta_ab
      (File.tripulante 1)
      (codes "AB" ++ codes "CDEFGHIJKL|")
      (guardar_en_blocks digest fs_ab (codes "CDEFGHIJKL|") (File.tripulante 1) false)
unfolding fs_ab
guardar_en_blocks-IsAppended_example =
    guardar_en_blocks-IsAppended digest fs_ab meta_ab (File.tripulante 1) (codes "AB")
      (codes "CDEFGHIJKL|") (omega arith) (omega arith) refl IsBitacora-ab (omega arith)

-- four blocks of one byte, and a bitácora that holds nothing yet; the bitmap has no whole byte
abbrev tiny_fs : Fs
unfolding inicializacion_fs crear_metadata_bitacora
tiny_fs = save (inicializacion_fs 1 4) (File.tripulante 1) crear_metadata_bitacora

guardar_en_blocks-exited_example :
    guardar_en_blocks digest tiny_fs (codes "ABC") (File.tripulante 1) false ≡ exited
unfolding tiny_fs
guardar_en_blocks-exited_example =
    guardar_en_blocks-exited digest tiny_fs crear_metadata_bitacora (File.tripulante 1) []
      (codes "ABC") (omega arith) (omega arith) refl (nothing_yet refl refl) (omega arith)

obtener_bitacora-guardar_en_blocks_example :
    (fs' : Fs) × (guardar_en_blocks digest fs_ab (codes "CDEFGHIJKL|") (File.tripulante 1) false
      ≡ done fs')
    × (obtener_bitacora fs' 1 ≡ some (codes "AB" ++ codes "CDEFGHIJKL|"))
unfolding fs_ab
obtener_bitacora-guardar_en_blocks_example =
    obtener_bitacora-guardar_en_blocks digest fs_ab meta_ab 1 (codes "AB") (codes "CDEFGHIJKL|")
      (omega arith) (omega arith) refl IsBitacora-ab (omega arith) refl

escribir_en_bitacora-IsStored_example :
    (fs' : Fs) × (escribir_en_bitacora digest fs_ab (codes "CD|") 1 ≡ done fs')
    × IsStored fs' 1 (codes "AB" ++ codes "CD|")
    × ((g : File) → same_file (File.tripulante 1) g ≡ false → fs'.files g ≡ fs_ab.files g)
unfolding fs_ab
escribir_en_bitacora-IsStored_example =
    escribir_en_bitacora-IsStored digest fs_ab 1 (codes "AB") (codes "CD|") (omega arith)
      (omega arith) (there (codes "AB") meta_ab refl IsBitacora-ab) (omega arith)

cantidad_bloques-bounds_example :
    (17 ≤ cantidad_bloques 8 17 * 8) × (cantidad_bloques 8 17 * 8 < 17 + 8)
cantidad_bloques-bounds_example = cantidad_bloques-bounds 8 17 (omega arith) (omega arith)

guardar_por_bloque-IsSaved_example :
    IsSaved fs_ab meta_ab
      (cantidad_bloques 8 11)
      (codes "OOOOOOOOOO|")
      true
      0
      (max_bit fs_ab)
      (guardar_por_bloque fs_ab (codes "OOOOOOOOOO|") (cantidad_bloques 8 11) true meta_ab)
unfolding fs_ab cantidad_bloques
guardar_por_bloque-IsSaved_example =
    guardar_por_bloque-IsSaved fs_ab (codes "OOOOOOOOOO|") true meta_ab (omega arith) (omega arith)
      (omega arith)

-- Oxigeno holds ten letters and a bar, in the blocks 0 and 1
abbrev meta_o : Metadata
meta_o = record {
  size = 10;
  block_count = 2;
  blocks = 0 ∷ 1 ∷ [];
  caracter_llenado = b'O';
  md5 = [];
}

abbrev fs_o : Fs
unfolding empty_fs
fs_o = record empty_fs {
  copia_blocks = bytes_of (codes "OOOOOOOOOO|");
  bitmap = λ i. ltb i 2;
  files = λ f. if same_file File.oxigeno f then some meta_o else none;
}

IsWithin-o : IsWithin fs_o meta_o.blocks meta_o.size
unfolding fs_o
IsWithin-o = record { in_map = λ b h. ground arith; on_disk = λ b h. ground arith }

borrar_en_blocks-emptied_example :
    (fs' : Fs) × (borrar_en_blocks digest fs_o (codes "OOOOOOOOOO") File.oxigeno ≡ done fs')
    × (fs'.files File.oxigeno
        ≡ some (record meta_o { size = 0; block_count = 0; blocks = []; md5 = digest [] }))
    × ((b : ℕ) → fs'.bitmap b ≡ (if ltb 0 (count b meta_o.blocks) then false else fs_o.bitmap b))
unfolding fs_o
borrar_en_blocks-emptied_example =
    borrar_en_blocks-emptied digest fs_o (codes "OOOOOOOOOO") File.oxigeno meta_o refl (omega arith)
      IsWithin-o.in_map

-- the list of Oxigeno after a sabotage: the blocks 40 and 5 are not its own
abbrev meta_bad : Metadata
meta_bad = record meta_o { blocks = 0 ∷ 40 ∷ 1 ∷ 5 ∷ [] }

abbrev fs_bad : Fs
unfolding fs_o
fs_bad = save fs_o File.oxigeno meta_bad

validacion_es_valida_lista_recursos-validos_example :
    (cs : List ℕ) × ((validacion_es_valida_lista_recursos File.oxigeno fs_bad).files File.oxigeno
      ≡ some (record meta_bad { blocks = cs }))
    × Quedan fs_bad meta_bad.blocks cs
unfolding fs_bad
validacion_es_valida_lista_recursos-validos_example =
    validacion_es_valida_lista_recursos-validos fs_bad File.oxigeno meta_bad refl

-- `FINALIZA_TAREA` of the tripulante 1 and the task "X", and the request for the bitácora
abbrev finaliza_x : Bytes
finaliza_x = bytes_of (1 ∷ 0 ∷ 0 ∷ 0 ∷ 1 ∷ 0 ∷ 0 ∷ 0 ∷ b'X' ∷ [])

abbrev pregunta : Bytes
pregunta = bytes_of (1 ∷ 0 ∷ 0 ∷ 0 ∷ [])

corta : get32 finaliza_x 4 < 2147483647
unfolding get32
corta = ground arith

handler-noted_example :
    (fs' : Fs) × (handler digest split itoa 1 no_bits finaliza_tarea finaliza_x empty_fs
      ≡ done (fs', none))
    × (handler digest split itoa 1 no_bits obtener_bitacora_code pregunta fs'
        ≡ done (
          fs',
          some (record {
            codigo = respuesta_obtener_bitacora;
            texto = [] ++ nota finaliza_x;
            tamanio = 5 + length ([] ++ nota finaliza_x);
          }),
        ))
unfolding empty_fs texto_tarea
handler-noted_example =
    handler-noted digest split itoa 1 no_bits finaliza_x pregunta empty_fs [] (omega arith) corta
      refl (absent refl) refl (omega arith)
