-- ===== src/Store/Tasks.antt =====
-- The tasks of the tripulantes, in tareas.c: what each does to the files.
pub mod Written
use tp_2021_so_fin.Base.{
  ℕ, zero, suc, ◌+◌, Bool, true, false, List, [], ◌∷◌, ◌++◌, Option, none, some, ltb, ◌==◌,
  if◌then◌else◌, length,
}
use tp_2021_so_fin.Base.Texts.{codes}
use tp_2021_so_fin.Store.State.{
  File, Metadata, Fs, Result, done, exited, fault, ◌>>=◌, save, remove, crear_metadata_files,
  crear_metadata_bitacora,
}
use tp_2021_so_fin.Store.Saving.{guardar_en_blocks}
use tp_2021_so_fin.Store.Erasing.{borrar_en_blocks}

-- `enum TAREAS_TRIPULANTE`, without the error that no function returns
pub data Tarea : Type 0 where
  generar_oxigeno consumir_oxigeno generar_basura descartar_basura generar_comida consumir_comida
        no_io :
      Tarea

-- `!strcmp`
unfoldable pub same_text : List ℕ → List ℕ → Bool
same_text [] [] = true
same_text (x ∷ xs) (y ∷ ys) = if x == y then same_text xs ys else false
same_text xs ys = false

unfoldable pub comando_tarea : List ℕ → Tarea
unfolding same_text
comando_tarea tarea =
    if same_text tarea (codes "GENERAR_OXIGENO")
    then generar_oxigeno
    else if same_text tarea (codes "CONSUMIR_OXIGENO")
    then consumir_oxigeno
    else if same_text tarea (codes "GENERAR_BASURA")
    then generar_basura
    else if same_text tarea (codes "DESCARTAR_BASURA")
    then descartar_basura
    else if same_text tarea (codes "GENERAR_COMIDA")
    then generar_comida
    else if same_text tarea (codes "CONSUMIR_COMIDA")
    then consumir_comida
    else no_io

-- `string_repeat`
unfoldable pub repeat : ℕ → ℕ → List ℕ
repeat c zero = []
repeat c (suc n) = c ∷ repeat c n

-- a file that is not there is created
unfoldable pub con_archivo : Fs → File → Metadata → Fs
con_archivo fs f m = elim (fs.files f) [ none ↦ save fs f m | some old ↦ fs ]

module _ (md5sum : List ℕ → List ℕ) where
  -- the writes to a bitácora, by the handler and by the tasks
  unfoldable pub escribir_en_bitacora : Fs → List ℕ → ℕ → Result Fs
  unfolding con_archivo crear_metadata_bitacora guardar_en_blocks
  escribir_en_bitacora fs texto id =
      guardar_en_blocks md5sum (con_archivo fs (File.tripulante id) crear_metadata_bitacora) texto
        (File.tripulante id) false

  unfoldable pub escribir_comienza_tarea : Fs → List ℕ → ℕ → Result Fs
  unfolding escribir_en_bitacora
  escribir_comienza_tarea fs tarea id =
      escribir_en_bitacora fs (codes "COMIENZA_EJECUCION_TAREA " ++ tarea ++ codes "|") id

  unfoldable pub escribir_finaliza_tarea : Fs → List ℕ → ℕ → Result Fs
  unfolding escribir_en_bitacora
  escribir_finaliza_tarea fs tarea id =
      escribir_en_bitacora fs (codes "FINALIZA_EJECUCION_TAREA " ++ tarea ++ codes "|") id

  -- `generarOxigeno`, `generarComida` and `generarBasura`, which differ in the file and the letter
  unfoldable pub generar : Fs → File → ℕ → ℕ → Result Fs
  unfolding con_archivo crear_metadata_files repeat guardar_en_blocks
  generar fs f c parametro =
      guardar_en_blocks md5sum (con_archivo fs f (crear_metadata_files c))
        (repeat c parametro ++ codes "|") f true

  -- `consumirOxigeno` and `consumirComida`: no more is taken off than is there, except from an
  -- empty file.
  unfoldable pub consumir : Fs → File → ℕ → ℕ → Result Fs
  unfolding repeat borrar_en_blocks
  consumir fs f c parametro = elim (fs.files f) [
    | none ↦ done fs
    | some m ↦
        let quitar =
          if m.size == 0 then parametro else if ltb m.size parametro then m.size else parametro in
        borrar_en_blocks md5sum fs (repeat c quitar) f
  ]

  unfoldable pub descartar : Fs → Result Fs
  unfolding repeat borrar_en_blocks
  descartar fs = elim (fs.files File.basura) [
    | none ↦ done fs
    | some m ↦ do
      fs' ← borrar_en_blocks md5sum fs (repeat b'B' m.size) File.basura
      done (remove fs' File.basura)
  ]

  -- what a task does after the bitácora is written
  unfoldable pub hacer_tarea : Fs → Tarea → ℕ → Result Fs
  unfolding generar consumir descartar
  hacer_tarea fs generar_oxigeno n = generar fs File.oxigeno b'O' n
  hacer_tarea fs consumir_oxigeno n = consumir fs File.oxigeno b'O' n
  hacer_tarea fs generar_comida n = generar fs File.comida b'C' n
  hacer_tarea fs consumir_comida n = consumir fs File.comida b'C' n
  hacer_tarea fs generar_basura n = generar fs File.basura b'B' n
  hacer_tarea fs descartar_basura n = descartar fs
  hacer_tarea fs no_io n = done fs

  unfoldable pub comienza_ejecutar_tarea : Fs → List ℕ → ℕ → ℕ → Result Fs
  unfolding comando_tarea escribir_comienza_tarea hacer_tarea
  comienza_ejecutar_tarea fs tarea parametro id = do
    fs' ← escribir_comienza_tarea fs tarea id
    hacer_tarea fs' (comando_tarea tarea) parametro

  unfoldable pub finaliza_ejecutar_tarea : Fs → List ℕ → ℕ → Result Fs
  unfolding escribir_finaliza_tarea
  finaliza_ejecutar_tarea fs tarea id = escribir_finaliza_tarea fs tarea id
