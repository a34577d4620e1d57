-- ===== src/Store/Tasks/Written.antt =====
-- What the tasks do to a bitácora and to a resource, in terms of what these hold.
use tp_2021_so_fin.Base.{
  ℕ, zero, suc, ◌+◌, ◌*◌, ◌≤◌, ◌<◌, ◌≡◌, refl, ap, ◌∙◌, false, List, [], ◌++◌, none, some, arith,
  ltb, ◌==◌, length,
}
use tp_2021_so_fin.Base.Counts.{clear_bits}
use tp_2021_so_fin.Store.State.{
  File, Metadata, Fs, done, max_bit, same_file, save, crear_metadata_bitacora,
}
use tp_2021_so_fin.Store.Saving.{guardar_en_blocks}
use tp_2021_so_fin.Store.Bitacora.{obtener_bitacora}
use tp_2021_so_fin.Store.Bitacora.Stored.{IsText, IsBitacora, nothing_yet}
use tp_2021_so_fin.Store.Bitacora.Appended.{same_file_refl}
use tp_2021_so_fin.Store.Bitacora.Obtained.{obtener_bitacora-IsBitacora}
use tp_2021_so_fin.Store.Bitacora.Refined.{guardar_en_blocks-IsAppended}
use tp_2021_so_fin.Store.Repair.Bitmap.{listados}
use tp_2021_so_fin.Store.Erasing.{borrar_en_blocks}
use tp_2021_so_fin.Store.Erasing.Erased.{IsConsistent, IsWithin, IsErased}
use tp_2021_so_fin.Store.Erasing.Whole.{borrar_en_blocks-IsErased}
use tp_2021_so_fin.Store.Tasks.{repeat, con_archivo, escribir_en_bitacora, consumir}

-- What the bitácora of a tripulante holds: one that is not there holds nothing.
pub data IsStored (fs : Fs) (id : ℕ) : List ℕ → Type 0 where
  absent : fs.files (File.tripulante id) ≡ none → IsStored fs id []
  there :
      (texto : List ℕ) (m : Metadata)
      → fs.files (File.tripulante id) ≡ some m
      → IsBitacora fs m texto
      → IsStored fs id texto

-- the bytes that a bitácora can have, in its blocks and in the free ones
abbrev pub capacidad : Fs → ℕ → ℕ
capacidad fs id =
    (length (listados (fs.files (File.tripulante id))) + clear_bits (max_bit fs) fs.bitmap 0)
    * fs.tamanio_bloque

con_archivo-there :
    (fs : Fs) (f : File) (new m : Metadata) → fs.files f ≡ some m → con_archivo fs f new ≡ fs
unfolding con_archivo
con_archivo-there fs f new m e = rw (con_archivo, e) refl

con_archivo-absent :
    (fs : Fs) (f : File) (new : Metadata) → fs.files f ≡ none → con_archivo fs f new ≡ save fs f new
unfolding con_archivo
con_archivo-absent fs f new e = rw (con_archivo, e) refl

module _ (md5sum : List ℕ → List ℕ) (fs : Fs) (id : ℕ) (nuevo : List ℕ) where
  escribir-there :
      (m : Metadata)
      → fs.files (File.tripulante id) ≡ some m
      → escribir_en_bitacora md5sum fs nuevo id
        ≡ guardar_en_blocks md5sum fs nuevo (File.tripulante id) false
  unfolding escribir_en_bitacora
  escribir-there m e =
      ap (λ s. guardar_en_blocks md5sum s nuevo (File.tripulante id) false)
        (con_archivo-there fs (File.tripulante id) crear_metadata_bitacora m e)

  escribir-absent :
      fs.files (File.tripulante id) ≡ none
      → escribir_en_bitacora md5sum fs nuevo id
        ≡ guardar_en_blocks md5sum
            (save fs (File.tripulante id) crear_metadata_bitacora)
            nuevo
            (File.tripulante id)
            false
  unfolding escribir_en_bitacora
  escribir-absent e =
      ap (λ s. guardar_en_blocks md5sum s nuevo (File.tripulante id) false)
        (con_archivo-absent fs (File.tripulante id) crear_metadata_bitacora e)

-- If there is room for it, a text of two bytes or more is added to what the bitácora of the
-- tripulante holds, also where there is none yet: the write returns, and no other file changes.
pub escribir_en_bitacora-IsStored :
    (md5sum : List ℕ → List ℕ) (fs : Fs) (id : ℕ) (texto nuevo : List ℕ)
    → 0 < fs.tamanio_bloque
    → 2 ≤ length nuevo
    → IsStored fs id texto
    → length texto + length nuevo ≤ capacidad fs id
    → (fs' : Fs) × (escribir_en_bitacora md5sum fs nuevo id ≡ done fs')
      × IsStored fs' id (texto ++ nuevo)
      × ((g : File) → same_file (File.tripulante id) g ≡ false → fs'.files g ≡ fs.files g)
unfolding crear_metadata_bitacora
escribir_en_bitacora-IsStored md5sum fs id [] nuevo l long (absent e) room =
    let f = File.tripulante id in
    let s = save fs f crear_metadata_bitacora in
    let r = same_file_refl f in
    let c =
      ap (λ o. (length (listados o) + clear_bits (max_bit fs) fs.bitmap 0) * fs.tamanio_bloque) e in
    let a =
      guardar_en_blocks-IsAppended md5sum s crear_metadata_bitacora f [] nuevo l long (rw r refl)
        (nothing_yet refl refl) (omega (arith, c)) in
    (
      a.fs',
      escribir-absent md5sum fs id nuevo e ∙ a.returned,
      there nuevo a.m' a.found a.held,
      λ g d. a.others g d ∙ rw d refl,
    )
escribir_en_bitacora-IsStored md5sum fs id texto nuevo l long (there _ m e h) room =
    let f = File.tripulante id in
    let c =
      ap (λ o. (length (listados o) + clear_bits (max_bit fs) fs.bitmap 0) * fs.tamanio_bloque) e in
    let a =
      guardar_en_blocks-IsAppended md5sum fs m f texto nuevo l long e h (omega (arith, c, room)) in
    (
      a.fs',
      escribir-there md5sum fs id nuevo m e ∙ a.returned,
      there (texto ++ nuevo) a.m' a.found a.held,
      λ g d. a.others g d,
    )

pub obtener_bitacora-IsStored :
    (fs : Fs) (id : ℕ) (texto : List ℕ)
    → IsStored fs id texto
    → IsText texto
    → obtener_bitacora fs id ≡ some texto
unfolding obtener_bitacora
obtener_bitacora-IsStored fs id [] (absent e) text = rw (obtener_bitacora, e) refl
obtener_bitacora-IsStored fs id texto (there _ m e h) text =
    obtener_bitacora-IsBitacora fs id m texto e h text

length-repeat : (c n : ℕ) → length (repeat c n) ≡ n
unfolding repeat
length-repeat c zero = refl
length-repeat c (suc n) = ap suc (length-repeat c n)

consumir-some :
    (md5sum : List ℕ → List ℕ) (fs : Fs) (f : File) (m : Metadata) (c n : ℕ)
    → fs.files f ≡ some m
    → n < m.size
    → consumir md5sum fs f c n ≡ borrar_en_blocks md5sum fs (repeat c n) f
unfolding consumir
consumir-some md5sum fs f m c n found h =
    let z : m.size == 0 ≡ false = ground arith in
    let l : ltb m.size n ≡ false = ground arith in rw (consumir, found, z, l) refl

-- From a resource whose values agree and that has more than what is asked for, as many bytes are
-- taken as are asked for, if its blocks are within the disk.
consumir-IsErased :
    (md5sum : List ℕ → List ℕ) (fs : Fs) (f : File) (m : Metadata) (c n : ℕ)
    → 0 < fs.tamanio_bloque
    → fs.files f ≡ some m
    → IsConsistent fs.tamanio_bloque m
    → IsWithin fs m.blocks m.size
    → n < m.size
    → IsErased fs f m n (consumir md5sum fs f c n)
consumir-IsErased md5sum fs f m c n l found h w more =
    let e = length-repeat c n in
    rw (consumir-some md5sum fs f m c n found more)
      (rw e at (borrar_en_blocks-IsErased md5sum fs (repeat c n) f m l found h w (rw e more)))
