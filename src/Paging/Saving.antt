-- ===== src/Paging/Saving.antt =====
-- `save_data_in_memory`: the pages of a new patota.
use tp_2021_so_fin.Base.{
  ℕ, zero, suc, ◌+◌, ◌*◌, ◌/◌, Bool, true, false, List, [], ◌∷◌, ◌++◌, Option, none, some, not,
  ◌==◌, if◌then◌else◌, length,
}
use tp_2021_so_fin.Base.Bytes.{Bytes, memcpy, put32, get32}
use tp_2021_so_fin.Commons.{Commons}
use tp_2021_so_fin.Base.Options.{◌>>=◌}
use tp_2021_so_fin.Paging.State.{AdminData, Paged, write, set_bitmap, address}
use tp_2021_so_fin.Paging.Frames.{frame_for, check_free_frames}

-- The five fields of a tripulante in the message, and 0 as the start of its tasks.
unfoldable pub copy_tcb : Bytes → ℕ → Bytes → ℕ → Bytes
unfolding memcpy put32
copy_tcb temp temp_off buffer offset =
    let t₁ = memcpy temp temp_off buffer offset 4 in
    let t₂ = memcpy t₁ (temp_off + 4) buffer (offset + 4) 4 in
    let t₃ = memcpy t₂ (temp_off + 8) buffer (offset + 8) 1 in
    let t₄ = memcpy t₃ (temp_off + 9) buffer (offset + 9) 4 in
    let t₅ = memcpy t₄ (temp_off + 13) buffer (offset + 13) 4 in put32 t₅ (temp_off + 17) 0

unfoldable pub copy_tcbs : ℕ → Bytes → ℕ → Bytes → ℕ → Bytes
unfolding copy_tcb
copy_tcbs zero temp temp_off buffer offset = temp
copy_tcbs (suc n) temp temp_off buffer offset =
    copy_tcbs n (copy_tcb temp temp_off buffer offset) (temp_off + 21) buffer (offset + 17)

-- `ceil((double) size / page_size)`: a double holds the int, and the quotient is not rounded past
-- the next whole number.
abbrev pub pages_for : ℕ → ℕ → ℕ
pages_for page_size size =
    let whole = size / page_size in if whole * page_size == size then whole else whole + 1

-- `temp`: the tasks, the PCB and the TCBs of the message, one after the other
unfoldable pub gather_data : Bytes → Bytes → Bytes
unfolding memcpy put32 get32 copy_tcbs
gather_data fresh buffer =
    let task_size = get32 buffer 4 in
    let t₁ = memcpy fresh 0 buffer 8 task_size in
    let t₂ = put32 t₁ task_size (get32 buffer 0) in
    let t₃ = put32 t₂ (task_size + 4) 0 in
    copy_tcbs (get32 buffer (8 + task_size)) t₃ (task_size + 8) buffer (12 + task_size)

-- A new page with a new frame that is in use, and the first `len` bytes from `src` on in it.
unfoldable pub fill_page : Paged → ℕ → ℕ → Bytes → ℕ → ℕ → Paged
unfolding memcpy set_bitmap
fill_page r number n_frame temp src len = record r {
  bitmap = set_bitmap r.bitmap n_frame;
  timer = r.timer + 1;
  heap = write r.heap r.next_ptr (record {
    number = number;
    frame = record {
      number = n_frame;
      start = address r n_frame;
      modified = true;
      presence = true;
      time = r.timer;
    };
  });
  next_ptr = suc r.next_ptr;
  memory = memcpy r.memory (address r n_frame) temp src len;
}

module _ (c : Commons) (bucket : ℕ → ℕ) where
  -- The loop over the frames: `n` are left, and `tabla` has the pages of those before.
  unfoldable pub save_pages : ℕ → Paged → ℕ → List ℕ → Bytes → Option Paged
  unfolding frame_for fill_page
  save_pages zero r pid tabla temp = some r
  save_pages (suc n) r pid tabla temp = frame_for bucket r >>= λ x.
      let j = length tabla in
      let r' = fill_page x.1 j x.0 temp (j * r.page_size) r.page_size in
      let tabla' = tabla ++ x.1.next_ptr ∷ [] in
      save_pages n
        (record r' { table_collection = c.dictionary_put r'.table_collection pid tabla' }) pid
        tabla' temp

  abbrev saved_data : Option Paged → Option (Bool × Paged)
  saved_data none = none
  saved_data (some r) = some (true, r)

  -- `true` is 1, and `false` is -1. The second `check_free_frames` reads what the first one did.
  unfoldable pub save_data_in_memory : Paged → Bytes → Option (Bool × Paged)
  unfolding check_free_frames gather_data save_pages get32
  save_data_in_memory r buffer =
      let pid = get32 buffer 0 in
      let task_size = get32 buffer 4 in
      let tcb_count = get32 buffer (8 + task_size) in
      let memory_size = 8 + task_size + tcb_count * 21 in
      let frames_count = pages_for r.page_size memory_size in
      let temp = gather_data (c.malloc (frames_count * r.page_size)) buffer in
      let tcb_data : AdminData = record {
        start = 8 + task_size;
        page_number = (8 + task_size) / r.page_size;
        cantidad = tcb_count;
        tcb = λ i. true;
      } in
      let r' = record r { admin_collection = c.dictionary_put r.admin_collection pid tcb_data } in
      if not (check_free_frames r frames_count)
      then some (false, r)
      else if check_free_frames r' frames_count
      then saved_data (save_pages frames_count r' pid [] temp)
      else some (false, r')
