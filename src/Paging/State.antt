-- ===== src/Paging/State.antt =====
-- The data of the paging scheme: MiRAMHQ/memory.h.
use tp_2021_so_fin.Base.{ℕ, ◌*◌, ◌%◌, Bool, true, false, List, ◌==◌, if◌then◌else◌, ltb}
use tp_2021_so_fin.Base.Bytes.{Bytes, u32}
use tp_2021_so_fin.Commons.{Dictionary}

-- `frame_t`
pub record Frame : Type 0 where
  pub number : ℕ
  pub start : ℕ
  pub modified : Bool
  pub presence : Bool
  pub time : ℕ

-- `page_t`; no two pages share a frame, so that it stands in the page.
pub record Page : Type 0 where
  pub number : ℕ
  pub frame : Frame

-- `admin_data`
pub record AdminData : Type 0 where
  pub start : ℕ
  pub page_number : ℕ
  pub cantidad : ℕ
  pub tcb : ℕ → Bool

-- The globals of the process. `heap` holds the pages, which the tables point to. The file behind
-- `virtual_memory` also holds `virtual_bitmap`, after the pages.
pub record Paged : Type 0 where
  pub memory : Bytes
  pub virtual_memory : Bytes
  pub page_size : ℕ
  pub frames_memory : ℕ
  pub frames_virtual : ℕ
  pub bitmap : ℕ → Bool
  pub virtual_bitmap : ℕ → Bool
  pub has_lru : Bool
  pub timer : ℕ
  pub heap : ℕ → Page
  pub next_ptr : ℕ
  pub table_collection : Dictionary (List ℕ)
  pub admin_collection : Dictionary AdminData
  pub global_clock_key : ℕ
  pub global_clock_index : ℕ

-- a write through a pointer
abbrev pub write : (ℕ → Page) → ℕ → Page → ℕ → Page
write heap p page q = if p == q then page else heap q

-- `set_bitmap`, and `bitarray_set_bit` on the other bitmap
unfoldable pub set_bitmap : (ℕ → Bool) → ℕ → ℕ → Bool
set_bitmap bitmap position i = if position == i then true else bitmap i

-- `unset_bitmap`, and `bitarray_clean_bit` on the other bitmap
unfoldable pub unset_bitmap : (ℕ → Bool) → ℕ → ℕ → Bool
unset_bitmap bitmap position i = if position == i then false else bitmap i

-- `sort_by_id`, on pages by pointer
unfoldable pub sort_by_id : (ℕ → Page) → ℕ → ℕ → Bool
sort_by_id heap p q = ltb (heap p).number (heap q).number

-- `n_frame * page_size`, in `uint32_t`
abbrev pub address : Paged → ℕ → ℕ
address r n = n * r.page_size % u32
