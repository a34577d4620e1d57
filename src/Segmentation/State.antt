-- ===== src/Segmentation/State.antt =====
-- The data of the segmentation scheme: MiRAMHQ/memory.h.
use tp_2021_so_fin.Base.{ℕ, ◌+◌, ◌-◌, ◌%◌, Bool, List, Option, none, some, ◌==◌, if◌then◌else◌}
use tp_2021_so_fin.Base.Bytes.{Bytes, u32}
use tp_2021_so_fin.Commons.{Dictionary}

-- `segment`; all fields are `uint32_t`.
pub record Segment : Type 0 where
  pub id : ℕ
  pub type : ℕ
  pub nro_segmento : ℕ
  pub base_addr : ℕ
  pub limit : ℕ

-- `enum tipo_segmento`
abbrev pub pcb_type : ℕ
pcb_type = 0

abbrev pub tcb_type : ℕ
tcb_type = 1

abbrev pub task_type : ℕ
task_type = 2

-- -1 in a `uint32_t`
abbrev pub minus_one : ℕ
minus_one = 4294967295

-- An `int` that is -1 on failure, stored in a `uint32_t`.
abbrev pub to_u32 : Option ℕ → ℕ
to_u32 none = minus_one
to_u32 (some a) = a

-- `segmento -> limit - segmento -> baseAddr`, in `uint32_t`
abbrev pub size_of : Segment → ℕ
size_of s = (s.limit + u32 - s.base_addr) % u32

-- a segment of `segmentosLibres`
abbrev pub hole : ℕ → ℕ → Segment
hole base limit = record {
  id = minus_one;
  type = minus_one;
  nro_segmento = minus_one;
  base_addr = base;
  limit = limit;
}

-- The globals of the process. `heap` holds the segments of the tables, which are shared by
-- pointer, and `next_ptr` is the next address that `malloc` gives to one. The free segments are
-- never shared.
pub record Ram : Type 0 where
  pub memory : Bytes
  pub admin : Bytes
  pub mem_size : ℕ
  pub is_best_fit : Bool
  pub heap : ℕ → Segment
  pub next_ptr : ℕ
  pub segmentos_libres : List Segment
  pub table_collection : Dictionary (List ℕ)

-- a write through a pointer
abbrev pub update : (ℕ → Segment) → ℕ → Segment → ℕ → Segment
update heap p s q = if p == q then s else heap q
