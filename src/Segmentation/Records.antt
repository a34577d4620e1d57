-- ===== src/Segmentation/Records.antt =====
-- The control blocks in memory: `save_tcb_in_memory`, `get_tcb_from_memory` and the like. The
-- offsets are those of the code, which assigns `offset` where it could have added to it.
pub mod Layout
use tp_2021_so_fin.Base.{ℕ, ◌+◌, Option, none, some, Bool, true, false, ltb, if◌then◌else◌}
use tp_2021_so_fin.Base.Bytes.{Bytes, memcpy, memset, put32, put8, get32}
use tp_2021_so_fin.Segmentation.State.{Segment, size_of}

-- `pcb_t`
pub record Pcb : Type 0 where
  pub pid : ℕ
  pub tasks : ℕ

-- `tcb_t`
pub record Tcb : Type 0 where
  pub tid : ℕ
  pub pid : ℕ
  pub status : ℕ
  pub xpos : ℕ
  pub ypos : ℕ
  pub next : ℕ

-- The result is the memory, and whether the code returns 1 rather than -1.
unfoldable pub save_tcb_in_memory : Bytes → ℕ → Segment → Tcb → Bytes × Bool
save_tcb_in_memory memory mem_size segmento t =
    let base = segmento.base_addr in
    let m₁ = put32 memory (base + 0) t.tid in
    let m₂ = put32 m₁ (base + 4) t.pid in
    let m₃ = put8 m₂ (base + 4) t.status in
    let m₄ = put32 m₃ (base + 1) t.xpos in
    let m₅ = put32 m₄ (base + 4) t.ypos in
    let m₆ = put32 m₅ (base + 4) t.next in
    if ltb segmento.limit mem_size then (m₆, true) else (memory, false)

unfoldable pub get_tcb_from_memory : Bytes → ℕ → Segment → Option Tcb
get_tcb_from_memory memory mem_size segmento =
    let base = segmento.base_addr in
    if ltb segmento.limit mem_size
    then some (record {
      tid = get32 memory (base + 0);
      pid = get32 memory (base + 4);
      status = memory (base + 4);
      xpos = get32 memory (base + 1);
      ypos = get32 memory (base + 4);
      next = get32 memory (base + 4);
    })
    else none

unfoldable pub save_pcb_in_memory : Bytes → ℕ → Segment → Pcb → Bytes × Bool
save_pcb_in_memory memory mem_size segmento d =
    let base = segmento.base_addr in
    let m₁ = put32 memory (base + 0) d.pid in
    let m₂ = put32 m₁ (base + 4) d.tasks in
    if ltb segmento.limit mem_size then (m₂, true) else (memory, false)

unfoldable pub get_pcb_from_memory : Bytes → ℕ → Segment → Option Pcb
get_pcb_from_memory memory mem_size segmento =
    let base = segmento.base_addr in
    if ltb segmento.limit mem_size
    then some (record { pid = get32 memory (base + 0); tasks = get32 memory (base + 4) })
    else none

unfoldable pub save_task_in_memory : Bytes → ℕ → Segment → Bytes → Bytes × Bool
save_task_in_memory memory mem_size segmento text =
    if ltb segmento.limit mem_size
    then (memcpy memory segmento.base_addr text 0 (size_of segmento), true)
    else (memory, false)

-- It is called with `admin` in place of the memory.
unfoldable pub remove_segment_from_memory : Bytes → ℕ → Segment → Bytes × Bool
remove_segment_from_memory memory mem_size segmento =
    if ltb segmento.limit mem_size
    then (memset memory segmento.base_addr 0 (size_of segmento), true)
    else (memory, false)
