-- ===== src/Segmentation/Records/Layout.antt =====
-- What comes back from the memory of a control block.
use native.Mathlib.Nat.{add-zero}
use tp_2021_so_fin.Base.{lt→ltb, ◌∙◌, ℕ, ◌+◌, ◌*◌, ◌/◌, ◌%◌, ◌<◌, ◌≡◌, refl, ap, some, arith, inl}
use tp_2021_so_fin.Base.Bytes.{
  Bytes, u32, put32, put8, get32, get32-put32, get32-put32_ne, put32-ne, put8-ne, put32-bytes,
}
use tp_2021_so_fin.Segmentation.State.{Segment}
use tp_2021_so_fin.Segmentation.Records.{
  Pcb, Tcb, save_tcb_in_memory, get_tcb_from_memory, save_pcb_in_memory, get_pcb_from_memory,
}

-- A PCB that is saved in a segment which ends before the end of the memory comes back.
pub get_pcb-save_pcb :
    (m : Bytes) (n : ℕ) (s : Segment) (d : Pcb)
    → s.limit < n
    → d.pid < u32
    → d.tasks < u32
    → get_pcb_from_memory (save_pcb_in_memory m n s d).0 n s ≡ some d
unfolding save_pcb_in_memory get_pcb_from_memory
get_pcb-save_pcb m n s d h p q =
    let base = s.base_addr in
    let m₁ = put32 m (base + 0) d.pid in
    ground (
      arith,
      get32-put32_ne m₁ (base + 4) d.tasks (base + 0) (inl (omega arith)),
      get32-put32 m (base + 0) d.pid p,
      get32-put32 m₁ (base + 4) d.tasks q,
    )

module _ (m : Bytes) (n : ℕ) (s : Segment) (t : Tcb) (h : s.limit < n) where
  abbrev saved : Bytes
  saved = (save_tcb_in_memory m n s t).0

  abbrev base : ℕ
  base = s.base_addr

  -- the memory after the writes up to the status
  abbrev before : Bytes
  before = put8 (put32 (put32 m (base + 0) t.tid) (base + 4) t.pid) (base + 4) t.status

  -- and up to the ordinate
  abbrev placed : Bytes
  placed = put32 (put32 before (base + 1) t.xpos) (base + 4) t.ypos

  saved-eq : saved ≡ put32 placed (base + 4) t.next
  unfolding save_tcb_in_memory
  saved-eq = ground arith

  -- The byte at the base is the only one of `tid` that is left.
  saved-tid : saved base ≡ t.tid % 256
  saved-tid =
      ap (λ m. m base) saved-eq
      ∙ put32-ne placed (base + 4) t.next base (inl (omega arith))
      ∙ put32-ne (put32 before (base + 1) t.xpos) (base + 4) t.ypos base (inl (omega arith))
      ∙ put32-ne before (base + 1) t.xpos base (inl (omega arith))
      ∙ put8-ne (put32 (put32 m (base + 0) t.tid) (base + 4) t.pid) (base + 4) t.status base
          (inl (omega arith))
      ∙ put32-ne (put32 m (base + 0) t.tid) (base + 4) t.pid base (inl (omega arith))
      ∙ rw add-zero (put32-bytes m base t.tid).0

  -- The three bytes above it are of `xpos`.
  saved-xpos :
      (saved (base + 1) ≡ t.xpos % 256)
      × (saved (base + 2) ≡ t.xpos / 256 % 256)
      × (saved (base + 3) ≡ t.xpos / 65536 % 256)
  unfolding put32
  saved-xpos = rw saved-eq (ground arith, ground arith, ground arith)

  -- The next four are of `next`.
  saved-next : (saved (base + 4) ≡ t.next % 256) × (t.next < u32 → get32 saved (base + 4) ≡ t.next)
  saved-next =
      rw saved-eq
        ((put32-bytes placed (base + 4) t.next).0, (λ q. get32-put32 placed (base + 4) t.next q))

  saved-numbers :
      (get32 saved (base + 0) ≡ t.tid % 256 + 256 * (t.xpos % 16777216))
      × (get32 saved (base + 1) ≡ t.xpos % 16777216 + 16777216 * (t.next % 256))
  unfolding get32
  saved-numbers =
      let a = saved-tid in
      let b = saved-xpos in let d = saved-next.0 in (rw add-zero (omega arith), steps (omega arith))
    where
      steps :
          saved (base + 1)
              + 256 * saved (base + 2)
              + 65536 * saved (base + 3)
              + 16777216 * saved (base + 4)
            ≡ t.xpos % 16777216 + 16777216 * (t.next % 256)
          → saved (base + 1)
              + 256 * saved (base + 1 + 1)
              + 65536 * saved (base + 1 + 2)
              + 16777216 * saved (base + 1 + 3)
            ≡ t.xpos % 16777216 + 16777216 * (t.next % 256)
      steps e =
          let e₁ : base + 1 + 1 ≡ base + 2 = omega arith in
          let e₂ : base + 1 + 2 ≡ base + 3 = omega arith in
          let e₃ : base + 1 + 3 ≡ base + 4 = omega arith in rw (e₁, e₂, e₃) e

  -- A TCB that is saved in a segment which ends before the end of the memory comes back with its
  -- `next`, and otherwise damaged: the last three bytes of `tid` are the first of `xpos`, the last
  -- of `xpos` and the status are the first of `next`, and `pid` and `ypos` are `next`.
  get_tcb-save_tcb :
      t.next < u32
      → get_tcb_from_memory saved n s
        ≡ some (record {
          tid = t.tid % 256 + 256 * (t.xpos % 16777216);
          pid = t.next;
          status = t.next % 256;
          xpos = t.xpos % 16777216 + 16777216 * (t.next % 256);
          ypos = t.next;
          next = t.next;
        })
  unfolding get_tcb_from_memory
  get_tcb-save_tcb q =
      rw (lt→ltb s.limit n h, saved-numbers.0, saved-numbers.1, saved-next.1 q, saved-next.0) refl
