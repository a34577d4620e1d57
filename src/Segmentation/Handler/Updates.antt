-- ===== src/Segmentation/Handler/Updates.antt =====
-- RECIBIR_ESTADO_TRIPULANTE and RECIBIR_UBICACION_TRIPULANTE: which bytes they write.
use tp_2021_so_fin.Base.{ℕ, ◌+◌, ◌%◌, ◌≤◌, ◌<◌, ◌≡◌, refl, ◌∙◌, Bool, some, arith, ◌⊎◌, inl, inr}
use tp_2021_so_fin.Base.Bytes.{
  Bytes, u32, put32, put8, get32, get32-put32, get32-put32_ne, put32-ne, put8-ne,
}
use tp_2021_so_fin.Segmentation.State.{Segment, Ram}
use tp_2021_so_fin.Segmentation.Handler.{tcb_segment, answer, recibir_estado, recibir_ubicacion}

module _ (error : Bool) (r : Ram) (buffer : Bytes) (s : Segment)
    (found : tcb_segment r (get32 buffer 0) (get32 buffer 4) ≡ some s) where
  abbrev base : ℕ
  base = s.base_addr

  -- RECIBIR_ESTADO_TRIPULANTE for a tripulante whose segment is found writes the status, behind the
  -- first eight bytes of the segment, and no other byte of the memory; nothing else of the state changes.
  recibir_estado-writes :
      (m : Bytes) × (recibir_estado error r buffer ≡ some (record r { memory = m }, answer error))
      × (m (base + 8) ≡ buffer 8 % 256)
      × ((a : ℕ) → (a < base + 8) ⊎ (base + 9 ≤ a) → m a ≡ r.memory a)
  recibir_estado-writes = (
    put8 r.memory (base + 8) (buffer 8),
    unfold recibir_estado in rw found refl,
    unfold put8 in ground arith,
    λ a h. put8-ne r.memory (base + 8) (buffer 8) a (shifted a h),
  )
    where
      shifted : (a : ℕ) → (a < base + 8) ⊎ (base + 9 ≤ a) → (a < base + 8) ⊎ (base + 8 + 1 ≤ a)
      shifted a h = elim h [ inl l ↦ inl l | inr g ↦ inr (omega arith) ]

  -- RECIBIR_UBICACION_TRIPULANTE for a tripulante whose segment is found writes the two coordinates,
  -- from nine bytes into the segment on, and no other byte of the memory; nothing else of the state
  -- changes.
  pub recibir_ubicacion-writes :
      get32 buffer 8 < u32
      → get32 buffer 12 < u32
      → (m : Bytes) × (recibir_ubicacion error r buffer
          ≡ some (record r { memory = m }, answer error))
        × (get32 m (base + 9) ≡ get32 buffer 8)
        × (get32 m (base + 13) ≡ get32 buffer 12)
        × ((a : ℕ) → (a < base + 9) ⊎ (base + 17 ≤ a) → m a ≡ r.memory a)
  recibir_ubicacion-writes p q =
      let m₁ = put32 r.memory (base + 9) (get32 buffer 8) in
      (
        put32 m₁ (base + 13) (get32 buffer 12),
        unfold recibir_ubicacion in rw found refl,
        get32-put32_ne m₁ (base + 13) (get32 buffer 12) (base + 9) (inl (omega arith))
            ∙ get32-put32 r.memory (base + 9) (get32 buffer 8) p,
        get32-put32 m₁ (base + 13) (get32 buffer 12) q,
        λ a h.
            put32-ne m₁ (base + 13) (get32 buffer 12) a (above a h)
            ∙ put32-ne r.memory (base + 9) (get32 buffer 8) a (below a h),
      )
    where
      above : (a : ℕ) → (a < base + 9) ⊎ (base + 17 ≤ a) → (a < base + 13) ⊎ (base + 13 + 4 ≤ a)
      above a h = elim h [ inl l ↦ inl (omega arith) | inr g ↦ inr (omega arith) ]

      below : (a : ℕ) → (a < base + 9) ⊎ (base + 17 ≤ a) → (a < base + 9) ⊎ (base + 9 + 4 ≤ a)
      below a h = elim h [ inl l ↦ inl (omega arith) | inr g ↦ inr (omega arith) ]

-- The tables are outside the memory.
tcb_segment-memory :
    (r : Ram) (m : Bytes) (pid tid : ℕ)
    → tcb_segment (record r { memory = m }) pid tid ≡ tcb_segment r pid tid
unfolding tcb_segment
tcb_segment-memory r m pid tid = refl

-- RECIBIR_ESTADO_TRIPULANTE and then RECIBIR_UBICACION_TRIPULANTE, for the same tripulante, whose
-- segment is found: the status is behind the first eight bytes of the segment, the two coordinates
-- are behind it, four bytes each, and no other byte of the memory and nothing else of the state has
-- changed.
pub recibir_ubicacion-recibir_estado :
    (error : Bool) (r : Ram) (estado ubicacion : Bytes) (s : Segment)
    → tcb_segment r (get32 estado 0) (get32 estado 4) ≡ some s
    → tcb_segment r (get32 ubicacion 0) (get32 ubicacion 4) ≡ some s
    → get32 ubicacion 8 < u32
    → get32 ubicacion 12 < u32
    → (m m' : Bytes) × (recibir_estado error r estado
        ≡ some (record r { memory = m }, answer error))
      × (recibir_ubicacion error (record r { memory = m }) ubicacion
          ≡ some (record r { memory = m' }, answer error))
      × (m' (s.base_addr + 8) ≡ estado 8 % 256)
      × (get32 m' (s.base_addr + 9) ≡ get32 ubicacion 8)
      × (get32 m' (s.base_addr + 13) ≡ get32 ubicacion 12)
      × ((a : ℕ) → (a < s.base_addr + 8) ⊎ (s.base_addr + 17 ≤ a) → m' a ≡ r.memory a)
recibir_ubicacion-recibir_estado error r estado ubicacion s f g p q =
    let (m, e, status, kept) = recibir_estado-writes error r estado s f in
    let (m', e', x, y, kept') =
      recibir_ubicacion-writes error (record r { memory = m }) ubicacion s
        (tcb_segment-memory r m (get32 ubicacion 0) (get32 ubicacion 4) ∙ g) p q in
    (
      m,
      m',
      e,
      e',
      kept' (s.base_addr + 8) (inl (omega arith)) ∙ status,
      x,
      y,
      λ a h. kept' a (fuera a h) ∙ kept a (lejos a h),
    )
  where
    fuera :
        (a : ℕ)
        → (a < s.base_addr + 8) ⊎ (s.base_addr + 17 ≤ a)
        → (a < s.base_addr + 9) ⊎ (s.base_addr + 17 ≤ a)
    fuera a h = elim h [ inl l ↦ inl (omega arith) | inr k ↦ inr k ]

    lejos :
        (a : ℕ)
        → (a < s.base_addr + 8) ⊎ (s.base_addr + 17 ≤ a)
        → (a < s.base_addr + 8) ⊎ (s.base_addr + 9 ≤ a)
    lejos a h = elim h [ inl l ↦ inl l | inr k ↦ inr (omega arith) ]
