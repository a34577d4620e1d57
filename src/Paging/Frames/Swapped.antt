-- ===== src/Paging/Frames/Swapped.antt =====
-- `get_frame`: the frame that it returns, and the page that goes to the disk for it.
use tp_2021_so_fin.Base.{
  ℕ, ◌+◌, ◌*◌, ◌≤◌, ◌<◌, ◌≡◌, refl, true, false, none, some, arith, Option-cases, ◌⊎◌, inl, inr,
}
use tp_2021_so_fin.Segmentation.Invariant.{tables_count}
use tp_2021_so_fin.Base.Bytes.{memcpy}
use tp_2021_so_fin.Paging.State.{Paged, set_bitmap, unset_bitmap, address}
use tp_2021_so_fin.Paging.Replacement.{get_next_lru_frame}
use tp_2021_so_fin.Paging.Replacement.Oldest.{get_next_lru_frame-oldest}
use tp_2021_so_fin.Paging.Frames.{first_clear, replacing_page, swap_out, get_frame}
use tp_2021_so_fin.Paging.Frames.Counted.{first_clear-some, first_clear-none, none-clear_bits}
use tp_2021_so_fin.Base.Counts.{clear_bits}

module _ (bucket : ℕ → ℕ) (r : Paged) where
  -- With a free frame in the memory `get_frame` returns the first one, and nothing changes.
  pub get_frame-first :
      0 < clear_bits r.frames_memory r.bitmap 0
      → (f : ℕ) × (get_frame bucket r ≡ some (some f, r))
        × (f < r.frames_memory)
        × (r.bitmap f ≡ false)
        × ((j : ℕ) → j < f → r.bitmap j ≡ true)
  unfolding get_frame
  get_frame-first h = elim (Option-cases (first_clear r.bitmap r.frames_memory 0)) [
    | inl full ↦ absurd (omega (arith, none-clear_bits r.bitmap r.frames_memory 0 full))
    | inr (f, e) ↦
        let (a, b, free, below) = first_clear-some r.bitmap r.frames_memory 0 f e in
        (f, rw (e, get_frame), omega arith, free, λ j l. below j (omega arith) l)
  ]

  swap_out-bytes :
      (p i k : ℕ)
      → k < r.page_size
      → (swap_out r p i).1.virtual_memory (i * r.page_size + k)
        ≡ r.memory (address r (r.heap p).frame.number + k)
  unfolding swap_out memcpy
  swap_out-bytes p i k h = ground arith

  swap_out-others :
      (p i a : ℕ)
      → (a < i * r.page_size) ⊎ (i * r.page_size + r.page_size ≤ a)
      → (swap_out r p i).1.virtual_memory a ≡ r.virtual_memory a
  unfolding swap_out memcpy
  swap_out-others p i a h = ground arith

  swap_out-frame :
      (p i : ℕ)
      → let r' = (swap_out r p i).1 in
        ((r'.heap p).frame.presence ≡ false)
        × ((r'.heap p).frame.number ≡ i)
        × ((r'.heap p).frame.start ≡ i * r.page_size)
        × (r'.bitmap (r.heap p).frame.number ≡ false)
        × (r'.virtual_bitmap i ≡ true)
  unfolding swap_out set_bitmap unset_bitmap
  swap_out-frame p i = (ground arith, ground arith, ground arith, ground arith, ground arith)

  lru_swaps :
      (q i : ℕ)
      → r.has_lru ≡ true
      → get_next_lru_frame r ≡ some q
      → first_clear r.bitmap r.frames_memory 0 ≡ none
      → first_clear r.virtual_bitmap r.frames_virtual 0 ≡ some i
      → get_frame bucket r ≡ some (some (r.heap q).frame.number, (swap_out r q i).1)
  unfolding get_frame replacing_page swap_out
  lru_swaps q i l e full free = rw (full, l, e, free, get_frame, replacing_page) refl

  -- With LRU, no free frame in the memory, a free place on disk and some page of the tables in the
  -- memory: `get_frame` returns the frame of a page of the tables that was in the memory, and of
  -- those one that was used least recently; the frame is free now; that page is marked as absent and has a place on disk that was free, which is taken now
  -- and holds the bytes of the frame; the rest of the disk has not changed.
  pub get_frame-swaps :
      (x : ℕ)
      → r.has_lru ≡ true
      → clear_bits r.frames_memory r.bitmap 0 ≡ 0
      → 0 < clear_bits r.frames_virtual r.virtual_bitmap 0
      → 0 < tables_count x r.table_collection
      → (r.heap x).frame.presence ≡ true
      → (q : ℕ) × (i : ℕ) × (r' : Paged) × (get_frame bucket r
          ≡ some (some (r.heap q).frame.number, r'))
        × (0 < tables_count q r.table_collection)
        × ((r.heap q).frame.presence ≡ true)
        × ((p : ℕ)
            → 0 < tables_count p r.table_collection
            → (r.heap p).frame.presence ≡ true
            → (r.heap q).frame.time ≤ (r.heap p).frame.time)
        × (r'.bitmap (r.heap q).frame.number ≡ false)
        × ((r'.heap q).frame.presence ≡ false)
        × ((r'.heap q).frame.number ≡ i)
        × ((r'.heap q).frame.start ≡ i * r.page_size)
        × (i < r.frames_virtual)
        × (r.virtual_bitmap i ≡ false)
        × (r'.virtual_bitmap i ≡ true)
        × ((k : ℕ)
            → k < r.page_size
            → r'.virtual_memory (i * r.page_size + k)
              ≡ r.memory (address r (r.heap q).frame.number + k))
        × ((a : ℕ)
            → (a < i * r.page_size) ⊎ (i * r.page_size + r.page_size ≤ a)
            → r'.virtual_memory a ≡ r.virtual_memory a)
  get_frame-swaps x l full room held e =
      elim (Option-cases (first_clear r.virtual_bitmap r.frames_virtual 0)) [
        | inl none_left ↦
            absurd (omega (arith, none-clear_bits r.virtual_bitmap r.frames_virtual 0 none_left))
        | inr (i, free) ↦
            let (q, found, in_tables, was_present, oldest) = get_next_lru_frame-oldest r x held e in
            let (a, b, clear, _) = first_clear-some r.virtual_bitmap r.frames_virtual 0 i free in
            let (gone, number, start, unset, set) = swap_out-frame q i in
            (
              q,
              i,
              (swap_out r q i).1,
              lru_swaps q i l found (first_clear-none r.bitmap r.frames_memory 0 full) free,
              in_tables,
              was_present,
              oldest,
              unset,
              gone,
              number,
              start,
              omega arith,
              clear,
              set,
              λ k h. swap_out-bytes q i k h,
              λ a' h. swap_out-others q i a' h,
            )
      ]
