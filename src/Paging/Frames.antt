-- ===== src/Paging/Frames.antt =====
-- `get_frame` and `check_free_frames`: the frames that are free, in the memory and on disk.
pub mod Counted
pub mod Swapped
use tp_2021_so_fin.Base.{
  ℕ, zero, suc, ◌+◌, ◌*◌, ◌%◌, Bool, true, false, List, Option, none, some, leb, ◌==◌,
  if◌then◌else◌,
}
use tp_2021_so_fin.Base.Bytes.{Bytes, u32, memcpy}
use tp_2021_so_fin.Base.Options.{◌>>=◌}
use tp_2021_so_fin.Paging.State.{Frame, Page, Paged, write, set_bitmap, unset_bitmap, address}
use tp_2021_so_fin.Paging.Replacement.{get_next_lru_frame, get_next_clock_frame}

-- the first position from `i` on, of `n`, whose bit is clear
unfoldable pub first_clear : (ℕ → Bool) → ℕ → ℕ → Option ℕ
first_clear bits zero i = none
first_clear bits (suc n) i = elim (bits i) [ true ↦ first_clear bits n (i + 1) | false ↦ some i ]

-- the page that is to leave, and what the clock changes
unfoldable pub replacing_page : (ℕ → ℕ) → Paged → Option (ℕ × Paged)
unfolding get_next_lru_frame get_next_clock_frame
replacing_page bucket r =
    if r.has_lru
    then (get_next_lru_frame r >>= λ p. some (p, r))
    else get_next_clock_frame bucket r >>= λ x. some (
      x.0,
      record r {
        heap = (x.1).heap;
        global_clock_key = (x.1).key;
        global_clock_index = (x.1).index;
      },
    )

-- The page goes to position `i` of the disk, and its frame is free.
unfoldable pub swap_out : Paged → ℕ → ℕ → ℕ × Paged
unfolding memcpy set_bitmap unset_bitmap
swap_out r p i =
    let frame = (r.heap p).frame in
    (
      frame.number,
      record r {
        virtual_memory =
            memcpy r.virtual_memory (i * r.page_size) r.memory (address r frame.number) r.page_size;
        virtual_bitmap = set_bitmap r.virtual_bitmap i;
        bitmap = unset_bitmap r.bitmap frame.number;
        heap = write r.heap p (record (r.heap p) {
          frame = record frame { number = i; start = i * r.page_size; presence = false };
        });
      },
    )

-- A result of `none` is a read through NULL; `some (none, r)` is -1.
unfoldable pub get_frame : (ℕ → ℕ) → Paged → Option (Option ℕ × Paged)
unfolding first_clear replacing_page swap_out
get_frame bucket r = elim (first_clear r.bitmap r.frames_memory 0) [
  | some i ↦ some (some i, r)
  | none ↦
      (replacing_page bucket r >>= λ x. elim (first_clear r.virtual_bitmap r.frames_virtual 0) [
        | none ↦ some (none, x.1)
        | some i ↦ some (some (swap_out x.1 x.0 i).0, (swap_out x.1 x.0 i).1)
      ])
]

-- Every caller uses the result as an index: -1 is a write before the bitmap, a fault.
unfoldable pub frame_for : (ℕ → ℕ) → Paged → Option (ℕ × Paged)
unfolding get_frame
frame_for bucket r = do x ← get_frame bucket r; n ← x.0; some (n, x.1)

-- One of the two loops of `check_free_frames`; `none` is the early return of 1.
unfoldable pub count_free : ℕ → (ℕ → Bool) → ℕ → ℕ → ℕ → Option ℕ
count_free zero bits i frames_count counter = some counter
count_free (suc n) bits i frames_count counter =
    let counter' = if bits i then counter else counter + 1 in
    elim (leb frames_count counter') [
      | true ↦ none
      | false ↦ count_free n bits (i + 1) frames_count counter'
    ]

unfoldable pub check_free_frames : Paged → ℕ → Bool
unfolding count_free
check_free_frames r frames_count = elim (count_free r.frames_memory r.bitmap 0 frames_count 0) [
  | none ↦ true
  | some counter ↦ elim (count_free r.frames_virtual r.virtual_bitmap 0 frames_count counter) [
    | none ↦ true
    | some counter' ↦ false
  ]
]
