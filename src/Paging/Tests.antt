-- ===== src/Paging/Tests.antt =====
-- Runs of the paging scheme on two frames of 16 bytes and four on disk, and the theorems applied
-- to them.
use tp_2021_so_fin.Base.Texts.{bytes_of}
use tp_2021_so_fin.Base.{
  ℕ, ◌+◌, ◌*◌, ◌≤◌, ◌<◌, ◌≡◌, ◌⊎◌, refl, true, false, [], ◌∷◌, Option, none, some, arith, leb,
  ltb→lt,
}
use tp_2021_so_fin.Base.Bytes.{Bytes}
use tp_2021_so_fin.Commons.Examples.{commons, put, insert}
use tp_2021_so_fin.Segmentation.Invariant.{tables_count}
use tp_2021_so_fin.Segmentation.Patota.{Reply, success, respuesta}
use tp_2021_so_fin.Paging.State.{Paged, address}
use tp_2021_so_fin.Paging.Replacement.{Hand, get_next_lru_frame, get_next_clock_frame}
use tp_2021_so_fin.Paging.Replacement.Ended.{get_next_clock_frame-finds}
use tp_2021_so_fin.Paging.Replacement.Oldest.{get_next_lru_frame-oldest}
use tp_2021_so_fin.Paging.Frames.{get_frame, check_free_frames}
use tp_2021_so_fin.Paging.Frames.Counted.{free_frames, check_free_frames-eq}
use tp_2021_so_fin.Base.Counts.{clear_bits}
use tp_2021_so_fin.Paging.Frames.Swapped.{get_frame-first, get_frame-swaps}
use tp_2021_so_fin.Paging.Handler.{pagination_handler, setup_pagination}

-- patota 1: the tasks "A|B", and tripulante 1 with status N at (5, 6): two pages
abbrev crew : Bytes
crew = bytes_of (
    1 ∷ 0 ∷ 0 ∷ 0 ∷ 3 ∷ 0 ∷ 0 ∷ 0 ∷ 65 ∷ 124 ∷ 66 ∷ 1 ∷ 0 ∷ 0 ∷ 0 ∷ 1 ∷ 0 ∷ 0 ∷ 0 ∷ 1 ∷ 0 ∷ 0 ∷ 0
    ∷ 78 ∷ 5 ∷ 0 ∷ 0 ∷ 0 ∷ 6 ∷ 0 ∷ 0 ∷ 0 ∷ [])

abbrev one_bucket : ℕ → ℕ
one_bucket k = 0

abbrev state_of : Paged → Option (Paged × Reply) → Paged
state_of r none = r
state_of r (some (r', reply)) = r'

abbrev reply_of : Option (Paged × Reply) → Option Reply
reply_of none = none
reply_of (some (r', reply)) = some reply

abbrev empty_ram : Paged
empty_ram = setup_pagination commons 16 32 64 true

abbrev full_ram : Paged
full_ram = state_of empty_ram (pagination_handler commons one_bucket empty_ram 500 crew)

iniciar_test :
    reply_of (pagination_handler commons one_bucket empty_ram 500 crew) ≡ some (success respuesta)
unfolding pagination_handler setup_pagination
iniciar_test = refl

-- the first task, out of the pages
tarea_test :
    reply_of
      (pagination_handler commons one_bucket full_ram 520 (bytes_of (1 ∷ 0 ∷ 0 ∷ 0 ∷ 1 ∷ [])))
    ≡ some (success (65 ∷ []))
unfolding pagination_handler setup_pagination put insert
tarea_test = refl

check_free_frames-eq_example : check_free_frames empty_ram 5 ≡ leb 5 (free_frames empty_ram)
check_free_frames-eq_example = check_free_frames-eq empty_ram 5 (ground arith)

empty_has_room : 0 < clear_bits empty_ram.frames_memory empty_ram.bitmap 0
unfolding setup_pagination
empty_has_room = ltb→lt _ _ refl

get_frame-first_example :
    (f : ℕ) × (get_frame one_bucket empty_ram ≡ some (some f, empty_ram))
    × (f < empty_ram.frames_memory)
    × (empty_ram.bitmap f ≡ false)
    × ((j : ℕ) → j < f → empty_ram.bitmap j ≡ true)
get_frame-first_example = get_frame-first one_bucket empty_ram empty_has_room

full_lru : full_ram.has_lru ≡ true
unfolding pagination_handler setup_pagination
full_lru = refl

full_memory : clear_bits full_ram.frames_memory full_ram.bitmap 0 ≡ 0
unfolding pagination_handler setup_pagination
full_memory = refl

full_disk : 0 < clear_bits full_ram.frames_virtual full_ram.virtual_bitmap 0
unfolding pagination_handler setup_pagination
full_disk = ltb→lt _ _ refl

full_held : 0 < tables_count 1 full_ram.table_collection
unfolding pagination_handler setup_pagination put
full_held = ltb→lt _ _ refl

full_present : (full_ram.heap 1).frame.presence ≡ true
unfolding pagination_handler setup_pagination
full_present = refl

get_next_lru_frame-oldest_example :
    (q : ℕ) × (get_next_lru_frame full_ram ≡ some q)
    × (0 < tables_count q full_ram.table_collection)
    × ((full_ram.heap q).frame.presence ≡ true)
    × ((p : ℕ)
        → 0 < tables_count p full_ram.table_collection
        → (full_ram.heap p).frame.presence ≡ true
        → (full_ram.heap q).frame.time ≤ (full_ram.heap p).frame.time)
get_next_lru_frame-oldest_example = get_next_lru_frame-oldest full_ram 1 full_held full_present

get_frame-swaps_example :
    (q : ℕ) × (i : ℕ) × (r' : Paged) × (get_frame one_bucket full_ram
      ≡ some (some (full_ram.heap q).frame.number, r'))
    × (0 < tables_count q full_ram.table_collection)
    × ((full_ram.heap q).frame.presence ≡ true)
    × ((p : ℕ)
        → 0 < tables_count p full_ram.table_collection
        → (full_ram.heap p).frame.presence ≡ true
        → (full_ram.heap q).frame.time ≤ (full_ram.heap p).frame.time)
    × (r'.bitmap (full_ram.heap q).frame.number ≡ false)
    × ((r'.heap q).frame.presence ≡ false)
    × ((r'.heap q).frame.number ≡ i)
    × ((r'.heap q).frame.start ≡ i * full_ram.page_size)
    × (i < full_ram.frames_virtual)
    × (full_ram.virtual_bitmap i ≡ false)
    × (r'.virtual_bitmap i ≡ true)
    × ((k : ℕ)
        → k < full_ram.page_size
        → r'.virtual_memory (i * full_ram.page_size + k)
          ≡ full_ram.memory (address full_ram (full_ram.heap q).frame.number + k))
    × ((a : ℕ)
        → (a < i * full_ram.page_size) ⊎ (i * full_ram.page_size + full_ram.page_size ≤ a)
        → r'.virtual_memory a ≡ full_ram.virtual_memory a)
get_frame-swaps_example =
    get_frame-swaps one_bucket full_ram 1 full_lru full_memory full_disk full_held full_present

full_zero : full_ram.global_clock_index ≡ 0
unfolding pagination_handler setup_pagination
full_zero = refl

get_next_clock_frame-finds_example :
    (p : ℕ) × (h : Hand) × (get_next_clock_frame one_bucket full_ram ≡ some (p, h))
    × (0 < tables_count p full_ram.table_collection)
    × ((full_ram.heap p).frame.presence ≡ true)
    × ((q : ℕ) → (h.heap q).frame.presence ≡ (full_ram.heap q).frame.presence)
    × (h.index ≡ 0)
get_next_clock_frame-finds_example =
    get_next_clock_frame-finds one_bucket full_ram 1 full_zero full_held full_present
