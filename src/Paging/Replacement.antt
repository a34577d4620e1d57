-- ===== src/Paging/Replacement.antt =====
-- Which page leaves the memory: `get_next_lru_frame` and `get_next_clock_frame`. What the latter
-- reads inside the dictionary is its buckets: the bucket of a key is a parameter, and the entries
-- come in the order of their buckets.
pub mod Oldest
pub mod Passed
pub mod Ended
use tp_2021_so_fin.Base.{
  ℕ, zero, suc, ◌+◌, Bool, true, false, ◌&&◌, not, List, [], ◌∷◌, Option, none, some, ltb, leb,
  ◌==◌, if◌then◌else◌,
}
use tp_2021_so_fin.Commons.{Dictionary}
use tp_2021_so_fin.Paging.State.{Frame, Page, Paged, write}

-- `lru_replacer`, on `global_lru_page`
unfoldable pub lru_replacer : (ℕ → Page) → Option ℕ → ℕ → Option ℕ
lru_replacer heap none p = if (heap p).frame.presence then some p else none
lru_replacer heap (some q) p =
    if (heap p).frame.presence && ltb (heap p).frame.time (heap q).frame.time
    then some p
    else some q

unfoldable pub lru_iterator : (ℕ → Page) → Option ℕ → List ℕ → Option ℕ
unfolding lru_replacer
lru_iterator heap found [] = found
lru_iterator heap found (p ∷ ps) = lru_iterator heap (lru_replacer heap found p) ps

-- the walk of `dictionary_iterator`
unfoldable pub lru_walk : (ℕ → Page) → Option ℕ → Dictionary (List ℕ) → Option ℕ
unfolding lru_iterator
lru_walk heap found [] = found
lru_walk heap found ((k, ps) ∷ d) = lru_walk heap (lru_iterator heap found ps) d

-- With no page in memory `global_lru_page` is still NULL, and is read: `none`.
unfoldable pub get_next_lru_frame : Paged → Option ℕ
unfolding lru_walk
get_next_lru_frame r = lru_walk r.heap none r.table_collection

-- What the clock changes. `found` is `global_clock_page`, which is set along with `clock_flag`.
pub record Hand : Type 0 where
  pub heap : ℕ → Page
  pub found : Option ℕ
  pub key : ℕ
  pub index : ℕ

abbrev pub is_found : Option ℕ → Bool
is_found none = false
is_found (some p) = true

abbrev pub with_modified : (ℕ → Page) → ℕ → Bool → ℕ → Page
with_modified heap p m =
    write heap p (record (heap p) { frame = record (heap p).frame { modified = m } })

unfoldable pub clock_replacer : Hand → ℕ → ℕ → ℕ → Hand
clock_replacer h p key_index frame_index =
    if (h.heap p).frame.presence && not (h.heap p).frame.modified
    then record {
      heap = with_modified h.heap p true;
      found = some p;
      key = key_index;
      index = frame_index;
    }
    else if (h.heap p).frame.presence && (h.heap p).frame.modified
    then record h { heap = with_modified h.heap p false }
    else h

-- the loop over the pages of a table
unfoldable pub clock_pages : Hand → List ℕ → ℕ → ℕ → Hand
unfolding clock_replacer
clock_pages h [] key_index frame_index = h
clock_pages h (p ∷ ps) key_index frame_index =
    let h' = if leb h.index frame_index then clock_replacer h p key_index frame_index else h in
    elim (is_found h'.found) [ true ↦ h' | false ↦ clock_pages h' ps key_index frame_index ]

unfoldable pub clock_iterator : Hand → List ℕ → ℕ → ℕ → Hand
unfolding clock_pages
clock_iterator h ps key_index frame_index =
    let h' = clock_pages h ps key_index frame_index in
    if leb h'.index frame_index then record h' { index = 0 } else h'

-- The loop over the buckets, from `first` on; `frame_index` stays 0.
unfoldable pub clock_sweep : (ℕ → ℕ) → ℕ → Hand → Dictionary (List ℕ) → Hand
unfolding clock_iterator
clock_sweep bucket first h [] = h
clock_sweep bucket first h ((k, ps) ∷ d) =
    let h' = if leb first (bucket k) then clock_iterator h ps (bucket k) 0 else h in
    elim (is_found h'.found) [ true ↦ h' | false ↦ clock_sweep bucket first h' d ]

-- `while (!clock_flag)`, with as many rounds as `fuel` says; `none` if it does not end in them.
unfoldable pub clock_loop : ℕ → (ℕ → ℕ) → Hand → Dictionary (List ℕ) → Option (ℕ × Hand)
unfolding clock_sweep
clock_loop zero bucket h d = none
clock_loop (suc fuel) bucket h d =
    let h' = clock_sweep bucket h.key h d in
    elim h'.found [
      | some p ↦ some (p, h')
      | none ↦ clock_loop fuel bucket (record h' { key = 0; index = 0 }) d
    ]

-- Three rounds: one from where the hand stands, one that clears the bits, one that finds.
unfoldable pub get_next_clock_frame : (ℕ → ℕ) → Paged → Option (ℕ × Hand)
unfolding clock_loop
get_next_clock_frame bucket r =
    clock_loop 3 bucket
      (record {
        heap = r.heap;
        found = none;
        key = r.global_clock_key;
        index = r.global_clock_index;
      })
      r.table_collection
