-- ===== src/Paging/Pages.antt =====
-- `update_status_from_page`, `update_position_from_page` and `update_task_from_page`: the pages
-- of the TCBs are brought into the memory, the TCB is changed in a copy, and the copy is written
-- back. A result of `none` is a read through NULL.
use tp_2021_so_fin.Base.{
  ℕ, zero, suc, ◌+◌, ◌-◌, ◌*◌, ◌%◌, true, List, [], ◌∷◌, Option, none, some, ltb, ◌==◌,
  if◌then◌else◌, length, get_elem?, erase_idx,
}
use tp_2021_so_fin.Base.Bytes.{Bytes, memcpy, put32, put8, get32}
use tp_2021_so_fin.Commons.{Commons, lookup, replace_value}
use tp_2021_so_fin.Base.Options.{◌>>=◌}
use tp_2021_so_fin.Paging.State.{
  Frame, Page, Paged, write, set_bitmap, unset_bitmap, sort_by_id, address,
}
use tp_2021_so_fin.Paging.Frames.{frame_for}

-- `_list_find`
unfoldable pub list_find : (ℕ → Page) → List ℕ → ℕ → Option ℕ
list_find heap [] id = none
list_find heap (p ∷ ps) id = if (heap p).number == id then some p else list_find heap ps id

abbrev pub with_frame : Paged → ℕ → Frame → ℕ → Page
with_frame r p frame = write r.heap p (record (r.heap p) { frame = frame })

-- the page is in the memory: it is copied to `temp + off`
unfoldable pub touch_page : Paged → ℕ → Bytes → ℕ → Paged × Bytes
unfolding memcpy
touch_page r p temp off =
    let frame = (r.heap p).frame in
    (
      record r {
        timer = r.timer + 1;
        heap = with_frame r p (record frame { time = r.timer; modified = true });
      },
      memcpy temp off r.memory frame.start r.page_size,
    )

-- The page comes into the memory from the disk: its place there is free before a frame is looked
-- for.
unfoldable pub swap_in : (ℕ → ℕ) → Paged → ℕ → Bytes → ℕ → Option (Paged × Bytes)
unfolding memcpy set_bitmap unset_bitmap frame_for
swap_in bucket r p temp off =
    let frame = (r.heap p).frame in
    let temp' = memcpy temp off r.virtual_memory frame.start r.page_size in
    let r₁ = record r {
      virtual_bitmap = unset_bitmap r.virtual_bitmap frame.number;
      heap = with_frame r p (record frame { presence = true });
    } in
    frame_for bucket r₁ >>= λ x. some (
      record (x.1) {
        memory = memcpy (x.1).memory (address r x.0) temp' off r.page_size;
        bitmap = set_bitmap (x.1).bitmap x.0;
        timer = (x.1).timer + 1;
        heap = with_frame x.1 p (record {
          number = x.0;
          start = address r x.0;
          modified = true;
          presence = true;
          time = (x.1).timer;
        });
      },
      temp',
    )

-- The first of `n` TCBs, from the i-th on, that has the id, in a copy of `size` bytes. `none` is
-- a read past the copy.
unfoldable pub find_tcb : ℕ → ℕ → Bytes → ℕ → ℕ → ℕ → Option (Option ℕ)
unfolding get32
find_tcb zero i temp size base id = some none
find_tcb (suc n) i temp size base id =
    let rest = find_tcb n (i + 1) temp size base id in
    if ltb size (base + i * 21 + 4)
    then none
    else if get32 temp (base + i * 21) == id
    then some (some i)
    else rest

module _ (c : Commons) (bucket : ℕ → ℕ) where
  -- A page is taken off its table, copied to `temp + off`, from the disk if need be, and put back
  -- in its order.
  unfoldable pub fetch_page : Paged → ℕ → ℕ → Bytes → ℕ → Option (Paged × Bytes)
  unfolding lookup replace_value touch_page swap_in sort_by_id
  fetch_page r key i temp off = lookup key r.table_collection >>= λ table.
      get_elem? table i >>= λ p.
      let r₁ = record r {
        table_collection = replace_value key (erase_idx table i) r.table_collection;
      } in
      (if (r.heap p).frame.presence
        then some (touch_page r₁ p temp off)
        else swap_in bucket r₁ p temp off)
      >>= λ x.
          let table' = c.list_add_sorted (sort_by_id (x.0).heap) p (erase_idx table i) in
          some (
            record (x.0) { table_collection = replace_value key table' (x.0).table_collection },
            x.1,
          )

  -- The loop over the pages of the TCBs, of which `n` are left.
  unfoldable pub fetch_pages : ℕ → Paged → ℕ → ℕ → Bytes → ℕ → Option (Paged × Bytes)
  unfolding fetch_page
  fetch_pages zero r key i temp off = some (r, temp)
  fetch_pages (suc n) r key i temp off = fetch_page r key i temp (off * r.page_size) >>= λ x.
      fetch_pages n x.0 key (i + 1) x.1 (off + 1)

  -- the loop that writes the copy back, to where the numbers of the frames point
  unfoldable pub write_back : ℕ → Paged → List ℕ → ℕ → Bytes → ℕ → Option Paged
  unfolding list_find memcpy
  write_back zero r table i temp ofset = some r
  write_back (suc n) r table i temp ofset = list_find r.heap table i >>= λ p.
      write_back n
        (record r {
          memory = memcpy r.memory (address r (r.heap p).frame.number) temp ofset r.page_size;
        })
        table (i + 1) temp (ofset + r.page_size)

  -- What the three have in common: `change` is given the copy and where the TCB starts in it.
  unfoldable pub update_tcb : Paged → ℕ → ℕ → (Bytes → ℕ → Bytes) → Option Paged
  unfolding lookup fetch_pages find_tcb write_back
  update_tcb r key id change = lookup key r.table_collection >>= λ table.
      lookup key r.admin_collection >>= λ data_tcb.
      let n = length table - data_tcb.page_number in
      fetch_pages n r key data_tcb.page_number (c.malloc (n * r.page_size)) 0 >>= λ x.
      let base = data_tcb.start % r.page_size in
      find_tcb data_tcb.cantidad 0 x.1 (n * r.page_size) base id >>= λ found. elim found [
        | none ↦ some (x.0)
        | some i ↦
            (lookup key (x.0).table_collection >>= λ table'.
            write_back n x.0 table' data_tcb.page_number (change x.1 (base + i * 21)) 0)
      ]

  unfoldable pub update_status_from_page : Paged → ℕ → ℕ → ℕ → Option Paged
  unfolding update_tcb put8
  update_status_from_page r key id status =
      update_tcb r key id (λ temp pos. put8 temp (pos + 8) status)

  unfoldable pub update_position_from_page : Paged → ℕ → ℕ → ℕ → ℕ → Option Paged
  unfolding update_tcb put32
  update_position_from_page r key id posx posy =
      update_tcb r key id (λ temp pos. put32 (put32 temp (pos + 9) posx) (pos + 13) posy)

  unfoldable pub update_task_from_page : Paged → ℕ → ℕ → ℕ → Option Paged
  unfolding update_tcb put32
  update_task_from_page r key id next = update_tcb r key id (λ temp pos. put32 temp (pos + 17) next)
