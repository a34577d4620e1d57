-- ===== src/Paging/Removal.antt =====
-- `remove_pcb_from_page` and `remove_tcb_from_page`.
use tp_2021_so_fin.Base.{
  ℕ, zero, suc, ◌+◌, ◌-◌, ◌*◌, Bool, true, false, List, [], ◌∷◌, ◌++◌, Option, none, some, ltb,
  ◌==◌, if◌then◌else◌, length,
}
use tp_2021_so_fin.Base.Bytes.{Bytes, memcpy}
use tp_2021_so_fin.Commons.{Commons, lookup, erase_key, replace_value}
use tp_2021_so_fin.Base.Options.{◌>>=◌}
use tp_2021_so_fin.Paging.State.{AdminData, Paged, unset_bitmap}
use tp_2021_so_fin.Paging.Frames.{frame_for}
use tp_2021_so_fin.Paging.Saving.{fill_page, pages_for}
use tp_2021_so_fin.Paging.Pages.{touch_page, find_tcb}

-- The body of the loop. The page, which is freed, is not written to; a page on disk gets a frame,
-- which is then free, and its place on disk stays taken.
unfoldable pub remove_page : (ℕ → ℕ) → Paged → ℕ → Option Paged
unfolding unset_bitmap frame_for
remove_page bucket r p =
    if (r.heap p).frame.presence
    then some (record r { bitmap = unset_bitmap r.bitmap (r.heap p).frame.number })
    else (frame_for bucket r >>= λ x.
        some (record (x.1) { timer = (x.1).timer + 1; bitmap = unset_bitmap (x.1).bitmap x.0 }))

-- the loop, on the queue that the dictionary has for the key
unfoldable pub remove_pages : (ℕ → ℕ) → Paged → ℕ → List ℕ → Option Paged
unfolding replace_value remove_page
remove_pages bucket r key [] = some r
remove_pages bucket r key (p ∷ ps) =
    remove_page bucket (record r { table_collection = replace_value key ps r.table_collection }) p
    >>= λ r'. remove_pages bucket r' key ps

-- the loop of `remove_tcb_from_page` that copies all pages to `temp` and frees them
unfoldable pub take_pages : Paged → ℕ → List ℕ → Bytes → ℕ → Paged × Bytes
unfolding replace_value touch_page unset_bitmap memcpy
take_pages r key [] temp off = (r, temp)
take_pages r key (p ∷ ps) temp off =
    let frame = (r.heap p).frame in
    let r₁ = record r { table_collection = replace_value key ps r.table_collection } in
    if frame.presence
    then (let x = touch_page r₁ p temp (off * r.page_size) in
        take_pages (record (x.0) { bitmap = unset_bitmap (x.0).bitmap frame.number }) key ps x.1
          (off + 1))
    else take_pages (record r₁ { virtual_bitmap = unset_bitmap r₁.virtual_bitmap frame.number }) key
        ps (memcpy temp (off * r.page_size) r.virtual_memory frame.start r.page_size) (off + 1)

module _ (c : Commons) (bucket : ℕ → ℕ) where
  unfoldable pub remove_pcb_from_page : Paged → ℕ → Option Paged
  unfolding lookup erase_key remove_pages
  remove_pcb_from_page r key = lookup key r.table_collection >>= λ table.
      remove_pages bucket (record r { admin_collection = erase_key key r.admin_collection }) key
        table
      >>= λ r'. some (record r' { table_collection = c.dictionary_put r'.table_collection key [] })

  -- The loop over what is left, of which `size_a_copiar` bytes are to be written: full pages, and
  -- the rest in a page of its own. `n` is the number of pages; `none`
  -- if it is too small.
  unfoldable pub put_pages : ℕ → Paged → ℕ → List ℕ → Bytes → ℕ → ℕ → Option Paged
  unfolding frame_for fill_page replace_value
  put_pages zero r key table temp posicion_temp size_a_copiar =
      if size_a_copiar == 0 then some r else none
  put_pages (suc n) r key table temp posicion_temp size_a_copiar = frame_for bucket r >>= λ x.
      let len = if ltb size_a_copiar r.page_size then size_a_copiar else r.page_size in
      let r' = fill_page x.1 (length table) x.0 temp (posicion_temp * r.page_size) len in
      let table' = table ++ x.1.next_ptr ∷ [] in
      put_pages n (record r' { table_collection = replace_value key table' r'.table_collection })
        key table' temp (posicion_temp + 1) (size_a_copiar - len)

  -- What is done for the i-th TCB, which is the one to leave: those behind it move up, by a
  -- `memcpy` between ranges that overlap, which is taken to read before it writes.
  unfoldable pub drop_tcb : Paged → ℕ → AdminData → Bytes → ℕ → Option (Bool × Paged)
  unfolding memcpy replace_value unset_bitmap put_pages
  drop_tcb r key data_tcb temp i =
      let tcb_left = data_tcb.cantidad - i - 1 in
      let at = data_tcb.start + i * 21 in
      let temp' = memcpy temp at temp (at + 21) (tcb_left * 21) in
      let data' = record data_tcb {
        tcb = unset_bitmap data_tcb.tcb i;
        cantidad = data_tcb.cantidad - 1;
      } in
      let size_a_copiar = data_tcb.start + (data_tcb.cantidad - 1) * 21 in
      put_pages (pages_for r.page_size size_a_copiar)
        (record r { admin_collection = replace_value key data' r.admin_collection }) key [] temp' 0
        size_a_copiar
      >>= λ r'. lookup key r'.table_collection >>= λ self.
          some
            (true, record r' { table_collection = c.dictionary_put r'.table_collection key self })

  -- `true` is 1, and `false` is 0: the pages of the patota are gone by then. With no TCB to look at
  -- the id that is compared was never set: `none`.
  unfoldable pub remove_tcb_from_page : Paged → ℕ → ℕ → Option (Bool × Paged)
  unfolding lookup take_pages find_tcb drop_tcb
  remove_tcb_from_page r key id = lookup key r.table_collection >>= λ table.
      let x = take_pages r key table (c.malloc (length table * r.page_size)) 0 in
      lookup key r.admin_collection >>= λ data_tcb.
      if data_tcb.cantidad == 0
      then none
      else (find_tcb data_tcb.cantidad 0 x.1 (length table * r.page_size) data_tcb.start id
          >>= λ found. elim found [
            | none ↦ some (false, x.0)
            | some i ↦ drop_tcb x.0 key data_tcb x.1 i
          ])
