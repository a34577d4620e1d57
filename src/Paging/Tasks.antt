-- ===== src/Paging/Tasks.antt =====
-- `get_task_from_page`: the next task of a tripulante, which may go on in a second page.
use tp_2021_so_fin.Base.{
  ℕ, zero, suc, ◌+◌, ◌-◌, ◌*◌, ◌/◌, ◌%◌, Bool, true, false, ◌&&◌, List, Option, none, some, ltb,
  leb, ◌==◌, if◌then◌else◌, length,
}
use tp_2021_so_fin.Base.Bytes.{Bytes, get32}
use tp_2021_so_fin.Commons.{Commons, lookup}
use tp_2021_so_fin.Base.Texts.{read}
use tp_2021_so_fin.Base.Options.{◌>>=◌}
use tp_2021_so_fin.Paging.State.{AdminData, Paged}
use tp_2021_so_fin.Paging.Pages.{fetch_page, fetch_pages, find_tcb, update_task_from_page}

-- The two `while` loops, of which the first one stops at the end of a page: the number of bytes
-- before the bar, and whether it stopped there. The tasks end before `limit`. `none` is a read past
-- `tareas`, which has room for two pages, or too little fuel.
unfoldable pub scan : ℕ → Bool → Bytes → ℕ → ℕ → ℕ → ℕ → Option (ℕ × Bool)
scan zero stop tareas page_size prev_task task_counter limit = none
scan (suc fuel) stop tareas page_size prev_task task_counter limit =
    let rest = scan fuel stop tareas page_size prev_task (task_counter + 1) limit in
    let at = prev_task % page_size + task_counter in
    if leb limit (prev_task + task_counter)
    then some (task_counter, false)
    else if leb (page_size * 2) at
    then none
    else if tareas at == b'|'
    then some (task_counter, false)
    else if stop && (prev_task + (task_counter + 1)) % page_size == 0
    then some (task_counter + 1, true)
    else rest

-- the copy that is sent, or NULL
unfoldable pub copy_task : Bytes → ℕ → ℕ → ℕ → ℕ → Option (List ℕ)
unfolding read
copy_task tareas page_size prev_task task_counter start =
    if ltb prev_task (start - 8) && leb (prev_task + task_counter) start
    then some (read tareas (prev_task % page_size) task_counter)
    else none

module _ (c : Commons) (bucket : ℕ → ℕ) where
  -- After the first loop: the second page, if the task goes on there.
  unfoldable pub next_page : Paged → ℕ → ℕ → ℕ → Bytes → ℕ × Bool → Option (Paged × Bytes × ℕ)
  unfolding fetch_page scan
  next_page r key prev_task limit tareas (task_counter, false) = some (r, tareas, task_counter)
  next_page r key prev_task limit tareas (task_counter, true) =
      fetch_page c bucket r key (prev_task / r.page_size + 1) tareas r.page_size >>= λ x.
      scan (suc limit) false x.1 r.page_size prev_task task_counter limit >>= λ y.
      some (x.0, x.1, y.0)

  -- What is done for the TCB whose tasks go on at `prev_task`.
  unfoldable pub take_task : Paged → ℕ → ℕ → AdminData → ℕ → Option (Option (List ℕ) × Paged)
  unfolding fetch_page scan next_page copy_task update_task_from_page
  take_task r key id data_tcb prev_task =
      let limit = data_tcb.start - 8 in
      fetch_page c bucket r key (prev_task / r.page_size) (c.malloc (r.page_size * 2)) 0 >>= λ x.
      scan (suc limit) true x.1 r.page_size prev_task 0 limit >>= λ y.
      next_page x.0 key prev_task limit x.1 y >>= λ z.
      update_task_from_page c bucket z.0 key id (prev_task + z.2 + 1) >>= λ r'.
      some (copy_task z.1 r.page_size prev_task z.2 data_tcb.start, r')

  -- For a tripulante that is not found the pointer that is returned was never set: `none`.
  unfoldable pub get_task_from_page : Paged → ℕ → ℕ → Option (Option (List ℕ) × Paged)
  unfolding lookup fetch_pages find_tcb get32 take_task
  get_task_from_page r key id = lookup key r.table_collection >>= λ table.
      lookup key r.admin_collection >>= λ data_tcb.
      let n = length table - data_tcb.page_number in
      fetch_pages c bucket n r key data_tcb.page_number (c.malloc (n * r.page_size)) 0 >>= λ x.
      let base = data_tcb.start % r.page_size in
      find_tcb data_tcb.cantidad 0 x.1 (n * r.page_size) base id >>= λ found.
      found >>= λ i. take_task x.0 key id data_tcb (get32 x.1 (base + i * 21 + 17))
