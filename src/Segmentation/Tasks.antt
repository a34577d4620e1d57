-- ===== src/Segmentation/Tasks.antt =====
-- `get_next_task`: the next task of a patota's text, up to a bar or the end.
pub mod Bars
use tp_2021_so_fin.Base.Texts.{read, until_nul}
use tp_2021_so_fin.Base.{
  ℕ, zero, suc, ◌+◌, ◌-◌, List, [], ◌∷◌, ◌++◌, Option, none, some, ltb, leb, ◌==◌, if◌then◌else◌,
  take, drop,
}
use tp_2021_so_fin.Base.Bytes.{Bytes}

-- The `while` loop, on the bytes from `offset` on. The copy ends in its terminator; a read past it
-- is a fault, `none`. `room` is `limit_address - task_start - start_address`.
unfoldable pub count_letters : ℕ → ℕ → List ℕ → Option ℕ
count_letters room leidas [] = if ltb leidas room then none else some leidas
count_letters room leidas (c ∷ cs) =
    let more = count_letters room (if c == b'\n' then leidas else leidas + 1) cs in
    if ltb leidas room then (if c == b'|' then some leidas else more) else some leidas

-- `memcpy(recv_task, tareas + start_address, cantidadLetrasLeidas)`
abbrev recv_task : List ℕ → Option ℕ → Option (Option (List ℕ))
recv_task rest none = none
recv_task rest (some n) = some (some (take n rest))

-- NULL, when no text is left, is `some none`.
unfoldable pub get_next_task : Bytes → ℕ → ℕ → ℕ → Option (Option (List ℕ))
unfolding read count_letters
get_next_task memory start_address limit_address task_start =
    let tareas = read memory task_start (limit_address - task_start) ++ 0 ∷ [] in
    let rest = drop start_address tareas in
    if leb limit_address (start_address + task_start)
    then some none
    else recv_task rest (count_letters (limit_address - task_start - start_address) 0 rest)
