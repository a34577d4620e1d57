-- ===== src/Paging/Handler.antt =====
-- `pagination_handler`: one branch of the switch to a function. A result of `none` is a fault of
-- what it calls. The map, the log and the dump file are left out.
use tp_2021_so_fin.Base.{
  ℕ, ◌/◌, Bool, true, false, List, [], Option, none, some, ◌==◌, if◌then◌else◌,
}
use tp_2021_so_fin.Base.Bytes.{Bytes, get32}
use tp_2021_so_fin.Commons.{Commons, lookup}
use tp_2021_so_fin.Base.Texts.{until_nul}
use tp_2021_so_fin.Segmentation.Patota.{
  Reply, success, error_por_falta_de_memoria, error_no_hay_tareas, no_reply, respuesta,
}
use tp_2021_so_fin.Base.Options.{◌>>=◌}
use tp_2021_so_fin.Paging.State.{Paged}
use tp_2021_so_fin.Paging.Saving.{save_data_in_memory}
use tp_2021_so_fin.Paging.Pages.{update_status_from_page, update_position_from_page}
use tp_2021_so_fin.Paging.Tasks.{get_task_from_page}
use tp_2021_so_fin.Paging.Removal.{remove_pcb_from_page, remove_tcb_from_page}

abbrev saved_reply : Bool → Reply
saved_reply true = success respuesta
saved_reply false = error_por_falta_de_memoria

abbrev task_reply : Option (List ℕ) → Reply
task_reply none = error_no_hay_tareas
task_reply (some tarea) = success (until_nul tarea)

module _ (c : Commons) (bucket : ℕ → ℕ) where
  unfoldable pub enviar_tarea_page : Paged → ℕ → ℕ → Option (Paged × Reply)
  unfolding lookup get_task_from_page until_nul
  enviar_tarea_page r key id = elim (lookup key r.table_collection) [
    | none ↦ some (r, error_no_hay_tareas)
    | some table ↦ (get_task_from_page c bucket r key id >>= λ x. some (x.1, task_reply x.0))
  ]

  unfoldable pub eliminar_patota_page : Paged → ℕ → Option (Paged × Reply)
  unfolding lookup remove_pcb_from_page
  eliminar_patota_page r key = elim (lookup key r.table_collection) [
    | none ↦ some (r, success respuesta)
    | some table ↦ (remove_pcb_from_page c bucket r key >>= λ r'. some (r', success respuesta))
  ]

  unfoldable pub pagination_handler : Paged → ℕ → Bytes → Option (Paged × Reply)
  unfolding save_data_in_memory update_status_from_page update_position_from_page
      remove_tcb_from_page enviar_tarea_page eliminar_patota_page get32
  pagination_handler r opcode buffer =
      let key = get32 buffer 0 in
      let id = get32 buffer 4 in
      if opcode == 500
      then (save_data_in_memory c bucket r buffer >>= λ x. some (x.1, saved_reply x.0))
      else if opcode == 520
      then enviar_tarea_page r key id
      else if opcode == 599
      then eliminar_patota_page r key
      else if opcode == 530
      then (remove_tcb_from_page c bucket r key id >>= λ x. some (x.1, success respuesta))
      else if opcode == 501
      then (update_status_from_page c bucket r key id (buffer 8) >>= λ r'.
          some (r', success respuesta))
      else if opcode == 502
      then (update_position_from_page c bucket r key id (get32 buffer 8) (get32 buffer 12) >>= λ r'.
          some (r', success respuesta))
      else some (r, no_reply)

-- `setup_pagination`: all frames are free. What the file holds at first is nothing but zeros.
unfoldable pub setup_pagination : Commons → ℕ → ℕ → ℕ → Bool → Paged
setup_pagination c tam_pag real_size v_size has_lru = record {
  memory = c.malloc real_size;
  virtual_memory = λ a. 0;
  page_size = tam_pag;
  frames_memory = real_size / tam_pag;
  frames_virtual = v_size / tam_pag;
  bitmap = λ i. false;
  virtual_bitmap = λ i. false;
  has_lru = has_lru;
  timer = 0;
  heap = λ p. record {
    number = 0;
    frame = record { number = 0; start = 0; modified = false; presence = false; time = 0 };
  };
  next_ptr = 0;
  table_collection = [];
  admin_collection = [];
  global_clock_key = 0;
  global_clock_index = 0;
}
