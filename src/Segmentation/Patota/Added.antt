-- ===== src/Segmentation/Patota/Added.antt =====
-- Adding segments to a table, each with the search for its space, and the invariant.
use mathlib.Core.List.{append-nil, append_assoc}
use tp_2021_so_fin.Base.{
  ℕ, zero, suc, ◌+◌, ◌*◌, ◌%◌, ◌≤◌, ◌≡◌, refl, sym, ◌∙◌, List, some, arith, inl, subst, ap, [], ◌∷◌,
  ◌++◌,
}
use tp_2021_so_fin.Base.Bytes.{Bytes, u32}
use tp_2021_so_fin.Commons.{Commons, lookup}
use tp_2021_so_fin.Segmentation.State.{Segment, Ram, tcb_type, hole, to_u32}
use tp_2021_so_fin.Segmentation.Regions.{IsMeasure, measure-bounds}
use tp_2021_so_fin.Segmentation.Compaction.{allocate}
use tp_2021_so_fin.Segmentation.Table.{get_last_index, next_index}
use tp_2021_so_fin.Segmentation.Invariant.{free_bytes, IsSound, nothing, range}
use tp_2021_so_fin.Segmentation.Invariant.Allocated.{IsAllocated, allocate-IsAllocated}
use tp_2021_so_fin.Segmentation.Records.{Tcb, save_tcb_in_memory}
use tp_2021_so_fin.Segmentation.Patota.{
  Entry, push_segment, add_segment, add_tcb, add_crew, read_tcb,
}
use tp_2021_so_fin.Segmentation.Patota.Pushed.{
  IsStored, push_segment-IsSound, stored-pushed, stored-fresh,
}
use tp_2021_so_fin.Segmentation.Patota.Entries.{
  entry_of, entries, entry_of-fresh, entries-same, entry-allocate,
}

-- After adding segments of `k` bytes in all to a table, for the entries `es`.
pub record IsAdded (key k : ℕ) (es : List Entry) (r : Ram) (table : List ℕ) (out : Ram × List ℕ)
    : Type 0 where
  pub sound : IsSound nothing out.0
  pub stored : lookup key out.0.table_collection ≡ some out.1
  pub used : free_bytes out.0 + k ≡ free_bytes r
  pub described : entries out.0.heap out.1 ≡ entries r.heap table ++ es
  pub same_size : out.0.mem_size ≡ r.mem_size

abbrev pub tcb_entry : Tcb → Entry
tcb_entry t = record { id = t.tid; type = tcb_type; size = 21 }

-- the entries of the `n` tripulantes of a message, from `offset` on
abbrev pub crew_entries : ℕ → Bytes → ℕ → List Entry
crew_entries zero buffer offset = []
crew_entries (suc n) buffer offset =
    tcb_entry (read_tcb buffer offset) ∷ crew_entries n buffer (offset + 17)

module _ (c : Commons) where
  abbrev new_segment : Ram → List ℕ → Entry → ℕ → Segment
  new_segment r table e base = record {
    id = e.id;
    type = e.type;
    nro_segmento = next_index (get_last_index r.heap table);
    base_addr = base;
    limit = (base + e.size) % u32;
  }

  add_segment-eq :
      (r r₁ : Ram) (key : ℕ) (table : List ℕ) (e : Entry) (save : ℕ → Bytes → ℕ → Segment → Bytes)
      (base : ℕ)
      → allocate c r e.size ≡ (some base, r₁)
      → add_segment c r key table e save
        ≡ push_segment c
            (record r₁ { memory = save base r₁.memory r₁.mem_size (new_segment r₁ table e base) })
            key
            table
            (new_segment r₁ table e base)
  unfolding add_segment
  add_segment-eq r r₁ key table e save base q = rw (q, to_u32)

  free_bytes-push_segment :
      (r : Ram) (key : ℕ) (table : List ℕ) (s : Segment)
      → (free_bytes (push_segment c r key table s).0 ≡ free_bytes r)
        × ((push_segment c r key table s).0.mem_size ≡ r.mem_size)
  unfolding push_segment
  free_bytes-push_segment r key table s = (refl, refl)

  module _ (r : Ram) (key : ℕ) (table : List ℕ) (e : Entry) (save : ℕ → Bytes → ℕ → Segment → Bytes)
      (i : IsSound nothing r) (stored : IsStored r.table_collection key table) where
    -- the state before the push, and the segment pushed
    abbrev saved : ℕ → Ram → Ram
    saved base r₁ = record r₁ {
      memory = save base r₁.memory r₁.mem_size (new_segment r₁ table e base);
    }

    pushed-IsAdded :
        (a : IsAllocated c e.size r (allocate c r e.size))
        → let r₁ = (allocate c r e.size).1 in
          IsAdded key e.size
            (e ∷ [])
            r
            table
            (push_segment c (saved a.base r₁) key table (new_segment r₁ table e a.base))
    pushed-IsAdded a =
        let r₁ = (allocate c r e.size).1 in
        let s : Segment = new_segment r₁ table e a.base in
        let r₂ = saved a.base r₁ in
        let fit = a.sound.small in
        let held : IsSound (range a.base e.size) r₂ = record {
          small = a.sound.small;
          tiled = a.sound.tiled;
          once = a.sound.once;
          fresh = a.sound.fresh;
          numbered = a.sound.numbered;
        } in
        let stored₁ : IsStored r₂.table_collection key table =
          subst (λ d. IsStored d key table) (sym a.same_tables) stored in
        let kept = free_bytes-push_segment r₂ key table s in
        let t = stored-pushed c r₂ key table s stored₁ in
        let in_memory = a.in_memory in
        let same_size = a.same_size in
        let bounds = λ (f : Segment → ℕ) (m : IsMeasure r₁.mem_size f).
          measure-bounds r₁.mem_size f m (hole a.base (a.base + e.size)) s refl (omega arith)
            (omega arith) (omega arith) in
        record {
          sound =
              push_segment-IsSound c r₂ key table s stored₁ (range a.base e.size) held bounds refl;
          stored = t.0;
          used = omega (arith, kept.0, a.used);
          described =
              t.1 (
                stored-fresh c r₂.table_collection key table r₂.next_ptr stored₁
                  (held.fresh r₂.next_ptr (omega arith)))
              ∙ ap (λ xs. xs ++ entry_of s ∷ [])
                  (entries-same r.heap r₁.heap table (λ q. entry-allocate c r e.size q))
              ∙ ap (λ x. entries r.heap table ++ x ∷ [])
                  (entry_of-fresh s.nro_segmento a.base e (omega arith));
          same_size = kept.1 ∙ a.same_size;
        }

    pub add_segment-IsAdded :
        e.size ≤ free_bytes r
        → IsAdded key e.size (e ∷ []) r table (add_segment c r key table e save)
    add_segment-IsAdded le =
        let a = allocate-IsAllocated c e.size r i le in
        rw
          (add_segment-eq r (allocate c r e.size).1 key table e save a.base
            (λ j. (a.is_found j, (allocate c r e.size).1)))
          (pushed-IsAdded a)

  add_tcb-IsAdded :
      (pid : ℕ) (r : Ram) (table : List ℕ) (t : Tcb)
      → IsSound nothing r
      → lookup pid r.table_collection ≡ some table
      → 21 ≤ free_bytes r
      → IsAdded pid 21 (tcb_entry t ∷ []) r table (add_tcb c r pid table t)
  unfolding add_tcb
  add_tcb-IsAdded pid r table t i stored le =
      add_segment-IsAdded r pid table _
        (λ base memory mem_size s. (save_tcb_in_memory memory mem_size s t).0) i (inl stored) le

  pub IsAdded-trans :
      (key k l : ℕ) (es fs : List Entry) (r : Ram) (table : List ℕ) (p q : Ram × List ℕ)
      → IsAdded key k es r table p
      → IsAdded key l fs p.0 p.1 q
      → IsAdded key (k + l) (es ++ fs) r table q
  IsAdded-trans key k l es fs r table p q a b = record {
    sound = b.sound;
    stored = b.stored;
    used = omega (arith, a.used, b.used);
    described =
        b.described ∙ ap (λ xs. xs ++ fs) a.described ∙ append_assoc (entries r.heap table) es fs;
    same_size = b.same_size ∙ a.same_size;
  }

  pub add_crew-IsAdded :
      (n : ℕ) (buffer : Bytes) (offset pid : ℕ) (r : Ram) (table : List ℕ)
      → IsSound nothing r
      → lookup pid r.table_collection ≡ some table
      → n * 21 ≤ free_bytes r
      → IsAdded pid
          (n * 21)
          (crew_entries n buffer offset)
          r
          table
          (add_crew c n buffer offset pid (r, table))
  unfolding add_crew
  add_crew-IsAdded zero buffer offset pid r table i stored le = record {
    sound = i;
    stored = stored;
    used = omega arith;
    described = sym (append-nil (entries r.heap table));
    same_size = refl;
  }
  add_crew-IsAdded (suc n) buffer offset pid r table i stored le =
      let p = add_tcb c r pid table (read_tcb buffer offset) in
      let a = add_tcb-IsAdded pid r table (read_tcb buffer offset) i stored (omega arith) in
      let rest =
        add_crew-IsAdded n buffer (offset + 17) pid p.0 p.1 a.sound a.stored
          (omega (arith, a.used)) in
      let both =
        IsAdded-trans pid 21 (n * 21) (tcb_entry (read_tcb buffer offset) ∷ [])
          (crew_entries n buffer (offset + 17)) r table p _ a rest in
      record {
        sound = both.sound;
        stored = both.stored;
        used = omega (arith, both.used);
        described = both.described;
        same_size = both.same_size;
      }
