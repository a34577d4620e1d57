-- ===== src/Segmentation/Handler/Expelled.antt =====
-- EXPULSAR_TRIPULANTE and ELIMINAR_PATOTA as a whole.
use tp_2021_so_fin.Base.{
  ◌&&◌, ℕ, zero, suc, ◌+◌, ◌<◌, ◌≡◌, refl, ap, ◌∙◌, Bool, true, List, [], ◌∷◌, Option, none, some,
  arith, ltb, ◌==◌, Bool-cases, Option-cases, inl, inr, length,
}
use tp_2021_so_fin.Base.Bytes.{Bytes, get32}
use tp_2021_so_fin.Commons.{Commons, lookup}
use tp_2021_so_fin.Segmentation.State.{Segment, Ram, tcb_type}
use tp_2021_so_fin.Segmentation.Regions.{extent, table_weight}
use tp_2021_so_fin.Segmentation.Table.{remove_segment_from_table, find_pointer, find_tcb_segment}
use tp_2021_so_fin.Segmentation.Records.{remove_segment_from_memory}
use tp_2021_so_fin.Base.Counts.{count}
use tp_2021_so_fin.Segmentation.Invariant.{free_bytes, IsSound, nothing}
use tp_2021_so_fin.Segmentation.Patota.{success, respuesta}
use tp_2021_so_fin.Segmentation.Handler.{
  free_segment, eliminar_one, eliminar_loop, eliminar_patota, expulsar_tripulante,
}
use tp_2021_so_fin.Base.Options.{◌>>=◌}
use tp_2021_so_fin.Segmentation.Handler.Freed.{free_segment-IsSound}

-- What a search returns is in the table and passes the test.
pub find_pointer-count :
    (heap : ℕ → Segment) (test : Segment → Bool) (ps : List ℕ) (p : ℕ)
    → find_pointer heap test ps ≡ some p
    → (0 < count p ps) × (test (heap p) ≡ true)
unfolding find_pointer
find_pointer-count heap test [] p e = cc
find_pointer-count heap test (q ∷ ps) p e = elim (Bool-cases (test (heap q))) [
  | inl hit ↦ let s : some q ≡ some p = ground arith in ground arith
  | inr miss ↦
      let ih = find_pointer-count heap test ps p (rw miss at e) in (omega (arith, ih.0), ih.1)
]

find_tcb-count :
    (heap : ℕ → Segment) (id : ℕ) (ps : List ℕ) (p : ℕ)
    → find_tcb_segment heap id ps ≡ some p
    → 0 < count p ps
unfolding find_tcb_segment
find_tcb-count heap id ps p e = elim (Bool-cases (ltb id 2147483648)) [
  | inl small ↦
      (find_pointer-count heap (λ s. s.id == id && s.type == tcb_type) ps p (rw small at e)).0
  | inr large ↦ ground arith
]

-- the bytes of the segment that was found
abbrev pub found_bytes : Ram → Option ℕ → ℕ
found_bytes r none = 0
found_bytes r (some p) = extent (r.heap p)

remove-first :
    (heap : ℕ → Segment) (p : ℕ) (ps : List ℕ) → remove_segment_from_table heap p (p ∷ ps) ≡ ps
unfolding remove_segment_from_table
remove-first heap p [] = refl
remove-first heap p (q ∷ ps) = ground arith

module _ (c : Commons) where
  module _ (r : Ram) (buffer : Bytes) (table : List ℕ)
      (stored : lookup (get32 buffer 0) r.table_collection ≡ some table) where
    expulsar-found :
        (p : ℕ)
        → find_tcb_segment r.heap (get32 buffer 4) table ≡ some p
        → expulsar_tripulante c r buffer
          ≡ some (free_segment c r (get32 buffer 0) table p, success respuesta)
    unfolding expulsar_tripulante
    expulsar-found p e = rw (stored, e)

    expulsar-missing :
        find_tcb_segment r.heap (get32 buffer 4) table ≡ none
        → expulsar_tripulante c r buffer ≡ some (r, success respuesta)
    unfolding expulsar_tripulante
    expulsar-missing e = rw (stored, e)

  -- EXPULSAR_TRIPULANTE on a patota that is in the dictionary, in a sound state: the answer is
  -- success, the state stays sound, and the bytes of the TCB that was found, if there was one, are
  -- free again.
  pub expulsar-IsSound :
      (r : Ram) (buffer : Bytes) (table : List ℕ)
      → IsSound nothing r
      → lookup (get32 buffer 0) r.table_collection ≡ some table
      → (r' : Ram) × (expulsar_tripulante c r buffer ≡ some (r', success respuesta))
        × IsSound nothing r'
        × (free_bytes r'
            ≡ free_bytes r + found_bytes r (find_tcb_segment r.heap (get32 buffer 4) table))
  expulsar-IsSound r buffer table i stored =
      elim (Option-cases (find_tcb_segment r.heap (get32 buffer 4) table)) [
        | inl missing ↦
            (r, expulsar-missing r buffer table stored missing, i, rw missing (omega arith))
        | inr (p, e) ↦
            let s =
              free_segment-IsSound c r (get32 buffer 0) p table i stored
                (find_tcb-count r.heap (get32 buffer 4) table p e) in
            (
              free_segment c r (get32 buffer 0) table p,
              expulsar-found r buffer table stored p e,
              s.0,
              rw e (s.1),
            )
      ]

  abbrev with_admin : Ram → ℕ → Ram
  with_admin r p = record r { admin = (remove_segment_from_memory r.admin r.mem_size (r.heap p)).0 }

  eliminar_one-IsSound :
      (r : Ram) (key p : ℕ) (ps : List ℕ)
      → IsSound nothing r
      → lookup key r.table_collection ≡ some (p ∷ ps)
      → let q = eliminar_one c r key (p ∷ ps) p in
        IsSound nothing q
        × (free_bytes q ≡ free_bytes r + extent (r.heap p))
        × (lookup key q.table_collection ≡ some ps)
        × (q.heap ≡ r.heap)
  unfolding eliminar_one
  eliminar_one-IsSound r key p ps i stored =
      let j : IsSound nothing (with_admin r p) = record {
        small = i.small;
        tiled = i.tiled;
        once = i.once;
        fresh = i.fresh;
        numbered = i.numbered;
      } in
      let s = free_segment-IsSound c (with_admin r p) key p (p ∷ ps) j stored (ground arith) in
      (s.0, s.1, s.2 ∙ ap some (remove-first r.heap p ps), refl)

  eliminar_loop-cons :
      (fuel : ℕ) (r : Ram) (key p : ℕ) (ps : List ℕ)
      → eliminar_loop c (suc fuel) r key (p ∷ ps)
        ≡ eliminar_loop c fuel (eliminar_one c r key (p ∷ ps) p) key ps
  unfolding eliminar_loop
  eliminar_loop-cons fuel r key p ps =
      ap (eliminar_loop c fuel (eliminar_one c r key (p ∷ ps) p) key) (remove-first r.heap p ps)

  eliminar_loop-nil : (fuel : ℕ) (r : Ram) (key : ℕ) → eliminar_loop c (suc fuel) r key [] ≡ some r
  unfolding eliminar_loop
  eliminar_loop-nil fuel r key = refl

  eliminar_patota-stored :
      (r : Ram) (buffer : Bytes) (table : List ℕ)
      → lookup (get32 buffer 0) r.table_collection ≡ some table
      → eliminar_patota c r buffer ≡ (
          eliminar_loop c (suc (length table)) r (get32 buffer 0) table >>= λ r'.
          some (r', success respuesta))
  unfolding eliminar_patota
  eliminar_patota-stored r buffer table stored = rw (stored, eliminar_patota)

  eliminar-eq :
      (r r' : Ram) (buffer : Bytes) (table : List ℕ)
      → lookup (get32 buffer 0) r.table_collection ≡ some table
      → eliminar_loop c (suc (length table)) r (get32 buffer 0) table ≡ some r'
      → eliminar_patota c r buffer ≡ some (r', success respuesta)
  eliminar-eq r r' buffer table stored e = eliminar_patota-stored r buffer table stored ∙ rw e

  eliminar_loop-IsSound :
      (ps : List ℕ) (r : Ram) (key : ℕ)
      → IsSound nothing r
      → lookup key r.table_collection ≡ some ps
      → (r' : Ram) × (eliminar_loop c (suc (length ps)) r key ps ≡ some r')
        × IsSound nothing r'
        × (free_bytes r' ≡ free_bytes r + table_weight r.heap extent ps)
        × (lookup key r'.table_collection ≡ some [])
  eliminar_loop-IsSound [] r key i stored =
      (r, eliminar_loop-nil zero r key, i, omega arith, stored)
  eliminar_loop-IsSound (p ∷ ps) r key i stored =
      let s = eliminar_one-IsSound r key p ps i stored in
      let (r', e, i', b, l) =
        eliminar_loop-IsSound ps (eliminar_one c r key (p ∷ ps) p) key s.0 s.2 in
      (
        r',
        eliminar_loop-cons (suc (length ps)) r key p ps ∙ e,
        i',
        omega (arith, s.1, b, ap (λ h. table_weight h extent ps) s.3),
        l,
      )

  -- ELIMINAR_PATOTA on a patota that is in the dictionary, in a sound state: the loop ends, the
  -- answer is success, the state stays sound, all bytes of the table's segments are free again, and
  -- the patota is left in the dictionary with an empty table.
  pub eliminar-IsSound :
      (r : Ram) (buffer : Bytes) (table : List ℕ)
      → IsSound nothing r
      → lookup (get32 buffer 0) r.table_collection ≡ some table
      → (r' : Ram) × (eliminar_patota c r buffer ≡ some (r', success respuesta))
        × IsSound nothing r'
        × (free_bytes r' ≡ free_bytes r + table_weight r.heap extent table)
        × (lookup (get32 buffer 0) r'.table_collection ≡ some [])
  eliminar-IsSound r buffer table i stored =
      let (r', e, i', b, l) = eliminar_loop-IsSound table r (get32 buffer 0) i stored in
      (r', eliminar-eq r r' buffer table stored e, i', b, l)
