-- ===== src/Segmentation/Patota/Pushed.antt =====
-- A new segment in the table of a patota: `push_segment` and the invariant.
use tp_2021_so_fin.Base.{
  ℕ, suc, ◌+◌, ◌≤◌, ◌<◌, ◌≡◌, refl, ap, ◌∙◌, List, [], ◌∷◌, ◌++◌, none, some, arith, ltb, ◌==◌,
  if◌then◌else◌, sum_by, sum_by-perm, sum_by-append, Bool-cases, ◌⊎◌, inl, inr,
}
use tp_2021_so_fin.Commons.{Commons, Dictionary, lookup, erase_key}
use tp_2021_so_fin.Segmentation.State.{Segment, Ram, update}
use tp_2021_so_fin.Segmentation.Regions.{IsMeasure, IsTiled-same, table_weight, weight}
use tp_2021_so_fin.Segmentation.Compaction.Moved.{sum_by-update}
use tp_2021_so_fin.Base.Counts.{occurs, count}
use tp_2021_so_fin.Segmentation.Table.{get_last_index, next_index}
use tp_2021_so_fin.Segmentation.Invariant.{tables_count, clashes, IsSound, nothing}
use tp_2021_so_fin.Segmentation.Patota.{push_segment}
use tp_2021_so_fin.Segmentation.Patota.Entries.{entry_of, entries, entries-pushed}

-- the sum of a measure of tables over the dictionary
abbrev tables_sum : (List ℕ → ℕ) → Dictionary (List ℕ) → ℕ
tables_sum g = sum_by (λ e. g e.1)

-- The table is what the dictionary has for the key; an empty one may be missing.
abbrev pub IsStored : Dictionary (List ℕ) → ℕ → List ℕ → Type 0
IsStored d k table = (lookup k d ≡ some table) ⊎ ((table ≡ []) × (lookup k d ≡ none))

module _ (g : List ℕ → ℕ) where
  sum-erase_key-some :
      (d : Dictionary (List ℕ)) (k : ℕ) (table : List ℕ)
      → lookup k d ≡ some table
      → tables_sum g (erase_key k d) + g table ≡ tables_sum g d
  unfolding lookup erase_key
  sum-erase_key-some [] k table e = cc
  sum-erase_key-some ((j, v) ∷ d) k table e = elim (Bool-cases (j == k)) [
    | inl here ↦ let q : some v ≡ some table = ground arith in rw here (ground arith)
    | inr there ↦ rw there (omega (arith, sum-erase_key-some d k table (rw there at e)))
  ]

  sum-erase_key-none :
      (d : Dictionary (List ℕ)) (k : ℕ)
      → lookup k d ≡ none
      → tables_sum g (erase_key k d) ≡ tables_sum g d
  unfolding lookup erase_key
  sum-erase_key-none [] k e = refl
  sum-erase_key-none ((j, v) ∷ d) k e = elim (Bool-cases (j == k)) [
    | inl here ↦ ground arith
    | inr there ↦ rw there (omega (arith, sum-erase_key-none d k (rw there at e)))
  ]

  pub sum-dictionary_put :
      (c : Commons) (d : Dictionary (List ℕ)) (k : ℕ) (table new : List ℕ)
      → g [] ≡ 0
      → IsStored d k table
      → tables_sum g (c.dictionary_put d k new) + g table ≡ tables_sum g d + g new
  sum-dictionary_put c d k table new z (inl e) = omega (
    arith,
    sum_by-perm (λ e. g e.1) (c.dictionary_put-perm d k new),
    sum-erase_key-some d k table e,
  )
  sum-dictionary_put c d k table new z (inr (t, e)) = omega (
    arith,
    sum_by-perm (λ e. g e.1) (c.dictionary_put-perm d k new),
    sum-erase_key-none d k e,
    ap g t,
    z,
  )

pub stored-fresh :
    (c : Commons) (d : Dictionary (List ℕ)) (key : ℕ) (table : List ℕ) (p : ℕ)
    → IsStored d key table
    → tables_count p d ≡ 0
    → count p table ≡ 0
stored-fresh c d key table p stored f =
    let e = sum-dictionary_put (count p) c d key table [] refl stored in omega arith

-- What differs only at a pointer that is in no table has the same sum.
pub tables_sum-fresh :
    (g h : List ℕ → ℕ) (p : ℕ)
    → ((ps : List ℕ) → count p ps ≡ 0 → g ps ≡ h ps)
    → (d : Dictionary (List ℕ)) → tables_count p d ≡ 0
    → tables_sum g d ≡ tables_sum h d
tables_sum-fresh g h p e [] z = refl
tables_sum-fresh g h p e ((k, t) ∷ d) z =
    omega (arith, e t (omega arith), tables_sum-fresh g h p e d (omega arith))

-- the segments of a table whose number is not below `n`
abbrev above : (ℕ → Segment) → ℕ → ℕ → ℕ
above heap n q = if ltb (heap q).nro_segmento n then 0 else 1

clashes-append :
    (heap : ℕ → Segment) (ps : List ℕ) (p : ℕ)
    → clashes heap (ps ++ p ∷ []) ≡ clashes heap ps + sum_by (above heap (heap p).nro_segmento) ps
clashes-append heap [] p = omega arith
clashes-append heap (q ∷ ps) p = omega (
  arith,
  clashes-append heap ps p,
  sum_by-append (λ z. if ltb (heap q).nro_segmento (heap z).nro_segmento then 0 else 1) ps (p ∷ []),
)

clashes-update :
    (heap : ℕ → Segment) (p : ℕ) (s : Segment) (ps : List ℕ)
    → count p ps ≡ 0
    → clashes (update heap p s) ps ≡ clashes heap ps
clashes-update heap p s [] z = refl
clashes-update heap p s (q ∷ ps) z = ground (
  arith,
  clashes-update heap p s ps,
  sum_by-update (λ t. if ltb (heap q).nro_segmento t.nro_segmento then 0 else 1) heap p s ps,
)

-- In a table whose numbers rise the next number is above all.
next_index-above :
    (heap : ℕ → Segment) (ps : List ℕ)
    → clashes heap ps ≡ 0
    → sum_by (above heap (next_index (get_last_index heap ps))) ps ≡ 0
unfolding get_last_index
next_index-above heap [] z = refl
next_index-above heap (p ∷ []) z = ground arith
next_index-above heap (p ∷ q ∷ ps) z =
    let ih = next_index-above heap (q ∷ ps) (omega arith) in ground arith

module _ (c : Commons) (r : Ram) (key : ℕ) (table : List ℕ) (s : Segment)
    (stored : IsStored r.table_collection key table) where
  -- what `push_segment` makes of a state in which the range of the segment is held
  module _ (held : (Segment → ℕ) → ℕ) (i : IsSound held r)
      (same : (f : Segment → ℕ) → IsMeasure r.mem_size f → held f ≡ f s)
      (number : s.nro_segmento ≡ next_index (get_last_index r.heap table)) where
    abbrev heap' : ℕ → Segment
    heap' = update r.heap r.next_ptr s

    in_table : count r.next_ptr table ≡ 0
    in_table =
        stored-fresh c r.table_collection key table r.next_ptr stored
          (i.fresh r.next_ptr (omega arith))

    pushed-count :
        (p : ℕ)
        → tables_count p (push_segment c r key table s).0.table_collection
          ≡ tables_count p r.table_collection + occurs p r.next_ptr
    unfolding push_segment
    pushed-count p = omega (
      arith,
      sum-dictionary_put (count p) c r.table_collection key table (table ++ r.next_ptr ∷ []) refl
          stored,
      sum_by-append (occurs p) table (r.next_ptr ∷ []),
    )

    pushed-weight : (f : Segment → ℕ) → weight (push_segment c r key table s).0 f ≡ f s + weight r f
    unfolding push_segment
    pushed-weight f = omega (
      arith,
      sum-dictionary_put (table_weight heap' f) c r.table_collection key table
          (table ++ r.next_ptr ∷ []) refl stored,
      sum_by-append (λ p. f (heap' p)) table (r.next_ptr ∷ []),
      tables_sum-fresh (table_weight heap' f) (table_weight r.heap f) r.next_ptr
          (λ ps z. sum_by-update f r.heap r.next_ptr s ps z) r.table_collection
          (i.fresh r.next_ptr (omega arith)),
      here f,
    )
      where
        here : (f : Segment → ℕ) → f (heap' r.next_ptr) ≡ f s
        here f = ap f (ground arith)

    pushed-numbers :
        sum_by
          (λ e. clashes (push_segment c r key table s).0.heap e.1)
          (push_segment c r key table s).0.table_collection
        ≡ 0
    unfolding push_segment
    pushed-numbers = omega (
      arith,
      sum-dictionary_put (clashes heap') c r.table_collection key table (table ++ r.next_ptr ∷ [])
          refl stored,
      clashes-append heap' table r.next_ptr,
      tables_sum-fresh (clashes heap') (clashes r.heap) r.next_ptr
          (λ ps z. clashes-update r.heap r.next_ptr s ps z) r.table_collection
          (i.fresh r.next_ptr (omega arith)),
      i.numbered,
      all_below,
    )
      where
        own : (heap' r.next_ptr).nro_segmento ≡ s.nro_segmento
        own = ground arith

        table_clashes : clashes r.heap table ≡ 0
        table_clashes = omega (
          arith,
          sum-dictionary_put (clashes r.heap) c r.table_collection key table [] refl stored,
          i.numbered,
        )

        all_below : sum_by (above heap' (heap' r.next_ptr).nro_segmento) table ≡ 0
        all_below =
            ap (λ n. sum_by (above heap' n) table) (own ∙ number)
            ∙ sum_by-update
                (λ t.
                  if ltb t.nro_segmento (next_index (get_last_index r.heap table)) then 0 else 1)
                r.heap r.next_ptr s table in_table
            ∙ next_index-above r.heap table table_clashes

    same_ram :
        let r' = (push_segment c r key table s).0 in
        (r'.mem_size ≡ r.mem_size)
        × (r'.next_ptr ≡ suc r.next_ptr)
        × (r'.segmentos_libres ≡ r.segmentos_libres)
    unfolding push_segment
    same_ram = (refl, refl, refl)

    pub push_segment-IsSound : IsSound nothing (push_segment c r key table s).0
    push_segment-IsSound =
        let q = same_ram in
        record {
          small = omega arith;
          tiled = rw (q.0) (
              IsTiled-same r.mem_size (λ f. held f + weight r f) _ i.tiled
                (λ f m. omega (arith, same f m, pushed-weight f)));
          once = λ p. pushed_once p;
          fresh = λ p h. omega (arith, pushed-count p, i.fresh p, not_last p);
          numbered = pushed-numbers;
        }
      where
        pushed_once : (p : ℕ) → tables_count p (push_segment c r key table s).0.table_collection ≤ 1
        pushed_once p =
            let f = i.fresh p in let o = i.once p in let e = pushed-count p in ground arith

        not_last : (p : ℕ) → r.next_ptr < p → occurs p r.next_ptr ≡ 0
        not_last p h = ground arith

  pub stored-pushed :
      let (r', table') = push_segment c r key table s in
      (lookup key r'.table_collection ≡ some table')
      × (count r.next_ptr table ≡ 0
          → entries r'.heap table' ≡ entries r.heap table ++ entry_of s ∷ [])
  unfolding push_segment
  stored-pushed = (
    c.lookup-dictionary_put r.table_collection key (table ++ r.next_ptr ∷ []) key ∙ ground arith,
    entries-pushed r.heap r.next_ptr s table,
  )
