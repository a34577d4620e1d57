-- ===== src/Paging/Replacement/Ended.antt =====
-- `get_next_clock_frame`: the loop over the tables, round by round.
use tp_2021_so_fin.Base.{
  ℕ, suc, ◌≤◌, ◌<◌, ◌≡◌, refl, ap, sym, ◌∙◌, true, false, List, [], ◌∷◌, Option, none, some, arith,
  leb, if◌then◌else◌, sum_by, Bool-cases, ◌⊎◌, inl, inr, subst,
}
use tp_2021_so_fin.Commons.{Dictionary}
use tp_2021_so_fin.Base.Counts.{count}
use tp_2021_so_fin.Segmentation.Invariant.{tables_count}
use tp_2021_so_fin.Paging.State.{Paged}
use tp_2021_so_fin.Paging.Replacement.{
  Hand, clock_iterator, clock_sweep, clock_loop, get_next_clock_frame,
}
use tp_2021_so_fin.Paging.Replacement.Passed.{
  present, modified, IsPassed, Outcome, nothing-Outcome, then-Outcome, iterator-Outcome,
}

module _ (bucket : ℕ → ℕ) where
  -- the pages in the buckets from `first` on
  abbrev reached : ℕ → ℕ → Dictionary (List ℕ) → ℕ
  reached first q = sum_by (λ e. if leb first (bucket e.0) then count q e.1 else 0)

  sweep-Outcome :
      (d : Dictionary (List ℕ)) (first : ℕ) (h : Hand)
      → h.found ≡ none
      → h.index ≡ 0
      → Outcome (λ q. reached first q d) h (clock_sweep bucket first h d)
  unfolding clock_sweep
  sweep-Outcome [] first h e z = nothing-Outcome h e z
  sweep-Outcome ((k, ps) ∷ d) first h e z =
      then-Outcome (λ q. if leb first (bucket k) then count q ps else 0) (λ q. reached first q d) h
        (if leb first (bucket k) then clock_iterator h ps (bucket k) 0 else h)
        (λ h'. clock_sweep bucket first h' d)
        (elim (Bool-cases (leb first (bucket k))) [
          | inl visited ↦ rw visited (iterator-Outcome ps h (bucket k) e z)
          | inr skipped ↦ rw skipped (nothing-Outcome h e z)
        ])
        (sweep-Outcome d first
          (if leb first (bucket k) then clock_iterator h ps (bucket k) 0 else h))

  reached_le : (first q : ℕ) (d : Dictionary (List ℕ)) → reached first q d ≤ tables_count q d
  reached_le first q [] = omega arith
  reached_le first q ((k, ps) ∷ d) = let ih = reached_le first q d in ground arith

  reached-all : (q : ℕ) (d : Dictionary (List ℕ)) → reached 0 q d ≡ tables_count q d
  reached-all q [] = refl
  reached-all q ((k, ps) ∷ d) = let ih = reached-all q d in ground arith

  -- what the clock finds, from the hand on
  record IsChosen (h : Hand) (d : Dictionary (List ℕ)) (p : ℕ) (h' : Hand) : Type 0 where
    pub counted : 0 < tables_count p d
    pub in_memory : present h p ≡ true
    pub same : (q : ℕ) → present h' q ≡ present h q
    pub at_zero : h'.index ≡ 0

  abbrev restart : Hand → Hand
  restart h = record h { key = 0; index = 0 }

  abbrev Chosen : ℕ → Hand → Dictionary (List ℕ) → Type 0
  Chosen fuel h d =
      (p : ℕ) × (h' : Hand) × (clock_loop fuel bucket h d ≡ some (p, h')) × IsChosen h d p h'

  -- A round finds a page, or passes over all that it reaches and goes on.
  loop-round :
      (fuel : ℕ) (h : Hand) (d : Dictionary (List ℕ))
      → h.found ≡ none
      → h.index ≡ 0
      → Chosen (suc fuel) h d
        ⊎ ((h' : Hand) × IsPassed (λ q. reached h.key q d) h h'
            × (clock_loop (suc fuel) bucket h d ≡ clock_loop fuel bucket (restart h') d))
  unfolding clock_loop
  loop-round fuel h d e z = elim (sweep-Outcome d h.key h e z) [
    | inl a ↦ inr (clock_sweep bucket h.key h d, a, ap next a.missing)
    | inr (p, b) ↦ inl (
      p,
      clock_sweep bucket h.key h d,
      ap next b.found,
      record {
        counted = let l = b.counted in omega (arith, reached_le h.key p d);
        in_memory = b.in_memory;
        same = b.same;
        at_zero = b.at_zero;
      },
    )
  ]
    where
      next : Option ℕ → Option (ℕ × Hand)
      next none = clock_loop fuel bucket (restart (clock_sweep bucket h.key h d)) d
      next (some p) = some (p, clock_sweep bucket h.key h d)

  -- A page that is found later is found.
  Chosen-later :
      (fuel : ℕ) (h h' : Hand) (n : ℕ → ℕ) (d : Dictionary (List ℕ))
      → IsPassed n h h'
      → clock_loop (suc fuel) bucket h d ≡ clock_loop fuel bucket (restart h') d
      → Chosen fuel (restart h') d
      → Chosen (suc fuel) h d
  Chosen-later fuel h h' n d a e (p, h'', e', c) = (
    p,
    h'',
    e ∙ e',
    record {
      counted = c.counted;
      in_memory = sym (a.same p) ∙ c.in_memory;
      same = λ q. c.same q ∙ a.same q;
      at_zero = c.at_zero;
    },
  )

  -- With a page in the memory that is not modified, a round from the first bucket finds one.
  last-round :
      (h : Hand) (d : Dictionary (List ℕ)) (x : ℕ)
      → h.found ≡ none
      → h.index ≡ 0
      → h.key ≡ 0
      → 0 < tables_count x d
      → present h x ≡ true
      → modified h x ≡ false
      → Chosen 1 h d
  last-round h d x e z k l t m = elim (loop-round 0 h d e z) [
    | inl found ↦ found
    | inr (h', a, _) ↦
        let (yes', _) =
          a.seen x (subst (λ n. 0 < n) (sym (ap (λ i. reached i x d) k ∙ reached-all x d)) l) t in
        cc
  ]

  two-rounds :
      (h : Hand) (d : Dictionary (List ℕ)) (x : ℕ)
      → h.found ≡ none
      → h.index ≡ 0
      → h.key ≡ 0
      → 0 < tables_count x d
      → present h x ≡ true
      → Chosen 2 h d
  two-rounds h d x e z k l t = elim (loop-round 1 h d e z) [
    | inl found ↦ found
    | inr (h', a, e') ↦
        let (_, plain) =
          a.seen x (subst (λ n. 0 < n) (sym (ap (λ i. reached i x d) k ∙ reached-all x d)) l) t in
        Chosen-later 1 h h' (λ q. reached h.key q d) d a e'
          (last-round (restart h') d x a.missing refl refl l (a.same x ∙ t) plain)
  ]

  -- If some page of the tables is in the memory and the index of the hand is 0, as it is at first,
  -- the loop of get_next_clock_frame ends, with a page of the tables that is in the memory; the
  -- same pages are in the memory as before, and the index is 0 again.
  pub get_next_clock_frame-finds :
      (r : Paged) (x : ℕ)
      → r.global_clock_index ≡ 0
      → 0 < tables_count x r.table_collection
      → (r.heap x).frame.presence ≡ true
      → (p : ℕ) × (h : Hand) × (get_next_clock_frame bucket r ≡ some (p, h))
        × (0 < tables_count p r.table_collection)
        × ((r.heap p).frame.presence ≡ true)
        × ((q : ℕ) → (h.heap q).frame.presence ≡ (r.heap q).frame.presence)
        × (h.index ≡ 0)
  unfolding get_next_clock_frame
  get_next_clock_frame-finds r x z l t =
      let (p, h', e, c) = from_key in (p, h', e, c.counted, c.in_memory, c.same, c.at_zero)
    where
      hand : Hand
      hand = record {
        heap = r.heap;
        found = none;
        key = r.global_clock_key;
        index = r.global_clock_index;
      }

      from_key : Chosen 3 hand r.table_collection
      from_key = elim (loop-round 2 hand r.table_collection refl z) [
        | inl found ↦ found
        | inr (h', a, e) ↦
            Chosen-later 2 hand h' (λ q. reached hand.key q r.table_collection) r.table_collection a
              e (two-rounds (restart h') r.table_collection x a.missing refl refl l (a.same x ∙ t))
      ]
