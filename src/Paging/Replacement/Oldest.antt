-- ===== src/Paging/Replacement/Oldest.antt =====
-- `get_next_lru_frame` and the times at which the pages were used.
use tp_2021_so_fin.Base.{
  ℕ, ◌≤◌, ◌<◌, ◌≡◌, ap, sym, ◌∙◌, Bool, true, ◌&&◌, List, [], ◌∷◌, Option, none, some, arith, ltb,
  ◌==◌, Bool-cases, Option-cases, ◌⊎◌, inl, inr, subst,
}
use tp_2021_so_fin.Commons.{Dictionary}
use tp_2021_so_fin.Base.Counts.{count, occurs}
use tp_2021_so_fin.Segmentation.Invariant.{tables_count}
use tp_2021_so_fin.Paging.State.{Page, Paged}
use tp_2021_so_fin.Paging.Replacement.{lru_replacer, lru_iterator, lru_walk, get_next_lru_frame}

module _ (heap : ℕ → Page) where
  abbrev present : ℕ → Bool
  present p = (heap p).frame.presence

  abbrev time : ℕ → ℕ
  time p = (heap p).frame.time

  -- what is found was not used later than the page
  abbrev Beats : Option ℕ → ℕ → Type 0
  Beats none x = ⊥
  Beats (some q) x = time q ≤ time x

  replacer-Beats : (f : Option ℕ) (p x : ℕ) → Beats f x → Beats (lru_replacer heap f p) x
  unfolding lru_replacer
  replacer-Beats none p x h = absurd h
  replacer-Beats (some q) p x h = elim (Bool-cases (present p && ltb (time p) (time q))) [
    | inl older ↦ rw older (ground arith)
    | inr other ↦ rw other h
  ]

  replacer-Beats_self : (f : Option ℕ) (p : ℕ) → present p ≡ true → Beats (lru_replacer heap f p) p
  unfolding lru_replacer
  replacer-Beats_self none p h = rw h (omega arith)
  replacer-Beats_self (some q) p h = elim (Bool-cases (ltb (time p) (time q))) [
    | inl older ↦ rw (h, older) (omega arith)
    | inr other ↦ rw (h, other) (ground arith)
  ]

  iterator-Beats :
      (ps : List ℕ) (f : Option ℕ) (x : ℕ) → Beats f x → Beats (lru_iterator heap f ps) x
  unfolding lru_iterator
  iterator-Beats [] f x h = h
  iterator-Beats (p ∷ ps) f x h =
      iterator-Beats ps (lru_replacer heap f p) x (replacer-Beats f p x h)

  iterator-Beats_held :
      (ps : List ℕ) (f : Option ℕ) (x : ℕ)
      → 0 < count x ps
      → present x ≡ true
      → Beats (lru_iterator heap f ps) x
  unfolding lru_iterator
  iterator-Beats_held [] f x h e = absurd (omega arith)
  iterator-Beats_held (p ∷ ps) f x h e = elim (Bool-cases (p == x)) [
    | inl here ↦
        let q : p ≡ x = ground arith in
        iterator-Beats ps (lru_replacer heap f p) x (
          subst (λ z. Beats (lru_replacer heap f p) z) q
            (replacer-Beats_self f p (ap present q ∙ e)))
    | inr there ↦ iterator-Beats_held ps (lru_replacer heap f p) x (ground arith) e
  ]

  walk-Beats :
      (d : Dictionary (List ℕ)) (f : Option ℕ) (x : ℕ) → Beats f x → Beats (lru_walk heap f d) x
  unfolding lru_walk
  walk-Beats [] f x h = h
  walk-Beats ((k, ps) ∷ d) f x h = walk-Beats d (lru_iterator heap f ps) x (iterator-Beats ps f x h)

  walk-Beats_held :
      (d : Dictionary (List ℕ)) (f : Option ℕ) (x : ℕ)
      → 0 < tables_count x d
      → present x ≡ true
      → Beats (lru_walk heap f d) x
  unfolding lru_walk
  walk-Beats_held [] f x h e = absurd (omega arith)
  walk-Beats_held ((k, ps) ∷ d) f x h e = elim (Bool-cases (ltb 0 (count x ps))) [
    | inl here ↦
        walk-Beats d (lru_iterator heap f ps) x (iterator-Beats_held ps f x (ground arith) e)
    | inr there ↦ walk-Beats_held d (lru_iterator heap f ps) x (ground arith) e
  ]

  -- What is found was there before, or is a page in the memory among those looked at.
  abbrev From : Option ℕ → ℕ → ℕ → Type 0
  From f n q = (f ≡ some q) ⊎ ((0 < n) × (present q ≡ true))

  replacer-From : (f : Option ℕ) (p q : ℕ) → lru_replacer heap f p ≡ some q → From f (occurs q p) q
  unfolding lru_replacer
  replacer-From none p q e = elim (Bool-cases (present p)) [
    | inl here ↦
        let s : some p ≡ some q = rw here at e in
        let t : p ≡ q = cc in inr (ground arith, ap present (sym t) ∙ here)
    | inr gone ↦ let s : none ≡ some q = rw gone at e in cc
  ]
  replacer-From (some x) p q e = elim (Bool-cases (present p && ltb (time p) (time x))) [
    | inl older ↦
        let s : some p ≡ some q = rw older at e in
        let t : p ≡ q = cc in
        let here : present p ≡ true = ground arith in inr (ground arith, ap present (sym t) ∙ here)
    | inr other ↦ inl (rw other at e)
  ]

  iterator-From :
      (ps : List ℕ) (f : Option ℕ) (q : ℕ) → lru_iterator heap f ps ≡ some q → From f (count q ps) q
  unfolding lru_iterator
  iterator-From [] f q e = inl e
  iterator-From (p ∷ ps) f q e = elim (iterator-From ps (lru_replacer heap f p) q e) [
    | inl e' ↦ elim (replacer-From f p q e') [
      | inl e'' ↦ inl e''
      | inr (h, t) ↦ inr (omega arith, t)
    ]
    | inr (h, t) ↦ inr (omega arith, t)
  ]

  walk-From :
      (d : Dictionary (List ℕ)) (f : Option ℕ) (q : ℕ)
      → lru_walk heap f d ≡ some q
      → From f (tables_count q d) q
  unfolding lru_walk
  walk-From [] f q e = inl e
  walk-From ((k, ps) ∷ d) f q e = elim (walk-From d (lru_iterator heap f ps) q e) [
    | inl e' ↦ elim (iterator-From ps f q e') [
      | inl e'' ↦ inl e''
      | inr (h, t) ↦ inr (omega arith, t)
    ]
    | inr (h, t) ↦ inr (omega arith, t)
  ]

-- If some page of the tables is in the memory, `get_next_lru_frame` finds a page of the tables
-- that is in the memory, and none that is was used before it.
pub get_next_lru_frame-oldest :
    (r : Paged) (x : ℕ)
    → 0 < tables_count x r.table_collection
    → (r.heap x).frame.presence ≡ true
    → (q : ℕ) × (get_next_lru_frame r ≡ some q)
      × (0 < tables_count q r.table_collection)
      × ((r.heap q).frame.presence ≡ true)
      × ((p : ℕ)
          → 0 < tables_count p r.table_collection
          → (r.heap p).frame.presence ≡ true
          → (r.heap q).frame.time ≤ (r.heap p).frame.time)
unfolding get_next_lru_frame
get_next_lru_frame-oldest r x held e =
    elim (Option-cases (lru_walk r.heap none r.table_collection)) [
      | inl missing ↦ absurd (
          subst (λ f. Beats r.heap f x) missing
            (walk-Beats_held r.heap r.table_collection none x held e))
      | inr (q, s) ↦ elim (walk-From r.heap r.table_collection none q s) [
        | inl bad ↦ cc
        | inr (h, t) ↦ (
          q,
          s,
          h,
          t,
          λ p h' e'.
              subst (λ f. Beats r.heap f p) s
                (walk-Beats_held r.heap r.table_collection none p h' e'),
        )
      ]
    ]
