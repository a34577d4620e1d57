-- ===== src/Paging/Replacement/Passed.antt =====
-- What the hand of the clock does on its way over the pages.
use tp_2021_so_fin.Base.{
  ℕ, ◌+◌, ◌<◌, ◌≡◌, refl, ap, sym, ◌∙◌, Bool, true, false, List, [], ◌∷◌, none, some, arith, ltb,
  leb, if◌then◌else◌, Bool-cases, ◌⊎◌, inl, inr, subst,
}
use tp_2021_so_fin.Base.Counts.{count, occurs}
use tp_2021_so_fin.Paging.Replacement.{Hand, is_found, clock_replacer, clock_pages, clock_iterator}

abbrev pub present : Hand → ℕ → Bool
present h p = (h.heap p).frame.presence

abbrev pub modified : Hand → ℕ → Bool
modified h p = (h.heap p).frame.modified

-- The hand passes over the pages that `n` counts without finding one: those in the memory were
-- modified, and are not any more.
pub record IsPassed (n : ℕ → ℕ) (h h' : Hand) : Type 0 where
  pub missing : h'.found ≡ none
  pub at_zero : h'.index ≡ 0
  pub same : (p : ℕ) → present h' p ≡ present h p
  pub clear : (p : ℕ) → modified h p ≡ false → modified h' p ≡ false
  pub seen :
      (p : ℕ) → 0 < n p → present h p ≡ true → (modified h p ≡ true) × (modified h' p ≡ false)

-- The hand finds one of the pages that `n` counts.
pub record IsStopped (n : ℕ → ℕ) (h h' : Hand) (p : ℕ) : Type 0 where
  pub found : h'.found ≡ some p
  pub at_zero : h'.index ≡ 0
  pub same : (q : ℕ) → present h' q ≡ present h q
  pub counted : 0 < n p
  pub in_memory : present h p ≡ true

abbrev pub Outcome : (ℕ → ℕ) → Hand → Hand → Type 0
Outcome n h h' = IsPassed n h h' ⊎ ((p : ℕ) × IsStopped n h h' p)

passed-seen :
    (n m : ℕ → ℕ) (h h' h'' : Hand)
    → IsPassed n h h'
    → IsPassed m h' h''
    → (p : ℕ) → 0 < n p + m p
    → present h p ≡ true
    → (modified h p ≡ true) × (modified h'' p ≡ false)
passed-seen n m h h' h'' a b p l e = elim (Bool-cases (ltb 0 (n p))) [
  | inl first ↦ let (x, y) = a.seen p (ground arith) e in (x, b.clear p y)
  | inr later ↦
      let (x, y) = b.seen p (ground arith) (a.same p ∙ e) in
      (
        elim (Bool-cases (modified h p)) [
          | inl marked ↦ marked
          | inr plain ↦ let z = a.clear p plain in cc
        ],
        y,
      )
]

-- one part after the other
passed-Outcome :
    (n m : ℕ → ℕ) (h h' h'' : Hand)
    → IsPassed n h h'
    → Outcome m h' h''
    → Outcome (λ p. n p + m p) h h''
passed-Outcome n m h h' h'' a (inl b) = inl (record {
  missing = b.missing;
  at_zero = b.at_zero;
  same = λ p. b.same p ∙ a.same p;
  clear = λ p e. b.clear p (a.clear p e);
  seen = passed-seen n m h h' h'' a b;
})
passed-Outcome n m h h' h'' a (inr (p, b)) = inr (
  p,
  record {
    found = b.found;
    at_zero = b.at_zero;
    same = λ q. b.same q ∙ a.same q;
    counted = let l = b.counted in omega arith;
    in_memory = sym (a.same p) ∙ b.in_memory;
  },
)

stopped-Outcome :
    (n m : ℕ → ℕ) (h h' : Hand) (p : ℕ) → IsStopped n h h' p → Outcome (λ q. n q + m q) h h'
stopped-Outcome n m h h' p b = inr (
  p,
  record {
    found = b.found;
    at_zero = b.at_zero;
    same = b.same;
    counted = let l = b.counted in omega arith;
    in_memory = b.in_memory;
  },
)

pub nothing-Outcome : (h : Hand) → h.found ≡ none → h.index ≡ 0 → Outcome (λ p. 0) h h
nothing-Outcome h e z = inl (record {
  missing = e;
  at_zero = z;
  same = λ p. refl;
  clear = λ p e. e;
  seen = λ p l. absurd (omega (arith, l));
})

replacer-Outcome :
    (h : Hand) (p k : ℕ)
    → h.found ≡ none
    → h.index ≡ 0
    → Outcome (λ q. occurs q p) h (clock_replacer h p k 0)
unfolding clock_replacer
replacer-Outcome h p k e z = elim (Bool-cases (present h p)) [
  | inr gone ↦ inl (record {
    missing = rw gone e;
    at_zero = rw gone z;
    same = λ q. rw gone;
    clear = λ q c. rw gone c;
    seen = λ q l t. ground arith;
  })
  | inl here ↦ elim (Bool-cases (modified h p)) [
    | inl marked ↦ inl (record {
      missing = rw (here, marked) e;
      at_zero = rw (here, marked) z;
      same = λ q. ground arith;
      clear = λ q c. ground arith;
      seen = λ q l t. ground arith;
    })
    | inr plain ↦ inr (
      p,
      record {
        found = rw (here, plain);
        at_zero = rw (here, plain);
        same = λ q. ground arith;
        counted = ground arith;
        in_memory = here;
      },
    )
  ]
]

-- what a loop goes on with, if nothing has been found
abbrev pub unless_found : (Hand → Hand) → Hand → Hand
unless_found f h = elim (is_found h.found) [ true ↦ h | false ↦ f h ]

unless_found-none : (f : Hand → Hand) (h : Hand) → h.found ≡ none → unless_found f h ≡ f h
unless_found-none f h e = rw e

unless_found-some : (f : Hand → Hand) (h : Hand) (p : ℕ) → h.found ≡ some p → unless_found f h ≡ h
unless_found-some f h p e = rw e

-- a part of a loop, and then the rest of it
pub then-Outcome :
    (n m : ℕ → ℕ) (h h' : Hand) (f : Hand → Hand)
    → Outcome n h h'
    → (h'.found ≡ none → h'.index ≡ 0 → Outcome m h' (f h'))
    → Outcome (λ p. n p + m p) h (unless_found f h')
then-Outcome n m h h' f (inl a) g =
    subst (Outcome (λ p. n p + m p) h) (sym (unless_found-none f h' a.missing))
      (passed-Outcome n m h h' (f h') a (g a.missing a.at_zero))
then-Outcome n m h h' f (inr (p, b)) g =
    subst (Outcome (λ p. n p + m p) h) (sym (unless_found-some f h' p b.found))
      (stopped-Outcome n m h h' p b)

pages-Outcome :
    (ps : List ℕ) (h : Hand) (k : ℕ)
    → h.found ≡ none
    → h.index ≡ 0
    → Outcome (λ q. count q ps) h (clock_pages h ps k 0)
unfolding clock_pages
pages-Outcome [] h k e z = nothing-Outcome h e z
pages-Outcome (p ∷ ps) h k e z =
    then-Outcome (λ q. occurs q p) (λ q. count q ps) h
      (if leb h.index 0 then clock_replacer h p k 0 else h) (λ h'. clock_pages h' ps k 0)
      (subst (λ b. Outcome (λ q. occurs q p) h (if b then clock_replacer h p k 0 else h))
        (sym (ap (λ i. leb i 0) z)) (replacer-Outcome h p k e z))
      (pages-Outcome ps (if leb h.index 0 then clock_replacer h p k 0 else h) k)

-- The index is 0 before and after.
zero-Outcome :
    (n : ℕ → ℕ) (h h' : Hand)
    → Outcome n h h'
    → Outcome n h (if leb h'.index 0 then record h' { index = 0 } else h')
zero-Outcome n h h' (inl a) = rw (a.at_zero) (
    inl (record {
      missing = a.missing;
      at_zero = refl;
      same = a.same;
      clear = a.clear;
      seen = a.seen;
    }))
zero-Outcome n h h' (inr (p, b)) = rw (b.at_zero) (
    inr (
      p,
      record {
        found = b.found;
        at_zero = refl;
        same = b.same;
        counted = b.counted;
        in_memory = b.in_memory;
      },
    ))

pub iterator-Outcome :
    (ps : List ℕ) (h : Hand) (k : ℕ)
    → h.found ≡ none
    → h.index ≡ 0
    → Outcome (λ q. count q ps) h (clock_iterator h ps k 0)
unfolding clock_iterator
iterator-Outcome ps h k e z =
    zero-Outcome (λ q. count q ps) h (clock_pages h ps k 0) (pages-Outcome ps h k e z)
