-- ===== src/Segmentation/Holes/Choice.antt =====
-- Which hole `memory_best_fit` and `memory_seek` choose, and what `mem_space` adds up.
use mathlib.Core.List.{Mem, mem-cons, mem-cons_self, mem-cons_of_mem, not-mem-nil}
use mathlib.Core.List.Perm
use mathlib.Core.Logic.Or
use native.Mathlib.Bridge.{le_prop}
use native.Mathlib.Nat.{le_refl}
use tp_2021_so_fin.Base.{
  ℕ, ◌+◌, ◌%◌, ◌≤◌, ◌<◌, ◌≡◌, false, List, [], ◌∷◌, some, arith, leb, sum_by, Perm, Bool-cases, inl,
  inr, subst,
}
use tp_2021_so_fin.Base.Bytes.{u32}
use tp_2021_so_fin.Commons.{Commons, All, IsSorted}
use tp_2021_so_fin.Segmentation.State.{Segment, size_of}
use tp_2021_so_fin.Segmentation.Regions.{extent, defect}
use tp_2021_so_fin.Segmentation.Holes.{
  sum_sizes, mem_space, take_hole, list_sorter, sort_by_addr, memory_best_fit, memory_seek,
}
use tp_2021_so_fin.Segmentation.Holes.Found.{defect-zero, size_of-eq}

-- The hole that is chosen: it stands at the address found, is large enough, and no large enough hole
-- comes before it in the order of `key`.
pub record IsFirst (key : Segment → ℕ) (k b : ℕ) (xs : List Segment) (h : Segment) : Type 0 where
  pub member : Mem h xs
  pub at_base : h.base_addr ≡ b
  pub enough : k ≤ size_of h
  pub first : (s : Segment) → Mem s xs → k ≤ size_of s → key h ≤ key s

All-mem :
    (key : Segment → ℕ) (n : ℕ) (xs : List Segment) (s : Segment)
    → All (λ y. n ≤ key y) xs
    → Mem s xs
    → n ≤ key s
All-mem key n [] s a m = absurd (not-mem-nil m)
All-mem key n (x ∷ xs) s a m =
    Or.elim le_prop (mem-cons.0 m) (λ e. rw e a.0) (All-mem key n xs s a.1)

take_hole-IsFirst :
    (key : Segment → ℕ) (k b : ℕ) (xs : List Segment)
    → IsSorted key xs
    → (take_hole k xs).0 ≡ some b
    → (h : Segment) × IsFirst key k b xs h
unfolding take_hole
take_hole-IsFirst key k b [] s e = cc
take_hole-IsFirst key k b (x ∷ xs) s e = elim (Bool-cases (leb k (size_of x))) [
  | inl fits ↦ (
    x,
    record {
      member = mem-cons_self;
      at_base = ground arith;
      enough = ground arith;
      first = λ t m _.
          Or.elim le_prop (mem-cons.0 m) (λ q. rw q (le_refl (key x)))
            (All-mem key (key x) xs t s.0);
    },
  )
  | inr small ↦
      let (h, f) = take_hole-IsFirst key k b xs s.1 (ground arith) in
      (
        h,
        record {
          member = mem-cons_of_mem x f.member;
          at_base = f.at_base;
          enough = f.enough;
          first = λ t m q.
              Or.elim le_prop (mem-cons.0 m) (λ e'. absurd (no_room x t e' small q))
                (λ m'. f.first t m' q);
        },
      )
]
  where
    no_room : (x t : Segment) → t ≡ x → leb k (size_of x) ≡ false → k ≤ size_of t → ⊥
    no_room x t e f q = let q' = subst (λ z. k ≤ size_of z) e q in ground arith

IsFirst-perm :
    (key : Segment → ℕ) (k b : ℕ) (xs ys : List Segment) (h : Segment)
    → Perm xs ys
    → IsFirst key k b xs h
    → IsFirst key k b ys h
IsFirst-perm key k b xs ys h p f = record {
  member = (Perm.mem_iff p).0 f.member;
  at_base = f.at_base;
  enough = f.enough;
  first = λ s m q. f.first s ((Perm.mem_iff p).1 m) q;
}

module _ (c : Commons) (k : ℕ) (libres : List Segment) where
  -- When `memory_best_fit` finds an address, it is that of a hole which is large enough, and every
  -- large enough hole is at least as large.
  pub memory_best_fit-IsFirst :
      (b : ℕ)
      → (memory_best_fit c k libres).0 ≡ some b
      → (h : Segment) × IsFirst size_of k b libres h
  unfolding memory_best_fit list_sorter
  memory_best_fit-IsFirst b e =
      let sorted =
        c.list_sort-IsSorted list_sorter size_of (λ x y q. ground arith) (λ x y q. ground arith)
          libres in
      let (h, f) = take_hole-IsFirst size_of k b (c.list_sort list_sorter libres) sorted e in
      (h, IsFirst-perm size_of k b _ libres h (c.list_sort-perm list_sorter libres) f)

  -- When `memory_seek` finds an address, it is that of a hole which is large enough, and every
  -- large enough hole stands at the same or a higher address.
  pub memory_seek-IsFirst :
      (b : ℕ)
      → (memory_seek c k libres).0 ≡ some b
      → (h : Segment) × IsFirst (λ s. s.base_addr) k b libres h
  unfolding memory_seek sort_by_addr
  memory_seek-IsFirst b e =
      let sorted =
        c.list_sort-IsSorted sort_by_addr (λ s. s.base_addr) (λ x y q. ground arith)
          (λ x y q. ground arith) libres in
      let (h, f) =
        take_hole-IsFirst (λ s. s.base_addr) k b (c.list_sort sort_by_addr libres) sorted e in
      (h, IsFirst-perm (λ s. s.base_addr) k b _ libres h (c.list_sort-perm sort_by_addr libres) f)

sum_sizes-extent :
    (n acc : ℕ) (xs : List Segment)
    → n < u32
    → sum_by (defect n) xs ≡ 0
    → acc + sum_by extent xs < u32
    → sum_sizes acc xs ≡ acc + sum_by extent xs
unfolding sum_sizes
sum_sizes-extent n acc [] h d lt = omega arith
sum_sizes-extent n acc (s ∷ ss) h d lt =
    let b = defect-zero n s (omega arith) in
    let e = size_of-eq s b.0 (omega arith) in
    rw e
      (omega (arith, sum_sizes-extent n ((acc + extent s) % u32) ss h (omega arith) (omega arith)))

-- `mem_space` says whether the free bytes, wherever they are, are as many as asked for; for free
-- segments that lie in a memory of less than 2^31 bytes, and do not add up to more than it.
pub mem_space-eq :
    (n k : ℕ) (libres : List Segment)
    → n < 2147483648
    → sum_by (defect n) libres ≡ 0
    → sum_by extent libres ≤ n
    → mem_space n k libres ≡ leb k (sum_by extent libres)
unfolding mem_space
mem_space-eq n k libres h d le =
    ground (arith, sum_sizes-extent n 0 libres (omega arith) d (omega arith))
