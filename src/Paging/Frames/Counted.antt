-- ===== src/Paging/Frames/Counted.antt =====
-- `get_frame` and `check_free_frames` against the number of free frames.
use tp_2021_so_fin.Base.Counts.{clear_bits}
use tp_2021_so_fin.Base.{
  ℕ, zero, suc, ◌+◌, ◌≤◌, ◌<◌, ◌≡◌, refl, ap, sym, ◌∙◌, Bool, true, false, none, some, arith, leb,
  ◌==◌, if◌then◌else◌, Bool-cases, inl, inr, leb→lt,
}
use tp_2021_so_fin.Paging.State.{Paged}
use tp_2021_so_fin.Paging.Frames.{first_clear, count_free, check_free_frames}

-- the frames that are free, in the memory and on disk
abbrev pub free_frames : Paged → ℕ
free_frames r =
    clear_bits r.frames_memory r.bitmap 0 + clear_bits r.frames_virtual r.virtual_bitmap 0

-- What a loop of `check_free_frames` returns, from what it counts.
count_free-clear :
    (n : ℕ) (bits : ℕ → Bool) (i k c : ℕ)
    → c < k
    → count_free n bits i k c
      ≡ (if leb k (c + clear_bits n bits i) then none else some (c + clear_bits n bits i))
unfolding count_free
count_free-clear zero bits i k c h = ground arith
count_free-clear (suc n) bits i k c h = elim (Bool-cases (bits i)) [
  | inl used ↦ let ih = count_free-clear n bits (i + 1) k c h in ground arith
  | inr free ↦ elim (Bool-cases (leb k (c + 1))) [
    | inl enough ↦ ground arith
    | inr few ↦ let ih = count_free-clear n bits (i + 1) k (c + 1) (leb→lt _ _ few) in ground arith
  ]
]

-- For at least one frame, `check_free_frames` says whether as many frames are free, in the memory
-- and on disk together.
pub check_free_frames-eq :
    (r : Paged) (frames_count : ℕ)
    → 0 < frames_count
    → check_free_frames r frames_count ≡ leb frames_count (free_frames r)
unfolding check_free_frames
check_free_frames-eq r k h = elim (Bool-cases (leb k (0 + clear_bits r.frames_memory r.bitmap 0))) [
  | inl enough ↦ let e = count_free-clear r.frames_memory r.bitmap 0 k 0 h in ground arith
  | inr few ↦
      let e = count_free-clear r.frames_memory r.bitmap 0 k 0 h in
      let e' =
        count_free-clear r.frames_virtual r.virtual_bitmap 0 k
          (0 + clear_bits r.frames_memory r.bitmap 0) (leb→lt _ _ few) in
      ground arith
]

-- the first clear bit, where there is one
pub first_clear-some :
    (bits : ℕ → Bool) (n i f : ℕ)
    → first_clear bits n i ≡ some f
    → (i ≤ f) × (f < i + n) × (bits f ≡ false) × ((j : ℕ) → i ≤ j → j < f → bits j ≡ true)
unfolding first_clear
first_clear-some bits zero i f e = cc
first_clear-some bits (suc n) i f e = elim (Bool-cases (bits i)) [
  | inr free ↦
      let s : some i ≡ some f = rw (free, first_clear) at e in
      let q : i ≡ f = cc in
      (omega arith, omega arith, ap bits (sym q) ∙ free, λ j l m. absurd (omega arith))
  | inl used ↦
      let (a, b, d, g) = first_clear-some bits n (i + 1) f (rw (used, first_clear) at e) in
      (omega arith, omega arith, d, λ j l m. below used g j l m)
]
  where
    below :
        bits i ≡ true
        → ((j : ℕ) → i + 1 ≤ j → j < f → bits j ≡ true)
        → (j : ℕ) → i ≤ j
        → j < f
        → bits j ≡ true
    below used g j l m = elim (Bool-cases (j == i)) [
      | inl same ↦ let q : j ≡ i = ground arith in ap bits q ∙ used
      | inr other ↦ g j (ground arith) m
    ]

pub first_clear-none :
    (bits : ℕ → Bool) (n i : ℕ) → clear_bits n bits i ≡ 0 → first_clear bits n i ≡ none
unfolding first_clear
first_clear-none bits zero i z = refl
first_clear-none bits (suc n) i z = elim (Bool-cases (bits i)) [
  | inl used ↦ rw (used, first_clear) (first_clear-none bits n (i + 1) (ground arith))
  | inr free ↦ absurd (ground arith)
]

pub none-clear_bits :
    (bits : ℕ → Bool) (n i : ℕ) → first_clear bits n i ≡ none → clear_bits n bits i ≡ 0
unfolding first_clear
none-clear_bits bits zero i e = refl
none-clear_bits bits (suc n) i e = elim (Bool-cases (bits i)) [
  | inl used ↦ let ih = none-clear_bits bits n (i + 1) (rw (used, first_clear) at e) in ground arith
  | inr free ↦ let s : some i ≡ none = rw (free, first_clear) at e in cc
]
