-- ===== src/Segmentation/Tasks/Bars.antt =====
-- `get_next_task` and the bars of the text.
use tp_2021_so_fin.Base.Texts.{length-read, drop-read, read}
use native.Mathlib.Nat.{zero-add}
use tp_2021_so_fin.Base.{
  ℕ, ◌+◌, ◌-◌, ◌<◌, ◌≡◌, refl, ap, List, [], ◌∷◌, ◌++◌, none, some, arith, leb, ◌==◌, if◌then◌else◌,
  sum_by, Bool-cases, inl, inr, length, take,
}
use tp_2021_so_fin.Base.Bytes.{Bytes}
use tp_2021_so_fin.Segmentation.Tasks.{count_letters, get_next_task}

-- the text up to its first bar
abbrev pub until_bar : List ℕ → List ℕ
until_bar [] = []
until_bar (c ∷ cs) = if c == b'|' then [] else c ∷ until_bar cs

-- how many bytes of a text have a value
abbrev pub tally : ℕ → List ℕ → ℕ
tally v = sum_by (λ c. if c == v then 1 else 0)

count_letters-until_bar :
    (xs : List ℕ) (room leidas : ℕ)
    → tally b'\n' xs ≡ 0
    → leidas + length xs ≡ room
    → count_letters room leidas (xs ++ 0 ∷ []) ≡ some (leidas + length (until_bar xs))
unfolding count_letters
count_letters-until_bar [] room leidas z e = ground arith
count_letters-until_bar (c ∷ cs) room leidas z e =
    let ih = count_letters-until_bar cs room (leidas + 1) (ground arith) (omega arith) in
    ground arith

take-until_bar : (xs ys : List ℕ) → take (length (until_bar xs)) (xs ++ ys) ≡ until_bar xs
take-until_bar [] ys = refl
take-until_bar (c ∷ cs) ys = elim (Bool-cases (c == b'|')) [
  | inl bar ↦ rw bar
  | inr other ↦ rw (other, take-until_bar cs ys)
]

-- The text that is left, from `start_address` on.
abbrev pub rest_of : Bytes → ℕ → ℕ → ℕ → List ℕ
rest_of memory start limit task_start =
    read memory (task_start + start) (limit - task_start - start)

-- Where the text that is left has no newline, `get_next_task` does not read past its copy: it
-- returns NULL if no text is left, and otherwise the bytes up to the first bar or the end.
pub get_next_task-until_bar :
    (memory : Bytes) (start limit task_start : ℕ)
    → tally b'\n' (rest_of memory start limit task_start) ≡ 0
    → get_next_task memory start limit task_start
      ≡ some (
          if leb limit (start + task_start)
          then none
          else some (until_bar (rest_of memory start limit task_start)))
unfolding get_next_task
get_next_task-until_bar memory start limit task_start z =
    elim (Bool-cases (leb limit (start + task_start))) [
      | inl over ↦ rw over
      | inr more ↦
          let xs = rest_of memory start limit task_start in
          let lt : start + task_start < limit = ground arith in
          rw
            (
              more,
              drop-read memory start task_start (limit - task_start) (0 ∷ []) (omega arith),
              count_letters-until_bar xs (limit - task_start - start) 0 z (
                  omega
                    (arith, length-read memory (task_start + start) (limit - task_start - start))),
            )
            (rw zero-add (ap (λ x. some (some x)) (take-until_bar xs (0 ∷ []))))
    ]
