-- ===== src/Base/Counts.antt =====
-- How often a number stands in a list, and how many bits of a map are clear.
use Prim.Native.Nat.{ℕ, zero, suc, ◌+◌, ◌≤◌}
use mathlib.Core.Path.{◌≡◌, refl, ap}
use mathlib.Core.Bool.{Bool}
use mathlib.Core.List.{List, ◌∷◌}
use native.Mathlib.Omega.{arith}
use tp_2021_so_fin.Base.Tests.{◌==◌, if◌then◌else◌}
use tp_2021_so_fin.Base.Lists.{sum_by}

-- how often a number stands in a list
abbrev pub occurs : ℕ → ℕ → ℕ
occurs p q = if q == p then 1 else 0

abbrev pub count : ℕ → List ℕ → ℕ
count p = sum_by (occurs p)

abbrev pub IsDistinct : List ℕ → Type 0
IsDistinct ps = (p : ℕ) → count p ps ≤ 1

pub IsDistinct-head : (p : ℕ) (ps : List ℕ) → IsDistinct (p ∷ ps) → count p ps ≡ 0
IsDistinct-head p ps d = let h = d p in ground arith

pub IsDistinct-tail : (p : ℕ) (ps : List ℕ) → IsDistinct (p ∷ ps) → IsDistinct ps
IsDistinct-tail p ps d q = let h = d q in omega arith

-- the number of clear bits among `n`, from the i-th on
abbrev pub clear_bits : ℕ → (ℕ → Bool) → ℕ → ℕ
clear_bits zero bits i = 0
clear_bits (suc n) bits i = (if bits i then 0 else 1) + clear_bits n bits (i + 1)

pub clear_bits-same :
    (n : ℕ) (bits bits' : ℕ → Bool) (i : ℕ)
    → ((j : ℕ) → i ≤ j → bits j ≡ bits' j)
    → clear_bits n bits i ≡ clear_bits n bits' i
clear_bits-same zero bits bits' i h = refl
clear_bits-same (suc n) bits bits' i h = rw (h i (omega arith)) (
    ap (λ k. (if bits' i then 0 else 1) + k)
      (clear_bits-same n bits bits' (i + 1) (λ j l. h j (omega arith))))
