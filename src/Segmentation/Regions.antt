-- ===== src/Segmentation/Regions.antt =====
-- The address ranges of segments, measured: how often an address is covered, how many bytes there
-- are, and how many segments do not lie in the memory. The three are measures, and what keeps every
-- measure keeps them.
use tp_2021_so_fin.Base.{
  ℕ, ◌+◌, ◌-◌, ◌≤◌, ◌≡◌, refl, sym, ◌∙◌, ◌&&◌, List, arith, ltb, leb, if◌then◌else◌, sum_by,
}
use tp_2021_so_fin.Commons.{Dictionary}
use tp_2021_so_fin.Segmentation.State.{Segment, Ram, hole}

-- 1 if the address lies in the segment, or else 0
abbrev pub inside : ℕ → Segment → ℕ
inside a s = if leb s.base_addr a && ltb a s.limit then 1 else 0

abbrev pub extent : Segment → ℕ
extent s = s.limit - s.base_addr

-- 0 if the segment is a range within the first `n` bytes, or else 1
abbrev pub defect : ℕ → Segment → ℕ
defect n s = if leb s.base_addr s.limit && leb s.limit n then 0 else 1

-- What splits along with a range.
pub record IsMeasure (n : ℕ) (f : Segment → ℕ) : Type 0 where
  pub splits :
      (s t u : Segment)
      → t.base_addr ≡ s.base_addr
      → u.base_addr ≡ t.limit
      → u.limit ≡ s.limit
      → s.base_addr ≤ t.limit
      → t.limit ≤ s.limit
      → s.limit ≤ n
      → f s ≡ f t + f u

pub inside-IsMeasure : (n a : ℕ) → IsMeasure n (inside a)
inside-IsMeasure n a = record { splits = λ s t u e₁ e₂ e₃ h₁ h₂ h₃. ground arith }

pub extent-IsMeasure : (n : ℕ) → IsMeasure n extent
extent-IsMeasure n = record { splits = λ s t u e₁ e₂ e₃ h₁ h₂ h₃. omega arith }

pub defect-IsMeasure : (n : ℕ) → IsMeasure n (defect n)
defect-IsMeasure n = record { splits = λ s t u e₁ e₂ e₃ h₁ h₂ h₃. ground arith }

module _ (n : ℕ) (f : Segment → ℕ) (m : IsMeasure n f) where
  pub measure-empty : (s : Segment) → s.base_addr ≡ s.limit → s.limit ≤ n → f s ≡ 0
  measure-empty s e h = omega (arith, m.splits s s s refl e refl (omega arith) (omega arith) h)

  -- A measure reads the bounds only.
  pub measure-bounds :
      (s t : Segment)
      → t.base_addr ≡ s.base_addr
      → t.limit ≡ s.limit
      → s.base_addr ≤ s.limit
      → s.limit ≤ n
      → f s ≡ f t
  measure-bounds s t e₁ e₂ h₁ h₂ = omega (
    arith,
    m.splits s t (hole s.limit s.limit) e₁ (sym e₂) refl (omega arith) (omega arith) h₂,
    measure-empty (hole s.limit s.limit) refl h₂,
  )

-- The sum over the free segments and over those of all tables.
abbrev pub table_weight : (ℕ → Segment) → (Segment → ℕ) → List ℕ → ℕ
table_weight heap f = sum_by (λ p. f (heap p))

abbrev pub tables_weight : (ℕ → Segment) → (Segment → ℕ) → Dictionary (List ℕ) → ℕ
tables_weight heap f = sum_by (λ e. table_weight heap f e.1)

abbrev pub weight : Ram → (Segment → ℕ) → ℕ
weight r f = sum_by f r.segmentos_libres + tables_weight r.heap f r.table_collection

-- Every byte of the memory belongs to exactly one segment, free or of a table; their sizes add up to
-- the memory's; and each is a range within it.
pub record IsTiled (n : ℕ) (w : (Segment → ℕ) → ℕ) : Type 0 where
  pub covers : (a : ℕ) → w (inside a) ≡ (if ltb a n then 1 else 0)
  pub total : w extent ≡ n
  pub sound : w (defect n) ≡ 0

-- What has the same measures is tiled too.
pub IsTiled-same :
    (n : ℕ) (v w : (Segment → ℕ) → ℕ)
    → IsTiled n v
    → ((f : Segment → ℕ) → IsMeasure n f → v f ≡ w f)
    → IsTiled n w
IsTiled-same n v w t h = record {
  covers = λ a. sym (h (inside a) (inside-IsMeasure n a)) ∙ t.covers a;
  total = sym (h extent (extent-IsMeasure n)) ∙ t.total;
  sound = sym (h (defect n) (defect-IsMeasure n)) ∙ t.sound;
}
