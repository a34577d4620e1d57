-- ===== src/Base/Options.antt =====
-- Chains of calls of which each may fail.
use mathlib.Core.Path.{◌≡◌, refl, subst}
use mathlib.Core.Bool.{Bool, true, false}
use mathlib.Core.Option.{Option, none, some, some-injective}
use tp_2021_so_fin.Base.Tests.{if◌then◌else◌}

infixl 5 ◌>>=◌
abbrev pub ◌>>=◌ {ℓ κ} : {A : Type ℓ} {B : Type κ} → Option A → (A → Option B) → Option B
none >>= f = none
some a >>= f = f a

-- A chain that returns has passed its first call.
pub bind-some {ℓ κ} :
    {A : Type ℓ} {B : Type κ} (o : Option A) (f : A → Option B) (b : B)
    → (o >>= f) ≡ some b
    → (a : A) × (o ≡ some a) × (f a ≡ some b)
bind-some none f b h = absurd cc
bind-some (some a) f b h = (a, refl, h)

-- What holds on both branches holds of the result.
pub if-holds {ℓ κ} :
    {A : Type ℓ} (P : A → Type κ) (t : Bool) (x y : A) → P x → P y → P (if t then x else y)
if-holds P true x y px py = px
if-holds P false x y px py = py

-- What holds of whatever is returned.
pub record Returns {ℓ κ} {A : Type ℓ} (P : A → Type κ) (o : Option A) : Type (ℓ ⊔ κ) where
  pub holds : (a : A) → o ≡ some a → P a

module _ {ℓ κ} {A : Type ℓ} {P : A → Type κ} where
  pub Returns-some : {a : A} → P a → Returns P (some a)
  Returns-some {a} p = record { holds = λ b e. subst P (some-injective a b e) p }

  pub Returns-none : Returns P none
  Returns-none = record { holds = λ b e. absurd cc }

  pub Returns-if :
      (t : Bool) {x y : Option A} → Returns P x → Returns P y → Returns P (if t then x else y)
  Returns-if t {x} {y} p q = if-holds (Returns P) t x y p q

  pub Returns-bind {μ} :
      {B : Type μ} (o : Option B) {f : B → Option A}
      → ((b : B) → o ≡ some b → Returns P (f b))
      → Returns P (o >>= f)
  Returns-bind none h = Returns-none
  Returns-bind (some b) h = h b refl

pub Returns-map {ℓ κ μ} :
    {A : Type ℓ} {P : A → Type κ} {Q : A → Type μ} {o : Option A}
    → ((a : A) → P a → Q a)
    → Returns P o
    → Returns Q o
Returns-map f r = record { holds = λ a e. f a (r.holds a e) }
