-- ===== src/Base/Bytes.antt =====
-- Blocks of bytes, as functions from the offset, and the reads and writes that the C code makes by
-- `memcpy` and `memset`. A `uint32_t` is stored low byte first.
use Prim.Native.Nat.{ℕ, ◌+◌, ◌-◌, ◌*◌, ◌/◌, ◌%◌, ◌≤◌, ◌<◌}
use mathlib.Core.Path.{◌≡◌}
use mathlib.Core.Logic.{◌⊎◌, inl, inr}
use mathlib.Core.Bool.{◌&&◌}
use native.Mathlib.Omega.{arith}
use tp_2021_so_fin.Base.Tests.{ltb, leb, ◌==◌, if◌then◌else◌}

abbrev pub Bytes : Type 0
Bytes = ℕ → ℕ

-- The number of values of a `uint32_t`.
abbrev pub u32 : ℕ
u32 = 4294967296

-- `memcpy(dst + d, src + s, n)`
unfoldable pub memcpy : Bytes → ℕ → Bytes → ℕ → ℕ → Bytes
memcpy dst d src s n a = if leb d a && ltb a (d + n) then src (s + (a - d)) else dst a

-- `memset(dst + d, v, n)`
unfoldable pub memset : Bytes → ℕ → ℕ → ℕ → Bytes
memset dst d v n a = if leb d a && ltb a (d + n) then v else dst a

-- `memcpy(dst + d, &v, sizeof(uint32_t))`
unfoldable pub put32 : Bytes → ℕ → ℕ → Bytes
put32 dst d v a =
    if a == d
    then v % 256
    else if a == d + 1
    then v / 256 % 256
    else if a == d + 2
    then v / 65536 % 256
    else if a == d + 3
    then v / 16777216 % 256
    else dst a

-- `memcpy(dst + d, &v, sizeof(char))`
unfoldable pub put8 : Bytes → ℕ → ℕ → Bytes
put8 dst d v a = if a == d then v % 256 else dst a

-- `memcpy(&v, src + s, sizeof(uint32_t))`
unfoldable pub get32 : Bytes → ℕ → ℕ
get32 src s = src s + 256 * src (s + 1) + 65536 * src (s + 2) + 16777216 * src (s + 3)

pub get32-put32 : (m : Bytes) (d v : ℕ) → v < u32 → get32 (put32 m d v) d ≡ v
unfolding get32 put32
get32-put32 m d v h = ground arith

-- A write leaves alone what lies outside of it.
pub put32-ne : (m : Bytes) (d v a : ℕ) → (a < d) ⊎ (d + 4 ≤ a) → put32 m d v a ≡ m a
unfolding put32
put32-ne m d v a h = ground arith

pub put8-ne : (m : Bytes) (d v a : ℕ) → (a < d) ⊎ (d + 1 ≤ a) → put8 m d v a ≡ m a
unfolding put8
put8-ne m d v a h = ground arith

pub memcpy-in :
    (dst : Bytes) (d : ℕ) (src : Bytes) (s n i : ℕ)
    → i < n
    → memcpy dst d src s n (d + i) ≡ src (s + (d + i - d))
unfolding memcpy
memcpy-in dst d src s n i h = ground arith

pub memcpy-ne :
    (dst : Bytes) (d : ℕ) (src : Bytes) (s n a : ℕ)
    → (a < d) ⊎ (d + n ≤ a)
    → memcpy dst d src s n a ≡ dst a
unfolding memcpy
memcpy-ne dst d src s n a h = ground arith

-- The four bytes that `put32` writes.
pub put32-bytes :
    (m : Bytes) (d v : ℕ)
    → (put32 m d v d ≡ v % 256)
      × (put32 m d v (d + 1) ≡ v / 256 % 256)
      × (put32 m d v (d + 2) ≡ v / 65536 % 256)
      × (put32 m d v (d + 3) ≡ v / 16777216 % 256)
unfolding put32
put32-bytes m d v = (ground arith, ground arith, ground arith, ground arith)

-- A number is read back past a write elsewhere.
pub get32-put32_ne :
    (m : Bytes) (d v a : ℕ) → (a + 4 ≤ d) ⊎ (d + 4 ≤ a) → get32 (put32 m d v) a ≡ get32 m a
unfolding get32
get32-put32_ne m d v a h = elim h [
  | inl p ↦ omega (
    arith,
    put32-ne m d v a (inl (omega arith)),
    put32-ne m d v (a + 1) (inl (omega arith)),
    put32-ne m d v (a + 2) (inl (omega arith)),
    put32-ne m d v (a + 3) (inl (omega arith)),
  )
  | inr p ↦ omega (
    arith,
    put32-ne m d v a (inr (omega arith)),
    put32-ne m d v (a + 1) (inr (omega arith)),
    put32-ne m d v (a + 2) (inr (omega arith)),
    put32-ne m d v (a + 3) (inr (omega arith)),
  )
]

pub get32-put8_ne :
    (m : Bytes) (d v a : ℕ) → (a + 4 ≤ d) ⊎ (d + 1 ≤ a) → get32 (put8 m d v) a ≡ get32 m a
unfolding get32
get32-put8_ne m d v a h = elim h [
  | inl p ↦ omega (
    arith,
    put8-ne m d v a (inl (omega arith)),
    put8-ne m d v (a + 1) (inl (omega arith)),
    put8-ne m d v (a + 2) (inl (omega arith)),
    put8-ne m d v (a + 3) (inl (omega arith)),
  )
  | inr p ↦ omega (
    arith,
    put8-ne m d v a (inr (omega arith)),
    put8-ne m d v (a + 1) (inr (omega arith)),
    put8-ne m d v (a + 2) (inr (omega arith)),
    put8-ne m d v (a + 3) (inr (omega arith)),
  )
]

pub memcpy-whole : (dst src : Bytes) (n a : ℕ) → a < n → memcpy dst 0 src 0 n a ≡ src a
unfolding memcpy
memcpy-whole dst src n a h = let e : 0 + (a - 0) ≡ a = omega arith in rw e (ground arith)
