-- ===== src/Base/Texts.antt =====
-- Texts in blocks of bytes.
use Prim.Native.Char.{code}
use Prim.Native.String.{String}
use Prim.Native.Nat.{◌<◌, ℕ, zero, suc, ◌+◌, ◌-◌, ◌≤◌}
use mathlib.Core.Path.{◌≡◌, refl, ap, ◌∙◌}
use mathlib.Core.List.{List, [], ◌∷◌, ◌++◌}
use native.Mathlib.Nat.{add-zero}
use native.Mathlib.Omega.{arith}
use tp_2021_so_fin.Base.Tests.{◌==◌, if◌then◌else◌}
use tp_2021_so_fin.Base.Lists.{length, take, drop}
use tp_2021_so_fin.Base.Bytes.{Bytes, memcpy, memcpy-in}

-- the bytes of a literal of ASCII characters
abbrev pub codes : String → List ℕ
codes String.[] = []
codes (String.◌∷◌ c s) = code c ∷ codes s

-- the bytes of a block
unfoldable pub read : Bytes → ℕ → ℕ → List ℕ
read memory start zero = []
read memory start (suc n) = memory start ∷ read memory (start + 1) n

-- A C string up to its terminator: `strlen` counts these.
unfoldable pub until_nul : List ℕ → List ℕ
until_nul [] = []
until_nul (c ∷ cs) = if c == 0 then [] else c ∷ until_nul cs

-- A C string, as a block: its bytes and then its terminator.
abbrev pub bytes_of : List ℕ → Bytes
bytes_of [] a = 0
bytes_of (x ∷ xs) zero = x
bytes_of (x ∷ xs) (suc a) = bytes_of xs a

pub length-read : (m : Bytes) (a n : ℕ) → length (read m a n) ≡ n
unfolding read
length-read m a zero = refl
length-read m a (suc n) = ap suc (length-read m (a + 1) n)

pub drop-read :
    (m : Bytes) (k a n : ℕ) (ys : List ℕ)
    → k ≤ n
    → drop k (read m a n ++ ys) ≡ read m (a + k) (n - k) ++ ys
unfolding read
drop-read m zero a n ys h = let e : n - 0 ≡ n = omega arith in rw (add-zero, e)
drop-read m (suc k) a zero ys h = absurd (omega arith)
drop-read m (suc k) a (suc n) ys h =
    let e : a + suc k ≡ a + 1 + k = omega arith in
    let d : suc n - suc k ≡ n - k = omega arith in
    rw (e, d) (drop-read m k (a + 1) n ys (omega arith))

-- What two blocks have alike is read alike.
pub read-same :
    (m m' : Bytes) (a a' n : ℕ)
    → ((j : ℕ) → j < n → m (a + j) ≡ m' (a' + j))
    → read m a n ≡ read m' a' n
unfolding read
read-same m m' a a' zero h = refl
read-same m m' a a' (suc n) h =
    let e : m a ≡ m' a' = (rw (add-zero, add-zero) at (h 0 (omega arith))) in
    rw e (ap (λ xs. m' a' ∷ xs) (read-same m m' (a + 1) (a' + 1) n next))
  where
    next : (j : ℕ) → j < n → m (a + 1 + j) ≡ m' (a' + 1 + j)
    next j l =
        let e : a + suc j ≡ a + 1 + j = omega arith in
        let e' : a' + suc j ≡ a' + 1 + j = omega arith in (rw (e, e') at (h (suc j) (omega arith)))

pub read-append : (m : Bytes) (a n k : ℕ) → read m a (n + k) ≡ read m a n ++ read m (a + n) k
unfolding read
read-append m a zero k =
    let e : 0 + k ≡ k = omega arith in let e' : a + 0 ≡ a = omega arith in rw (e, e')
read-append m a (suc n) k =
    let e : a + suc n ≡ a + 1 + n = omega arith in
    let e' : suc n + k ≡ suc (n + k) = omega arith in
    rw (e, e') (ap (λ xs. m a ∷ xs) (read-append m (a + 1) n k))

behind : (x : ℕ) (xs : List ℕ) (a j : ℕ) → bytes_of (x ∷ xs) (suc a + j) ≡ bytes_of xs (a + j)
behind x xs a j = let e : suc a + j ≡ suc (a + j) = omega arith in rw e refl

pub read-bytes_of :
    (xs : List ℕ) (off n : ℕ)
    → off + n ≤ length xs
    → read (bytes_of xs) off n ≡ take n (drop off xs)
unfolding read
read-bytes_of xs off zero h = refl
read-bytes_of [] off (suc n) h = absurd (omega arith)
read-bytes_of (x ∷ xs) zero (suc n) h =
    ap (λ ys. x ∷ ys)
      (read-same (bytes_of (x ∷ xs)) (bytes_of xs) 1 0 n (λ j l. behind x xs 0 j)
        ∙ read-bytes_of xs zero n (omega arith))
read-bytes_of (x ∷ xs) (suc off) (suc n) h =
    read-same (bytes_of (x ∷ xs)) (bytes_of xs) (suc off) off (suc n) (λ j l. behind x xs off j)
    ∙ read-bytes_of xs off (suc n) (omega arith)

-- What was copied from a text is read back.
pub read-memcpy :
    (dst : Bytes) (d : ℕ) (xs : List ℕ) (off n : ℕ)
    → off + n ≤ length xs
    → read (memcpy dst d (bytes_of xs) off n) d n ≡ take n (drop off xs)
read-memcpy dst d xs off n h =
    read-same (memcpy dst d (bytes_of xs) off n) (bytes_of xs) d off n copied
    ∙ read-bytes_of xs off n h
  where
    copied : (j : ℕ) → j < n → memcpy dst d (bytes_of xs) off n (d + j) ≡ bytes_of xs (off + j)
    copied j l =
        let e : d + j - d ≡ j = omega arith in
        memcpy-in dst d (bytes_of xs) off n j l ∙ ap (λ k. bytes_of xs (off + k)) e
