-- ===== src/Messages/Written.antt =====
-- What `_serialize` leaves in its block.
use tp_2021_so_fin.Base.{
  ℕ, suc, ◌+◌, ◌-◌, ◌≤◌, ◌<◌, ◌≡◌, refl, sym, true, leb, ◌==◌, subst, ◌∙◌, ap, inl, List, [], ◌∷◌,
  ◌++◌, some, arith, length, length-append, take, drop, ◌%◌,
}
use tp_2021_so_fin.Base.Counts.{count}
use tp_2021_so_fin.Store.Tasks.{same_text}
use tp_2021_so_fin.Base.Bytes.{
  Bytes, put32, put8, memcpy, put32-bytes, put32-ne, put8-ne, memcpy-ne, memcpy-in,
}
use tp_2021_so_fin.Base.Texts.{read, codes, bytes_of, read-append, read-same, read-bytes_of}
use tp_2021_so_fin.Messages.{
  Tipo, tipo_string, tipo_int, tipo_char, tipo_double, tipo_uint32, Argumento, string, int, char,
  double, uint32, get_type, escribir, verificar, escribir_todos, piezas, serialize, int_bytes,
  campo, payload_de,
}

-- The type of an argument, and its piece of the format.
abbrev pub tipo : Argumento → Tipo
tipo (string s) = tipo_string
tipo (int v) = tipo_int
tipo (char v) = tipo_char
tipo (double b) = tipo_double
tipo (uint32 v) = tipo_uint32

abbrev pub letra : Argumento → List ℕ
letra (string s) = codes "s"
letra (int v) = codes "d"
letra (char v) = codes "c"
letra (double b) = codes "f"
letra (uint32 v) = codes "u"

-- the bytes were written, and those before them are as they were
record IsWritten (xs : List ℕ) (s r : Bytes × ℕ) : Type 0 where
  end : r.1 ≡ s.1 + length xs
  content : read r.0 s.1 (length xs) ≡ xs
  below : (a : ℕ) → a < s.1 → r.0 a ≡ s.0 a

IsWritten-append :
    (xs ys : List ℕ) (s r q : Bytes × ℕ)
    → IsWritten xs s r
    → IsWritten ys r q
    → IsWritten (xs ++ ys) s q
IsWritten-append xs ys s r q w v = record {
  end = omega (arith, w.end, v.end, length-append xs ys);
  content = todo;
  below = λ a l. v.below a (omega (arith, w.end)) ∙ w.below a l;
}
  where
    antes : read q.0 s.1 (length xs) ≡ xs
    antes =
        read-same q.0 r.0 s.1 s.1 (length xs) (λ j l. v.below (s.1 + j) (omega (arith, w.end)))
        ∙ w.content

    despues : read q.0 (s.1 + length xs) (length ys) ≡ ys
    despues = subst (λ a. read q.0 a (length ys) ≡ ys) w.end v.content

    todo : read q.0 s.1 (length (xs ++ ys)) ≡ xs ++ ys
    todo =
        ap (read q.0 s.1) (length-append xs ys)
        ∙ read-append q.0 s.1 (length xs) (length ys)
        ∙ ap (λ zs. zs ++ read q.0 (s.1 + length xs) (length ys)) antes
        ∙ ap (λ zs. xs ++ zs) despues

int-IsWritten : (v : ℕ) (s : Bytes × ℕ) → IsWritten (int_bytes v) s (put32 s.0 s.1 v, s.1 + 4)
unfolding read
int-IsWritten v s =
    let (a, b, c, d) = put32-bytes s.0 s.1 v in
    let e : s.1 + 1 + 1 ≡ s.1 + 2 = omega arith in
    let f : s.1 + 2 + 1 ≡ s.1 + 3 = omega arith in
    record {
      end = refl;
      content = rw (e, f, a, b, c, d) refl;
      below = λ i l. put32-ne s.0 s.1 v i (inl l);
    }

copia-IsWritten :
    (b : Bytes) (xs : List ℕ) (s : Bytes × ℕ)
    → read b 0 (length xs) ≡ xs
    → IsWritten xs s (memcpy s.0 s.1 b 0 (length xs), s.1 + length xs)
copia-IsWritten b xs s h = record {
  end = refl;
  content = read-same (memcpy s.0 s.1 b 0 (length xs)) b s.1 0 (length xs) copiado ∙ h;
  below = λ a l. memcpy-ne s.0 s.1 b 0 (length xs) a (inl l);
}
  where
    copiado : (j : ℕ) → j < length xs → memcpy s.0 s.1 b 0 (length xs) (s.1 + j) ≡ b (0 + j)
    copiado j l =
        let e : s.1 + j - s.1 ≡ j = omega arith in
        memcpy-in s.0 s.1 b 0 (length xs) j l ∙ ap (λ i. b (0 + i)) e

char-IsWritten : (v : ℕ) (s : Bytes × ℕ) → IsWritten (v % 256 ∷ []) s (put8 s.0 s.1 v, s.1 + 1)
unfolding read put8
char-IsWritten v s = record {
  end = refl;
  content = ap (λ c. c ∷ []) (escrito s.0 s.1);
  below = λ a l. put8-ne s.0 s.1 v a (inl l);
}
  where
    escrito : (m : Bytes) (d : ℕ) → put8 m d v d ≡ v % 256
    escrito m d = ground arith

tomados : {A : Type 0} (ys : List A) → take (length ys) ys ≡ ys
tomados [] = refl
tomados (y ∷ ys) = ap (λ zs. y ∷ zs) (tomados ys)

whole : (xs : List ℕ) → read (bytes_of xs) 0 (length xs) ≡ xs
whole xs = read-bytes_of xs 0 (length xs) (omega arith) ∙ tomados xs

-- One round of the loop writes the bytes of its argument.
escribir-IsWritten :
    (a : Argumento) (s : Bytes × ℕ)
    → (r : Bytes × ℕ) × (escribir (tipo a) a s ≡ some r) × IsWritten (campo a) s r
unfolding escribir read
escribir-IsWritten (string xs) s = (
  _,
  refl,
  IsWritten-append (int_bytes (length xs)) xs s (put32 s.0 s.1 (length xs), s.1 + 4) _
      (int-IsWritten (length xs) s)
      (copia-IsWritten (bytes_of xs) xs (put32 s.0 s.1 (length xs), s.1 + 4) (whole xs)),
)
escribir-IsWritten (int v) s = (_, refl, int-IsWritten v s)
escribir-IsWritten (char v) s = (_, refl, char-IsWritten v s)
escribir-IsWritten (double b) s = (_, refl, copia-IsWritten b (read b 0 8) s refl)
escribir-IsWritten (uint32 v) s = (_, refl, int-IsWritten v s)

-- the types in the format that fits the arguments
abbrev pub letras : List Argumento → List (List ℕ)
letras [] = []
letras (a ∷ args) = letra a ∷ letras args

abbrev pub tipos : List Argumento → List Tipo
tipos [] = []
tipos (a ∷ args) = tipo a ∷ tipos args

get_type-letra : (a : Argumento) → get_type (letra a) ≡ some (tipo a)
unfolding get_type same_text
get_type-letra (string s) = refl
get_type-letra (int v) = refl
get_type-letra (char v) = refl
get_type-letra (double b) = refl
get_type-letra (uint32 v) = refl

verificar-letras : (args : List Argumento) → verificar (letras args) ≡ some (tipos args)
unfolding verificar
verificar-letras [] = refl
verificar-letras (a ∷ args) = rw (get_type-letra a, verificar-letras args) refl

escribir_todos-IsWritten :
    (args : List Argumento) (s : Bytes × ℕ)
    → (r : Bytes × ℕ) × (escribir_todos (tipos args) args s ≡ some r)
      × IsWritten (payload_de args) s r
unfolding escribir_todos payload_de
escribir_todos-IsWritten [] s =
    (s, refl, record { end = omega arith; content = refl; below = λ a l. refl })
escribir_todos-IsWritten (a ∷ args) s =
    let (r, e, w) = escribir-IsWritten a s in
    let (q, f, v) = escribir_todos-IsWritten args r in
    (q, rw e f, IsWritten-append (campo a) (payload_de args) s r q w v)

-- the format that fits the arguments: a letter for each, behind a `%`
abbrev pub formato : List Argumento → List ℕ
formato [] = []
formato (a ∷ args) = b'%' ∷ (letra a ++ formato args)

-- How many `%` there are.
cuenta-formato : (args : List Argumento) → count b'%' (formato args) ≡ length args
cuenta-formato [] = refl
cuenta-formato (string s ∷ args) = omega (arith, cuenta-formato args)
cuenta-formato (int v ∷ args) = omega (arith, cuenta-formato args)
cuenta-formato (char v ∷ args) = omega (arith, cuenta-formato args)
cuenta-formato (double b ∷ args) = omega (arith, cuenta-formato args)
cuenta-formato (uint32 v ∷ args) = omega (arith, cuenta-formato args)

length-letras : (args : List Argumento) → length (letras args) ≡ length args
length-letras [] = refl
length-letras (a ∷ args) = ap suc (length-letras args)

piezas-formato :
    (string_split : List ℕ → List ℕ → List (List ℕ))
    → ((args : List Argumento) → string_split (formato args) (codes "%") ≡ [] ∷ letras args)
    → (args : List Argumento) → piezas string_split (formato args) ≡ letras args
unfolding piezas
piezas-formato string_split split args =
    ap (λ ps. take (count b'%' (formato args)) (drop 1 ps)) (split args)
    ∙ ap (λ k. take k (letras args)) (cuenta-formato args ∙ sym (length-letras args))
    ∙ tomados (letras args)

-- `_serialize`, on the format that fits the arguments, of which there is at least one, and with a block
-- that is large enough, leaves their bytes at the start of the block, one argument behind the other:
-- an integer in four bytes, a string behind its length. `string_split` gives an empty piece for what
-- is before the first `%`, and then the letters.
pub serialize-read :
    (string_split : List ℕ → List ℕ → List (List ℕ))
    → ((args : List Argumento) → string_split (formato args) (codes "%") ≡ [] ∷ letras args)
    → (stream : Bytes) (tamanio : ℕ) (args : List Argumento) → 0 < length args
    → length (payload_de args) ≤ tamanio
    → (out : Bytes) × (serialize string_split stream tamanio (formato args) args ≡ some out)
      × (read out 0 (length (payload_de args)) ≡ payload_de args)
unfolding serialize
serialize-read string_split split stream tamanio [] some_args cabe = absurd (omega arith)
serialize-read string_split split stream tamanio (a ∷ args) some_args cabe =
    let (r, e, w) = escribir_todos-IsWritten (a ∷ args) (stream, 0) in
    let fin : leb r.1 tamanio ≡ true = ground (arith, w.end, cabe) in
    let l : (length (a ∷ args) == length (a ∷ args)) ≡ true = ground arith in
    (
      r.0,
      rw
          (
            serialize,
            piezas-formato string_split split (a ∷ args),
            length-letras (a ∷ args),
            cuenta-formato (a ∷ args),
            verificar-letras (a ∷ args),
            e,
            fin,
            l,
          )
          refl,
      w.content,
    )
