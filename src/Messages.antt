-- ===== src/Messages.antt =====
-- The library "unnamed": `_serialize` of unnamed/serialization.c, and the messages that
-- `_send_message` writes to a socket and `_receive_message` reads from one, in unnamed/socket.c. A
-- socket is the bytes that are under way; `send` and `recv` of the system are parameters. A result
-- of `none` is the NULL or the 0 of the code, or a fault.

pub mod Framed
pub mod Written
mod Tests
use tp_2021_so_fin.Base.{
  ℕ, ◌+◌, ◌*◌, ◌/◌, ◌%◌, Bool, false, ◌&&◌, List, [], ◌∷◌, ◌++◌, Option, none, some, leb, ◌==◌,
  if◌then◌else◌, length, take, drop,
}
use tp_2021_so_fin.Base.Counts.{count}
use tp_2021_so_fin.Base.Options.{◌>>=◌}
use tp_2021_so_fin.Base.Bytes.{Bytes, put32, put8, memcpy}
use tp_2021_so_fin.Base.Texts.{read, codes, bytes_of}
use tp_2021_so_fin.Store.Tasks.{same_text}

-- what `get_type` tells apart
pub data Tipo : Type 0 where
  tipo_string tipo_int tipo_char tipo_double tipo_uint32 : Tipo

-- An argument of `_serialize`: a string by its bytes, a double by its eight.
pub data Argumento : Type 0 where
  string : List ℕ → Argumento
  int : ℕ → Argumento
  char : ℕ → Argumento
  double : Bytes → Argumento
  uint32 : ℕ → Argumento

unfoldable pub get_type : List ℕ → Option Tipo
unfolding same_text
get_type type =
    if same_text type (codes "s")
    then some tipo_string
    else if same_text type (codes "d")
    then some tipo_int
    else if same_text type (codes "c")
    then some tipo_char
    else if same_text type (codes "f")
    then some tipo_double
    else if same_text type (codes "u")
    then some tipo_uint32
    else none

-- One round of the loop that writes: the stream, and the offset behind what was written. To read an
-- argument by another type than its own is not defined: `none`.
unfoldable pub escribir : Tipo → Argumento → Bytes × ℕ → Option (Bytes × ℕ)
unfolding put32 memcpy put8
escribir tipo_string (string s) (stream, offset) = some (
  memcpy (put32 stream offset (length s)) (offset + 4) (bytes_of s) 0 (length s),
  offset + 4 + length s,
)
escribir tipo_int (int value) (stream, offset) = some (put32 stream offset value, offset + 4)
escribir tipo_char (char value) (stream, offset) = some (put8 stream offset value, offset + 1)
escribir tipo_double (double value) (stream, offset) =
    some (memcpy stream offset value 0 8, offset + 8)
escribir tipo_uint32 (uint32 value) (stream, offset) = some (put32 stream offset value, offset + 4)
escribir _ _ _ = none

-- the first loop: every type of the format is known
unfoldable pub verificar : List (List ℕ) → Option (List Tipo)
unfolding get_type
verificar [] = some []
verificar (t ∷ types) = do tipo ← get_type t; tipos ← verificar types; some (tipo ∷ tipos)

-- the second loop
unfoldable pub escribir_todos : List Tipo → List Argumento → Bytes × ℕ → Option (Bytes × ℕ)
unfolding escribir
escribir_todos [] args s = some s
escribir_todos (t ∷ tipos) [] s = none
escribir_todos (t ∷ tipos) (a ∷ args) s = escribir t a s >>= escribir_todos tipos args

abbrev empieza : List ℕ → Bool
empieza [] = false
empieza (x ∷ xs) = x == b'%'

-- `_serialize`: `stream` is the fresh block of `malloc`, of `tamanio` bytes. A format that does not start
-- with `%` gives NULL, and one of a type that is not known does. A read past the pieces of
-- `string_split`, and a write past the block, are faults.
module _ (string_split : List ℕ → List ℕ → List (List ℕ)) where
  -- `types[1]` to `types[arg_c]`
  unfoldable pub piezas : List ℕ → List (List ℕ)
  piezas format = take (count b'%' format) (drop 1 (string_split format (codes "%")))

  unfoldable pub serialize : Bytes → ℕ → List ℕ → List Argumento → Option Bytes
  unfolding piezas verificar escribir_todos
  serialize stream tamanio format args =
      if empieza format && (length (piezas format) == count b'%' format)
      then (do
        tipos ← verificar (piezas format)
        (stream', offset) ← escribir_todos tipos args (stream, 0)
        if leb offset tamanio then some stream' else none)
      else none

-- the four bytes of an `int`
abbrev pub int_bytes : ℕ → List ℕ
int_bytes v = v % 256 ∷ v / 256 % 256 ∷ v / 65536 % 256 ∷ v / 16777216 % 256 ∷ []

-- the bytes of one argument
abbrev pub campo : Argumento → List ℕ
campo (string s) = int_bytes (length s) ++ s
campo (int v) = int_bytes v
campo (char v) = v % 256 ∷ []
campo (double b) = read b 0 8
campo (uint32 v) = int_bytes v

-- the bytes of a payload
unfoldable pub payload_de : List Argumento → List ℕ
unfolding read
payload_de [] = []
payload_de (a ∷ args) = campo a ++ payload_de args

-- `t_mensaje`; the length of the payload is its list's
pub record Mensaje : Type 0 where
  pub identifier : List ℕ
  pub command : ℕ
  pub payload : List ℕ

-- `send` is given the bytes that are under way and those that are to be sent; it says how many of
-- these it took, which the code does not look at, or `none` for an error.
module _ (send : List ℕ → List ℕ → Option ℕ) where
  unfoldable pub enviar_bytes : List ℕ → List ℕ → Option (List ℕ)
  enviar_bytes socket xs = send socket xs >>= λ n. some (socket ++ take n xs)

  -- `pay_len` is an `int`, which no longer payload has.
  unfoldable pub send_message : List ℕ → List ℕ → ℕ → List ℕ → Option (List ℕ)
  unfolding enviar_bytes
  send_message socket identifier command payload =
      if leb 2147483648 (length payload) then none else (do
        s₁ ← enviar_bytes socket identifier
        s₂ ← enviar_bytes s₁ (int_bytes command)
        s₃ ← enviar_bytes s₂ (int_bytes (length payload))
        enviar_bytes s₃ payload)

-- the number in four bytes
abbrev pub int_de : List ℕ → ℕ
int_de (a ∷ b ∷ c ∷ d ∷ []) = a + 256 * b + 65536 * c + 16777216 * d
int_de _ = 0

-- `recv` gives what it takes from the bytes that have arrived, and those that are left.
module _ (recv : ℕ → List ℕ → List ℕ × List ℕ) where
  -- After a short read a part of the variable was never set: `none`.
  unfoldable pub recibir : ℕ → List ℕ → Option (List ℕ × List ℕ)
  recibir n socket = if length (recv n socket).0 == n then some (recv n socket) else none

  -- What was received, and what the socket still holds. With the command 999 the payload gets a
  -- terminator behind its end. `pay_len` is an `int`: a negative one, which here is from 2 ^ 31 on, and
  -- one that overflows with the terminator, are faults.
  unfoldable pub receive_message : List ℕ → Option (Mensaje × List ℕ)
  unfolding recibir
  receive_message socket = do
    (identifier, s₁) ← recibir 3 socket
    (command, s₂) ← recibir 4 s₁
    (pay_len, s₃) ← recibir 4 s₂
    let es_999 = int_de command == 999
    (payload, s₄) ←
        if leb 2147483648 (int_de pay_len + (if es_999 then 1 else 0))
        then none
        else recibir (int_de pay_len) s₃
    some (
      record {
        identifier = identifier;
        command = int_de command;
        payload = if es_999 then payload ++ 0 ∷ [] else payload;
      },
      s₄,
    )
