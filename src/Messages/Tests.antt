-- ===== src/Messages/Tests.antt =====
-- The theorems on messages, applied to a message of the Discordiador.
use tp_2021_so_fin.Base.{
  ℕ, ◌+◌, ◌-◌, ◌≤◌, true, leb, ◌==◌, if◌then◌else◌, ◌≡◌, ◌≢◌, refl, List, [], ◌∷◌, ◌++◌, Option,
  some, arith, length, take, drop,
}
use tp_2021_so_fin.Base.Bytes.{Bytes}
use tp_2021_so_fin.Base.Texts.{read, codes}
use tp_2021_so_fin.Messages.{
  Argumento, string, int, char, double, uint32, payload_de, serialize, send_message,
  receive_message,
}
use tp_2021_so_fin.Messages.Framed.{receive-send}
use tp_2021_so_fin.Messages.Written.{formato, letras, serialize-read}

-- a socket that takes what there is room for, of 100 bytes, and gives what it is asked for
abbrev send_100 : List ℕ → List ℕ → Option ℕ
send_100 s xs = some (if leb (length s + length xs) 100 then length xs else 100 - length s)

send_100-room : (s xs : List ℕ) → length s + length xs ≤ 100 → send_100 s xs ≡ some (length xs)
send_100-room s xs h = let e : leb (length s + length xs) 100 ≡ true = ground arith in rw e refl

abbrev recv_all : ℕ → List ℕ → List ℕ × List ℕ
recv_all n s = (take n s, drop n s)

abbrev estado : List Argumento
estado = int 1 ∷ int 300 ∷ char b'E' ∷ string (codes "REGAR") ∷ []

cabe : length (payload_de estado) ≤ 18
unfolding payload_de
cabe = omega arith

distinto : ◌≢◌ {A = ℕ} 501 999
distinto e = absurd (omega (arith, e))

receive-send_example :
    (bytes : List ℕ) × ((socket : List ℕ)
      → length (socket ++ bytes) ≤ 100
      → send_message send_100 socket (codes "DIS") 501 (5 ∷ 6 ∷ []) ≡ some (socket ++ bytes))
    × ((rest : List ℕ)
        → receive_message recv_all (bytes ++ rest)
          ≡ some (record { identifier = codes "DIS"; command = 501; payload = 5 ∷ 6 ∷ [] }, rest))
receive-send_example =
    receive-send send_100 recv_all 100 send_100-room (λ n s h. refl) (codes "DIS") 501 (5 ∷ 6 ∷ [])
      refl (omega arith) (omega arith) distinto

-- the pieces of a text between its `%`
abbrev agregar : ℕ → List (List ℕ) → List (List ℕ)
agregar x [] = (x ∷ []) ∷ []
agregar x (p ∷ ps) = (x ∷ p) ∷ ps

abbrev partir : List ℕ → List (List ℕ)
partir [] = [] ∷ []
partir (x ∷ xs) = let ps = partir xs in if x == b'%' then [] ∷ ps else agregar x ps

partir-formato : (args : List Argumento) → partir (formato args) ≡ [] ∷ letras args
partir-formato [] = refl
partir-formato (string s ∷ args) = rw (partir-formato args) refl
partir-formato (int v ∷ args) = rw (partir-formato args) refl
partir-formato (char v ∷ args) = rw (partir-formato args) refl
partir-formato (double b ∷ args) = rw (partir-formato args) refl
partir-formato (uint32 v ∷ args) = rw (partir-formato args) refl

abbrev split : List ℕ → List ℕ → List (List ℕ)
split texto separador = partir texto

serialize-read_example :
    (out : Bytes) × (serialize split (λ a. 0) 18 (formato estado) estado ≡ some out)
    × (read out 0 (length (payload_de estado)) ≡ payload_de estado)
serialize-read_example = serialize-read split partir-formato (λ a. 0) 18 estado (omega arith) cabe

-- The bytes of a message, as `_serialize` writes them.
estado_bytes :
    payload_de estado ≡ 1 ∷ 0 ∷ 0 ∷ 0 ∷ 44 ∷ 1 ∷ 0 ∷ 0 ∷ 69 ∷ 5 ∷ 0 ∷ 0 ∷ 0 ∷ codes "REGAR"
unfolding payload_de
estado_bytes = refl
