-- ===== src/Messages/Framed.antt =====
-- A message is received as it was sent.
use tp_2021_so_fin.Base.Bytes.{u32}
use tp_2021_so_fin.Base.{
  ℕ, ◌+◌, ◌≤◌, ◌<◌, ◌≡◌, ◌≢◌, refl, sym, subst, ◌∙◌, ap, true, false, leb, List, [], ◌∷◌, ◌++◌,
  Option, some, arith, ◌==◌, length, length-append, take, drop,
}
use tp_2021_so_fin.Store.Saving.Blocks.{take-all}
use tp_2021_so_fin.Messages.{
  int_bytes, int_de, enviar_bytes, send_message, recibir, receive_message,
}

pub take-front : {A : Type 0} (xs ys : List A) → take (length xs) (xs ++ ys) ≡ xs
take-front [] ys = refl
take-front (x ∷ xs) ys = ap (λ zs. x ∷ zs) (take-front xs ys)

drop-front : {A : Type 0} (xs ys : List A) → drop (length xs) (xs ++ ys) ≡ ys
drop-front [] ys = refl
drop-front (x ∷ xs) ys = drop-front xs ys

pub append_assoc : {A : Type 0} (xs ys zs : List A) → xs ++ ys ++ zs ≡ xs ++ (ys ++ zs)
append_assoc [] ys zs = refl
append_assoc (x ∷ xs) ys zs = ap (λ ws. x ∷ ws) (append_assoc xs ys zs)

pub int_de-int_bytes : (v : ℕ) → v < u32 → int_de (int_bytes v) ≡ v
int_de-int_bytes v h = omega arith

-- `send` of a text for which the buffer of the socket, of `room` bytes, has room takes all of it, and
-- `recv` gives, of what has arrived, as many bytes as it is asked for.
module _ (send : List ℕ → List ℕ → Option ℕ) (recv : ℕ → List ℕ → List ℕ × List ℕ) (room : ℕ)
    (send-room : (s xs : List ℕ) → length s + length xs ≤ room → send s xs ≡ some (length xs))
    (recv-arrived : (n : ℕ) (s : List ℕ) → n ≤ length s → recv n s ≡ (take n s, drop n s)) where
  enviar-room : (s xs : List ℕ) → length (s ++ xs) ≤ room → enviar_bytes send s xs ≡ some (s ++ xs)
  unfolding enviar_bytes
  enviar-room s xs h =
      let e = send-room s xs (omega (arith, h, length-append s xs)) in
      rw (enviar_bytes, e, take-all (length xs) xs (omega arith)) refl

  -- what is received of the bytes that were sent first
  recibir-front :
      (xs ys : List ℕ) (n : ℕ) → length xs ≡ n → recibir recv n (xs ++ ys) ≡ some (xs, ys)
  unfolding recibir
  recibir-front xs ys n h = subst (λ m. recibir recv m (xs ++ ys) ≡ some (xs, ys)) h entero
    where
      dado : recv (length xs) (xs ++ ys) ≡ (xs, ys)
      dado =
          recv-arrived (length xs) (xs ++ ys) (omega (arith, length-append xs ys))
          ∙ ap (λ t. (t, drop (length xs) (xs ++ ys))) (take-front xs ys)
          ∙ ap (λ d. (xs, d)) (drop-front xs ys)

      entero : recibir recv (length xs) (xs ++ ys) ≡ some (xs, ys)
      entero = let l : (length xs == length xs) ≡ true = ground arith in rw (recibir, dado, l) refl

  enviado-lem :
      (socket identifier : List ℕ) (command : ℕ) (payload : List ℕ)
      → length payload < 2147483648
      → length (socket ++ identifier ++ int_bytes command ++ int_bytes (length payload) ++ payload)
        ≤ room
      → send_message send socket identifier command payload
        ≡ some (socket ++ identifier ++ int_bytes command ++ int_bytes (length payload) ++ payload)
  unfolding send_message
  enviado-lem socket identifier command payload l h =
      let b : leb 2147483648 (length payload) ≡ false = ground arith in
      let s₁ = socket ++ identifier in
      let s₂ = s₁ ++ int_bytes command in
      let s₃ = s₂ ++ int_bytes (length payload) in
      let l₃ = length-append s₃ payload in
      let l₂ = length-append s₂ (int_bytes (length payload)) in
      let l₁ = length-append s₁ (int_bytes command) in
      rw
        (
          b,
          enviar-room socket identifier (omega (arith, h, l₁, l₂, l₃)),
          enviar-room s₁ (int_bytes command) (omega (arith, h, l₂, l₃)),
          enviar-room s₂ (int_bytes (length payload)) (omega (arith, h, l₃)),
          enviar-room s₃ payload h,
        )
        refl

  recibido-lem :
      (identifier : List ℕ) (command : ℕ) (payload rest : List ℕ)
      → length identifier ≡ 3
      → command < u32
      → length payload < 2147483648
      → command ≢ 999
      → receive_message recv
          (identifier ++ (int_bytes command ++ (int_bytes (length payload) ++ (payload ++ rest))))
        ≡ some (record { identifier = identifier; command = command; payload = payload }, rest)
  unfolding receive_message
  recibido-lem identifier command payload rest h c l ne =
      rw
        (
          recibir-front identifier
              (int_bytes command ++ (int_bytes (length payload) ++ (payload ++ rest))) 3 h,
          recibir-front (int_bytes command) (int_bytes (length payload) ++ (payload ++ rest)) 4
              refl,
          recibir-front (int_bytes (length payload)) (payload ++ rest) 4 refl,
          int_de-int_bytes (length payload) (omega arith),
          int_de-int_bytes command c,
          distinto,
          corto,
          recibir-front payload rest (length payload) refl,
        )
        refl
    where
      distinto : (command == 999) ≡ false
      distinto = ground arith

      corto : leb 2147483648 (length payload + 0) ≡ false
      corto = ground arith

  -- What is sent is received, and the bytes behind it stay: with an identifier of three characters,
  -- a command of 32 bits other than 999, a payload of fewer than 2 ^ 31 bytes, a socket that has
  -- room for the message, and when all of it has arrived.
  pub receive-send :
      (identifier : List ℕ) (command : ℕ) (payload : List ℕ)
      → length identifier ≡ 3
      → command < u32
      → length payload < 2147483648
      → command ≢ 999
      → (bytes : List ℕ) × ((socket : List ℕ)
          → length (socket ++ bytes) ≤ room
          → send_message send socket identifier command payload ≡ some (socket ++ bytes))
        × ((rest : List ℕ)
            → receive_message recv (bytes ++ rest)
              ≡ some
                  (record { identifier = identifier; command = command; payload = payload }, rest))
  receive-send identifier command payload h c l ne = (
    identifier ++ (int_bytes command ++ (k ++ payload)),
    λ socket f.
        enviado-lem socket identifier command payload l
          (subst (λ xs. length xs ≤ room) (sym (junto socket)) f)
        ∙ ap some (junto socket),
    λ rest.
        ap (receive_message recv) (detras rest)
        ∙ recibido-lem identifier command payload rest h c l ne,
  )
    where
      k : List ℕ
      k = int_bytes (length payload)

      junto :
          (socket : List ℕ)
          → socket ++ identifier ++ int_bytes command ++ k ++ payload
            ≡ socket ++ (identifier ++ (int_bytes command ++ (k ++ payload)))
      junto socket =
          append_assoc (socket ++ identifier ++ int_bytes command) k payload
          ∙ append_assoc (socket ++ identifier) (int_bytes command) (k ++ payload)
          ∙ append_assoc socket identifier (int_bytes command ++ (k ++ payload))

      detras :
          (rest : List ℕ)
          → identifier ++ (int_bytes command ++ (k ++ payload)) ++ rest
            ≡ identifier ++ (int_bytes command ++ (k ++ (payload ++ rest)))
      detras rest = append_assoc identifier (int_bytes command ++ (k ++ payload)) rest
