-- ===== src/Lessons/EchoServer.antt =====
-- examples/00_basic_server.rs: one connection of the echo server.
use mathlib.Core.List.{append_assoc}
use pingora_guide.Base.{
  ℕ, zero, suc, ◌+◌, ◌≤◌, ◌<◌, ◌≡◌, refl, ap, sym, ◌∙◌, Bool, false, Option, none, some, List, [],
  ◌∷◌, ◌++◌, leb, length, if◌then◌else◌, arith, Bool-cases, Option-cases, inl, inr,
}
use pingora_guide.Base.{◌>>◌}
use pingora_guide.Lessons.Mains.Server.{
  Main, Outside, new_server, bootstrap, add_service, run_forever, listening, tcp,
}

module _ {ℓ} {A : Type ℓ} where
  abbrev take : ℕ → List A → List A
  take n [] = []
  take zero (x ∷ xs) = []
  take (suc n) (x ∷ xs) = x ∷ take n xs

  abbrev drop : ℕ → List A → List A
  drop n [] = []
  drop zero (x ∷ xs) = x ∷ xs
  drop (suc n) (x ∷ xs) = drop n xs

  take-drop : (n : ℕ) (xs : List A) → take n xs ++ drop n xs ≡ xs
  take-drop n [] = refl
  take-drop zero (x ∷ xs) = refl
  take-drop (suc n) (x ∷ xs) = ap (◌∷◌ x) (take-drop n xs)

  length-drop : (n : ℕ) (xs : List A) → length (drop n xs) ≤ length xs
  length-drop n [] = omega arith
  length-drop zero (x ∷ xs) = omega arith
  length-drop (suc n) (x ∷ xs) = omega (arith, length-drop n xs)

-- What a turn of the loop meets: the shutdown flag, the read (a failure, or how many bytes have arrived
-- after the first one), and the write (all bytes, or a failure after some of them) with its flush.
pub record Turn : Type 0 where
  pub shutdown : Bool
  pub read_fails : Bool
  pub arrived : ℕ
  pub written : Option ℕ
  pub flush_fails : Bool

abbrev pub read_size : Turn → ℕ
read_size turn = suc (if leb 1023 turn.arrived then 1023 else turn.arrived)

-- The bytes that `read` puts into the buffer of 1024.
abbrev pub read : Turn → List ℕ → List ℕ
read turn input = take (read_size turn) input

abbrev unread : Turn → List ℕ → List ℕ
unread turn input = drop (read_size turn) input

abbrev and_before : List ℕ → Option (List ℕ) → Option (List ℕ)
and_before bytes none = none
and_before bytes (some rest) = some (bytes ++ rest)

-- What the client is sent back, of the input that it sends before it closes its side.
unfoldable pub process_new : (ℕ → Turn) → ℕ → ℕ → List ℕ → Option (List ℕ)
process_new turns zero i input = none
process_new turns (suc fuel) i input =
    let turn = turns i in
    let rest = process_new turns fuel (i + 1) (unread turn input) in
    if turn.shutdown then some [] else if turn.read_fails then some [] else elim (read turn input) [
      | [] ↦ some []
      | b ∷ bs ↦ elim turn.written [
        | some k ↦ some (take k (b ∷ bs))
        | none ↦ if turn.flush_fails then some (b ∷ bs) else and_before (b ∷ bs) rest
      ]
    ]

pub record IsSmooth (turn : Turn) : Type 0 where
  pub no_shutdown : turn.shutdown ≡ false
  pub reads : turn.read_fails ≡ false
  pub writes : turn.written ≡ none
  pub flushes : turn.flush_fails ≡ false

-- The output is a beginning of the input, and all of it if no turn fails.
IsEchoed : (ℕ → Turn) → List ℕ → Option (List ℕ) → Type 0
IsEchoed turns input r =
    (out : List ℕ) × (rest : List ℕ) × (r ≡ some out)
    × (out ++ rest ≡ input)
    × (((i : ℕ) → IsSmooth (turns i)) → rest ≡ [])

echoed :
    (turns : ℕ → Turn) (fuel i : ℕ) (input : List ℕ)
    → length input < fuel
    → IsEchoed turns input (process_new turns fuel i input)
unfolding IsEchoed process_new
echoed turns zero i input enough = absurd (omega (arith, enough))
echoed turns (suc fuel) i [] enough = ([], [], ground arith, refl, λ h. refl)
echoed turns (suc fuel) i (b ∷ input) enough =
    let turn = turns i in
    let chunk = read turn (b ∷ input) in
    let left = unread turn (b ∷ input) in
    let whole : chunk ++ left ≡ b ∷ input = take-drop (read_size turn) (b ∷ input) in
    elim (Bool-cases turn.shutdown) [
      | inl asked ↦ (
        [],
        b ∷ input,
        ground (arith, asked),
        refl,
        λ h. absurd (ground (arith, (h i).no_shutdown)),
      )
      | inr up ↦ elim (Bool-cases turn.read_fails) [
        | inl failed ↦ (
          [],
          b ∷ input,
          ground (arith, up, failed),
          refl,
          λ h. absurd (ground (arith, (h i).reads)),
        )
        | inr came ↦ elim (Option-cases turn.written) [
          | inr (k, torn) ↦ (
            take k chunk,
            drop k chunk ++ left,
            ground (arith, up, came, torn),
            sym (append_assoc (take k chunk) (drop k chunk) left)
                ∙ ap (λ l. l ++ left) (take-drop k chunk)
                ∙ whole,
            λ h. absurd (ground (arith, (h i).writes)),
          )
          | inl sent ↦ elim (Bool-cases turn.flush_fails) [
            | inl failed ↦ (
              chunk,
              left,
              ground (arith, up, came, sent, failed),
              whole,
              λ h. absurd (ground (arith, (h i).flushes)),
            )
            | inr flushed ↦
                let (out, rest, ends, split, smooth) = echoed turns fuel (i + 1) left (
                  omega (
                    arith,
                    enough,
                    length-drop (if leb 1023 turn.arrived then 1023 else turn.arrived) input,
                  )) in
                (
                  chunk ++ out,
                  rest,
                  ground (arith, up, came, sent, flushed, ends),
                  append_assoc chunk out rest ∙ ap (λ l. chunk ++ l) split ∙ whole,
                  smooth,
                )
          ]
        ]
      ]
    ]

-- Whatever chunks the network delivers, the loop ends on every input, what it has sent back is a
-- beginning of that input, and it is the whole input if no read, write or flush fails and no shutdown is
-- requested.
pub process_new-echoes :
    (turns : ℕ → Turn) (input : List ℕ)
    → (out : List ℕ) × (rest : List ℕ) × (process_new turns (length input + 1) 0 input ≡ some out)
      × (out ++ rest ≡ input)
      × (((i : ℕ) → IsSmooth (turns i)) → rest ≡ [])
unfolding IsEchoed
process_new-echoes turns input = echoed turns (length input + 1) 0 input (omega arith)

-- `main`
unfoldable pub main : (O : Outside) → Main O (Unit {0})
main O = do
  new_server O
  bootstrap O
  add_service O (listening "Echo Service" (tcp "0.0.0.0:6142" ∷ []))
  run_forever O
