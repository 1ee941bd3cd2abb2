-- ===== src/Base/Outcomes.antt =====
-- Fallible and stateful code. `err` is a Rust `Err`, `panic` an unwinding panic; the state that a
-- call has written stays written on every outcome.
use Prim.Native.String.{String}
use mathlib.Core.Path.{◌≡◌, refl}
use mathlib.Core.Logic.{◌≢◌, ◌⊎◌, inl, inr}
use mathlib.Core.Bool.{Bool, true, false}
use mathlib.Core.Option.{Option, none, some}

pub data Outcome (E A : Type 0) : Type 0 where
  ok : A → Outcome E A
  err : E → Outcome E A
  panic : String → Outcome E A

-- Code that mutates `S`, fails with `E` and returns `A`.
abbrev pub Act : Type 0 → Type 0 → Type 0 → Type 0
Act S E A = S → Outcome E A × S

module _ {S E : Type 0} where
  abbrev pub pure : {A : Type 0} → A → Act S E A
  pure a s = (ok a, s)

  abbrev pub throw : {A : Type 0} → E → Act S E A
  throw e s = (err e, s)

  abbrev pub gets : {A : Type 0} → (S → A) → Act S E A
  gets f s = (ok (f s), s)

  -- `Option::expect`
  abbrev pub expect : {A : Type 0} → Option A → String → Act S E A
  expect none message s = (panic message, s)
  expect (some a) message s = (ok a, s)

  infixl 5 ◌>>=◌ ◌>>◌
  abbrev pub ◌>>=◌ : {A B : Type 0} → Act S E A → (A → Act S E B) → Act S E B
  ◌>>=◌ m f s =
      let (r, s') = m s in
      elim r [ ok a ↦ f a s' | err e ↦ (err e, s') | panic message ↦ (panic message, s') ]

  abbrev pub ◌>>◌ : {A B : Type 0} → Act S E A → Act S E B → Act S E B
  m >> k = m >>= λ _. k

-- `?` where the error is converted by `From`, and `map_err`.
abbrev pub map_err : {S E F A : Type 0} → (E → F) → Act S E A → Act S F A
map_err f m s =
    let (r, s') = m s in
    elim r [ ok a ↦ (ok a, s') | err e ↦ (err (f e), s') | panic message ↦ (panic message, s') ]

-- `unwrap_or`, and `let _ = …` on a `Result`: an error is dropped, a panic is not.
abbrev pub unwrap_or_else : {S E F A : Type 0} → A → Act S E A → Act S F A
unwrap_or_else d m s =
    let (r, s') = m s in
    elim r [ ok a ↦ (ok a, s') | err e ↦ (ok d, s') | panic message ↦ (panic message, s') ]

abbrev pub modify : {S E : Type 0} → (S → S) → Act S E (Unit {0})
modify f s = (ok tt, f s)

-- A `Result` of a call that changes nothing; its error is converted on the way.
abbrev pub lift : {S E F A : Type 0} → (E → F) → Outcome E A → Act S F A
lift f (ok a) s = (ok a, s)
lift f (err e) s = (err (f e), s)
lift f (panic message) s = (panic message, s)

pub returned-cases :
    {E S : Type 0} (x : Outcome E (Unit {0}) × S) → ((s : S) × (x ≡ (ok tt, s))) ⊎ (x.0 ≢ ok tt)
returned-cases (ok tt, s) = inl (s, refl)
returned-cases (err e, s) = inr (λ h. cc)
returned-cases (panic message, s) = inr (λ h. cc)

abbrev pub succeeded : {E A : Type 0} → Outcome E A → Bool
succeeded (ok a) = true
succeeded (err e) = false
succeeded (panic message) = false

pub ok-cases : {E A : Type 0} (x : Outcome E A) → ((a : A) × (x ≡ ok a)) ⊎ (succeeded x ≡ false)
ok-cases (ok a) = inl (a, refl)
ok-cases (err e) = inr refl
ok-cases (panic message) = inr refl

-- A call returned, failed or panicked.
pub outcome-cases :
    {E A : Type 0} (x : Outcome E A)
    → ((a : A) × (x ≡ ok a)) ⊎ (((e : E) × (x ≡ err e)) ⊎ ((m : String) × (x ≡ panic m)))
outcome-cases (ok a) = inl (a, refl)
outcome-cases (err e) = inr (inl (e, refl))
outcome-cases (panic m) = inr (inr (m, refl))

pub made-cases :
    {E S A : Type 0} (x : Outcome E A × S)
    → ((p : A × S) × (x ≡ (ok p.0, p.1))) ⊎ (succeeded x.0 ≡ false)
made-cases (ok a, s) = inl ((a, s), refl)
made-cases (err e, s) = inr refl
made-cases (panic message, s) = inr refl
