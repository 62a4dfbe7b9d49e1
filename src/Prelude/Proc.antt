-- ===== src/Prelude/Proc.antt =====
-- Programs over a mutable state, which end in an outcome: the state of a run that fails is kept.
use usbd_storage.Prelude.Outcome.{Outcome, done, fail, panic, out_of_fuel}
use mathlib.Core.Bool.{Bool, true, false}
use mathlib.Core.Path.{◌≡◌, sym, subst}

abbrev pub Proc : Type 0 → Type 0 → Type 0 → Type 0
Proc S E A = S → Outcome E A × S

module _ {S E : Type 0} where
  infixl 5 ◌>>=◌ ◌>>◌
  abbrev pub ◌>>=◌ : {A B : Type 0} → Proc S E A → (A → Proc S E B) → Proc S E B
  ◌>>=◌ m f s =
      let (r, s') = m s in
      elim r [
        | done a ↦ f a s'
        | fail e ↦ (fail e, s')
        | panic ↦ (panic, s')
        | out_of_fuel ↦ (out_of_fuel, s')
      ]

  abbrev pub ◌>>◌ : {B : Type 0} → Proc S E (Unit {0}) → Proc S E B → Proc S E B
  m >> k = m >>= λ _. k

  abbrev pub pure : {A : Type 0} → A → Proc S E A
  pure a s = (done a, s)

  abbrev pub lift : {A : Type 0} → Outcome E A → Proc S E A
  lift m s = (m, s)

  abbrev pub get : Proc S E S
  get s = (done s, s)

  abbrev pub put : S → Proc S E (Unit {0})
  put s' s = (done tt, s')

  abbrev pub modify : (S → S) → Proc S E (Unit {0})
  modify f s = (done tt, f s)

  -- `if b { return Err(e) }`
  abbrev pub fail_if : Bool → E → Proc S E (Unit {0})
  fail_if true e s = (fail e, s)
  fail_if false e s = (done tt, s)

  -- What holds of a run: that it ends normally with `P`, or by an error with `Q`.
  abbrev pub Ensures : {A : Type 0} → Outcome E A × S → (A → S → Type 0) → (S → Type 0) → Type 0
  Ensures r P Q = elim r.0 [ done a ↦ P a r.1 | fail e ↦ Q r.1 | panic ↦ ⊥ | out_of_fuel ↦ ⊥ ]

-- `match m { Ok(a) => f(a), Err(_) => g }`
abbrev pub match_result :
    {S E E' A B : Type 0} → Proc S E A → (A → Proc S E' B) → Proc S E' B → Proc S E' B
match_result m f g s =
    let (r, s') = m s in
    elim r [
      | done a ↦ f a s'
      | fail e ↦ g s'
      | panic ↦ (panic, s')
      | out_of_fuel ↦ (out_of_fuel, s')
    ]

-- `r.unwrap_or(default)`, where the error is `Infallible`
abbrev pub unwrap_or : {E A : Type 0} → A → Outcome ⊥ A → Outcome E A
unwrap_or default (done a) = done a
unwrap_or default (fail e) = done default
unwrap_or default panic = panic
unwrap_or default out_of_fuel = out_of_fuel

-- What holds of a run holds of an equal one.
pub Ensures-run :
    {S E A : Type 0} {r : Outcome E A × S} (r' : Outcome E A × S) (P : A → S → Type 0)
    (Q : S → Type 0)
    → r ≡ r'
    → Ensures r' P Q
    → Ensures r P Q
Ensures-run r' P Q e h = subst (λ r. Ensures r P Q) (sym e) h
