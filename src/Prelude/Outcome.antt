-- ===== src/Prelude/Outcome.antt =====
-- What a run of the code comes to, and programs over a state that end so.
use usbd_storage.Prelude.Tests.{leb, if◌then◌else◌}
use usbd_storage.Prelude.Lists.{length, get_elem?, get_or, take, drop}
use Prim.Native.Nat.{ℕ, zero, suc, ◌-◌, ◌+◌, ◌<◌}
use mathlib.Core.Path.{◌≡◌, refl, sym, ap, subst}
use native.Mathlib.Omega.{arith}
use mathlib.Core.Bool.{Bool, true, false, ◌&&◌}
use mathlib.Core.Option.{Option, none, some}
use mathlib.Core.List.{List, [], ◌∷◌, ◌++◌}

-- `Result`, as the functions of the USB stack return it.
pub data Result (E A : Type 0) : Type 0 where
  ok : A → Result E A
  err : E → Result E A

-- `fail` is a returned `Err`; `panic` is a failed assertion, a slice or an index out of range, or an
-- overflow; `out_of_fuel` is a call chain that is deeper than the model follows.
pub data Outcome (E A : Type 0) : Type 0 where
  done : A → Outcome E A
  fail : E → Outcome E A
  panic : Outcome E A
  out_of_fuel : Outcome E A

module _ {E : Type 0} where
  infixl 5 ◌>>=◌ ◌>>◌
  abbrev pub ◌>>=◌ : {A B : Type 0} → Outcome E A → (A → Outcome E B) → Outcome E B
  done a >>= f = f a
  fail e >>= f = fail e
  panic >>= f = panic
  out_of_fuel >>= f = out_of_fuel

  abbrev pub ◌>>◌ : {B : Type 0} → Outcome E (Unit {0}) → Outcome E B → Outcome E B
  m >> k = m >>= λ _. k

  -- `assert!`
  abbrev pub assert : Bool → Outcome E (Unit {0})
  assert true = done tt
  assert false = panic

  -- `a - b` on an unsigned type: an overflow panics.
  unfoldable pub sub : ℕ → ℕ → Outcome E ℕ
  sub a b = if leb b a then done (a - b) else panic

  abbrev pub or_panic : {A : Type 0} → Option A → Outcome E A
  or_panic none = panic
  or_panic (some a) = done a

  -- `xs[i]`
  unfoldable pub index : List ℕ → ℕ → Outcome E ℕ
  index xs i = or_panic (get_elem? xs i)

  -- `xs[start..end]`
  unfoldable pub slice : List ℕ → ℕ → ℕ → Outcome E (List ℕ)
  slice xs start end =
      if leb start end && leb end (length xs)
      then done (take (end - start) (drop start xs))
      else panic

-- `xs[start..start + length ys]` replaced by `ys`
abbrev pub splice : List ℕ → ℕ → List ℕ → List ℕ
splice xs start ys = take start xs ++ (ys ++ drop (start + length ys) xs)

get_elem?-get_or : (xs : List ℕ) (i : ℕ) → i < length xs → get_elem? xs i ≡ some (get_or xs i 0)
get_elem?-get_or [] i h = absurd (omega arith)
get_elem?-get_or (x ∷ xs) zero h = refl
get_elem?-get_or (x ∷ xs) (suc i) h = get_elem?-get_or xs i (omega arith)

module _ {E : Type 0} where
  pub index-done : (xs : List ℕ) (i : ℕ) → i < length xs → index {E = E} xs i ≡ done (get_or xs i 0)
  unfolding index
  index-done xs i h = ap or_panic (get_elem?-get_or xs i h)

  -- The run ends normally.
  abbrev pub IsDone : {A : Type 0} → Outcome E A → Type 0
  IsDone (done a) = Unit
  IsDone (fail e) = ⊥
  IsDone panic = ⊥
  IsDone out_of_fuel = ⊥

  pub >>=-IsDone :
      {A B : Type 0} (m : Outcome E A) (f : A → Outcome E B)
      → IsDone m
      → ((a : A) → IsDone (f a))
      → IsDone (m >>= f)
  >>=-IsDone (done a) f h k = k a
  >>=-IsDone (fail e) f h k = absurd h
  >>=-IsDone panic f h k = absurd h
  >>=-IsDone out_of_fuel f h k = absurd h

  pub IsDone-eq : {A : Type 0} (m : Outcome E A) → IsDone m → (a : A) × (m ≡ done a)
  IsDone-eq (done a) h = (a, refl)
  IsDone-eq (fail e) h = absurd h
  IsDone-eq panic h = absurd h
  IsDone-eq out_of_fuel h = absurd h

pub index-IsDone : (E : Type 0) (xs : List ℕ) (i : ℕ) → i < length xs → IsDone (index {E = E} xs i)
index-IsDone E xs i h = subst IsDone (sym (index-done {E = E} xs i h)) tt
