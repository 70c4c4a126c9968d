-- ===== src/Prelude/Exec.antt =====
-- Methods that change a state and may raise. What was written before the exception stays written,
-- so the state comes back beside it.
pub mod Keeps
use mathlib.Core.Bool.{Bool, true, false}
use conpot.Prelude.Bytes.{Exc, Result, ok, err}

abbrev pub Exec : Type 0 → Type 0 → Type 0
Exec S A = S → Result A × S

module _ {S A : Type 0} where
  unfoldable pub pure : A → Exec S A
  pure a s = (ok a, s)

  unfoldable pub raise : Exc → Exec S A
  raise exc s = (err exc, s)

  -- A call that does not look at the state.
  unfoldable pub lift : Result A → Exec S A
  lift r s = (r, s)

  -- A call that reads the state and may raise.
  unfoldable pub reads : (S → Result A) → Exec S A
  reads f s = (f s, s)

unfoldable pub modify : {S : Type 0} → (S → S) → Exec S (Unit {0})
modify f s = (ok tt, f s)

module _ {S A B : Type 0} where
  abbrev pub resume : (A → Exec S B) → Result A × S → Result B × S
  resume next (ok a, s) = next a s
  resume next (err exc, s) = (err exc, s)

  infixl 5 ◌>>=◌
  unfoldable pub ◌>>=◌ : Exec S A → (A → Exec S B) → Exec S B
  unfolding pure raise lift reads modify
  ◌>>=◌ first next s = resume next (first s)

infixl 5 ◌>>◌
abbrev pub ◌>>◌ : {S B : Type 0} → Exec S (Unit {0}) → Exec S B → Exec S B
first >> next = first >>= λ _. next

-- `if test: first`
abbrev pub when : {S : Type 0} → Bool → Exec S (Unit {0}) → Exec S (Unit {0})
when true first = first
when false first = pure tt
