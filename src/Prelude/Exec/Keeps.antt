-- ===== src/Prelude/Exec/Keeps.antt =====
-- Predicates of the state that a method keeps, whether it returns or raises.
use mathlib.Core.Bool.{Bool, true, false}
use conpot.Prelude.Bytes.{Exc, Result, ok, err}
use conpot.Prelude.Exec.{Exec, pure, raise, lift, reads, resume, when, ◌>>=◌}
use conpot.Prelude.Tests.{if◌then◌else◌}

pub record Keeps {S A : Type 0} (P : S → Type 0) (method : Exec S A) : Type 0 where
  pub after : (s : S) → P s → P (method s).1

module _ {S A : Type 0} {P : S → Type 0} where
  pub Keeps-pure : (a : A) → Keeps P (pure {S = S} a)
  unfolding pure
  Keeps-pure a = record { after = λ s p. p }

  pub Keeps-raise : (exc : Exc) → Keeps P (raise {S = S} {A = A} exc)
  unfolding raise
  Keeps-raise exc = record { after = λ s p. p }

  pub Keeps-lift : (r : Result A) → Keeps P (lift {S = S} r)
  unfolding lift
  Keeps-lift r = record { after = λ s p. p }

  pub Keeps-reads : (f : S → Result A) → Keeps P (reads f)
  unfolding reads
  Keeps-reads f = record { after = λ s p. p }

  pub Keeps-if :
      (test : Bool) (yes_part no_part : Exec S A)
      → Keeps P yes_part
      → Keeps P no_part
      → Keeps P (if test then yes_part else no_part)
  Keeps-if true yes_part no_part y n = y
  Keeps-if false yes_part no_part y n = n

pub Keeps-when :
    {S : Type 0} {P : S → Type 0} (test : Bool) (part : Exec S (Unit {0}))
    → Keeps P part
    → Keeps P (when test part)
Keeps-when true part k = k
Keeps-when false part k = Keeps-pure tt

module _ {S A B : Type 0} {P : S → Type 0} where
  Keeps-resume :
      (next : A → Exec S B) (r : Result A) (s : S)
      → ((a : A) → Keeps P (next a))
      → P s
      → P (resume next (r, s)).1
  Keeps-resume next (ok a) s k p = (k a).after s p
  Keeps-resume next (err exc) s k p = p

  pub Keeps-bind :
      (first : Exec S A) (next : A → Exec S B)
      → Keeps P first
      → ((a : A) → Keeps P (next a))
      → Keeps P (first >>= next)
  unfolding ◌>>=◌
  Keeps-bind first next kf kn = record {
    after = λ s p. Keeps-resume next (first s).0 (first s).1 kn (kf.after s p);
  }

pub ruleset keeps_rules =
    (Keeps-pure, Keeps-raise, Keeps-lift, Keeps-reads, Keeps-if, Keeps-when, Keeps-bind)
