-- ===== src/Prelude/Dict.antt =====
-- Python's `dict` as an association list. Nothing here depends on the order of the entries.
use Prim.Native.Nat.{◌+◌}
use mathlib.Core.Bool.{Bool, true, false}
use mathlib.Core.List.{List, [], ◌∷◌}
use mathlib.Core.Option.{Option, none, some}
use mathlib.Core.Path.{◌≡◌, refl}
use native.Mathlib.Omega.{arith}
use conpot.Prelude.Lists.{length}
use conpot.Prelude.Tests.{Eq, if◌then◌else◌}

abbrev pub Dict {ℓ κ} : Type ℓ → Type κ → Type (ℓ ⊔ κ)
Dict K V = List (K × V)

pub beq_refl {ℓ} : {K : Type ℓ} ⦃e : Eq K⦄ (k : K) → e.beq k k ≡ true
beq_refl ⦃e⦄ k = (e.beq_iff k k).1 refl

module _ {ℓ κ} {K : Type ℓ} {V : Type κ} ⦃e : Eq K⦄ where
  -- `d.get(k)`
  unfoldable pub get : K → Dict K V → Option V
  get k [] = none
  get k ((j, v) ∷ d) = if e.beq j k then some v else get k d

  -- `k in d`
  unfoldable pub has : K → Dict K V → Bool
  has k [] = false
  has k ((j, v) ∷ d) = if e.beq j k then true else has k d

  -- `d[k] = v`
  unfoldable pub put : K → V → Dict K V → Dict K V
  put k v [] = (k, v) ∷ []
  put k v ((j, w) ∷ d) = if e.beq j k then (k, v) ∷ d else (j, w) ∷ put k v d

  pub get-put :
      (k j : K) (v : V) (d : Dict K V) → get j (put k v d) ≡ (if e.beq k j then some v else get j d)
  unfolding get put
  get-put k j v [] = refl
  get-put k j v ((i, w) ∷ d) =
      ground (arith, get-put k j v d, e.beq_iff i k, e.beq_iff i j, e.beq_iff k j)

  pub has-put :
      (k j : K) (v : V) (d : Dict K V) → has j (put k v d) ≡ (if e.beq k j then true else has j d)
  unfolding has put
  has-put k j v [] = refl
  has-put k j v ((i, w) ∷ d) =
      ground (arith, has-put k j v d, e.beq_iff i k, e.beq_iff i j, e.beq_iff k j)

  pub has-get : (k : K) (v : V) (d : Dict K V) → get k d ≡ some v → has k d ≡ true
  unfolding get has
  has-get k v [] h = cc
  has-get k v ((j, w) ∷ d) h = ground (arith, has-get k v d)

  pub get-none : (k : K) (d : Dict K V) → has k d ≡ false → get k d ≡ none
  unfolding get has
  get-none k [] h = refl
  get-none k ((j, w) ∷ d) h = ground (arith, get-none k d)

  -- A new key adds one entry.
  pub length-put_new :
      (k : K) (v : V) (d : Dict K V) → has k d ≡ false → length (put k v d) ≡ length d + 1
  unfolding has put
  length-put_new k v [] h = refl
  length-put_new k v ((j, w) ∷ d) h = ground (arith, length-put_new k v d)

  pub has-none : (k : K) (d : Dict K V) → get k d ≡ none → has k d ≡ false
  unfolding get has
  has-none k [] h = refl
  has-none k ((j, w) ∷ d) h = ground (arith, has-none k d)

pub get-empty {ℓ κ} : {K : Type ℓ} {V : Type κ} ⦃e : Eq K⦄ (k : K) → get {V = V} k [] ≡ none
unfolding get
get-empty k = refl
