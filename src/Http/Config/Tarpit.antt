-- ===== src/Http/Config/Tarpit.antt =====
-- The delays that the template sets.
use conpot.Prelude.{
  ℕ, ◌≡◌, ◌∙◌, ◌⊎◌, refl, ap, sym, true, Option, none, some, List, [], ◌∷◌, Bool-cases, inl, inr,
  arith,
}
use mathlib.Core.Path.{subst}
use conpot.Prelude.Bytes.{Bytes, codes, ok}
use conpot.Prelude.Exec.{pure, raise, modify}
use conpot.Prelude.Text.{split_once, partition}
use conpot.Http.State.{Header, Node, Server, Connection, World}
use conpot.Http.Config.{
  config_sanitize_tarpit, sleep, sleep_within, do_tarpit, delay_for, configure_entity, configure,
  new_server,
}

-- The first word has no separator.
split_once-word : (c : ℕ) (s : Bytes) → split_once c (split_once c s).0 ≡ ((split_once c s).0, none)
unfolding split_once
split_once-word c [] = refl
split_once-word c (x ∷ xs) = ground (arith, split_once-word c xs)

partition-word : (c : ℕ) (s : Bytes) → partition c (partition c s).0 ≡ ((partition c s).0, [])
unfolding partition
partition-word c s = rw (split_once-word c s)

module _ (w : World) (zero_float : w.is_float (codes "0") ≡ true) where
  -- Delays of this text never raise.
  abbrev Sleeps : Bytes → Type 0
  Sleeps delay = (c : Connection) → (do_tarpit w delay c).0 ≡ ok tt

  within-ok :
      (x y : Bytes) (c : Connection)
      → w.is_float x ≡ true
      → w.is_float y ≡ true
      → (sleep_within w x y c).0 ≡ ok tt
  unfolding sleep_within sleep pure raise modify
  within-ok [] y c p q = refl
  within-ok (x ∷ xs) [] c p q = rw p
  within-ok (x ∷ xs) (y ∷ ys) c p q = rw (p, q)

  within-ok_one :
      (x : Bytes) (c : Connection) → w.is_float x ≡ true → (sleep_within w x [] c).0 ≡ ok tt
  unfolding sleep_within sleep pure raise modify
  within-ok_one [] c p = refl
  within-ok_one (x ∷ xs) c p = rw p

  zero-Sleeps : Sleeps (codes "0;0")
  unfolding do_tarpit partition split_once
  zero-Sleeps c = within-ok (codes "0") (codes "0") c zero_float zero_float

  default-Sleeps : Sleeps (codes "0")
  unfolding do_tarpit partition split_once
  default-Sleeps c = within-ok_one (codes "0") c zero_float

  both-Sleeps :
      (value : Bytes)
      → w.is_float (partition b';' value).0 ≡ true
      → w.is_float (partition b';' value).1 ≡ true
      → Sleeps value
  unfolding do_tarpit
  both-Sleeps value p q c = within-ok (partition b';' value).0 (partition b';' value).1 c p q

  one-Sleeps :
      (value : Bytes) → w.is_float (partition b';' value).0 ≡ true → Sleeps (partition b';' value).0
  unfolding do_tarpit
  one-Sleeps value p c =
      ap (λ (q : Bytes × Bytes). (sleep_within w q.0 q.1 c).0) (partition-word b';' value)
      ∙ within-ok_one (partition b';' value).0 c p

  sanitize-Sleeps : (value : Option Bytes) → Sleeps (config_sanitize_tarpit w value)
  unfolding config_sanitize_tarpit
  sanitize-Sleeps none = zero-Sleeps
  sanitize-Sleeps (some value) = elim (Bool-cases (w.is_float (partition b';' value).0)) [
    | inl p ↦ rw p (elim (Bool-cases (w.is_float (partition b';' value).1)) [
      | inl q ↦ rw q (both-Sleeps value p q)
      | inr q ↦ rw q (one-Sleeps value p)
    ])
    | inr p ↦ rw p zero-Sleeps
  ]

  configure_entity-tarpit :
      (name text : Bytes) (s : Server)
      → ((configure_entity w name text s).tarpit ≡ s.tarpit)
        ⊎ ((configure_entity w name text s).tarpit ≡ config_sanitize_tarpit w (some text))
  unfolding configure_entity
  configure_entity-tarpit name text s = ground arith

  configure_entity-Sleeps :
      (name text : Bytes) (s : Server)
      → Sleeps s.tarpit
      → Sleeps (configure_entity w name text s).tarpit
  configure_entity-Sleeps name text s h = elim (configure_entity-tarpit name text s) [
    | inl same ↦ subst Sleeps (sym same) h
    | inr new ↦ subst Sleeps (sym new) (sanitize-Sleeps (some text))
  ]

  configure-Sleeps :
      (entities : List (Bytes × Bytes)) (s : Server)
      → Sleeps s.tarpit
      → Sleeps (configure w entities s).tarpit
  unfolding configure
  configure-Sleeps [] s h = h
  configure-Sleeps ((name, text) ∷ entities) s h =
      configure-Sleeps entities (configure_entity w name text s)
        (configure_entity-Sleeps name text s h)

  -- Whatever texts the template gives for the delays of the server and of a node, the delay before an
  -- answer never raises. `float` takes the text of the number zero.
  pub delay_for-new_server :
      (htdocs statuscodes : List Node) (entities : List (Bytes × Bytes)) (headers : List Header)
      (version : Bytes) (node : Option Bytes) (c : Connection)
      → (delay_for w (new_server w htdocs statuscodes entities headers version) node c).0 ≡ ok tt
  unfolding delay_for new_server
  delay_for-new_server htdocs statuscodes entities headers version none c =
      configure-Sleeps entities _ default-Sleeps c
  delay_for-new_server htdocs statuscodes entities headers version (some text) c =
      sanitize-Sleeps (some text) c
