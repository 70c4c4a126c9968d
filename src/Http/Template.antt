-- ===== src/Http/Template.antt =====
-- command_responder.py: `TemplateParser`, over the tags that `HTMLParser` finds.
use conpot.Prelude.{
  ℕ, zero, suc, ◌-◌, true, false, Option, none, some, List, [], ◌∷◌, ◌++◌, length, bytes_eq,
  if◌then◌else◌,
}
use conpot.Prelude.Bytes.{Bytes, codes, Result, ok, err, type_error, ◌>>=◌}
use conpot.Prelude.Text.{starts_with}
use conpot.Http.State.{Tag, World}

-- `text.replace(old, new)` for an `old` that is not empty; the first argument counts the bytes of an
-- occurrence that are passed over.
unfoldable pub replace_from : ℕ → Bytes → Bytes → Bytes → Bytes
unfolding starts_with
replace_from skip old new [] = []
replace_from (suc skip) old new (c ∷ text) = replace_from skip old new text
replace_from zero old new (c ∷ text) = elim (starts_with (c ∷ text) old) [
  | true ↦ new ++ replace_from (length old - 1) old new text
  | false ↦ c ∷ replace_from zero old new text
]

unfoldable pub replace : Bytes → Bytes → Bytes → Bytes
unfolding replace_from
replace text old new = replace_from zero old new text

-- What the loop over the attributes finds.
pub record Found : Type 0 where
  pub origin : Bytes
  pub source : Bytes
  pub key : Bytes

unfoldable pub read_attribute : Bytes → Bytes → Found → Found
read_attribute name value f =
    let origin = f.origin ++ 32 ∷ name ++ codes "=\"" ++ value ++ codes "\"" in
    if bytes_eq name (codes "source")
    then record f { origin = origin; source = value }
    else if bytes_eq name (codes "key")
    then record f { origin = origin; key = value }
    else record f { origin = origin }

-- An attribute with no value cannot be added to a text.
unfoldable pub read_attributes : List (Bytes × Option Bytes) → Found → Result Found
unfolding read_attribute
read_attributes [] f = ok f
read_attributes ((name, none) ∷ attrs) f = err type_error
read_attributes ((name, some value) ∷ attrs) f = read_attributes attrs (read_attribute name value f)

abbrev or_empty : Option Bytes → Bytes
or_empty none = []
or_empty (some text) = text

-- The payload with the tag replaced, for a tag with a key.
unfoldable pub substitute : World → Found → Bytes → Result Bytes
unfolding replace
substitute w f payload =
    if bytes_eq f.source (codes "databus")
    then (w.get_value f.key >>= λ value. ok (replace payload f.origin value))
    else if bytes_eq f.source (codes "eval")
    then ok (replace payload f.origin (or_empty (w.evaluate f.key)))
    else ok payload

unfoldable pub handle_startendtag : World → Tag → Bytes → Result Bytes
unfolding read_attributes substitute
handle_startendtag w tag payload =
    if bytes_eq tag.name (codes "condata")
    then (do
      f ← read_attributes tag.attrs (record { origin = b'<' ∷ tag.name; source = []; key = [] })
      if bytes_eq f.key []
          then ok payload
          else substitute w (record f { origin = f.origin ++ codes " />" }) payload)
    else ok payload

unfoldable pub handle_tags : World → List Tag → Bytes → Result Bytes
unfolding handle_startendtag
handle_tags w [] payload = ok payload
handle_tags w (tag ∷ tags) payload = do
  payload' ← handle_startendtag w tag payload
  handle_tags w tags payload'

-- `substitute_template_fields`
unfoldable pub substitute_template_fields : World → Bytes → Result Bytes
unfolding handle_tags
substitute_template_fields w payload = handle_tags w (w.tags payload) payload
