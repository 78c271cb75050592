-- ===== src/Ivy/Criteria/Paths.antt =====
-- Dotted paths of ivy/pkg/criteria/criteria.go: `strings.Split(path, ".")`, `getNestedValue` and
-- `setNestedValue`.
use Prim.Native.Char.{Char, code}
use meadow.Prelude.{
  String, Option, none, some, List, [], ◌∷◌, ◌==◌, if◌then◌else◌, Map, lookup, insert,
}
use meadow.Json.{Value, object, entries, of_entries}

-- The character goes to the front of the first part.
unfoldable pub onto_first : Char → List String → List String
onto_first c [] = String.◌∷◌ c "" ∷ []
onto_first c (w ∷ ws) = String.◌∷◌ c w ∷ ws

-- `strings.Split(path, ".")`; there is always a first part.
unfoldable pub split : String → List String
split String.[] = "" ∷ []
split (String.◌∷◌ c s) =
    let rest = split s in if code c == b'.' then "" ∷ rest else onto_first c rest

module _ {F : Type 0} where
  -- The loop of `getNestedValue` over the parts of the path.
  unfoldable pub get_nested : Value F → List String → Option (Value F)
  get_nested current [] = some current
  get_nested (object fs) (part ∷ parts) = elim (lookup part (entries fs)) [
    | none ↦ none
    | some v ↦ get_nested v parts
  ]
  get_nested _ (part ∷ parts) = none

  -- `m[key]` as the map to descend into: a new one where the key is missing, none where the value
  -- is no map.
  unfoldable pub child : Option (Value F) → Option (Map (Value F))
  child none = some []
  child (some (object fs)) = some (entries fs)
  child (some _) = none

  -- `setNestedValue`. A path has at least one part.
  unfoldable pub set_nested : Map (Value F) → List String → Value F → Map (Value F)
  set_nested m [] v = m
  set_nested m (key ∷ []) v = insert key v m
  set_nested m (key ∷ next ∷ path) v = elim (child (lookup key m)) [
    | none ↦ m
    | some nested ↦ insert key (object (of_entries (set_nested nested (next ∷ path) v))) m
  ]
