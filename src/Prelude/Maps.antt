-- ===== src/Prelude/Maps.antt =====
-- Go's `map[string]V` as an association list with one entry for each key (`IsMap`).
use Prim.Native.String.{String}
use mathlib.Core.Path.{◌≡◌, refl}
use mathlib.Core.Logic.{inl, inr}
use mathlib.Core.Bool.{false}
use mathlib.Core.Option.{Option, none, some}
use mathlib.Core.List.{List, [], ◌∷◌, ◌++◌}
use native.Mathlib.Omega.{arith}
use text.Mathlib.TextEquality.{eq_iff}
use meadow.Prelude.Tests.{str_eq, if◌then◌else◌, Bool-cases}

abbrev pub Map : Type 0 → Type 0
Map V = List (String × V)

module _ {V : Type 0} where
  -- `v, ok := m[k]`
  unfoldable pub lookup : String → Map V → Option V
  lookup wanted [] = none
  lookup wanted ((key, found) ∷ rest) = if str_eq key wanted then some found else lookup wanted rest

  -- `m[k] = v`
  unfoldable pub insert : String → V → Map V → Map V
  insert new value [] = (new, value) ∷ []
  insert new value ((key, old) ∷ rest) =
      if str_eq key new then (new, value) ∷ rest else (key, old) ∷ insert new value rest

  -- `delete(m, k)`
  unfoldable pub erase : String → Map V → Map V
  erase k [] = []
  erase k ((j, w) ∷ m) = let rest = erase k m in if str_eq j k then rest else (j, w) ∷ rest

  -- No key stands twice.
  abbrev pub IsMap : Map V → Type 0
  IsMap [] = Unit
  IsMap ((k, v) ∷ m) = (lookup k m ≡ none) × IsMap m

  pub lookup-insert :
      (new wanted : String) (value : V) (m : Map V)
      → lookup wanted (insert new value m)
        ≡ (if str_eq new wanted then some value else lookup wanted m)
  unfolding lookup insert
  lookup-insert new wanted value [] = refl
  lookup-insert new wanted value ((key, old) ∷ rest) = ground (
    arith,
    lookup-insert new wanted value rest,
    eq_iff key new,
    eq_iff key wanted,
    eq_iff new wanted,
  )

  pub lookup-insert_same : (k : String) (v : V) (m : Map V) → lookup k (insert k v m) ≡ some v
  lookup-insert_same k v m = rw lookup-insert (ground (arith, eq_iff k k))

  pub lookup-erase :
      (k j : String) (m : Map V) → lookup j (erase k m) ≡ (if str_eq k j then none else lookup j m)
  unfolding lookup erase
  lookup-erase k j [] = ground arith
  lookup-erase k j ((i, w) ∷ m) =
      ground (arith, lookup-erase k j m, eq_iff i k, eq_iff i j, eq_iff k j)

  pub insert_of_fresh :
      (k : String) (v : V) (m : Map V) → lookup k m ≡ none → insert k v m ≡ m ++ (k, v) ∷ []
  unfolding lookup insert
  insert_of_fresh k v [] h = refl
  insert_of_fresh k v ((j, w) ∷ m) h = ground (arith, insert_of_fresh k v m)

  pub lookup-append_single :
      (k j : String) (v : V) (m : Map V)
      → str_eq k j ≡ false
      → lookup j (m ++ (k, v) ∷ []) ≡ lookup j m
  unfolding lookup
  lookup-append_single k j v [] h = rw h
  lookup-append_single k j v ((i, w) ∷ m) h = ground (arith, lookup-append_single k j v m h)

  pub insert-IsMap : (k : String) (v : V) (m : Map V) → IsMap m → IsMap (insert k v m)
  unfolding insert
  insert-IsMap k v [] h = (unfold lookup in refl, tt)
  insert-IsMap k v ((j, w) ∷ m) h = elim (Bool-cases (str_eq j k)) [
    | inl e ↦ rw e (rw ((eq_iff j k).0 e) at h)
    | inr e ↦
        rw e
          (rw lookup-insert (ground (arith, h.0, eq_iff j k, eq_iff k j)), insert-IsMap k v m h.1)
  ]
