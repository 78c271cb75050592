-- ===== src/Json.antt =====
-- The values that `json.Unmarshal` leaves in an `any`: what the services compute on. A number is an
-- element of `F`, the float64 values; `FloatOps` names what Go's language and standard library do
-- with them.
use meadow.Prelude.{
  ℕ, ◌≡◌, Bool, true, false, not, ◌&&◌, String, Option, none, some, List, [], ◌∷◌, refl, ap, length,
  ◌==◌, Map, lookup, str_eq,
}

mutual
  pub data Value (F : Type 0) : Type 0 where
    null : Value F
    bool : Bool → Value F
    number : F → Value F
    text : String → Value F
    array : Items F → Value F
    object : Fields F → Value F

  pub data Items (F : Type 0) : Type 0 where
    nil : Items F
    cons : Value F → Items F → Items F

  pub data Fields (F : Type 0) : Type 0 where
    end : Fields F
    field : String → Value F → Fields F → Fields F

module _ {F : Type 0} where
  -- A `[]any` and a `map[string]any` as lists.
  unfoldable pub elements : Items F → List (Value F)
  elements nil = []
  elements (cons v vs) = v ∷ elements vs

  unfoldable pub entries : Fields F → Map (Value F)
  entries end = []
  entries (field k v fs) = (k, v) ∷ entries fs

  unfoldable pub of_entries : Map (Value F) → Fields F
  of_entries [] = end
  of_entries ((k, v) ∷ m) = field k v (of_entries m)

  pub entries-of_entries : (m : Map (Value F)) → entries (of_entries m) ≡ m
  unfolding entries of_entries
  entries-of_entries [] = refl
  entries-of_entries ((k, v) ∷ m) = ap (◌∷◌ (k, v)) (entries-of_entries m)

  pub of_entries-entries : (fs : Fields F) → of_entries (entries fs) ≡ fs
  unfolding entries of_entries
  of_entries-entries end = refl
  of_entries-entries (field k v fs) = ap (field k v) (of_entries-entries fs)

-- float64: `F` has the floats but NaN, which no JSON number denotes; only parsing can give NaN.
pub data Float64 (F : Type 0) : Type 0 where
  nan : Float64 F
  real : F → Float64 F

-- `lt` is Go's `<` on `F`, and `add` and `divide` never meet infinities of both signs.
pub record FloatOps (F : Type 0) : Type 0 where
  pub lt : F → F → Bool
  pub zero : F
  pub add : F → F → F
  pub divide : F → ℕ → F
  -- `strconv.ParseFloat`; `none` is its error
  pub parse : String → Option (Float64 F)
  -- `fmt.Sprintf("%v", v)`
  pub sprint : Value F → String

-- The order of the floats that are not NaN: `<` is asymmetric, and so is its failure transitive.
pub record FloatOrder {F : Type 0} (float : FloatOps F) : Type 0 where
  pub lt_asym : (a b : F) → float.lt a b ≡ true → float.lt b a ≡ false
  pub not_lt_trans :
      (a b c : F) → float.lt a b ≡ false → float.lt b c ≡ false → float.lt a c ≡ false

-- `reflect.DeepEqual` on these values. Two maps are equal if they have as many entries, and each
-- entry of one is in the other.
module _ {F : Type 0} (float : FloatOps F) where
  float_eq : F → F → Bool
  float_eq a b = not (float.lt a b) && not (float.lt b a)

  bool_eq : Bool → Bool → Bool
  bool_eq true b = b
  bool_eq false b = not b

  unfoldable mutual
    unfolding float_eq bool_eq

    pub deep_equal : Value F → Value F → Bool
    deep_equal null null = true
    deep_equal (bool a) (bool b) = bool_eq a b
    deep_equal (number a) (number b) = float_eq a b
    deep_equal (text a) (text b) = str_eq a b
    deep_equal (array xs) (array ys) = items_equal xs ys
    deep_equal (object xs) (object ys) =
        length (entries xs) == length (entries ys) && fields_within xs ys
    deep_equal _ _ = false

    pub items_equal : Items F → Items F → Bool
    items_equal nil nil = true
    items_equal (cons x xs) (cons y ys) = deep_equal x y && items_equal xs ys
    items_equal _ _ = false

    pub fields_within : Fields F → Fields F → Bool
    fields_within end ys = true
    fields_within (field k v xs) ys =
        (elim (lookup k (entries ys)) [ none ↦ false | some w ↦ deep_equal v w ])
        && fields_within xs ys
