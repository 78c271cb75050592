-- ===== src/Tests/Base.antt =====
-- The inputs that the tests share: numbers for floats, and a few JSON values.
use meadow.Prelude.{map, refl, ℕ, ◌+◌, ◌/◌, ◌≡◌, true, false, String, none, arith, ltb}
use meadow.Lotus.Mapping.Linq.{keep, first_with, Linq}
use meadow.Json.{
  Value, number, text, array, object, FloatOps, FloatOrder, nil, cons, Fields, end, field,
}

-- Only texts are printed, all else alike.
abbrev pub print : Value ℕ → String
print (text s) = s
print (array (cons (text s) items)) = s
print _ = "?"

abbrev pub nat_float : FloatOps ℕ
nat_float = record {
  lt = ltb;
  zero = 0;
  add = λ a b. a + b;
  divide = λ a n. a / n;
  parse = λ s. none;
  sprint = print;
}

nat_asym : (a b : ℕ) → ltb a b ≡ true → ltb b a ≡ false
nat_asym a b h = ground arith

nat_not_trans : (a b c : ℕ) → ltb a b ≡ false → ltb b c ≡ false → ltb a c ≡ false
nat_not_trans a b c h k = ground arith

pub nat_order : FloatOrder nat_float
nat_order = record { lt_asym = nat_asym; not_lt_trans = nat_not_trans }

-- {"age": 30, "tags": ["a", "b"], "home": {"city": "Oslo"}}
abbrev pub person : Fields ℕ
person = field "age" (number 30) (
    field "tags" (array (cons (text "a") (cons (text "b") nil)))
      (field "home" (object (field "city" (text "Oslo") end)) end))

instance abbrev pub list_linq : Linq
list_linq = record {
  filter = keep;
  find = first_with;
  map_each = map;
  filter-keep = λ p xs. refl;
  find-first_with = λ p xs. refl;
  map_each-map = λ f xs. refl;
}
