-- ===== src/Lotus/Binding/Passes.antt =====
-- The steps of the score in lotus/pkg/binding/matcher.go: what passes them, and with how much.
use Prim.Native.Char.{Char}
use Prim.Native.String.{◌++◌ as ◌++ᵗ◌}
use text.Mathlib.TextBridge.{IsPrefix}
use text.Mathlib.TextLemmas.{nil-append, cons-append, cons≢nil, tail-eq_of_cons-eq}
use text.Mathlib.TextEquality.{starts_with_iff}
use meadow.Prelude.{
  ℕ, ◌+◌, ◌≡◌, ◌⊎◌, ◌↔◌, Bool, true, false, String, Option, none, some, List, [], ◌∷◌, refl, ap,
  inl, inr, arith, In, starts_with, eq_iff, if◌then◌else◌, Bool-cases,
}
use meadow.Prelude.Int.{ℤ, eqℤ_iff}
use meadow.Lotus.Binding.Defs.{text_contains, has_key, has_code, and_then}

-- The text `t` stands somewhere in `s`.
abbrev pub IsPart : String → String → Type 0
IsPart t s = (u : String) × (v : String) × ((u ++ᵗ t) ++ᵗ v ≡ s)

-- A step passes with the score `n` exactly when `P`.
abbrev pub Passes : Option ℕ → Type 0 → ℕ → Type 0
Passes o P n = (P × (o ≡ some n)) ⊎ ((¬ P) × (o ≡ none))

pub Passes-and_then :
    {P Q : Type 0} (o : Option ℕ) (next : ℕ → Option ℕ) (n w : ℕ)
    → Passes o P n
    → Passes (next n) Q (n + w)
    → Passes (and_then o next) (P × Q) (n + w)
Passes-and_then o next n w (inl (p, e)) (inl (q, g)) = inl ((p, q), rw e g)
Passes-and_then o next n w (inl (p, e)) (inr (q, g)) = inr (λ h. q h.1, rw e g)
Passes-and_then o next n w (inr (p, e)) h = inr (λ h. p h.0, rw e)

pub Passes-iff : {P Q : Type 0} (o : Option ℕ) (n : ℕ) → P ↔ Q → Passes o P n → Passes o Q n
Passes-iff o n h (inl (p, e)) = inl (h.0 p, e)
Passes-iff o n h (inr (p, e)) = inr (λ q. p (h.1 q), e)

pub text_contains_iff : (s t : String) → (text_contains s t ≡ true) ↔ IsPart t s
unfolding text_contains
text_contains_iff s t = (finds s, λ (u, v, e). found s u v e)
  where
    of_prefix : (s : String) → IsPrefix t s → IsPart t s
    of_prefix s (v, e) = ("", v, rw nil-append e)

    later_part : (c : Char) (s : String) → IsPart t s → IsPart t (String.◌∷◌ c s)
    later_part c s (u, v, e) =
        (String.◌∷◌ c u, v, rw cons-append (rw cons-append (ap (String.◌∷◌ c) e)))

    finds : (s : String) → text_contains s t ≡ true → IsPart t s
    finds String.[] h = of_prefix String.[] ((starts_with_iff String.[] t).0 h)
    finds (String.◌∷◌ c s) h = elim (Bool-cases (starts_with (String.◌∷◌ c s) t)) [
      | inl e ↦ of_prefix (String.◌∷◌ c s) ((starts_with_iff (String.◌∷◌ c s) t).0 e)
      | inr e ↦ later_part c s (finds s (rw e at h))
    ]

    found : (s u v : String) → (u ++ᵗ t) ++ᵗ v ≡ s → text_contains s t ≡ true
    found String.[] String.[] v e = (starts_with_iff String.[] t).1 (v, rw nil-append at e)
    found String.[] (String.◌∷◌ a u) v e =
        absurd (cons≢nil (rw cons-append at (rw cons-append at e)))
    found (String.◌∷◌ c s) String.[] v e =
        rw ((starts_with_iff (String.◌∷◌ c s) t).1 (v, rw nil-append at e))
    found (String.◌∷◌ c s) (String.◌∷◌ a u) v e =
        elim (Bool-cases (starts_with (String.◌∷◌ c s) t)) [
          | inl h ↦ rw h
          | inr h ↦
              rw h (found s u v (tail-eq_of_cons-eq (rw cons-append at (rw cons-append at e))))
        ]

pub has_key_iff : (k : String) (keys : List String) → (has_key k keys ≡ true) ↔ In k keys
unfolding has_key
has_key_iff k [] = (λ h. cc, λ h. absurd h)
has_key_iff k (j ∷ keys) = ground (arith, has_key_iff k keys, eq_iff j k)

pub has_code_iff : (c : ℤ) (codes : List ℤ) → (has_code c codes ≡ true) ↔ In c codes
unfolding has_code
has_code_iff c [] = (λ h. cc, λ h. absurd h)
has_code_iff c (b ∷ codes) = ground (arith, has_code_iff c codes, eqℤ_iff b c)

pub Passes-test :
    {P : Type 0} (b : Bool) (n : ℕ) → (b ≡ true) ↔ P → Passes (if b then some n else none) P n
Passes-test true n h = inl (h.0 refl, refl)
Passes-test false n h = inr (λ p. cc (h.1 p), refl)

-- A criterion that is not set passes, and any other passes where its test holds.
pub Passes-optional :
    {E P : Type 0} (unset test : Bool) (n w : ℕ)
    → (unset ≡ true) ↔ E
    → (test ≡ true) ↔ P
    → Passes
        (if unset then some n else if test then some (n + w) else none)
        (E ⊎ P)
        (n + (if unset then 0 else w))
Passes-optional true test n w h g = inl (inl (h.0 refl), ap some (omega arith))
Passes-optional false true n w h g = inl (inr (g.0 refl), refl)
Passes-optional false false n w h g = inr (elim [ inl e ↦ cc (h.1 e) | inr p ↦ cc (g.1 p) ], refl)

pub Passes-range :
    (low high ranged : Bool) (n : ℕ)
    → Passes
        (if low then none else if high then none else if ranged then some (n + 2) else some n)
        ((low ≡ false) × (high ≡ false))
        (n + (if ranged then 2 else 0))
Passes-range true high ranged n = inr (λ h. cc, refl)
Passes-range false true ranged n = inr (λ h. cc, refl)
Passes-range false false true n = inl ((refl, refl), refl)
Passes-range false false false n = inl ((refl, refl), ap some (omega arith))
