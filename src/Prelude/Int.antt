-- ===== src/Prelude/Int.antt =====
-- Go's `int` where its sign matters. `negsuc n` is -(n + 1); the range of 64 bits is not modelled.
use Prim.Native.Nat.{ℕ}
use mathlib.Core.Path.{◌≡◌, refl, ap}
use mathlib.Core.Logic.{◌↔◌}
use mathlib.Core.Bool.{Bool, true, false}
use native.Mathlib.Omega.{arith}
use meadow.Prelude.Tests.{ltb, ◌==◌, ==_iff}

pub data ℤ : Type 0 where
  pos : ℕ → ℤ
  negsuc : ℕ → ℤ

-- The number, or 0 below it.
abbrev pub pos_part : ℤ → ℕ
pos_part (pos n) = n
pos_part (negsuc n) = 0

-- Go's `<`.
unfoldable pub ltℤ : ℤ → ℤ → Bool
ltℤ (pos a) (pos b) = ltb a b
ltℤ (pos a) (negsuc b) = false
ltℤ (negsuc a) (pos b) = true
ltℤ (negsuc a) (negsuc b) = ltb b a

pub ltℤ_asym : (a b : ℤ) → ltℤ a b ≡ true → ltℤ b a ≡ false
unfolding ltℤ
ltℤ_asym (pos a) (pos b) h = ground arith
ltℤ_asym (pos a) (negsuc b) h = cc
ltℤ_asym (negsuc a) (pos b) h = refl
ltℤ_asym (negsuc a) (negsuc b) h = ground arith

pub not-ltℤ_trans : (a b c : ℤ) → ltℤ a b ≡ false → ltℤ b c ≡ false → ltℤ a c ≡ false
unfolding ltℤ
not-ltℤ_trans (pos a) (pos b) (pos c) h k = ground arith
not-ltℤ_trans (pos a) b (negsuc c) h k = refl
not-ltℤ_trans (pos a) (negsuc b) (pos c) h k = cc
not-ltℤ_trans (negsuc a) (pos b) c h k = cc
not-ltℤ_trans (negsuc a) (negsuc b) (pos c) h k = cc
not-ltℤ_trans (negsuc a) (negsuc b) (negsuc c) h k = ground arith

-- Go's `==`.
unfoldable pub eqℤ : ℤ → ℤ → Bool
eqℤ (pos a) (pos b) = a == b
eqℤ (negsuc a) (negsuc b) = a == b
eqℤ _ _ = false

pub eqℤ_iff : (a b : ℤ) → (eqℤ a b ≡ true) ↔ (a ≡ b)
unfolding eqℤ
eqℤ_iff (pos a) (pos b) = (λ h. ap pos ((==_iff a b).0 h), λ h. (==_iff a b).1 (cc h))
eqℤ_iff (negsuc a) (negsuc b) = (λ h. ap negsuc ((==_iff a b).0 h), λ h. (==_iff a b).1 (cc h))
eqℤ_iff (pos a) (negsuc b) = (λ h. cc, λ h. cc)
eqℤ_iff (negsuc a) (pos b) = (λ h. cc, λ h. cc)
