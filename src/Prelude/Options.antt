-- ===== src/Prelude/Options.antt =====
-- Calls that may fail with an error: `none` is the error, and what follows is not done.
use mathlib.Core.Path.{◌≡◌, refl}
use mathlib.Core.Option.{Option, none, some}

infixl 5 ◌>>=◌
abbrev pub ◌>>=◌ {ℓ κ} : {A : Type ℓ} {B : Type κ} → Option A → (A → Option B) → Option B
none >>= f = none
some a >>= f = f a

-- The result, if there is one, has `P`.
abbrev pub Ensures : {A : Type 0} → (A → Type 0) → Option A → Type 0
Ensures P none = Unit
Ensures P (some a) = P a

pub >>=-Ensures :
    {A B : Type 0} (P : B → Type 0) (m : Option A) (f : A → Option B)
    → ((a : A) → Ensures P (f a))
    → Ensures P (m >>= f)
>>=-Ensures P none f h = tt
>>=-Ensures P (some a) f h = h a

-- The same where the first call ensures something.
pub >>=-Ensures_both :
    {A B : Type 0} (Q : A → Type 0) (P : B → Type 0) (m : Option A) (f : A → Option B)
    → Ensures Q m
    → ((a : A) → Q a → Ensures P (f a))
    → Ensures P (m >>= f)
>>=-Ensures_both Q P none f q h = tt
>>=-Ensures_both Q P (some a) f q h = h a q

-- There is a result.
abbrev pub Succeeds {ℓ} : {A : Type ℓ} → Option A → Type ℓ
Succeeds {A = A} o = (a : A) × (o ≡ some a)

pub >>=-Succeeds {ℓ κ} :
    {A : Type ℓ} {B : Type κ} (m : Option A) (f : A → Option B)
    → Succeeds m
    → ((a : A) → Succeeds (f a))
    → Succeeds (m >>= f)
>>=-Succeeds (some a) f h g = g a
>>=-Succeeds none f h g = absurd (cc h.1)

-- There is a result, and it has `P`.
abbrev pub Yields : {A : Type 0} → (A → Type 0) → Option A → Type 0
Yields P none = ⊥
Yields P (some a) = P a

pub >>=-Yields :
    {A B : Type 0} (Q : A → Type 0) (P : B → Type 0) (m : Option A) (f : A → Option B)
    → Yields Q m
    → ((a : A) → Q a → Yields P (f a))
    → Yields P (m >>= f)
>>=-Yields Q P none f q h = absurd q
>>=-Yields Q P (some a) f q h = h a q

-- What succeeds yields what it ensures.
pub Succeeds-Yields :
    {A : Type 0} (P : A → Type 0) (o : Option A) → Succeeds o → Ensures P o → Yields P o
Succeeds-Yields P none s e = cc (s.1)
Succeeds-Yields P (some a) s e = e

pub Yields-Ensures :
    {A : Type 0} (P Q : A → Type 0) (o : Option A) → Yields P o → Ensures Q o → Yields Q o
Yields-Ensures P Q none s e = absurd s
Yields-Ensures P Q (some a) s e = e

pub Yields-map :
    {A : Type 0} (P Q : A → Type 0) (o : Option A) → Yields P o → ((a : A) → P a → Q a) → Yields Q o
Yields-map P Q none y h = absurd y
Yields-map P Q (some a) y h = h a y

pub Ensures-map :
    {A : Type 0} (P Q : A → Type 0) (o : Option A)
    → Ensures P o
    → ((a : A) → P a → Q a)
    → Ensures Q o
Ensures-map P Q none e h = tt
Ensures-map P Q (some a) e h = h a e

pub Ensures-both :
    {A : Type 0} (P Q : A → Type 0) (o : Option A)
    → Ensures P o
    → Ensures Q o
    → Ensures (λ a. P a × Q a) o
Ensures-both P Q none p q = tt
Ensures-both P Q (some a) p q = (p, q)

pub >>=-some : {A : Type 0} (o : Option A) → (o >>= λ a. some a) ≡ o
>>=-some none = refl
>>=-some (some a) = refl
