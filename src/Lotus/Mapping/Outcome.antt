-- ===== src/Lotus/Mapping/Outcome.antt =====
-- What a call of the mapping engine comes to: a result or a mapping error. The recursion of the source
-- has no bound of its own; its calls get fuel, and one that takes more of it is `out_of_fuel`.
use meadow.Prelude.{Option, none, some, ◌≡◌, refl}

pub data Outcome (A : Type 0) : Type 0 where
  done : A → Outcome A
  failed out_of_fuel : Outcome A

infixl 5 ◌>>=◌
abbrev pub ◌>>=◌ : {A B : Type 0} → Outcome A → (A → Outcome B) → Outcome B
done a >>= f = f a
failed >>= f = failed
out_of_fuel >>= f = out_of_fuel

abbrev pub or_failed : {A : Type 0} → Option A → Outcome A
or_failed none = failed
or_failed (some a) = done a

-- The result, if there is one, has `P`.
abbrev pub IfDone : {A : Type 0} → (A → Type 0) → Outcome A → Type 0
IfDone P (done a) = P a
IfDone P _ = Unit

-- The fuel is enough, and the result, if it is no error, has `P`.
abbrev pub Ends : {A : Type 0} → (A → Type 0) → Outcome A → Type 0
Ends P (done a) = P a
Ends P failed = Unit
Ends P out_of_fuel = ⊥

-- The fuel is enough.
abbrev pub Stops : {A : Type 0} → Outcome A → Type 0
Stops o = Ends (λ _. Unit) o

pub >>=-IfDone :
    {A B : Type 0} (Q : A → Type 0) (P : B → Type 0) (o : Outcome A) (f : A → Outcome B)
    → IfDone Q o
    → ((a : A) → Q a → IfDone P (f a))
    → IfDone P (o >>= f)
>>=-IfDone Q P (done a) f q h = h a q
>>=-IfDone Q P failed f q h = tt
>>=-IfDone Q P out_of_fuel f q h = tt

pub >>=-Stops :
    {A B : Type 0} (o : Outcome A) (f : A → Outcome B)
    → Stops o
    → ((a : A) → Stops (f a))
    → Stops (o >>= f)
>>=-Stops (done a) f q h = h a
>>=-Stops failed f q h = tt
>>=-Stops out_of_fuel f q h = absurd q

pub >>=-or_failed-Stops :
    {A B : Type 0} (o : Option A) (f : A → Outcome B)
    → ((a : A) → Stops (f a))
    → Stops (or_failed o >>= f)
>>=-or_failed-Stops none f h = tt
>>=-or_failed-Stops (some a) f h = h a

pub >>=-or_failed-IfDone :
    {A B : Type 0} (P : B → Type 0) (o : Option A) (f : A → Outcome B)
    → ((a : A) → o ≡ some a → IfDone P (f a))
    → IfDone P (or_failed o >>= f)
>>=-or_failed-IfDone P none f h = tt
>>=-or_failed-IfDone P (some a) f h = h a refl

pub >>=-or_failed-Ends :
    {A B : Type 0} (P : B → Type 0) (o : Option A) (f : A → Outcome B)
    → ((a : A) → o ≡ some a → Ends P (f a))
    → Ends P (or_failed o >>= f)
>>=-or_failed-Ends P none f h = tt
>>=-or_failed-Ends P (some a) f h = h a refl

-- What ends has every property of its results.
pub Ends-IfDone : {A : Type 0} (P Q : A → Type 0) (o : Outcome A) → Ends P o → IfDone Q o → Ends Q o
Ends-IfDone P Q (done a) e h = h
Ends-IfDone P Q failed e h = tt
Ends-IfDone P Q out_of_fuel e h = absurd e

pub anything : {A : Type 0} (o : Outcome A) → IfDone (λ _. Unit {0}) o
anything (done a) = tt
anything failed = tt
anything out_of_fuel = tt

pub IfDone-map :
    {A : Type 0} (P Q : A → Type 0) (o : Outcome A)
    → IfDone P o
    → ((a : A) → P a → Q a)
    → IfDone Q o
IfDone-map P Q (done a) p h = h a p
IfDone-map P Q failed p h = tt
IfDone-map P Q out_of_fuel p h = tt

pub done-IfDone :
    {A : Type 0} (P : A → Type 0) (o : Outcome A) (a : A) → o ≡ done a → IfDone P o → P a
done-IfDone P o a e h = rw e at h

pub Ends-map :
    {A : Type 0} (P Q : A → Type 0) (o : Outcome A) → Ends P o → ((a : A) → P a → Q a) → Ends Q o
Ends-map P Q (done a) p h = h a p
Ends-map P Q failed p h = tt
Ends-map P Q out_of_fuel p h = absurd p
