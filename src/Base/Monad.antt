-- ===== src/Base/Monad.antt =====
-- What a C++ call can come to, and the state monad over it.

-- `fail` is the return value `false`, `throws` is an exception, and `undefined` is behaviour that
-- the language standard leaves undefined: a read or write outside the object, a null dereference.
pub data Outcome {ℓ} (A : Type ℓ) : Type ℓ where
  ok : A → Outcome A
  fail : Outcome A
  throws : Outcome A
  undefined : Outcome A

-- The state is kept on every outcome, since the code changes objects before it fails.
abbrev pub M : Type 0 → Type 0 → Type 0
M S A = S → Outcome A × S

module _ {S A B : Type 0} where
  abbrev pub then_do : (A → M S B) → Outcome A × S → Outcome B × S
  then_do f (ok a, s) = f a s
  then_do f (fail, s) = (fail, s)
  then_do f (throws, s) = (throws, s)
  then_do f (undefined, s) = (undefined, s)

infixl 5 ◌>>=◌ ◌>>◌
abbrev pub ◌>>=◌ : {S A B : Type 0} → M S A → (A → M S B) → M S B
◌>>=◌ m f s = then_do f (m s)

abbrev pub ◌>>◌ : {S B : Type 0} → M S (Unit {0}) → M S B → M S B
◌>>◌ m k s = then_do (λ _. k) (m s)

-- A value, and what is done with it next.
infixl 3 ◌▷◌
abbrev pub ◌▷◌ : {A B : Type 0} → A → (A → B) → B
a ▷ f = f a

abbrev pub return : {S A : Type 0} → A → M S A
return a s = (ok a, s)

abbrev pub failing : {S A : Type 0} → M S A
failing s = (fail, s)

abbrev pub throwing : {S A : Type 0} → M S A
throwing s = (throws, s)

-- A statement about the value of a call, if it gives one.
abbrev pub Yields : {S A : Type 0} → (A → Type 0) → Outcome A × S → Type 0
Yields P (ok a, s) = P a
Yields P (fail, s) = Unit {0}
Yields P (throws, s) = Unit {0}
Yields P (undefined, s) = Unit {0}

pub then_do-Yields :
    {S A B : Type 0} (P : A → Type 0) (Q : B → Type 0) (f : A → M S B) (r : Outcome A × S)
    → Yields P r
    → ((a : A) (s : S) → P a → Yields Q (f a s))
    → Yields Q (then_do f r)
then_do-Yields P Q f (ok a, s) h k = k a s h
then_do-Yields P Q f (fail, s) h k = tt
then_do-Yields P Q f (throws, s) h k = tt
then_do-Yields P Q f (undefined, s) h k = tt

pub Yields-any : {S A : Type 0} (r : Outcome A × S) → Yields (λ _. Unit {0}) r
Yields-any (ok a, s) = tt
Yields-any (fail, s) = tt
Yields-any (throws, s) = tt
Yields-any (undefined, s) = tt
