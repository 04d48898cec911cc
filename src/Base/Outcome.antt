-- ===== src/Base/Outcome.antt =====
-- Results of Go functions that return an error, with do blocks.
use mathlib.Core.Path.{◌≡◌, refl, subst}
use mathlib.Core.Logic.{◌⊎◌, inl, inr}
use mathlib.Core.Bool.{Bool, true, false}

pub data Result {ℓ} (E : Type ℓ) (A : Type ℓ) : Type ℓ where
  ok : A → Result E A
  err : E → Result E A

-- Shut, so that a rule for bind applies to a do block by unification.
infixl 5 ◌>>=◌ ◌>>◌
unfoldable pub ◌>>=◌ {ℓ} : {E A B : Type ℓ} → Result E A → (A → Result E B) → Result E B
ok a >>= f = f a
err e >>= f = err e

abbrev pub ◌>>◌ {ℓ} : {E A B : Type ℓ} → Result E A → Result E B → Result E B
m >> k = m >>= λ _. k

pub Result-cases {ℓ} :
    {E A : Type ℓ} (r : Result E A) → ((a : A) × (r ≡ ok a)) ⊎ ((e : E) × (r ≡ err e))
Result-cases (ok a) = inl (a, refl)
Result-cases (err e) = inr (e, refl)

pub ok-injective {ℓ} : {E A : Type ℓ} {a b : A} → ◌≡◌ {A = Result E A} (ok a) (ok b) → a ≡ b
ok-injective p = cc

abbrev pub is_ok {ℓ} : {E A : Type ℓ} → Result E A → Bool
is_ok (ok a) = true
is_ok (err e) = false

-- What a result satisfies if it is a success.
pub record Ensures {ℓ} {E A : Type ℓ} (P : A → Type ℓ) (r : Result E A) : Type ℓ where
  pub holds : (a : A) → r ≡ ok a → P a

pub Ensures-bind {ℓ} :
    {E A B : Type ℓ} {P : B → Type ℓ} {m : Result E A} {f : A → Result E B}
    → ((a : A) → m ≡ ok a → Ensures P (f a))
    → Ensures P (m >>= f)
unfolding ◌>>=◌
Ensures-bind {m = ok a} h = h a refl
Ensures-bind {m = err e} h = record { holds = λ b p. cc }

pub Ensures-ok {ℓ} : {E A : Type ℓ} {P : A → Type ℓ} {a : A} → P a → Ensures {E = E} P (ok a)
Ensures-ok {P = P} {a = a} h = record { holds = λ b p. subst P (ok-injective p) h }
