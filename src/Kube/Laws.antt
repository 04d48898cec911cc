-- ===== src/Kube/Laws.antt =====
-- What the theorems rely on of the Kubernetes API and of client-go's retries, and rules for calls.
use zeropod.Base.{◌≡◌, refl, Option, some, Result, ok, err}
use zeropod.Kube.{KubeError, Call, then_call, Kube}

-- A call keeps P, and establishes Q of what it returns.
pub record Runs {S A : Type 0} (P : S → Type 0) (Q : A → S → Type 0) (m : Call S A) : Type 0 where
  pub keeps : (s : S) → P s → P (m s).1
  pub gives : (s : S) (a : A) → P s → (m s).0 ≡ ok a → Q a (m s).1

-- A retried function ran at least once, and its last run is the outcome; a poll that succeeds ran
-- to an answer. While they wait the state does not move: what others do is seen at the next call.
pub record KubeLaws {S : Type 0} (kube : Kube S) : Type 1 where
  pub retried_on_conflict :
      {A : Type 0} (P : S → Type 0) (Q : A → S → Type 0) (m : Call S A)
      → Runs P Q m
      → Runs P Q (kube.retry_on_conflict m)
  pub retried_no_match :
      {A : Type 0} (P : S → Type 0) (Q : A → S → Type 0) (m : Call S A)
      → Runs P Q m
      → Runs P Q (kube.retry_no_match m)
  pub polled :
      {A : Type 0} (P : S → Type 0) (Q : A → S → Type 0) (m : Call S (Option A))
      → Runs P (λ o s. (a : A) → o ≡ some a → Q a s) m
      → Runs P Q (kube.poll m)

module _ {S A B : Type 0} where
  pub Runs-then :
      {P : S → Type 0} {Q : A → S → Type 0} {R : B → S → Type 0} {m : Call S A} {f : A → Call S B}
      → Runs P Q m
      → ((s : S) (a : A) → P s → Q a s → P (f a s).1)
      → ((s : S) (a : A) (b : B) → P s → Q a s → (f a s).0 ≡ ok b → R b (f a s).1)
      → Runs P R (λ s. then_call (m s) f)
  unfolding then_call
  Runs-then {P = P} {Q = Q} {R = R} {m = m} {f = f} h keep give = record {
    keeps = λ s p. kept (m s).0 (m s).1 (h.keeps s p) (λ a e. h.gives s a p e);
    gives = λ s b p e. given (m s).0 (m s).1 (h.keeps s p) (λ a e'. h.gives s a p e') b e;
  }
    where
      kept :
          (r : Result KubeError A) (s : S)
          → P s
          → ((a : A) → r ≡ ok a → Q a s)
          → P (then_call (r, s) f).1
      kept (ok a) s p q = keep s a p (q a refl)
      kept (err e) s p q = p

      given :
          (r : Result KubeError A) (s : S)
          → P s
          → ((a : A) → r ≡ ok a → Q a s)
          → (b : B) → (then_call (r, s) f).0 ≡ ok b
          → R b (then_call (r, s) f).1
      given (ok a) s p q b e = give s a b p (q a refl) e
      given (err x) s p q b e = absurd cc

-- A chain of calls that succeeds went through its first call.
pub then_ok :
    {S A B : Type 0} (r : Result KubeError A × S) (f : A → Call S B) (b : B)
    → (then_call r f).0 ≡ ok b
    → (a : A) × (r.0 ≡ ok a) × (then_call r f ≡ f a r.1)
unfolding then_call
then_ok (ok a, s) f b e = (a, refl, refl)
then_ok (err x, s) f b e = absurd cc

-- What its first call leaves and its second keeps, a chain keeps.
pub then-keeps :
    {S A B : Type 0} (P : S → Type 0) (r : Result KubeError A × S) (f : A → Call S B)
    → P r.1
    → ((a : A) (t : S) → P t → P (f a t).1)
    → P (then_call r f).1
unfolding then_call
then-keeps P (ok a, s) f p keep = keep a s p
then-keeps P (err e, s) f p keep = p
