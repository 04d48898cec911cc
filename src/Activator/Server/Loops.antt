-- ===== src/Activator/Server/Loops.antt =====
-- Rules for the loops of activator/activator.go over the ports of a server.
use zeropod.Base.{ℕ, ◌≡◌, refl, List, [], ◌∷◌, Result, ok, err, All}
use zeropod.Activator.Interface.{ActivatorError}
use zeropod.Activator.Server.{Server, M, after, each}

module _ (f : ℕ → M (Unit {0})) (P : Server → Type 0) where
  -- What one round keeps, whether it fails or not, the loop keeps.
  pub each-keeps :
      ((p : ℕ) (s : Server) → P s → P (f p s).1)
      → (ps : List ℕ) (s : Server) → P s
      → P (each f ps s).1
  unfolding each after
  each-keeps keep [] s h = h
  each-keeps keep (p ∷ ps) s h = next (each-keeps keep ps) (f p s).0 (f p s).1 (keep p s h)
    where
      next :
          ((t : Server) → P t → P (each f ps t).1)
          → (r : Result ActivatorError (Unit {0})) (s' : Server) → P s'
          → P (after (r, s') (λ _. each f ps)).1
      next rest (ok u) s' h = rest s' h
      next rest (err e) s' h = h

module _ (f : ℕ → M (Unit {0})) (Q : ℕ → Server → Type 0) where
  -- What each round establishes for its port, and no round breaks, holds for all ports after a
  -- loop without an error.
  pub each-All :
      ((p : ℕ) (s : Server) → (f p s).0 ≡ ok tt → Q p (f p s).1)
      → ((q p : ℕ) (s : Server) → Q q s → Q q (f p s).1)
      → (ps : List ℕ) (s : Server) → (each f ps s).0 ≡ ok tt
      → All (λ p. Q p (each f ps s).1) ps
  unfolding each after
  each-All set keep [] s e = tt
  each-All set keep (p ∷ ps) s e = next (each-All set keep ps) (f p s).0 (f p s).1 (set p s) e
    where
      next :
          ((t : Server) → (each f ps t).0 ≡ ok tt → All (λ q. Q q (each f ps t).1) ps)
          → (r : Result ActivatorError (Unit {0})) (s' : Server) → (r ≡ ok tt → Q p s')
          → (after (r, s') (λ _. each f ps)).0 ≡ ok tt
          → Q p (after (r, s') (λ _. each f ps)).1
            × All (λ q. Q q (after (r, s') (λ _. each f ps)).1) ps
      next rest (ok u) s' h e = (each-keeps f (Q p) (keep p) ps s' (h refl), rest s' e)
      next rest (err x) s' h e = absurd cc

module _ (f : ℕ → M (Unit {0})) (P : Server → Type 0) where
  -- What each round without an error keeps, a loop without an error keeps.
  pub each-keeps_ok :
      ((p : ℕ) (s : Server) → P s → (f p s).0 ≡ ok tt → P (f p s).1)
      → (ps : List ℕ) (s : Server) → P s
      → (each f ps s).0 ≡ ok tt
      → P (each f ps s).1
  unfolding each after
  each-keeps_ok keep [] s h e = h
  each-keeps_ok keep (p ∷ ps) s h e =
      next (each-keeps_ok keep ps) (f p s).0 (f p s).1 (keep p s h) e
    where
      next :
          ((t : Server) → P t → (each f ps t).0 ≡ ok tt → P (each f ps t).1)
          → (r : Result ActivatorError (Unit {0})) (s' : Server) → (r ≡ ok tt → P s')
          → (after (r, s') (λ _. each f ps)).0 ≡ ok tt
          → P (after (r, s') (λ _. each f ps)).1
      next rest (ok u) s' h e = rest s' (h refl) e
      next rest (err x) s' h e = absurd cc
