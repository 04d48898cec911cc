-- ===== src/Activator/Interface.antt =====
-- activator/interface.go: the operations of an activator, as the shim uses them, with what it relies
-- on: a successful `reset` redirects every port, a successful `disable_redirects` none, and forwarding
-- leaves the redirects alone. Beside it, Listeners.Ports of activator/net.go and Go's zero time.
use zeropod.Base.{
  ℕ, ◌≡◌, Bool, true, false, List, [], ◌∷◌, Text, Result, ok, All, contains_num, if◌then◌else◌,
}
use zeropod.Base.Int.{ℤ, negsuc}

pub data ActivatorError : Type 0 where
  map_not_found no_listening_sockets no_activity_recorded broken : ActivatorError

-- Listeners.Ports: each port once. Go's order of the keys of a map is not fixed; this is one.
unfoldable pub unique_ports : List ℕ → List ℕ
unique_ports [] = []
unique_ports (p ∷ ps) = let rest = unique_ports ps in if contains_num ps p then rest else p ∷ rest

-- The start of year one, in nanoseconds of Unix time.
abbrev pub zero_time : ℤ
zero_time = negsuc 62135596799999999999

-- A listener by its port.
pub record Activator : Type 1 where
  pub State : Type 0
  pub ports : State → List ℕ
  pub is_redirected : State → ℕ → Bool
  pub started : State → Bool
  pub reset : State → Result ActivatorError (Unit {0}) × State
  pub disable_redirects : State → Result ActivatorError (Unit {0}) × State
  pub attach_exec : State → Result ActivatorError (Unit {0}) × State
  pub start : State → List ℕ → Bool → Result ActivatorError (Unit {0}) × State
  pub last_activity : State → ℕ → Result ActivatorError ℤ
  pub forward_to_target : State → Text → Result ActivatorError (Unit {0}) × State
  pub stop : State → State
  pub ports-reset : (s : State) → ports (reset s).1 ≡ ports s
  pub ports-disable_redirects : (s : State) → ports (disable_redirects s).1 ≡ ports s
  pub reset_redirects :
      (s : State) → (reset s).0 ≡ ok tt → All (λ p. is_redirected (reset s).1 p ≡ true) (ports s)
  pub disable_redirects_disables :
      (s : State)
      → (disable_redirects s).0 ≡ ok tt
      → All (λ p. is_redirected (disable_redirects s).1 p ≡ false) (ports s)
  pub ports-forward_to_target :
      (s : State) (addr : Text) → ports (forward_to_target s addr).1 ≡ ports s
  pub forward_to_target_redirects :
      (s : State) (addr : Text) (p : ℕ)
      → is_redirected (forward_to_target s addr).1 p ≡ is_redirected s p
