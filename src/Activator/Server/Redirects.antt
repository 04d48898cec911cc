-- ===== src/Activator/Server/Redirects.antt =====
-- A server as an activator: Reset and DisableRedirects of activator/activator.go reach every port.
use zeropod.Base.{
  ℕ, Text, Bool, true, false, not, ◌≡◌, refl, ap, List, [], ◌∷◌, ok, All, All-map, arith,
  contains_num,
}
use zeropod.Activator.Interface.{Activator}
use zeropod.Activator.Server
use zeropod.Activator.Server.{
  Kernel, Server, delete_from, put_in, map_call, enable_redirect_of, disable_redirect_of,
  is_redirected,
}
use zeropod.Activator.Server.Loops.{each-keeps, each-All}

contains-delete_self : (p : ℕ) (ps : List ℕ) → contains_num (delete_from p ps) p ≡ false
unfolding delete_from
contains-delete_self p [] = refl
contains-delete_self p (q ∷ ps) = ground (arith, contains-delete_self p ps)

contains-delete :
    (p q : ℕ) (ps : List ℕ) → contains_num ps q ≡ false → contains_num (delete_from p ps) q ≡ false
unfolding delete_from
contains-delete p q [] h = refl
contains-delete p q (r ∷ ps) h = ground (arith, contains-delete p q ps)

contains-put_self : (p : ℕ) (ps : List ℕ) → contains_num (put_in p ps) p ≡ true
unfolding put_in
contains-put_self p ps = ground arith

contains-put :
    (p q : ℕ) (ps : List ℕ) → contains_num ps q ≡ true → contains_num (put_in p ps) q ≡ true
unfolding put_in
contains-put p q ps h = ground arith

module _ (k : Kernel) where
  abbrev IsOn : Bool → ℕ → Server → Type 0
  IsOn b p s = contains_num s.disabled p ≡ b

  enable-clears :
      (p : ℕ) (s : Server)
      → (enable_redirect_of k p s).0 ≡ ok tt
      → IsOn false p (enable_redirect_of k p s).1
  unfolding enable_redirect_of map_call
  enable-clears p s h = ground (arith, contains-delete_self p s.disabled)

  enable-keeps : (q p : ℕ) (s : Server) → IsOn false q s → IsOn false q (enable_redirect_of k p s).1
  unfolding enable_redirect_of map_call
  enable-keeps q p s h = ground (arith, contains-delete p q s.disabled)

  disable-sets :
      (p : ℕ) (s : Server)
      → (disable_redirect_of k p s).0 ≡ ok tt
      → IsOn true p (disable_redirect_of k p s).1
  unfolding disable_redirect_of map_call
  disable-sets p s h = ground (arith, contains-put_self p s.disabled)

  disable-keeps : (q p : ℕ) (s : Server) → IsOn true q s → IsOn true q (disable_redirect_of k p s).1
  unfolding disable_redirect_of map_call
  disable-keeps q p s h = ground (arith, contains-put p q s.disabled)

  enable_ports : (p : ℕ) (s : Server) → (enable_redirect_of k p s).1.ports ≡ s.ports
  unfolding enable_redirect_of map_call
  enable_ports p s = ground arith

  disable_ports : (p : ℕ) (s : Server) → (disable_redirect_of k p s).1.ports ≡ s.ports
  unfolding disable_redirect_of map_call
  disable_ports p s = ground arith

  pub ports-reset : (s : Server) → (Server.reset k s).1.ports ≡ s.ports
  unfolding Server.reset
  ports-reset s =
      each-keeps (enable_redirect_of k) (λ t. t.ports ≡ s.ports) (λ p t h. cc (enable_ports p t))
        s.ports s refl

  pub ports-disable_redirects : (s : Server) → (Server.disable_redirects k s).1.ports ≡ s.ports
  unfolding Server.disable_redirects
  ports-disable_redirects s =
      each-keeps (disable_redirect_of k) (λ t. t.ports ≡ s.ports) (λ p t h. cc (disable_ports p t))
        s.ports s refl

  -- A reset that returns no error turns the redirect of every port of the server on.
  pub reset-redirects :
      (s : Server)
      → (Server.reset k s).0 ≡ ok tt
      → All (λ p. is_redirected (Server.reset k s).1 p ≡ true) s.ports
  unfolding Server.reset
  reset-redirects s e =
      All-map (λ p h. ap not h) s.ports
        (each-All (enable_redirect_of k) (IsOn false) enable-clears enable-keeps s.ports s e)

  -- Disabling the redirects without an error turns that of every port of the server off.
  pub disable_redirects-disables :
      (s : Server)
      → (Server.disable_redirects k s).0 ≡ ok tt
      → All (λ p. is_redirected (Server.disable_redirects k s).1 p ≡ false) s.ports
  unfolding Server.disable_redirects
  disable_redirects-disables s e =
      All-map (λ p h. ap not h) s.ports
        (each-All (disable_redirect_of k) (IsOn true) disable-sets disable-keeps s.ports s e)

pub ports-forward_to_target :
    (s : Server) (addr : Text) → (Server.forward_to_target addr s).1.ports ≡ s.ports
unfolding Server.forward_to_target
ports-forward_to_target s addr = refl

pub forward_to_target_redirects :
    (s : Server) (addr : Text) (p : ℕ)
    → is_redirected (Server.forward_to_target addr s).1 p ≡ is_redirected s p
unfolding Server.forward_to_target
forward_to_target_redirects s addr p = refl

-- The server meets the interface that the shim relies on.
abbrev pub server_activator : Kernel → Activator
server_activator k = record {
  State = Server;
  ports = λ s. s.ports;
  is_redirected = is_redirected;
  started = λ s. s.is_started;
  reset = Server.reset k;
  disable_redirects = Server.disable_redirects k;
  attach_exec = Server.attach_exec k;
  start = λ s ports skip_start. Server.start k ports skip_start s;
  last_activity = Server.last_activity k;
  forward_to_target = λ s addr. Server.forward_to_target addr s;
  stop = Server.stop;
  ports-reset = ports-reset k;
  ports-disable_redirects = ports-disable_redirects k;
  reset_redirects = reset-redirects k;
  disable_redirects_disables = disable_redirects-disables k;
  ports-forward_to_target = ports-forward_to_target;
  forward_to_target_redirects = forward_to_target_redirects;
}
