-- ===== src/Activator/Server/Start.antt =====
-- What a successful Start of activator/activator.go leaves: each port has a redirect and a way back,
-- and the redirects are off unless the container is to be started on demand.
use zeropod.Base.{
  ℕ, ◌≡◌, refl, sym, ap, ◌∙◌, subst, Bool, true, false, not, some, List, [], Result, ok, err, All,
  All-map, arith, contains_num, if◌then◌else◌,
}
use zeropod.Activator.Interface.{ActivatorError, map_not_found}
use zeropod.Activator.Server
use zeropod.Activator.Server.{
  Kernel, Server, M, BpfMap, after, done, map_call, lookup_key, is_redirected, load_pinned_map,
  load_all, start_all, active_connections, disable_redirect, egress_redirects, ingress_redirects,
  socket_tracker, load_pinned_maps, init_activity_of, init_activity_tracker, disable_redirect_of,
  enable_redirect_of, listen_all, set_started,
}
use zeropod.Activator.Server.Loops.{each-keeps}
use zeropod.Activator.Server.Redirects.{
  reset-redirects, disable_redirects-disables, ports-reset, ports-disable_redirects,
}
use zeropod.Activator.Server.Wiring.{
  GivesFreshPorts, IsWired, listen_all-IsWired, listen_all-HasRedirect, listen_all_frame,
}

-- A computation that returns no error returned none in its parts.
after-ok :
    {A B : Type 0} (m : Result ActivatorError A × Server) (f : A → M B) (b : B)
    → (after m f).0 ≡ ok b
    → (a : A) × (m.0 ≡ ok a) × (after m f ≡ f a m.1) × ((f a m.1).0 ≡ ok b)
unfolding after
after-ok (ok a, s) f b h = (a, refl, refl, h)
after-ok (err e, s) f b h = absurd cc

-- The two servers agree on the ports and on the redirects.
record SameWires (s t : Server) : Type 0 where
  pub same_ports : t.ports ≡ s.ports
  pub same_ingress : t.ingress ≡ s.ingress
  pub same_egress : t.egress ≡ s.egress

SameWires-trans : {s t u : Server} → SameWires s t → SameWires t u → SameWires s u
SameWires-trans a b = record {
  same_ports = b.same_ports ∙ a.same_ports;
  same_ingress = b.same_ingress ∙ a.same_ingress;
  same_egress = b.same_egress ∙ a.same_egress;
}

SameWires-refl : (s : Server) → SameWires s s
SameWires-refl s = record { same_ports = refl; same_ingress = refl; same_egress = refl }

-- The port's redirect leads to a proxy port, whose way back is the port.
pub record IsServed (s : Server) (p : ℕ) : Type 0 where
  pub proxy : ℕ
  pub redirects : lookup_key p s.ingress ≡ some proxy
  pub returns : lookup_key proxy s.egress ≡ some p

IsServed-same : (s t : Server) (p : ℕ) → SameWires s t → IsServed s p → IsServed t p
IsServed-same s t p w h = record {
  proxy = h.proxy;
  redirects = ap (lookup_key p) w.same_ingress ∙ h.redirects;
  returns = ap (lookup_key h.proxy) w.same_egress ∙ h.returns;
}

-- What the server `s` is after the loop, and after the optional reset.
pub Wired : List ℕ → Bool → Server → Type 0
Wired ports b s =
    (s.ports ≡ ports) × All (IsServed s) ports × All (λ p. is_redirected s p ≡ b) ports

module _ (k : Kernel) where
  load-SameWires : (m : BpfMap) (s : Server) → SameWires s (load_pinned_map k m s).1
  unfolding load_pinned_map
  load-SameWires m s = ground arith

  each-SameWires :
      (f : ℕ → M (Unit {0}))
      → ((p : ℕ) (s : Server) → SameWires s (f p s).1)
      → (ps : List ℕ) (s : Server) → SameWires s (Server.each f ps s).1
  each-SameWires f h ps s =
      each-keeps f (SameWires s) (λ p t w. SameWires-trans w (h p t)) ps s (SameWires-refl s)

  init-SameWires : (s : Server) → SameWires s (init_activity_tracker k s).1
  unfolding init_activity_tracker init_activity_of map_call
  init-SameWires s = each-SameWires (init_activity_of k) (λ p t. ground arith) s.ports s

  disable-SameWires : (s : Server) → SameWires s (Server.disable_redirects k s).1
  unfolding Server.disable_redirects disable_redirect_of map_call
  disable-SameWires s = each-SameWires (disable_redirect_of k) (λ p t. ground arith) s.ports s

  reset-SameWires : (s : Server) → SameWires s (Server.reset k s).1
  unfolding Server.reset enable_redirect_of map_call
  reset-SameWires s = each-SameWires (enable_redirect_of k) (λ p t. ground arith) s.ports s

  after-SameWires :
      (s : Server) (m : Result ActivatorError (Unit {0}) × Server) (f : Unit {0} → M (Unit {0}))
      → SameWires s m.1
      → ((t : Server) → SameWires t (f tt t).1)
      → SameWires s (after m f).1
  unfolding after
  after-SameWires s (ok u, t) f w h = SameWires-trans w (h t)
  after-SameWires s (err e, t) f w h = w

  load_all-SameWires : (s : Server) → SameWires s (load_all k s).1
  unfolding load_all
  load_all-SameWires s = after-SameWires s _ _ (load-SameWires active_connections s) λ t.
      after-SameWires t _ _ (load-SameWires disable_redirect t) λ u.
        after-SameWires u _ _ (load-SameWires egress_redirects u) λ v.
          after-SameWires v _ _ (load-SameWires ingress_redirects v)
            λ x. load-SameWires socket_tracker x

  load_maps-SameWires : (s : Server) → SameWires s (load_pinned_maps k s).1
  unfolding load_pinned_maps
  load_maps-SameWires s = by_pin k.pinned
    where
      by_pin : (b : Bool) → SameWires s (if b then load_all k s else (err map_not_found, s)).1
      by_pin true = load_all-SameWires s
      by_pin false = SameWires-refl s

  empty-IsWired : (s : Server) → s.ingress ≡ [] → IsWired k s
  unfolding lookup_key
  empty-IsWired s e = record {
    way_back = λ p q h. absurd (cc (ap (lookup_key p) e));
    given = λ p q h. absurd (cc (ap (lookup_key p) e));
  }

  loop-Wired :
      (fresh : GivesFreshPorts k) (s : Server)
      → s.ingress ≡ []
      → All (λ p. is_redirected s p ≡ false) s.ports
      → (listen_all k s).0 ≡ ok tt
      → Wired s.ports false (listen_all k s).1
  unfolding Wired
  loop-Wired fresh s i off e =
      let (same, kept) = listen_all_frame k s in
      let w = listen_all-IsWired k fresh s (empty-IsWired s i) e in
      (
        same,
        All-map (λ p h. record { proxy = h.0; redirects = h.1; returns = w.way_back p h.0 h.1 })
            s.ports (listen_all-HasRedirect k s e),
        subst (λ d. All (λ p. not (contains_num d p) ≡ false) s.ports) (sym kept) off,
      )

  started-Wired :
      (ports : List ℕ) (b : Bool) (s : Server)
      → Wired ports b s
      → Wired ports b (set_started k s).1 × ((set_started k s).1.is_started ≡ true)
  unfolding Wired set_started
  started-Wired ports b s (same, served, on) =
      let keeps : SameWires s (set_started k s).1 = record {
        same_ports = refl;
        same_ingress = refl;
        same_egress = refl;
      } in
      (
        (same, All-map (λ p h. IsServed-same s (set_started k s).1 p keeps h) ports served, on),
        refl,
      )

  reset-Wired :
      (ports : List ℕ) (s : Server)
      → Wired ports false s
      → (Server.reset k s).0 ≡ ok tt
      → Wired ports true (Server.reset k s).1
  unfolding Wired
  reset-Wired ports s (same, served, off) r = (
    ports-reset k s ∙ same,
    All-map (λ p h. IsServed-same s (Server.reset k s).1 p (reset-SameWires s) h) ports served,
    subst (All (λ p. is_redirected (Server.reset k s).1 p ≡ true)) same (reset-redirects k s r),
  )

  -- The last steps of Start, from what the loop left.
  finish-Wired :
      (ports : List ℕ) (b : Bool) (s : Server)
      → Wired ports false s
      → (after ((if b then Server.reset k else done) s) (λ _. set_started k)).0 ≡ ok tt
      → Wired ports b (after ((if b then Server.reset k else done) s) (λ _. set_started k)).1
        × ((after ((if b then Server.reset k else done) s) (λ _. set_started k)).1.is_started
            ≡ true)
  finish-Wired ports true s w e =
      let (u, r, q, _) = after-ok (Server.reset k s) (λ _. set_started k) tt e in
      subst (λ x. Wired ports true x.1 × (x.1.is_started ≡ true)) (sym q)
        (started-Wired ports true (Server.reset k s).1 (reset-Wired ports s w r))
  finish-Wired ports false s w e =
      let (u, r, q, _) = after-ok (done s) (λ _. set_started k) tt e in
      subst (λ x. Wired ports false x.1 × (x.1.is_started ≡ true)) (sym q)
        (started-Wired ports false s w)

  -- A start without an error, of a server whose ingress map is empty, on a kernel whose free ports
  -- differ from call to call: the server has started with the given ports; each has a proxy port it
  -- is redirected to, from which egress leads back; and the redirects are on exactly if the start
  -- was to be skipped.
  pub start-Wired :
      (fresh : GivesFreshPorts k) (ports : List ℕ) (skip_start : Bool) (s : Server)
      → s.ingress ≡ []
      → (Server.start k ports skip_start s).0 ≡ ok tt
      → Wired ports skip_start (Server.start k ports skip_start s).1
        × ((Server.start k ports skip_start s).1.is_started ≡ true)
  unfolding Server.start start_all
  start-Wired fresh ports skip_start s i e =
      let s0 : Server = record s { ports = ports } in
      let s1 : Server = (load_pinned_maps k s0).1 in
      let s2 : Server = (init_activity_tracker k s1).1 in
      let s3 : Server = (Server.disable_redirects k s2).1 in
      let (_, r1, q1, e1) = after-ok (load_pinned_maps k s0) _ tt e in
      let (_, r2, q2, e2) = after-ok (init_activity_tracker k s1) _ tt e1 in
      let (_, r3, q3, e3) = after-ok (Server.disable_redirects k s2) _ tt e2 in
      let (_, r4, q4, e4) = after-ok (listen_all k s3) _ tt e3 in
      let w2 : SameWires s0 s2 = SameWires-trans (load_maps-SameWires s0) (init-SameWires s1) in
      let w3 : SameWires s0 s3 = SameWires-trans w2 (disable-SameWires s2) in
      let off : All (λ p. is_redirected s3 p ≡ false) s3.ports =
        subst (All (λ p. is_redirected s3 p ≡ false)) (sym (ports-disable_redirects k s2))
          (disable_redirects-disables k s2 r3) in
      let wired : Wired ports false (listen_all k s3).1 =
        subst (λ ps. Wired ps false (listen_all k s3).1) w3.same_ports
          (loop-Wired fresh s3 (w3.same_ingress ∙ i) off r4) in
      subst (λ x. Wired ports skip_start x.1 × (x.1.is_started ≡ true)) (sym (q1 ∙ q2 ∙ q3 ∙ q4))
        (finish-Wired ports skip_start (listen_all k s3).1 wired e4)
