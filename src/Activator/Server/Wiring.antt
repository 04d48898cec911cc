-- ===== src/Activator/Server/Wiring.antt =====
-- What RedirectPort and the loop of Start leave in the redirect maps (activator/activator.go).
use zeropod.Base.{
  ℕ, ◌+◌, ◌<◌, ◌≡◌, ◌≢◌, refl, sym, ap, ◌∙◌, subst, Option, none, some, List, [], ◌∷◌, Result, ok,
  err, All, arith, Bool-cases, Option-cases, ==_iff, if_true, if_false, if◌then◌else◌, ◌==◌, ◌⊎◌,
  inl, inr,
}
use zeropod.Activator.Interface.{ActivatorError, broken}
use zeropod.Activator.Server.{
  Kernel, Server, lookup_key, put_key, map_call, after, listen, redirect_port, listen_and_redirect,
  listen_all,
}
use zeropod.Activator.Server.Loops.{each-keeps, each-keeps_ok, each-All}

pub lookup-put :
    (k v j : ℕ) (m : List (ℕ × ℕ))
    → lookup_key j (put_key k v m) ≡ (if k == j then some v else lookup_key j m)
unfolding lookup_key put_key
lookup-put k v j [] = refl
lookup-put k v j ((i, w) ∷ m) = ground (arith, lookup-put k v j m)

module _ (k : Kernel) where
  -- The kernel's free ports differ from call to call.
  abbrev pub GivesFreshPorts : Type 0
  GivesFreshPorts = (i j q : ℕ) → k.free_port i ≡ some q → k.free_port j ≡ some q → i ≡ j

  -- A proxy port was handed out by an earlier call.
  abbrev GivenBefore : ℕ → ℕ → Type 0
  GivenBefore n q = (i : ℕ) × (i < n) × (k.free_port i ≡ some q)

  -- Every redirect on ingress has its way back on egress.
  pub record IsWired (s : Server) : Type 0 where
    pub way_back : (p q : ℕ) → lookup_key p s.ingress ≡ some q → lookup_key q s.egress ≡ some p
    pub given : (p q : ℕ) → lookup_key p s.ingress ≡ some q → GivenBefore s.calls q

  -- What one round without an error did.
  record Redirected (p : ℕ) (s t : Server) : Type 0 where
    pub proxy : ℕ
    pub was_free : k.free_port s.calls ≡ some proxy
    pub on_ingress : t.ingress ≡ put_key p proxy s.ingress
    pub on_egress : t.egress ≡ put_key proxy p s.egress
    pub later : s.calls < t.calls

  redirect-Redirected :
      (p q : ℕ) (s : Server)
      → (redirect_port k p q s).0 ≡ ok tt
      → ((redirect_port k p q s).1.ingress ≡ put_key p q s.ingress)
        × ((redirect_port k p q s).1.egress ≡ put_key q p s.egress)
        × ((redirect_port k p q s).1.calls ≡ s.calls + 1 + 1)
  unfolding redirect_port map_call after
  redirect-Redirected p q s e = ground arith

  round-Redirected :
      (p : ℕ) (s : Server)
      → (listen_and_redirect k p s).0 ≡ ok tt
      → Redirected p s (listen_and_redirect k p s).1
  unfolding listen_and_redirect listen after
  round-Redirected p s e = by_port (k.free_port s.calls) refl e
    where
      by_port :
          (o : Option ℕ)
          → k.free_port s.calls ≡ o
          → (after
              (elim o as (λ _. Result ActivatorError ℕ × Server) [
                | none ↦ (err broken, record s { calls = s.calls + 1 })
                | some q ↦ (ok q, record s { calls = s.calls + 1; listeners = q ∷ s.listeners })
              ])
              (redirect_port k p)).0
            ≡ ok tt
          → Redirected p s
              (after
                (elim o as (λ _. Result ActivatorError ℕ × Server) [
                  | none ↦ (err broken, record s { calls = s.calls + 1 })
                  | some q ↦ (ok q, record s { calls = s.calls + 1; listeners = q ∷ s.listeners })
                ])
                (redirect_port k p)).1
      by_port none o e = absurd cc
      by_port (some q) o e =
          let opened : Server = record s { calls = s.calls + 1; listeners = q ∷ s.listeners } in
          let (i, g, c) = redirect-Redirected p q opened e in
          record {
            proxy = q;
            was_free = o;
            on_ingress = i;
            on_egress = g;
            later = omega (arith, c);
          }

  module _ (fresh : GivesFreshPorts) where
    put-IsWired : (p : ℕ) (s t : Server) → IsWired s → Redirected p s t → IsWired t
    put-IsWired p s t w r = record {
      way_back = λ p' q' e. back p' q' (looked p' q' e);
      given = λ p' q' e. before p' q' (looked p' q' e);
    }
      where
        looked :
            (p' q' : ℕ)
            → lookup_key p' t.ingress ≡ some q'
            → ((p ≡ p') × (r.proxy ≡ q')) ⊎ (lookup_key p' s.ingress ≡ some q')
        looked p' q' e = ground (arith, r.on_ingress, lookup-put p r.proxy p' s.ingress)

        back :
            (p' q' : ℕ)
            → ((p ≡ p') × (r.proxy ≡ q')) ⊎ (lookup_key p' s.ingress ≡ some q')
            → lookup_key q' t.egress ≡ some p'
        back p' q' (inl (a, b)) = ground (arith, r.on_egress, lookup-put r.proxy p q' s.egress)
        back p' q' (inr o) =
            let (i, lt, given) = w.given p' q' o in
            let old = w.way_back p' q' o in
            let other : r.proxy ≢ q' =
              λ x. absurd (omega (arith, fresh i s.calls q' given (r.was_free ∙ ap some x))) in
            ground (arith, r.on_egress, lookup-put r.proxy p q' s.egress)

        before :
            (p' q' : ℕ)
            → ((p ≡ p') × (r.proxy ≡ q')) ⊎ (lookup_key p' s.ingress ≡ some q')
            → GivenBefore t.calls q'
        before p' q' (inl (a, b)) = (s.calls, r.later, r.was_free ∙ ap some b)
        before p' q' (inr o) =
            let (i, lt, given) = w.given p' q' o in (i, omega (arith, r.later), given)

    -- The loop over the ports wires them, and gives each a redirect.
    pub listen_all-IsWired :
        (s : Server) → IsWired s → (listen_all k s).0 ≡ ok tt → IsWired (listen_all k s).1
    unfolding listen_all
    listen_all-IsWired s w e =
        each-keeps_ok (listen_and_redirect k) IsWired
          (λ p t w e. put-IsWired p t _ w (round-Redirected p t e)) s.ports s w e

  abbrev pub HasRedirect : ℕ → Server → Type 0
  HasRedirect p s = (q : ℕ) × (lookup_key p s.ingress ≡ some q)

  put-HasRedirect :
      (p v j : ℕ) (m : List (ℕ × ℕ))
      → ((q : ℕ) × (lookup_key j m ≡ some q))
      → (q : ℕ) × (lookup_key j (put_key p v m) ≡ some q)
  put-HasRedirect p v j m (q, e) = elim (Bool-cases (p == j)) [
    | inl b ↦ (v, lookup-put p v j m ∙ if_true _ b)
    | inr b ↦ (q, lookup-put p v j m ∙ if_false _ b ∙ e)
  ]

  redirect-ingress :
      (p q : ℕ) (s : Server)
      → ((redirect_port k p q s).1.ingress ≡ put_key p q s.ingress)
        ⊎ ((redirect_port k p q s).1.ingress ≡ s.ingress)
  unfolding redirect_port map_call after
  redirect-ingress p q s = elim (Bool-cases (k.accepts s.calls)) [
    | inl b ↦ inl (ground arith)
    | inr b ↦ inr (ground arith)
  ]

  redirect-HasRedirect :
      (j p q : ℕ) (s : Server) → HasRedirect j s → HasRedirect j (redirect_port k p q s).1
  redirect-HasRedirect j p q s h = elim (redirect-ingress p q s) [
    | inl e ↦ let (v, f) = put-HasRedirect p q j s.ingress h in (v, ap (lookup_key j) e ∙ f)
    | inr e ↦ (h.0, ap (lookup_key j) e ∙ h.1)
  ]

  opened : ℕ → Server → Server
  opened q s = record s { calls = s.calls + 1; listeners = q ∷ s.listeners }

  -- A round is an attempt to listen, and with a port to redirect to it.
  round-cases :
      (p : ℕ) (s : Server)
      → ((q : ℕ) × (listen_and_redirect k p s ≡ redirect_port k p q (opened q s)))
        ⊎ (listen_and_redirect k p s ≡ (err broken, record s { calls = s.calls + 1 }))
  unfolding listen_and_redirect listen after opened
  round-cases p s = elim (Option-cases (k.free_port s.calls)) [
    | inl e ↦ inr (ground arith)
    | inr (q, e) ↦ inl (q, ground arith)
  ]

  round-HasRedirect :
      (j p : ℕ) (s : Server) → HasRedirect j s → HasRedirect j (listen_and_redirect k p s).1
  unfolding opened
  round-HasRedirect j p s h = elim (round-cases p s) [
    | inl (q, e) ↦
        subst (λ x. HasRedirect j x.1) (sym e) (redirect-HasRedirect j p q (opened q s) h)
    | inr e ↦ subst (λ x. HasRedirect j x.1) (sym e) h
  ]

  round_sets :
      (p : ℕ) (s : Server)
      → (listen_and_redirect k p s).0 ≡ ok tt
      → HasRedirect p (listen_and_redirect k p s).1
  round_sets p s e =
      let r = round-Redirected p s e in
      (
        r.proxy,
        ap (lookup_key p) r.on_ingress
            ∙ lookup-put p r.proxy p s.ingress
            ∙ if_true _ ((==_iff p p).1 refl),
      )

  pub listen_all-HasRedirect :
      (s : Server)
      → (listen_all k s).0 ≡ ok tt
      → All (λ p. HasRedirect p (listen_all k s).1) s.ports
  unfolding listen_all
  listen_all-HasRedirect s e =
      each-All (listen_and_redirect k) HasRedirect round_sets round-HasRedirect s.ports s e

  -- Neither the ports nor the disabled redirects change.
  round_frame :
      (p : ℕ) (s : Server)
      → ((listen_and_redirect k p s).1.ports ≡ s.ports)
        × ((listen_and_redirect k p s).1.disabled ≡ s.disabled)
  unfolding listen_and_redirect listen redirect_port map_call after
  round_frame p s = elim (Option-cases (k.free_port s.calls)) [
    | inl e ↦ (ground arith, ground arith)
    | inr (q, e) ↦ (ground arith, ground arith)
  ]

  pub listen_all_frame :
      (s : Server)
      → ((listen_all k s).1.ports ≡ s.ports) × ((listen_all k s).1.disabled ≡ s.disabled)
  unfolding listen_all
  listen_all_frame s =
      each-keeps (listen_and_redirect k) (λ t. (t.ports ≡ s.ports) × (t.disabled ≡ s.disabled))
        (λ p t h. ((round_frame p t).0 ∙ h.0, (round_frame p t).1 ∙ h.1)) s.ports s (refl, refl)
