-- ===== src/Shim/Evac/Drain.antt =====
-- How often a container is evacuated, and when its connections have drained (Evac and
-- handleDrainCheck of shim/evac.go).
use zeropod.Base.{
  ℕ, ◌≡◌, refl, sym, subst, ◌⊎◌, inl, inr, Bool, true, false, some, Result, ok, err, List, [], ◌∷◌,
  if-cases, if_true,
}
use zeropod.Base.Int.{ℤ, pos, ltb_ℤ, ◌-ℤ◌, clamp64}
use zeropod.Config.{second, minute, live_migration_enabled}
use zeropod.Activator.Interface.{Activator, ActivatorError, no_activity_recorded}
use zeropod.Shim.Types.{Container, Outcome, armed}
use zeropod.Shim.Phase.{Clock, set_phase}
use zeropod.Shim.Init.{exit_ok}
use zeropod.Shim.Evac.{
  EvacCalls, EvacEvent, evac_timeout, checkpoint_error, checkpointed, lazy_started, evac, evac_once,
  evac_loop, live_evac, start_connection_drain, drain_port, keep_draining, drain_ports,
  handle_drain_check,
}

module _ {S : Type 0} where
  abbrev Evacuated : Outcome S (Unit {0}) → Type 0
  Evacuated r = r.1.evacuated ≡ true

  loop-Evacuated :
      (w : Clock) (es : List EvacEvent) (c : Container S)
      → c.evacuated ≡ true
      → Evacuated (evac_loop w es c)
  unfolding evac_loop set_phase
  loop-Evacuated w [] c h = h
  loop-Evacuated w (evac_timeout ∷ es) c h = h
  loop-Evacuated w (checkpoint_error ∷ es) c h = h
  loop-Evacuated w (lazy_started true ∷ es) c h = loop-Evacuated w es c h
  loop-Evacuated w (lazy_started false ∷ es) c h = h
  loop-Evacuated w (checkpointed ∷ es) c h = h

  once-Evacuated :
      (w : EvacCalls) (b : Bool) (c : Container S)
      → c.evacuated ≡ true
      → Evacuated (evac_once w b c)
  unfolding evac_once live_evac start_connection_drain
  once-Evacuated w true c h = h
  once-Evacuated w false c h =
      if-cases Evacuated (live_migration_enabled c.cfg)
        (λ _. if-cases Evacuated w.prepares (λ _. loop-Evacuated w.clock w.events c h) (λ _. h))
        (λ _. h)

  evac-Evacuated : (w : EvacCalls) (b : Bool) (c : Container S) → Evacuated (evac w b c)
  unfolding evac
  evac-Evacuated w b c = if-cases Evacuated c.evacuated (λ e. e) (λ _. once-Evacuated w b _ refl)

  repeated :
      (w : EvacCalls) (b : Bool) (c : Container S) → c.evacuated ≡ true → evac w b c ≡ (ok tt, c)
  unfolding evac
  repeated w b c h = if_true _ h

  -- A second evacuation, whatever its circumstances, changes nothing and returns no error, also where
  -- the first one failed.
  pub evac-once :
      (w v : EvacCalls) (a b : Bool) (c : Container S)
      → evac v b (evac w a c).1 ≡ (ok tt, (evac w a c).1)
  evac-once w v a b c = repeated v b (evac w a c).1 (evac-Evacuated w a c)

-- Some element of the list satisfies `P`.
abbrev pub Any : {A : Type 0} → (A → Type 0) → List A → Type 0
Any P [] = ⊥
Any P (x ∷ xs) = P x ⊎ Any P xs

module _ (A : Activator) where
  -- The port was active in the second before `now`.
  abbrev pub IsActive : ℤ → A.State → ℕ → Type 0
  IsActive now s p =
      (last : ℤ) × (A.last_activity s p ≡ ok last)
      × (ltb_ℤ (clamp64 (now -ℤ last)) (pos second) ≡ true)

  port-IsActive :
      (now : ℤ) (s : A.State) (p : ℕ) (l : Result ActivatorError ℤ) (rest : Bool)
      → A.last_activity s p ≡ l
      → drain_port now l rest ≡ true
      → IsActive now s p ⊎ (rest ≡ true)
  unfolding drain_port
  port-IsActive now s p (ok last) rest e h =
      if-cases (λ b. b ≡ true → IsActive now s p ⊎ (rest ≡ true))
        (ltb_ℤ (clamp64 (now -ℤ last)) (pos second)) (λ recent _. inl (last, e, recent))
        (λ _ r. inr r) h
  port-IsActive now s p (err no_activity_recorded) rest e h = inr h
  port-IsActive now s p (err _) rest e h = absurd cc

  keep_draining-IsActive :
      (now : ℤ) (s : A.State) (ps : List ℕ)
      → keep_draining A now s ps ≡ true
      → Any (IsActive now s) ps
  unfolding keep_draining
  keep_draining-IsActive now s [] h = absurd cc
  keep_draining-IsActive now s (p ∷ ps) h =
      elim (port-IsActive now s p (A.last_activity s p) (keep_draining A now s ps) refl h) [
        | inl i ↦ inl i
        | inr r ↦ inr (keep_draining-IsActive now s ps r)
      ]

  -- What a drain check comes to: the container exits; or it is checked again in a second, the minute
  -- not being over and one of its ports having been active in the last second.
  pub data Drains (w : Clock) (s : A.State) (c : Container A.State)
      : Outcome A.State (Unit {0}) → Type 0 where
    exits : Drains w s c (ok tt, exit_ok A w c)
    checks_again :
        ltb_ℤ (pos minute) (w.now -ℤ c.drain_start_time) ≡ false
        → Any (IsActive w.now s) c.cfg.ports
        → Drains w s c (ok tt, record c { drain_timer = armed (pos second) })

  -- A drain check of a container with an activator makes the container exit, or is repeated in a
  -- second; it is repeated only while a minute has not passed since the start of the drain and one of
  -- the configured ports was active in the last second.
  pub handle_drain_check-Drains :
      (w : Clock) (s : A.State) (c : Container A.State)
      → c.activator ≡ some s
      → Drains w s c (handle_drain_check A w c)
  unfolding handle_drain_check drain_ports
  handle_drain_check-Drains w s c a =
      if-cases (Drains w s c) (ltb_ℤ (pos minute) (w.now -ℤ c.drain_start_time)) (λ _. exits)
        (λ early.
          subst (λ o. Drains w s c (drain_ports A w o c)) (sym a)
            (if-cases (Drains w s c) (keep_draining A w.now s c.cfg.ports)
              (λ k. checks_again early (keep_draining-IsActive w.now s c.cfg.ports k))
              (λ _. exits)))
