-- ===== src/Shim/Evac.antt =====
-- Evacuating a container and draining its connections (shim/evac.go).
pub mod Drain
use zeropod.Base.{
  ℕ, Bool, true, false, Option, none, some, List, [], ◌∷◌, Result, ok, err, if◌then◌else◌,
}
use zeropod.Base.Int.{ℤ, pos, ltb_ℤ, ◌-ℤ◌, clamp64}
use zeropod.Config.{second, minute, live_migration_enabled}
use zeropod.Activator.Interface.{Activator, ActivatorError, no_activity_recorded}
use zeropod.Shim.Types.{Container, Outcome, ShimError, failed, nil_pointer, scaled_down, armed}
use zeropod.Shim.Phase.{Clock, set_phase}
use zeropod.Shim.Init.{exit_ok}

-- What the loop of a live evacuation waits for: the checkpoint fails or is done, the lazy pages are
-- served and the node is asked to evacuate, or nothing happens for ten seconds.
pub data EvacEvent : Type 0 where
  evac_timeout checkpoint_error checkpointed : EvacEvent
  lazy_started : Bool → EvacEvent

-- `prepares` stands for the calls before the loop or, of a container that is scaled down, the
-- request to prepare; `evacuates` for the request to evacuate.
pub record EvacCalls : Type 0 where
  pub clock : Clock
  pub prepares : Bool
  pub evacuates : Bool
  pub events : List EvacEvent

unfoldable pub evac_scaled_down : EvacCalls → Result ShimError (Unit {0})
evac_scaled_down w = if w.prepares then (if w.evacuates then ok tt else err failed) else err failed

module _ {S : Type 0} where
  -- The loop of a live evacuation. Where no event is left it times out.
  unfoldable pub evac_loop : Clock → List EvacEvent → Container S → Outcome S (Unit {0})
  evac_loop w [] c = (err failed, c)
  evac_loop w (evac_timeout ∷ es) c = (err failed, c)
  evac_loop w (checkpoint_error ∷ es) c = (err failed, c)
  evac_loop w (lazy_started true ∷ es) c = evac_loop w es c
  evac_loop w (lazy_started false ∷ es) c = (err failed, c)
  evac_loop w (checkpointed ∷ es) c = (ok tt, set_phase w scaled_down (pos 0) c)

  -- The deferred cleanup removes the image, whatever the outcome.
  unfoldable pub live_evac : EvacCalls → Container S → Outcome S (Unit {0})
  unfolding evac_loop
  live_evac w c =
      let (r, c') = evac_loop w.clock w.events c in
      if w.prepares
      then (r, record c' { image = false })
      else (err failed, record c { image = false })

  -- The timer of the drain is set, whether it was there before or not.
  unfoldable pub start_connection_drain : Clock → Container S → Container S
  start_connection_drain w c = record c {
    drain_start_time = w.now;
    drain_timer = armed (pos second);
  }

  -- The drain is started by a deferred call.
  unfoldable pub evac_once : EvacCalls → Bool → Container S → Outcome S (Unit {0})
  unfolding live_evac evac_scaled_down start_connection_drain
  evac_once w true c =
      (evac_scaled_down w, record (start_connection_drain w.clock c) { evac_drain_started = true })
  evac_once w false c = if live_migration_enabled c.cfg then live_evac w c else (ok tt, c)

  -- Only the first call evacuates; each later one returns no error.
  unfoldable pub evac : EvacCalls → Bool → Container S → Outcome S (Unit {0})
  unfolding evac_once
  evac w is_down c =
      if c.evacuated then (ok tt, c) else evac_once w is_down (record c { evacuated = true })

-- One round of the loop over the ports, given the outcome of the rounds after it: a port that was
-- active in the last second ends it, as does an error but the one for no activity.
unfoldable pub drain_port : ℤ → Result ActivatorError ℤ → Bool → Bool
drain_port now (ok last) rest = if ltb_ℤ (clamp64 (now -ℤ last)) (pos second) then true else rest
drain_port now (err no_activity_recorded) rest = rest
drain_port now (err _) rest = false

module _ (A : Activator) where
  -- Whether the loop over the ports asks to wait.
  unfoldable pub keep_draining : ℤ → A.State → List ℕ → Bool
  unfolding drain_port
  keep_draining now s [] = false
  keep_draining now s (p ∷ ps) = drain_port now (A.last_activity s p) (keep_draining now s ps)

  -- A nil activator panics where it is first asked, at the first port.
  unfoldable pub drain_ports :
      Clock → Option A.State → Container A.State → Outcome A.State (Unit {0})
  unfolding keep_draining
  drain_ports w none c = elim c.cfg.ports [
    | [] ↦ (ok tt, exit_ok A w c)
    | _ ∷ _ ↦ (err nil_pointer, c)
  ]
  drain_ports w (some s) c =
      if keep_draining w.now s c.cfg.ports
      then (ok tt, record c { drain_timer = armed (pos second) })
      else (ok tt, exit_ok A w c)

  unfoldable pub handle_drain_check : Clock → Container A.State → Outcome A.State (Unit {0})
  unfolding drain_ports
  handle_drain_check w c =
      if ltb_ℤ (pos minute) (w.now -ℤ c.drain_start_time)
      then (ok tt, exit_ok A w c)
      else drain_ports w c.activator c
