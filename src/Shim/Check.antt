-- ===== src/Shim/Check.antt =====
-- What runs when the scale-down timer fires: scaleDownCheck and reloadConfig of shim/container.go.
pub mod Continues
use zeropod.Base.{ℕ, Bool, true, Option, none, some, List, [], ◌∷◌, Result, ok, err, if◌then◌else◌}
use zeropod.Base.Int.{ℤ, pos, eqb_ℤ, ltb_ℤ, ◌-ℤ◌, wrap64, clamp64}
use zeropod.Config.{Config, ConfigError, Env, Spec, new_config}
use zeropod.Activator.Interface.{Activator, ActivatorError}
use zeropod.Shim.Types.{Container, Outcome, failed, nil_pointer, idle, armed}
use zeropod.Shim.Timers.{init_retry, last_activity}
use zeropod.Shim.ScaleDown.{Calls, scale_down}

-- What a reload reads: the file's modification time (before and after), the spec in the bundle, the
-- surroundings of NewConfig, and whether the activator takes the new options.
pub record Reload : Type 0 where
  pub last_modified : ℤ
  pub last_modified_after : ℤ
  pub bundle_spec : Option Spec
  pub env : Env
  pub activator_reloads : Bool

-- Ports that were discovered are kept where the new configuration has none.
unfoldable pub keep_ports : List ℕ → Config → Config
keep_ports ports cfg = elim cfg.ports [ [] ↦ record cfg { ports = ports } | _ ∷ _ ↦ cfg ]

module _ {S : Type 0} where
  -- The new configuration is in place before the activator is told.
  unfoldable pub use_config : Reload → Config → Container S → Outcome S (Unit {0})
  unfolding keep_ports
  use_config w cfg c =
      let changed : Container S = record c { cfg = keep_ports c.cfg.ports cfg } in
      if w.activator_reloads
      then (ok tt, record changed { last_config_reload = w.last_modified_after })
      else (err failed, changed)

  unfoldable pub read_config :
      Reload → Result ConfigError Config → Container S → Outcome S (Unit {0})
  unfolding use_config
  read_config w (ok cfg) c = use_config w cfg c
  read_config w (err e) c = (err failed, c)

  unfoldable pub reload : Reload → Option ℕ → Option Spec → Container S → Outcome S (Unit {0})
  unfolding read_config
  reload w none spec c = (err nil_pointer, c)
  reload w (some pid) none c = (err failed, c)
  reload w (some pid) (some spec) c = read_config w (new_config w.env spec) c

  unfoldable pub reload_config : Reload → Container S → Outcome S (Unit {0})
  unfolding reload
  reload_config w c =
      if eqb_ℤ w.last_modified c.last_config_reload
      then (ok tt, c)
      else reload w c.pid w.bundle_spec c

-- time.Since at a reading of the clock, which saturates.
abbrev pub since : ℤ → ℤ → ℤ
since now last = clamp64 (now -ℤ last)

module _ {S : Type 0} where
  -- An error of the reload is logged; a panic ends the shim.
  unfoldable pub log_reload : Outcome S (Unit {0}) → Outcome S (Unit {0})
  log_reload (err nil_pointer, c) = (err nil_pointer, c)
  log_reload (_, c) = (ok tt, c)

  -- An error of the scale down disables checkpointing and tries again later.
  unfoldable pub retry_scale_down : Outcome S (Unit {0}) → Outcome S (Unit {0})
  retry_scale_down (ok u, c) = (ok tt, c)
  retry_scale_down (err nil_pointer, c) = (err nil_pointer, c)
  retry_scale_down (err e, c) = (
    ok tt,
    record c {
      cfg = record c.cfg { disable_checkpointing = true };
      scale_down_timer = armed c.cfg.scale_down_duration;
    },
  )

  -- The branch with recent activity: `t` is the second reading of the clock.
  unfoldable pub delay_scale_down : Reload → ℤ → ℤ → Container S → Outcome S (Unit {0})
  unfolding reload_config log_reload
  delay_scale_down r t last c =
      let delay = wrap64 (c.cfg.scale_down_duration -ℤ since t last) in
      if ltb_ℤ delay (pos 0)
      then (ok tt, c)
      else log_reload (reload_config r (record c { scale_down_timer = armed delay }))

  unfoldable pub delay_until_started : Container S → Container S
  delay_until_started c = let (b, c') = init_retry c in record c' { scale_down_timer = armed b }

module _ (A : Activator) where
  -- Without activity, or with an error, the container scales down.
  unfoldable pub check_activity :
      Calls
      → Reload
      → ℤ
      → ℤ
      → Result ActivatorError ℤ
      → Container A.State
      → Outcome A.State (Unit {0})
  unfolding delay_scale_down retry_scale_down
  check_activity w r t1 t2 (err e) c = retry_scale_down (scale_down A w c)
  check_activity w r t1 t2 (ok last) c =
      if ltb_ℤ (since t1 last) c.cfg.scale_down_duration
      then delay_scale_down r t2 last c
      else retry_scale_down (scale_down A w c)

  unfoldable pub check_started :
      Calls → Reload → ℤ → ℤ → Option A.State → Container A.State → Outcome A.State (Unit {0})
  unfolding check_activity delay_until_started
  check_started w r t1 t2 none c = (err nil_pointer, c)
  check_started w r t1 t2 (some s) c =
      if A.started s
      then check_activity w r t1 t2 (last_activity A c) c
      else (ok tt, delay_until_started c)

  unfoldable pub scale_down_check :
      Calls → Reload → ℤ → ℤ → Container A.State → Outcome A.State (Unit {0})
  unfolding check_started
  scale_down_check w r t1 t2 c =
      check_started w r t1 t2 c.activator (record c { scale_down_timer = idle })
