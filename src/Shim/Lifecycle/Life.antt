-- ===== src/Shim/Lifecycle/Life.antt =====
-- What holds throughout the life of a registered container.
use zeropod.Base.{
  Bool-cases, inl, inr, contains_num, ◌∙◌, ap, Option, ℕ, ◌≡◌, ◌≤◌, length, refl, true, false, not,
  none, some,
}
use zeropod.Activator.Interface.{Activator}
use zeropod.Shim.Types.{Container}
use zeropod.Shim.Phase.{checkpointed_pid}
use zeropod.Shim.ScaleDown.{Calls}
use zeropod.Shim.Lifecycle.{Steps}
use zeropod.Shim.Lifecycle.Report.{Redirects, Sound}
use zeropod.Shim.Init.{InitCalls, register}
use zeropod.Shim.Lifecycle.Always.{life-IsSound}

-- Every port of an activator, if there is one, is redirected.
abbrev pub AllRedirected : (A : Activator) → Option A.State → Type 0
AllRedirected A none = Unit
AllRedirected A (some s) = Redirects A s

-- The exit of a process, if there is one, is expected.
abbrev pub ExitExpected : {S : Type 0} → Option ℕ → Container S → Type 0
ExitExpected none c = Unit
ExitExpected (some pid) c = checkpointed_pid pid c ≡ true

-- The two phases that a container can be in.
pub data InPhase (A : Activator) (c : Container A.State) : Type 0 where
  is_running : c.is_scaled_down ≡ false → c.metrics.running ≡ true → InPhase A c
  is_down :
      c.is_scaled_down ≡ true
      → c.metrics.running ≡ false
      → AllRedirected A c.activator
      → ExitExpected c.pid c
      → InPhase A c

module _ (A : Activator) where
  known-AllRedirected :
      (o : Option A.State) → ((s : A.State) → o ≡ some s → Redirects A s) → AllRedirected A o
  known-AllRedirected none h = tt
  known-AllRedirected (some s) h = h s refl

  known-ExitExpected :
      (o : Option ℕ) (c : Container A.State)
      → ((pid : ℕ) → o ≡ some pid → contains_num c.checkpointed_pids pid ≡ true)
      → ExitExpected o c
  unfolding checkpointed_pid
  known-ExitExpected none c h = tt
  known-ExitExpected (some pid) c h = h pid refl

  Sound-InPhase : (c : Container A.State) → Sound A c → InPhase A c
  Sound-InPhase c h = elim (Bool-cases c.is_scaled_down) [
    | inl d ↦
        is_down d (h.phase_reported ∙ ap not d) (known-AllRedirected c.activator (h.redirects d))
          (known-ExitExpected c.pid c (h.expects_exit d))
    | inr u ↦ is_running u (h.phase_reported ∙ ap not u)
  ]

  -- After any sequence of steps of a container that was registered, with or without an error,
  -- whose start was not skipped and whose events fit its channel: it is running and reported as
  -- running; or it is scaled down and reported as not running, with every port of its activator
  -- redirected and the exit of its process expected. Its events still fit.
  pub life-InPhase :
      (w : InitCalls A.State) (calls : Calls) (pid : ℕ) (c d : Container A.State)
      → c.skip_start ≡ false
      → length c.events ≤ c.event_capacity
      → Steps A (register A w calls pid true c).1 d
      → InPhase A d × (length d.events ≤ d.event_capacity)
  life-InPhase w calls pid c d k f ss =
      let h = life-IsSound A w calls pid c d k f ss in (Sound-InPhase d h, h.events_fit)
