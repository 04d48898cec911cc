-- ===== src/Shim/Lifecycle/Report.antt =====
-- What the lifecycle looks at in a container, and when that is sound.
use zeropod.Base.{
  ℕ, Text, ◌≤◌, ◌≡◌, refl, sym, subst, ◌∙◌, ap, Bool, true, false, not, Option, some, List, All,
  length, length-append, [], ◌∷◌, arith, contains_num,
}
use zeropod.Base.Int.{ℤ}
use zeropod.Activator.Interface.{Activator}
use zeropod.Shim.Types.{
  Container, ContainerPhase, ContainerStatus, scaled_down, running, checkpoint_failed,
  restore_failed,
}
use zeropod.Shim.Phase.{
  Clock, set_phase_notify, send_event, send_fail_event, send_dry_run_event, count_failure,
}

-- A full channel drops the event, so that it never holds more than its capacity.
pub send_event-events_fit :
    {S : Type 0} (e : ContainerStatus) (c : Container S)
    → length c.events ≤ c.event_capacity
    → length (send_event e c).events ≤ c.event_capacity
unfolding send_event
send_event-events_fit e c h = ground (arith, length-append c.events (e ∷ []))

pub record Report (S : Type 0) : Type 0 where
  pub down : Bool
  pub running : Bool
  pub events : List ContainerStatus
  pub event_capacity : ℕ
  pub activator : Option S
  pub pid : Option ℕ
  pub checkpointed_pids : List ℕ

abbrev pub report : {S : Type 0} → Container S → Report S
report c = record {
  down = c.is_scaled_down;
  running = c.metrics.running;
  events = c.events;
  event_capacity = c.event_capacity;
  activator = c.activator;
  pid = c.pid;
  checkpointed_pids = c.checkpointed_pids;
}

abbrev pub Redirects : (A : Activator) → A.State → Type 0
Redirects A s = All (λ p. A.is_redirected s p ≡ true) (A.ports s)

-- The phase is the one that the metrics report, the channel holds at most its capacity, and of a
-- container that is scaled down every port is redirected and the exit of its process is expected.
pub record IsSound (A : Activator) (r : Report A.State) : Type 0 where
  pub phase_reported : r.running ≡ not r.down
  pub events_fit : length r.events ≤ r.event_capacity
  pub redirects : r.down ≡ true → (s : A.State) → r.activator ≡ some s → Redirects A s
  pub expects_exit :
      r.down ≡ true → (pid : ℕ) → r.pid ≡ some pid → contains_num r.checkpointed_pids pid ≡ true

abbrev pub Sound : (A : Activator) → Container A.State → Type 0
Sound A c = IsSound A (report c)

-- A container that runs, and is reported as running.
pub record IsUp {S : Type 0} (r : Report S) : Type 0 where
  pub is_up : r.down ≡ false
  pub reported : r.running ≡ true
  pub fits : length r.events ≤ r.event_capacity

pub report-count_failure :
    {S : Type 0} (p : ContainerPhase) (c : Container S) → report c ≡ report (count_failure p c)
unfolding count_failure
report-count_failure checkpoint_failed c = refl
report-count_failure restore_failed c = refl
report-count_failure _ c = refl

module _ (A : Activator) where
  pub up-IsSound : (r : Report A.State) → IsUp r → IsSound A r
  up-IsSound r u = record {
    phase_reported = u.reported ∙ sym (ap not u.is_up);
    events_fit = u.fits;
    redirects = λ e. absurd (cc u.is_up);
    expects_exit = λ e. absurd (cc u.is_up);
  }

  pub sound-IsUp : (r : Report A.State) → IsSound A r → r.down ≡ false → IsUp r
  sound-IsUp r h e = record {
    is_up = e;
    reported = h.phase_reported ∙ ap not e;
    fits = h.events_fit;
  }

  pub notify_running-IsUp :
      (w : Clock) (d : ℤ) (c : Container A.State)
      → length c.events ≤ c.event_capacity
      → IsUp (report (set_phase_notify w running d c))
  unfolding set_phase_notify
  notify_running-IsUp w d c h = record {
    is_up = refl;
    reported = refl;
    fits = send_event-events_fit _ c h;
  }

  pub notify_down-IsSound :
      (w : Clock) (d : ℤ) (s : A.State) (pid : ℕ) (c : Container A.State)
      → length c.events ≤ c.event_capacity
      → c.activator ≡ some s
      → Redirects A s
      → c.pid ≡ some pid
      → contains_num c.checkpointed_pids pid ≡ true
      → Sound A (set_phase_notify w scaled_down d c)
  unfolding set_phase_notify send_event
  notify_down-IsSound w d s pid c h a on q k = record {
    phase_reported = refl;
    events_fit = send_event-events_fit _ c h;
    redirects = λ _ s' e. subst (Redirects A) (cc a) on;
    expects_exit = λ _ pid' e. cc (q, k);
  }

  -- An event changes nothing but the events.
  pub send_event-IsSound :
      (e : ContainerStatus) (c : Container A.State) → Sound A c → Sound A (send_event e c)
  unfolding send_event
  send_event-IsSound e c h = record {
    phase_reported = h.phase_reported;
    events_fit = send_event-events_fit e c h.events_fit;
    redirects = h.redirects;
    expects_exit = h.expects_exit;
  }

  pub send_fail_event-IsSound :
      (w : Clock) (p : ContainerPhase) (l : Text) (c : Container A.State)
      → Sound A c
      → Sound A (send_fail_event w p l c)
  unfolding send_fail_event
  send_fail_event-IsSound w p l c h =
      send_event-IsSound _ (count_failure p c) (subst (IsSound A) (report-count_failure p c) h)

  pub send_dry_run_event-IsSound :
      (w : Clock) (l : Text) (c : Container A.State)
      → Sound A c
      → Sound A (send_dry_run_event w l c)
  unfolding send_dry_run_event
  send_dry_run_event-IsSound w l c h = send_event-IsSound _ c h
