-- ===== src/Shim/Phase.antt =====
-- Phases, metrics and status events: setPhase to sendEvent and Status of shim/container.go, and
-- updateCheckpointMemoryBytes of shim/metrics.go.
use zeropod.Base.{
  ℕ, ◌+◌, ◌*◌, ◌%◌, ◌^◌, Bool, true, false, Option, none, some, List, [], ◌∷◌, ◌++◌, Text, ltb,
  ◌==◌, length, if◌then◌else◌, contains_num,
}
use zeropod.Base.Int.{ℤ, pos, eqb_ℤ}
use zeropod.Shim.Types.{
  Container, ContainerMetrics, ContainerPhase, ContainerStatus, scaled_down, running,
  checkpoint_failed, restore_failed,
}

-- What the world answers: the clock, how durations print, and the pages that CRIU's dump
-- statistics count, if they can be read, at a page size.
pub record Clock : Type 0 where
  pub now : ℤ
  pub duration_text : ℤ → Text
  pub pages_written : Option ℕ
  pub page_size : ℕ

abbrev pub or_else {ℓ} : {A : Type ℓ} → Option A → A → A
or_else none d = d
or_else (some a) d = a

unfoldable pub remove_pid : ℕ → List ℕ → List ℕ
remove_pid pid [] = []
remove_pid pid (p ∷ ps) = let rest = remove_pid pid ps in if p == pid then rest else p ∷ rest

module _ {S : Type 0} where
  unfoldable pub update_checkpoint_memory_bytes : Clock → Container S → Container S
  update_checkpoint_memory_bytes w c = record c {
    metrics = record c.metrics {
      checkpoint_memory_bytes = elim w.pages_written [
        | none ↦ c.metrics.checkpoint_memory_bytes
        | some n ↦ n * w.page_size % 2 ^ 64
      ];
    };
  }

  unfoldable pub set_phase : Clock → ContainerPhase → ℤ → Container S → Container S
  unfolding update_checkpoint_memory_bytes
  set_phase w running d c = record c {
    is_scaled_down = false;
    metrics = record c.metrics {
      last_restore = if eqb_ℤ d (pos 0) then c.metrics.last_restore else some w.now;
      running = true;
    };
  }
  set_phase w scaled_down d c = update_checkpoint_memory_bytes w (record c {
    is_scaled_down = true;
    metrics = record c.metrics {
      last_checkpoint = if eqb_ℤ d (pos 0) then c.metrics.last_checkpoint else some w.now;
      running = false;
    };
  })
  set_phase w _ d c = c

  -- A full channel drops the event.
  unfoldable pub send_event : ContainerStatus → Container S → Container S
  send_event e c = record c {
    events = if ltb (length c.events) c.event_capacity then c.events ++ e ∷ [] else c.events;
  }

  unfoldable pub status : Clock → Container S → ContainerStatus
  status w c = record {
    id = c.id;
    name = c.cfg.container_name;
    pod_name = c.cfg.pod_name;
    pod_namespace = c.cfg.pod_namespace;
    phase = if c.is_scaled_down then scaled_down else running;
    event_time =
        let restored = or_else c.metrics.last_restore w.now in
        if c.is_scaled_down then or_else c.metrics.last_checkpoint restored else restored;
    event_duration =
        if c.is_scaled_down
        then c.metrics.last_checkpoint_duration
        else c.metrics.last_restore_duration;
    event_log = [];
    dry_run = false;
  }

  -- A duration of zero is not recorded.
  unfoldable pub record_duration : ContainerPhase → ℤ → Container S → Container S
  record_duration running d c = record c {
    metrics = record c.metrics {
      last_restore_duration = if eqb_ℤ d (pos 0) then c.metrics.last_restore_duration else some d;
    };
  }
  record_duration scaled_down d c = record c {
    metrics = record c.metrics {
      last_checkpoint_duration =
          if eqb_ℤ d (pos 0) then c.metrics.last_checkpoint_duration else some d;
    };
  }
  record_duration _ d c = c

  unfoldable pub set_phase_notify : Clock → ContainerPhase → ℤ → Container S → Container S
  unfolding set_phase send_event status record_duration
  set_phase_notify w p d c =
      let changed = record_duration p d (set_phase w p d c) in send_event (status w changed) changed

  unfoldable pub count_failure : ContainerPhase → Container S → Container S
  count_failure checkpoint_failed c = record c {
    metrics = record c.metrics { checkpoint_errors = c.metrics.checkpoint_errors + 1 };
  }
  count_failure restore_failed c = record c {
    metrics = record c.metrics { restore_errors = c.metrics.restore_errors + 1 };
  }
  count_failure _ c = c

  unfoldable pub send_fail_event : Clock → ContainerPhase → Text → Container S → Container S
  unfolding count_failure send_event status
  send_fail_event w p log c =
      let counted = count_failure p c in
      send_event (record (status w counted) { phase = p; event_log = log }) counted

  unfoldable pub send_dry_run_event : Clock → Text → Container S → Container S
  unfolding send_event status
  send_dry_run_event w log c =
      send_event (record (status w c) { dry_run = true; event_time = w.now; event_log = log }) c

  -- The set of checkpointed pids.
  unfoldable pub checkpointed_pid : ℕ → Container S → Bool
  checkpointed_pid pid c = contains_num c.checkpointed_pids pid

  unfoldable pub add_checkpointed_pid : ℕ → Container S → Container S
  add_checkpointed_pid pid c = record c {
    checkpointed_pids =
        if contains_num c.checkpointed_pids pid
        then c.checkpointed_pids
        else pid ∷ c.checkpointed_pids;
  }

  unfoldable pub delete_checkpointed_pid : ℕ → Container S → Container S
  unfolding remove_pid
  delete_checkpointed_pid pid c = record c {
    checkpointed_pids = remove_pid pid c.checkpointed_pids;
  }

  -- GetMetrics returns the metrics and clears what they report once.
  unfoldable pub get_metrics : Container S → ContainerMetrics × Container S
  get_metrics c = (
    c.metrics,
    record c {
      metrics = record c.metrics {
        last_checkpoint = none;
        last_restore = none;
        last_checkpoint_duration = none;
        last_restore_duration = none;
        checkpoint_errors = 0;
        restore_errors = 0;
        dry_run_scale_downs = 0;
        dry_run_restores = 0;
      };
    },
  )
