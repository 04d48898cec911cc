-- ===== src/Manager/Events.antt =====
-- The handler of status events that records an event of the pod (manager/event_creator.go). The
-- names of the host and of the node and the printing of durations come from Go's library; the
-- event's reference to the pod has no UID, the pods of Api/Objects having none.
use zeropod.Base.{false, Option, none, some, [], ◌++◌, Text, codes, ok, ℕ, if◌then◌else◌, ◌≡◌}
use zeropod.Base.Int.{ℤ, pos, eqb_ℤ}
use zeropod.Shim.Types.{
  ContainerPhase, ContainerStatus, scaled_down, running, stopping, checkpoint_failed,
  restore_failed,
}
use zeropod.Api.Objects.{Key, KubePod}
use zeropod.Kube.{Call, give}

abbrev controller_name : Text
controller_name = codes "zeropod.ctrox.dev/manager"

abbrev event_name_prefix : Text
event_name_prefix = codes "zeropod-status-event-"

-- corev1.Event, the fields that the handler sets; the three times are the same.
record PodEvent : Type 0 where
  generate_name : Text
  namespace : Text
  reason : Text
  time : ℤ
  message : Text
  pod : Key
  pod_version : ℕ
  field_path : Text
  reporting_controller : Text
  reporting_instance : Text
  action : Text
  component : Text
  host : Text

record Description : Type 0 where
  reason : Text
  message : Text

record EventCreator (S : Type 0) : Type 0 where
  create : PodEvent → Call S (Unit {0})
  -- os.Hostname
  hostname : Option Text
  node_name : Text
  duration_text : ℤ → Text

module _ (duration_text : ℤ → Text) where
  -- Nothing for a container that was started without being restored.
  unfoldable restored_in : Text → Option ℤ → Option Description
  restored_in name none = none
  restored_in name (some d) =
      if eqb_ℤ d (pos 0)
      then none
      else some record {
        reason = codes "Running";
        message = codes "Restored container " ++ name ++ codes " in " ++ duration_text d;
      }

  abbrev in_duration : Option ℤ → Text
  in_duration none = []
  in_duration (some d) = codes " in " ++ duration_text d

  unfoldable describe_phase : ContainerPhase → ContainerStatus → Option Description
  unfolding restored_in
  describe_phase running status = restored_in status.name status.event_duration
  describe_phase scaled_down status = some record {
    reason = codes "Scaled down";
    message = codes "Scaled down container " ++ status.name ++ in_duration status.event_duration;
  }
  describe_phase checkpoint_failed status = some record {
    reason = codes "Checkpoint failed";
    message = codes "Checkpoint failed for container " ++ status.name;
  }
  describe_phase restore_failed status = some record {
    reason = codes "Restore failed";
    message = codes "Restore failed for container " ++ status.name;
  }
  describe_phase stopping status = some record { reason = []; message = [] }

  unfoldable describe : ContainerStatus → Option Description
  unfolding describe_phase
  describe status =
      if status.dry_run
      then some record {
        reason = codes "Dry run";
        message = codes "Dry-run: container " ++ status.name ++ codes " " ++ status.event_log;
      }
      else describe_phase status.phase status

module _ {S : Type 0} (creator : EventCreator S) where
  abbrev instance_name : Option Text → Text
  instance_name (some name) = name
  instance_name none = creator.node_name

  unfoldable event_for : ContainerStatus → KubePod → Description → PodEvent
  event_for status pod d = record {
    generate_name = event_name_prefix;
    namespace = pod.key.namespace;
    reason = d.reason;
    time = status.event_time;
    message = d.message;
    pod = pod.key;
    pod_version = pod.version;
    field_path = codes "spec.containers{" ++ status.name ++ codes "}";
    reporting_controller = controller_name;
    reporting_instance = instance_name creator.hostname;
    action = d.reason;
    component = controller_name;
    host = creator.node_name;
  }

  unfoldable create_event : ContainerStatus → KubePod → Option Description → Call S (Unit {0})
  unfolding event_for
  create_event status pod none = give tt
  create_event status pod (some d) = creator.create (event_for status pod d)

  -- EventCreator.Handle
  unfoldable handle_event : ContainerStatus → KubePod → Call S (Unit {0})
  unfolding create_event
  handle_event status pod = create_event status pod (describe creator.duration_text status)

  -- A container that was started without being restored makes no event, unless it is a dry run.
  handle_event-started :
      (status : ContainerStatus) (pod : KubePod) (s : S)
      → status.dry_run ≡ false
      → status.phase ≡ running
      → status.event_duration ≡ none
      → handle_event status pod s ≡ (ok tt, s)
  unfolding handle_event describe describe_phase restored_in create_event
  handle_event-started status pod s d p e = simp (d, p, e)
