-- ===== src/Manager/Trackers.antt =====
-- The trackers of the capacity of a node (manager/capacity/capacity.go, noop.go and
-- system_memory.go), but for the Prometheus gauges that repeat what they hold. A quantity is its
-- value in billionths.
use zeropod.Base.{ℕ, suc, ◌+◌, ◌*◌, ◌/◌, ◌-◌, ◌^◌, Bool, true, false, Option, none, some, ltb}

pub data ResourceName : Type 0 where
  cpu memory : ResourceName

-- The state `T` is that of the implementation. `threshold` is the product of a number of
-- thousandths with the threshold, which the code computes with floats.
pub record Tracker (T : Type 0) : Type 0 where
  pub capacity : ResourceName → T → ℕ
  pub requested : ResourceName → T → ℕ
  pub set_capacity : ResourceName → ℕ → T → T
  pub set_requested : ResourceName → ℕ → T → T
  pub threshold : ℕ → ℕ
  pub inc_evicted : T → T
  pub use_checkpoint_memory : Bool

-- NodeTracker, with the count of evictions of its metrics.
pub record NodeTracker : Type 0 where
  pub capacity_cpu : ℕ
  pub capacity_memory : ℕ
  pub requested_cpu : ℕ
  pub requested_memory : ℕ
  pub evicted : ℕ

abbrev pub node_tracker : (ℕ → ℕ) → Tracker NodeTracker
node_tracker threshold = record {
  capacity = λ r t. elim r [ cpu ↦ t.capacity_cpu | memory ↦ t.capacity_memory ];
  requested = λ r t. elim r [ cpu ↦ t.requested_cpu | memory ↦ t.requested_memory ];
  set_capacity = λ r q t. elim r [
    | cpu ↦ record t { capacity_cpu = q }
    | memory ↦ record t { capacity_memory = q }
  ];
  set_requested = λ r q t. elim r [
    | cpu ↦ record t { requested_cpu = q }
    | memory ↦ record t { requested_memory = q }
  ];
  threshold = threshold;
  inc_evicted = λ t. record t { evicted = suc t.evicted };
  use_checkpoint_memory = false;
}

-- A threshold of 1.0
abbrev pub noop_tracker : Tracker (Unit {0})
noop_tracker = record {
  capacity = λ r t. 0;
  requested = λ r t. 0;
  set_capacity = λ r q t. t;
  set_requested = λ r q t. t;
  threshold = λ q. q;
  inc_evicted = λ t. t;
  use_checkpoint_memory = false;
}

-- The bytes of memory of the node, in all and used, where /proc/meminfo could be read.
pub record SysMemory : Type 0 where
  pub total_bytes : ℕ
  pub used_bytes : ℕ

abbrev pub get_total_node_memory : Option SysMemory → ℕ
get_total_node_memory none = 0
get_total_node_memory (some m) = m.total_bytes * 10 ^ 9

abbrev pub get_current_node_memory_usage : Option SysMemory → ℕ
get_current_node_memory_usage none = 0
get_current_node_memory_usage (some m) = m.used_bytes * 10 ^ 9

-- The file is read at each call: `stats` is what it says in a state.
abbrev pub system_memory_tracker : {T : Type 0} → (T → Option SysMemory) → Tracker T → Tracker T
system_memory_tracker stats t = record t {
  capacity = λ r s. elim r [ memory ↦ get_total_node_memory (stats s) | cpu ↦ t.capacity cpu s ];
  requested =
      λ r s. elim r [ memory ↦ get_current_node_memory_usage (stats s) | cpu ↦ t.requested cpu s ];
  set_capacity = λ r q s. elim r [
    | memory ↦ t.set_capacity memory (get_total_node_memory (stats s)) s
    | cpu ↦ t.set_capacity cpu q s
  ];
  set_requested = λ r q s. elim r [
    | memory ↦ t.set_requested memory (get_current_node_memory_usage (stats s)) s
    | cpu ↦ t.set_requested cpu q s
  ];
  use_checkpoint_memory = true;
}

-- Quantity.MilliValue rounds up.
unfoldable pub milli_value : ℕ → ℕ
milli_value q = (q + (10 ^ 6 - 1)) / 10 ^ 6

unfoldable pub multiply_quantity : ℕ → (ℕ → ℕ) → ℕ
unfolding milli_value
multiply_quantity q factor = factor (milli_value q) * 10 ^ 6

module _ {T : Type 0} where
  unfoldable pub threshold_of : Tracker T → ResourceName → T → ℕ
  unfolding multiply_quantity
  threshold_of tr r t = multiply_quantity (tr.capacity r t) tr.threshold

  -- CmpThreshold(...) > 0
  unfoldable pub is_above_threshold : Tracker T → ResourceName → T → ℕ → Bool
  unfolding threshold_of
  is_above_threshold tr r t q = ltb (threshold_of tr r t) q

  -- CmpThreshold(...) == -1
  unfoldable pub is_below_threshold : Tracker T → ResourceName → T → ℕ → Bool
  unfolding threshold_of
  is_below_threshold tr r t q = ltb q (threshold_of tr r t)
