-- ===== src/Tests/Reuses.antt =====
-- The theorems on the wakes of the SO_REUSEPORT activator, for one port.
use zeropod.Base.{ℕ, ◌≡◌, refl, All, Text, true, false, none, some, [], ◌∷◌, codes, ok}
use zeropod.Activator.Reuse.{Reuse, ReuseCalls, woken, blocked, wake, reset}
use zeropod.Activator.Reuse.Registered.{app_of}
use zeropod.Activator.Reuse.Listening.{Listens, reset-Listens}
use zeropod.Activator.Reuse.Wakes.{IsAwake, run, resets, reset-wakes}

abbrev calls : ReuseCalls
calls = record {
  restore_hook = some (ok 7);
  find = λ pid.
      ok (record { port = 80; network = codes "tcp"; uid = 0; orig_fd = 3; has_fd = true } ∷ []);
  loads = λ p. true;
  attaches = λ p. true;
  listens_wake = λ p. true;
  listens_probe = λ p. true;
  attaches_wake = λ p. true;
  attaches_probe = λ p. true;
  left_open = λ p. false;
  clears = λ m. none;
  ignores = true;
  tracks = λ p. true;
  time_of = λ n. none;
}

abbrev idle : Reuse
idle = record {
  ports = 80 ∷ [];
  groups =
      record {
        port = 80;
        network = codes "tcp";
        uid = 0;
        app_fd = 3;
        is_wake_open = false;
        is_probe_open = false;
      }
      ∷ [];
  is_started = true;
  is_register_locked = false;
  registered_wake = false;
  tracker = [];
}

reset-wakes_example :
    IsAwake calls 7 (reset calls idle).1 (wake calls (reset calls idle).1).1
    × ((wake calls (wake calls (reset calls idle).1).1).0 ≡ woken)
    × ((wake calls (run (resets calls ∷ []) (wake calls (wake calls (reset calls idle).1).1).1)).0
        ≡ blocked)
unfolding wake reset
reset-wakes_example = reset-wakes calls calls calls 6 6 idle (resets calls ∷ []) refl refl refl refl

-- The hook gives no process, as without capacity.
abbrev no_process : ReuseCalls
no_process = record calls { restore_hook = some (ok 0) }

reset-Listens_example :
    All (Listens true true) (reset calls idle).1.groups
    × ((p : ℕ) (n : Text) → app_of p n (reset calls idle).1.groups ≡ app_of p n idle.groups)
    × ((reset calls idle).1.registered_wake ≡ false)
    × All (Listens false true) (wake no_process (reset calls idle).1).1.groups
unfolding wake reset
reset-Listens_example = reset-Listens calls no_process idle refl refl
