-- ===== src/Activator/Reuse/Wakes.antt =====
-- Wakes of the activator of activator/reuse/activator.go after one another.
use zeropod.Base.{
  ℕ, suc, ◌≡◌, refl, sym, ◌∙◌, ap, subst, true, false, not, Option, some, List, [], ◌∷◌, Result, ok,
  err, length, ltb, ◌==◌, All, none, if-cases, if_true, if_false, arith,
}
use zeropod.Activator.Interface.{ActivatorError}
use zeropod.Activator.Reuse.Listening.{Listens, both_closed}
use zeropod.Activator.Reuse.Registered.{Registered, close-Registered, register_found-Registered}
use zeropod.Activator.Reuse.{
  Found, Reuse, ReuseCalls, Wake, woken, blocked, close_group, register_found, register_listeners,
  wake_registered, wake_process, wake_restored, wake, reset,
}

-- A wake or a reset, with what the kernel and the shim answer.
pub data Op : Type 0 where
  wakes resets : ReuseCalls → Op

abbrev pub run : List Op → Reuse → Reuse
run [] s = s
run (wakes w ∷ os) s = run os (wake w s).1
run (resets w ∷ os) s = run os (reset w s).1

register-keeps :
    (w : ReuseCalls) (x : Result ActivatorError (List Found)) (s : Reuse)
    → (register_found w x s).1.is_register_locked ≡ s.is_register_locked
unfolding register_found
register-keeps w (err e) s = refl
register-keeps w (ok []) s = refl
register-keeps w (ok (f ∷ fs)) s =
    if-cases {B = Result ActivatorError (Unit {0}) × Reuse}
      (λ r. r.1.is_register_locked ≡ s.is_register_locked) (ltb (length (f ∷ fs)) (length s.ports))
      (λ h. refl) (λ h. refl)

with_pid :
    (w : ReuseCalls) (n : ℕ) (s : Reuse)
    → w.restore_hook ≡ some (ok (suc n))
    → wake w s ≡ wake_process w (suc n) s
unfolding wake wake_restored
with_pid w n s h = ap (λ o. wake_restored w o s) h ∙ if_false {b = suc n == 0} _ (ground arith)

locked_out :
    (w : ReuseCalls) (n : ℕ) (s : Reuse)
    → w.restore_hook ≡ some (ok (suc n))
    → s.is_register_locked ≡ true
    → (wake w s).0 ≡ blocked
unfolding wake_process
locked_out w n s h l = ap (λ r. r.0) (with_pid w n s h ∙ if_true _ l)

-- The lock is not given back by any operation.
wake-keeps_lock :
    (w : ReuseCalls) (o : Option (Result ActivatorError ℕ)) (s : Reuse)
    → s.is_register_locked ≡ true
    → (wake_restored w o s).1.is_register_locked ≡ true
unfolding wake_restored wake_process close_group
wake-keeps_lock w none s l = l
wake-keeps_lock w (some (err e)) s l = l
wake-keeps_lock w (some (ok pid)) s l =
    if-cases {B = Wake × Reuse} (λ r. r.1.is_register_locked ≡ true) (pid == 0) (λ h. l)
      (λ h. subst {A = Wake × Reuse} (λ r. r.1.is_register_locked ≡ true) (sym (if_true _ l)) l)

run-keeps_lock :
    (os : List Op) (s : Reuse) → s.is_register_locked ≡ true → (run os s).is_register_locked ≡ true
unfolding reset wake
run-keeps_lock [] s l = l
run-keeps_lock (wakes w ∷ os) s l =
    run-keeps_lock os (wake w s).1 (wake-keeps_lock w w.restore_hook s l)
run-keeps_lock (resets w ∷ os) s l = run-keeps_lock os (reset w s).1 l

-- After the first wake for a process, from the state `old`: every listener is closed, the listeners of
-- the process are registered, and the lock is given back.
pub record IsAwake (w : ReuseCalls) (pid : ℕ) (old s : Reuse) : Type 0 where
  pub groups : All (Listens false false) s.groups
  pub apps : Registered (w.find pid) old s.groups
  pub registered : s.registered_wake ≡ true
  pub unlocked : s.is_register_locked ≡ false

first-IsAwake :
    (w : ReuseCalls) (n : ℕ) (s : Reuse)
    → w.restore_hook ≡ some (ok (suc n))
    → s.is_register_locked ≡ false
    → s.registered_wake ≡ false
    → (wake w s).0 ≡ woken
    → IsAwake w (suc n) s (wake w s).1
unfolding wake_process register_listeners wake_registered
first-IsAwake w n s h l f e =
    let path : wake w s ≡ wake_registered w (register_found w (w.find (suc n)) s) =
      with_pid w n s h ∙ if_false _ l ∙ if_true _ (ap not f) in
    subst (λ r. IsAwake w (suc n) s r.1) (sym path)
      (awake (register_found w (w.find (suc n)) s).0 (register_found w (w.find (suc n)) s).1
        (register-keeps w (w.find (suc n)) s ∙ l) (register_found-Registered w (w.find (suc n)) s)
        (ap (λ r. r.0) (sym path) ∙ e))
  where
    awake :
        (r : Result ActivatorError (Unit {0})) (t : Reuse)
        → t.is_register_locked ≡ false
        → (r ≡ ok tt → Registered (w.find (suc n)) s t.groups)
        → (wake_registered w (r, t)).0 ≡ woken
        → IsAwake w (suc n) s (wake_registered w (r, t)).1
    awake (ok u) t k g p = record {
      groups = both_closed t.groups;
      apps = close-Registered (w.find (suc n)) s t.groups (g refl);
      registered = refl;
      unlocked = k;
    }
    awake (err x) t k g p = absurd cc

again :
    (w : ReuseCalls) (n : ℕ) (old s : Reuse)
    → w.restore_hook ≡ some (ok (suc n))
    → IsAwake w (suc n) old s
    → ((wake w s).0 ≡ woken) × ((wake w s).1.is_register_locked ≡ true)
unfolding wake_process
again w n old s h a =
    let path : wake w s ≡ (woken, _) =
      with_pid w n s h ∙ if_false _ a.unlocked ∙ if_false _ (ap not a.registered) in
    (ap (λ r. r.0) path, ap (λ r. r.1.is_register_locked) path)

-- Of an activator whose lock is free, after a reset, where the hook gives the pid of a process: the
-- first wake that does not fail closes every listener, registers for each port and network the
-- listener of the process that was found last, and gives the lock back. A second one, as from the listener of another port,
-- keeps the lock, so that whatever resets and wakes follow, a wake for a process waits for ever.
pub reset-wakes :
    (v w x : ReuseCalls) (n k : ℕ) (s : Reuse) (os : List Op)
    → w.restore_hook ≡ some (ok (suc n))
    → x.restore_hook ≡ some (ok (suc k))
    → s.is_register_locked ≡ false
    → (wake w (reset v s).1).0 ≡ woken
    → IsAwake w (suc n) (reset v s).1 (wake w (reset v s).1).1
      × ((wake w (wake w (reset v s).1).1).0 ≡ woken)
      × ((wake x (run os (wake w (wake w (reset v s).1).1).1)).0 ≡ blocked)
unfolding reset
reset-wakes v w x n k s os h g l e =
    let first = first-IsAwake w n (reset v s).1 h l refl e in
    let second = again w n (reset v s).1 (wake w (reset v s).1).1 h first in
    (first, second.0, locked_out x k _ g (run-keeps_lock os _ second.1))
