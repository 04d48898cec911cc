-- ===== src/Shim/Timers.antt =====
-- Scheduling: scheduleScaleDownIn, CancelScaleDown, initRetry, retryInitIn, cancelInit and
-- lastActivity of shim/container.go.
pub mod Backoff
pub mod Activity
use zeropod.Base.{
  ℕ, zero, suc, ◌+◌, ◌*◌, ◌^◌, ◌≤◌, ◌<◌, ◌≡◌, refl, Bool, Option, none, some, List, [], ◌∷◌, ltb,
  leb, Result, ok, err, if◌then◌else◌, arith,
}
use zeropod.Base.Int.{ℤ, pos, negsuc, eqb_ℤ, ltb_ℤ, wrap64}
use zeropod.Config.{minute}
use zeropod.Activator.Interface.{Activator, ActivatorError, no_activity_recorded}
use zeropod.Shim.Types.{Container, Timer, unset, idle, armed}

-- Stop on a timer that may be nil.
unfoldable pub stop_timer : Timer → Timer
stop_timer unset = unset
stop_timer _ = idle

module _ {S : Type 0} where
  unfoldable pub cancel_scale_down : Container S → Container S
  unfolding stop_timer
  cancel_scale_down c = record c { scale_down_timer = stop_timer c.scale_down_timer }

  -- A new timer and one that is reset are both pending afterwards.
  unfoldable pub schedule_scale_down_in : ℤ → Container S → Container S
  unfolding cancel_scale_down
  schedule_scale_down_in d c =
      let cancelled = cancel_scale_down c in
      record cancelled {
        scale_down_timer = if eqb_ℤ d (pos 0) then cancelled.scale_down_timer else armed d;
      }

  unfoldable pub schedule_scale_down : Container S → Container S
  unfolding schedule_scale_down_in
  schedule_scale_down c = schedule_scale_down_in c.cfg.scale_down_duration c

  unfoldable pub cancel_init : Container S → Container S
  unfolding stop_timer
  cancel_init c = record c { init_timer = stop_timer c.init_timer }

abbrev pub initial_backoff : ℤ
initial_backoff = pos (10 * 10 ^ 6)

abbrev pub max_backoff : ℤ
max_backoff = pos (5 * minute)

abbrev pub min_ℤ : ℤ → ℤ → ℤ
min_ℤ a b = if ltb_ℤ b a then b else a

abbrev pub double : ℤ → ℤ
double (pos n) = pos (n * 2)
double (negsuc n) = negsuc (n * 2 + 1)

-- The next backoff after `b`.
unfoldable pub next_backoff : ℤ → ℤ
unfolding wrap64
next_backoff b =
    let doubled = min_ℤ max_backoff (wrap64 (double b)) in
    if eqb_ℤ doubled (pos 0) then initial_backoff else doubled

module _ {S : Type 0} where
  unfoldable pub init_retry : Container S → ℤ × Container S
  unfolding next_backoff
  init_retry c = let b = next_backoff c.init_backoff in (b, record c { init_backoff = b })

  unfoldable pub retry_init_in : ℤ → Container S → Container S
  retry_init_in d c = record c { init_timer = armed d }

-- slices.SortFunc by time, and the last element.
insert_time : ℤ → List ℤ → List ℤ
insert_time t [] = t ∷ []
insert_time t (u ∷ ts) = let rest = insert_time t ts in if ltb_ℤ u t then u ∷ rest else t ∷ u ∷ ts

sort_times : List ℤ → List ℤ
unfolding insert_time
sort_times [] = []
sort_times (t ∷ ts) = insert_time t (sort_times ts)

last_time : List ℤ → Result ActivatorError ℤ
last_time [] = err no_activity_recorded
last_time (t ∷ []) = ok t
last_time (t ∷ u ∷ ts) = last_time (u ∷ ts)

-- One round of the loop: another error than "no activity" ends it.
add_activity :
    Result ActivatorError ℤ → Result ActivatorError (List ℤ) → Result ActivatorError (List ℤ)
add_activity (ok t) (ok ts) = ok (t ∷ ts)
add_activity (ok t) (err e) = err e
add_activity (err no_activity_recorded) rest = rest
add_activity (err e) rest = err e

-- The latest of the times, if there are any.
latest : Result ActivatorError (List ℤ) → Result ActivatorError ℤ
unfolding sort_times last_time
latest (ok ts) = last_time (sort_times ts)
latest (err e) = err e

module _ (A : Activator) where
  -- The activity of each port that has any.
  collect_activity : A.State → List ℕ → Result ActivatorError (List ℤ)
  unfolding add_activity
  collect_activity s [] = ok []
  collect_activity s (p ∷ ps) = add_activity (A.last_activity s p) (collect_activity s ps)

  unfoldable pub last_activity : Container A.State → Result ActivatorError ℤ
  unfolding collect_activity latest
  last_activity c = elim c.activator [
    | none ↦ err no_activity_recorded
    | some s ↦ latest (collect_activity s c.cfg.ports)
  ]
