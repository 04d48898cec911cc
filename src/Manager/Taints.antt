-- ===== src/Manager/Taints.antt =====
-- The taint that keeps pods off a node at capacity (AddTaint, HasTaint and RemoveTaint of
-- manager/capacity/capacity.go).
pub mod Cycle
use zeropod.Base.{
  Bool, true, false, Option, none, some, List, [], ◌∷◌, ◌++◌, Text, codes, same, any, delete_func,
  if◌then◌else◌,
}
use zeropod.Base.Int.{ℤ}

-- A time that is missing is the zero time.
pub record Taint : Type 0 where
  pub key : Text
  pub effect : Text
  pub time_added : Option ℤ

abbrev pub taint_key : Text
taint_key = codes "zeropod.ctrox.dev/at-capacity"

abbrev pub is_at_capacity : Taint → Bool
is_at_capacity t = same t.key taint_key

abbrev pub new_taint : ℤ → Taint
new_taint now = record { key = taint_key; effect = codes "NoSchedule"; time_added = some now }

unfoldable pub add_taint : ℤ → List Taint → Bool × List Taint
add_taint now ts = if any is_at_capacity ts then (false, ts) else (true, ts ++ new_taint now ∷ [])

-- The time is that of the first of the taints.
unfoldable pub has_taint : List Taint → Bool × Option ℤ
has_taint [] = (false, none)
has_taint (t ∷ ts) =
    let rest = has_taint ts in if is_at_capacity t then (true, t.time_added) else rest

unfoldable pub remove_taint : List Taint → List Taint
remove_taint ts = delete_func is_at_capacity ts
