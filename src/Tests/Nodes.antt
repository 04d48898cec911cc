-- ===== src/Tests/Nodes.antt =====
-- The theorem on the taint of a node, at one with another taint.
use zeropod.Base.{◌≡◌, refl, true, false, none, some, List, [], ◌∷◌, codes}
use zeropod.Base.Int.{pos}
use zeropod.Manager.Taints.{Taint, add_taint, has_taint, remove_taint}
use zeropod.Manager.Taints.Cycle.{add_taint-cycles}

abbrev taints : List Taint
taints = record { key = codes "spot"; effect = codes "NoExecute"; time_added = none } ∷ []

add_taint-cycles_example :
    (has_taint (add_taint (pos 5) taints).1 ≡ (true, some (pos 5)))
    × (add_taint (pos 9) (add_taint (pos 5) taints).1 ≡ (false, (add_taint (pos 5) taints).1))
    × (remove_taint (add_taint (pos 5) taints).1 ≡ taints)
add_taint-cycles_example = add_taint-cycles (pos 5) (pos 9) taints refl
