-- ===== src/Manager/Taints/Cycle.antt =====
-- Adding and removing the taint of a node (manager/capacity/capacity.go).
use zeropod.Base.{
  ◌≡◌, refl, sym, ◌∙◌, ap, true, false, some, List, [], ◌∷◌, ◌++◌, any, delete_func, if_true,
  if_false, arith,
}
use zeropod.Base.Int.{ℤ}
use zeropod.Manager.Taints.{Taint, is_at_capacity, new_taint, add_taint, has_taint, remove_taint}

has-appended :
    (now : ℤ) (ts : List Taint)
    → any is_at_capacity ts ≡ false
    → has_taint (ts ++ new_taint now ∷ []) ≡ (true, some now)
unfolding has_taint
has-appended now [] h = refl
has-appended now (t ∷ ts) h =
    if_false {b = is_at_capacity t} _ (ground arith) ∙ has-appended now ts (ground arith)

delete-appended :
    (now : ℤ) (ts : List Taint)
    → any is_at_capacity ts ≡ false
    → delete_func is_at_capacity (ts ++ new_taint now ∷ []) ≡ ts
delete-appended now [] h = refl
delete-appended now (t ∷ ts) h =
    if_false {b = is_at_capacity t} _ (ground arith)
    ∙ ap (λ us. t ∷ us) (delete-appended now ts (ground arith))

any-appended : (now : ℤ) (ts : List Taint) → any is_at_capacity (ts ++ new_taint now ∷ []) ≡ true
any-appended now [] = refl
any-appended now (t ∷ ts) = ground (arith, any-appended now ts)

added :
    (now : ℤ) (ts : List Taint)
    → any is_at_capacity ts ≡ false
    → add_taint now ts ≡ (true, ts ++ new_taint now ∷ [])
unfolding add_taint
added now ts h = if_false _ h

again :
    (later now : ℤ) (ts : List Taint)
    → add_taint later (ts ++ new_taint now ∷ []) ≡ (false, ts ++ new_taint now ∷ [])
unfolding add_taint
again later now ts = if_true _ (any-appended now ts)

-- A taint that is added to a node without it is found with its time, is not added again, and leaves
-- the other taints in their order when it is removed.
pub add_taint-cycles :
    (now later : ℤ) (ts : List Taint)
    → any is_at_capacity ts ≡ false
    → (has_taint (add_taint now ts).1 ≡ (true, some now))
      × (add_taint later (add_taint now ts).1 ≡ (false, (add_taint now ts).1))
      × (remove_taint (add_taint now ts).1 ≡ ts)
unfolding remove_taint
add_taint-cycles now later ts h =
    let same_taints : (add_taint now ts).1 ≡ ts ++ new_taint now ∷ [] =
      ap (λ r. r.1) (added now ts h) in
    (
      ap has_taint same_taints ∙ has-appended now ts h,
      ap (add_taint later) same_taints
          ∙ again later now ts
          ∙ ap (λ us. (false, us)) (sym same_taints),
      ap remove_taint same_taints ∙ delete-appended now ts h,
    )
