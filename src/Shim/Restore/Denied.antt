-- ===== src/Shim/Restore/Denied.antt =====
-- A restore that the node denies (Restore of shim/restore.go).
use zeropod.Base.{
  ℕ, ◌≡◌, refl, Bool, true, false, Option, none, some, Result, ok, err, if_false, if_true, subst,
  ◌∙◌, sym, ap, if◌then◌else◌, is_empty, Text,
}
use zeropod.Activator.Interface.{Activator, ActivatorError}
use zeropod.Shim.Types.{Container, Outcome, ShimError, nil_pointer, no_capacity, activator_error}
use zeropod.Shim.Restore.{
  RestoreCalls, RestoreCapacityResponse, forwarded, forward, deny_restore, answer_capacity, restore,
  restore_capacity_request,
}

module _ (A : Activator) where
  -- An error, with nothing of the container changed but its activator.
  abbrev pub OnlyForwards : Container A.State → Outcome A.State ℕ → Type 0
  OnlyForwards c r =
      ((e : ShimError) × (r.0 ≡ err e)) × (r.1 ≡ record c { activator = r.1.activator })

  forward-OnlyForwards :
      (addr : Text) (o : Option A.State) (c : Container A.State)
      → o ≡ c.activator
      → OnlyForwards c (forward A addr o c)
  unfolding forward forwarded
  forward-OnlyForwards addr none c a = ((nil_pointer, refl), refl)
  forward-OnlyForwards addr (some s) c a =
      answered (A.forward_to_target s addr).0 (A.forward_to_target s addr).1
    where
      answered :
          (r : Result ActivatorError (Unit {0})) (s' : A.State)
          → OnlyForwards c (forwarded A r (record c { activator = some s' }))
      answered (ok u) s' = ((no_capacity, refl), refl)
      answered (err e) s' = ((activator_error e, refl), refl)

  deny-OnlyForwards : (addr : Text) (c : Container A.State) → OnlyForwards c (deny_restore A addr c)
  unfolding deny_restore
  deny-OnlyForwards addr c = by_address (is_empty addr)
    where
      by_address :
          (b : Bool)
          → OnlyForwards c (if b then (err no_capacity, c) else forward A addr c.activator c)
      by_address true = ((no_capacity, refl), refl)
      by_address false = forward-OnlyForwards addr c.activator c refl

  -- A restore of a scaled down container that the node denies returns an error and changes nothing
  -- but the state of the activator, which is told where to forward.
  pub restore-denied :
      (w : RestoreCalls) (r : RestoreCapacityResponse) (c : Container A.State)
      → c.is_scaled_down ≡ true
      → c.cfg.capacity_request ≡ true
      → w.capacity ≡ ok r
      → r.allowed ≡ false
      → OnlyForwards c (restore A w c)
  unfolding restore restore_capacity_request answer_capacity
  restore-denied w r c d q a f =
      subst (OnlyForwards c)
        (sym (if_true _ d ∙ ap (λ x. answer_capacity A w x c) (if_true _ q ∙ a) ∙ if_false _ f))
        (deny-OnlyForwards r.redirect_addr c)
