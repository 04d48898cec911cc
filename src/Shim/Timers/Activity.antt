-- ===== src/Shim/Timers/Activity.antt =====
-- The last activity of a container is the latest of its ports (lastActivity of shim/container.go).
use zeropod.Base.{
  ℕ, ◌≡◌, refl, Bool, true, false, Bool-cases, List, [], ◌∷◌, Option, none, some, Result, ok, err,
  All, All-map, arith, if◌then◌else◌, if_true, if_false, subst, sym, ◌∙◌, ok-injective, ◌⊎◌, inl,
  inr,
}
use zeropod.Base.Int.{ℤ, ltb_ℤ, ◌≤ℤ◌}
use zeropod.Activator.Interface.{Activator, ActivatorError, no_activity_recorded}
use zeropod.Shim.Types.{Container}
use zeropod.Shim.Timers.{
  add_activity, latest, insert_time, sort_times, last_time, collect_activity, last_activity,
}

abbrev IsSorted : List ℤ → Type 0
IsSorted [] = Unit
IsSorted (t ∷ ts) = All (λ u. t ≤ℤ u) ts × IsSorted ts

not_lt : (u t : ℤ) → ltb_ℤ u t ≡ false → t ≤ℤ u
not_lt u t h = ground arith

lt_le : (u t : ℤ) → ltb_ℤ u t ≡ true → u ≤ℤ t
lt_le u t h = ground arith

module _ (P : ℤ → Type 0) where
  All-insert_time : (t : ℤ) (ts : List ℤ) → P t → All P ts → All P (insert_time t ts)
  unfolding insert_time
  All-insert_time t [] p h = (p, tt)
  All-insert_time t (u ∷ ts) p h =
      by_order (insert_time t ts) (All-insert_time t ts p h.1) (ltb_ℤ u t)
    where
      by_order :
          (rest : List ℤ) → All P rest → (b : Bool) → All P (if b then u ∷ rest else t ∷ u ∷ ts)
      by_order rest k true = (h.0, k)
      by_order rest k false = (p, h)

  All-uninsert_time : (t : ℤ) (ts : List ℤ) → All P (insert_time t ts) → P t × All P ts
  unfolding insert_time
  All-uninsert_time t [] h = h
  All-uninsert_time t (u ∷ ts) h =
      by_order (insert_time t ts) (All-uninsert_time t ts) (ltb_ℤ u t) h
    where
      by_order :
          (rest : List ℤ)
          → (All P rest → P t × All P ts)
          → (b : Bool) → All P (if b then u ∷ rest else t ∷ u ∷ ts)
          → P t × All P (u ∷ ts)
      by_order rest k true h = ((k h.1).0, (h.0, (k h.1).1))
      by_order rest k false h = (h.0, h.1)

  All-sort_times : (ts : List ℤ) → All P ts → All P (sort_times ts)
  unfolding sort_times
  All-sort_times [] h = tt
  All-sort_times (t ∷ ts) h = All-insert_time t (sort_times ts) h.0 (All-sort_times ts h.1)

  All-unsort_times : (ts : List ℤ) → All P (sort_times ts) → All P ts
  unfolding sort_times
  All-unsort_times [] h = tt
  All-unsort_times (t ∷ ts) h =
      let (p, k) = All-uninsert_time t (sort_times ts) h in (p, All-unsort_times ts k)

  All-last_time : (ts : List ℤ) (t : ℤ) → All P ts → last_time ts ≡ ok t → P t
  unfolding last_time
  All-last_time [] t h e = absurd cc
  All-last_time (u ∷ []) t h e = subst P (ok-injective e) h.0
  All-last_time (u ∷ v ∷ ts) t h e = All-last_time (v ∷ ts) t h.1 e

insert_time-IsSorted : (t : ℤ) (ts : List ℤ) → IsSorted ts → IsSorted (insert_time t ts)
unfolding insert_time
insert_time-IsSorted t [] h = (tt, tt)
insert_time-IsSorted t (u ∷ ts) h = elim (Bool-cases (ltb_ℤ u t)) [
  | inl b ↦
      subst IsSorted (sym (if_true _ b))
        (All-insert_time (λ v. u ≤ℤ v) t ts (lt_le u t b) h.0, insert_time-IsSorted t ts h.1)
  | inr b ↦
      subst IsSorted (sym (if_false _ b))
        ((not_lt u t b, All-map (λ v k. trans_le v (not_lt u t b) k) ts h.0), h)
]
  where
    trans_le : (v : ℤ) → t ≤ℤ u → u ≤ℤ v → t ≤ℤ v
    trans_le v a b = omega arith

sort_times-IsSorted : (ts : List ℤ) → IsSorted (sort_times ts)
unfolding sort_times
sort_times-IsSorted [] = tt
sort_times-IsSorted (t ∷ ts) = insert_time-IsSorted t (sort_times ts) (sort_times-IsSorted ts)

-- The last of a sorted list bounds all of it.
sorted-le-last_time :
    (ts : List ℤ) (t : ℤ) → IsSorted ts → last_time ts ≡ ok t → All (λ u. u ≤ℤ t) ts
unfolding last_time
sorted-le-last_time [] t h e = tt
sorted-le-last_time (u ∷ []) t h e = (subst (λ v. u ≤ℤ v) (ok-injective e) (omega arith), tt)
sorted-le-last_time (u ∷ v ∷ ts) t h e =
    (All-last_time (λ w. u ≤ℤ w) (v ∷ ts) t h.0 e, sorted-le-last_time (v ∷ ts) t h.1 e)

module _ (A : Activator) (s : A.State) where
  -- Some port of the list has this activity.
  abbrev pub Reported : List ℕ → ℤ → Type 0
  Reported [] t = ⊥
  Reported (p ∷ ps) t = (A.last_activity s p ≡ ok t) ⊎ Reported ps t

  add-Reported :
      (p : ℕ) (ps : List ℕ) (r : Result ActivatorError ℤ) (q : Result ActivatorError (List ℤ))
      (ts : List ℤ)
      → A.last_activity s p ≡ r
      → ((us : List ℤ) → q ≡ ok us → All (Reported ps) us)
      → add_activity r q ≡ ok ts
      → All (Reported (p ∷ ps)) ts
  unfolding add_activity
  add-Reported p ps (ok t) (ok us) ts l k e =
      subst (All (Reported (p ∷ ps))) (ok-injective e)
        (inl l, All-map (λ u h. inr h) us (k us refl))
  add-Reported p ps (ok t) (err x) ts l k e = absurd cc
  add-Reported p ps (err no_activity_recorded) q ts l k e = All-map (λ u h. inr h) ts (k ts e)
  add-Reported p ps (err x) q ts l k e = absurd cc

  -- Each time that is collected is some port's.
  collect-Reported :
      (ps : List ℕ) (ts : List ℤ) → collect_activity A s ps ≡ ok ts → All (Reported ps) ts
  unfolding collect_activity
  collect-Reported [] ts e = subst (All (Reported [])) (ok-injective e) tt
  collect-Reported (p ∷ ps) ts e =
      add-Reported p ps (A.last_activity s p) (collect_activity A s ps) ts refl
        (collect-Reported ps) e

  -- No port's activity is later than `t`.
  abbrev pub Bounded : ℤ → List ℕ → Type 0
  Bounded t = All (λ p. (u : ℤ) → A.last_activity s p ≡ ok u → u ≤ℤ t)

  add-Bounded :
      (t : ℤ) (p : ℕ) (ps : List ℕ) (r : Result ActivatorError ℤ)
      (q : Result ActivatorError (List ℤ)) (ts : List ℤ)
      → A.last_activity s p ≡ r
      → ((us : List ℤ) → q ≡ ok us → All (λ u. u ≤ℤ t) us → Bounded t ps)
      → add_activity r q ≡ ok ts
      → All (λ u. u ≤ℤ t) ts
      → Bounded t (p ∷ ps)
  unfolding add_activity
  add-Bounded t p ps (ok v) (ok us) ts l k e h =
      let h' = subst (All (λ u. u ≤ℤ t)) (sym (ok-injective e)) h in
      (λ u m. subst (λ x. x ≤ℤ t) (ok-injective (sym l ∙ m)) h'.0, k us refl h'.1)
  add-Bounded t p ps (ok v) (err x) ts l k e h = absurd cc
  add-Bounded t p ps (err no_activity_recorded) q ts l k e h = (λ u m. absurd cc, k ts e h)
  add-Bounded t p ps (err x) q ts l k e h = absurd cc

  collect-Bounded :
      (t : ℤ) (ps : List ℕ) (ts : List ℤ)
      → collect_activity A s ps ≡ ok ts
      → All (λ u. u ≤ℤ t) ts
      → Bounded t ps
  unfolding collect_activity
  collect-Bounded t [] ts e h = tt
  collect-Bounded t (p ∷ ps) ts e h =
      add-Bounded t p ps (A.last_activity s p) (collect_activity A s ps) ts refl
        (collect-Bounded t ps) e h

  latest-Bounded :
      (ps : List ℕ) (t : ℤ) (r : Result ActivatorError (List ℤ))
      → collect_activity A s ps ≡ r
      → latest r ≡ ok t
      → Reported ps t × Bounded t ps
  unfolding latest
  latest-Bounded ps t (err x) c e = absurd cc
  latest-Bounded ps t (ok ts) c e = (
    All-last_time (Reported ps) (sort_times ts) t
        (All-sort_times (Reported ps) ts (collect-Reported ps ts c)) e,
    collect-Bounded t ps ts c (
        All-unsort_times (λ u. u ≤ℤ t) ts
          (sorted-le-last_time (sort_times ts) t (sort_times-IsSorted ts) e)),
  )

module _ (A : Activator) where
  -- Of a container with an activator, the last activity, where there is one, is the activity of one
  -- of the configured ports, and that of no configured port is later.
  pub last_activity-latest :
      (s : A.State) (c : Container A.State) (t : ℤ)
      → c.activator ≡ some s
      → last_activity A c ≡ ok t
      → Reported A s c.cfg.ports t × Bounded A s t c.cfg.ports
  unfolding last_activity
  last_activity-latest s c t a e =
      latest-Bounded A s c.cfg.ports t (collect_activity A s c.cfg.ports) refl
        (sym (with_activator c.activator a) ∙ e)
    where
      with_activator :
          (o : Option A.State)
          → o ≡ some s
          → elim o as (λ _. Result ActivatorError ℤ) [
            | none ↦ err no_activity_recorded
            | some s' ↦ latest (collect_activity A s' c.cfg.ports)
          ]
            ≡ latest (collect_activity A s c.cfg.ports)
      with_activator o p = rw p
