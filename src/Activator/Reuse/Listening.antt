-- ===== src/Activator/Reuse/Listening.antt =====
-- A reset and the wake that follows it (Reset and wake of activator/reuse/activator.go).
use zeropod.Base.{
  ℕ, ◌≡◌, refl, sym, ◌∙◌, ap, subst, Bool, true, false, not, ◌&&◌, Option, none, some, List, [],
  ◌∷◌, map, Text, same, Result, ok, err, ◌==◌, All, if-cases, if◌then◌else◌,
}
use zeropod.Activator.Interface.{ActivatorError}
use zeropod.Activator.Reuse.{
  Group, Reuse, ReuseCalls, Wake, woken, close_group, register_listeners, wake_registered,
  wake_process, wake_restored, wake, listen_group, and_rest, listen_groups, reset,
}
use zeropod.Activator.Reuse.Registered.{app_of, app-close_group}

-- Which of the listeners of a group are open.
abbrev pub Listens : Bool → Bool → Group → Type 0
Listens on_wake on_probe g = (g.is_wake_open ≡ on_wake) × (g.is_probe_open ≡ on_probe)

-- The hook gives the pid of a process.
abbrev pub gives_process : Option (Result ActivatorError ℕ) → Bool
gives_process none = false
gives_process (some (err e)) = false
gives_process (some (ok pid)) = not (pid == 0)

opened : Group → Group
opened g = record g { is_wake_open = true; is_probe_open = true }

pub both_closed : (gs : List Group) → All (Listens false false) (map (close_group true) gs)
unfolding close_group
both_closed [] = tt
both_closed (g ∷ gs) = ((refl, refl), both_closed gs)

wake_closed :
    (gs : List Group)
    → All (Listens true true) gs
    → All (Listens false true) (map (close_group false) gs)
unfolding close_group
wake_closed [] h = tt
wake_closed (g ∷ gs) h = ((refl, h.0.1), wake_closed gs h.1)

module _ (w : ReuseCalls) where
  IsOpened : Group → Result ActivatorError (Unit {0}) × Group → Type 0
  unfolding opened
  IsOpened g r = r.0 ≡ ok tt → r.1 ≡ opened g

  listen_group-IsOpened : (g : Group) → IsOpened g (listen_group w g)
  unfolding listen_group IsOpened opened
  listen_group-IsOpened g =
      if-cases {B = Result ActivatorError (Unit {0}) × Group} (IsOpened g)
        (not (w.listens_wake g.port)) (λ _ e. absurd cc)
        (λ _.
          if-cases {B = Result ActivatorError (Unit {0}) × Group} (IsOpened g)
            (not (w.listens_probe g.port)) (λ _ e. absurd cc)
            (λ _.
              if-cases {B = Result ActivatorError (Unit {0}) × Group} (IsOpened g)
                (not (w.attaches_wake g.port)) (λ _ e. absurd cc)
                (λ _.
                  if-cases {B = Result ActivatorError (Unit {0}) × Group} (IsOpened g)
                    (not (w.attaches_probe g.port)) (λ _ e. absurd cc) (λ _ e. refl))))

  -- Every listener is open, and the applications are those of `before`.
  record AllOpen (before after : List Group) : Type 0 where
    listens : All (Listens true true) after
    same_apps : (p : ℕ) (n : Text) → app_of p n after ≡ app_of p n before

  listen_groups-AllOpen :
      (gs : List Group) → (listen_groups w gs).0 ≡ ok tt → AllOpen gs (listen_groups w gs).1
  unfolding listen_groups and_rest IsOpened opened
  listen_groups-AllOpen [] e = record { listens = tt; same_apps = λ p n. refl }
  listen_groups-AllOpen (g ∷ gs) e =
      behind (listen_group w g) (listen_groups w gs) (listen_group-IsOpened g)
        (listen_groups-AllOpen gs) e
    where
      behind :
          (r : Result ActivatorError (Unit {0}) × Group)
          (rest : Result ActivatorError (Unit {0}) × List Group)
          → IsOpened g r
          → (rest.0 ≡ ok tt → AllOpen gs rest.1)
          → (and_rest w r gs rest).0 ≡ ok tt
          → AllOpen (g ∷ gs) (and_rest w r gs rest).1
      behind (err x, h) rest first later e = absurd cc
      behind (ok u, h) rest first later e =
          let others = later e in
          subst (λ k. AllOpen (g ∷ gs) (k ∷ rest.1)) (sym (first refl))
            (record {
              listens = ((refl, refl), others.listens);
              same_apps = λ p n.
                  ap (λ o. if g.port == p && same g.network n then some (g.uid, g.app_fd) else o)
                    (others.same_apps p n);
            })

-- What a wake leaves of groups that listen.
abbrev Wakes : Option (Result ActivatorError ℕ) → Wake × Reuse → Type 0
Wakes o r = r.0 ≡ woken → All (Listens false (not (gives_process o))) r.1.groups

process-Wakes :
    (x : ReuseCalls) (pid : ℕ) (s : Reuse)
    → (pid == 0) ≡ false
    → Wakes (some (ok pid)) (wake_process x pid s)
unfolding wake_process
process-Wakes x pid s h =
    if-cases {B = Wake × Reuse} (Wakes (some (ok pid))) s.is_register_locked (λ _ e. absurd cc)
      (λ _.
        if-cases {B = Wake × Reuse} (Wakes (some (ok pid))) (not s.registered_wake)
          (λ _. registered (register_listeners x pid s)) (λ _ e. shut s.groups))
  where
    shut :
        (gs : List Group) → All (Listens false (not (not (pid == 0)))) (map (close_group true) gs)
    shut gs =
        subst (λ b. All (Listens false (not (not b))) (map (close_group true) gs)) (sym h)
          (both_closed gs)

    registered :
        (r : Result ActivatorError (Unit {0}) × Reuse) → Wakes (some (ok pid)) (wake_registered x r)
    registered (ok u, t) e = shut t.groups
    registered (err y, t) e = absurd cc

restored-Wakes :
    (x : ReuseCalls) (o : Option (Result ActivatorError ℕ)) (s : Reuse)
    → All (Listens true true) s.groups
    → Wakes o (wake_restored x o s)
unfolding wake_restored
restored-Wakes x none s h = λ e. wake_closed s.groups h
restored-Wakes x (some (err y)) s h = λ e. absurd cc
restored-Wakes x (some (ok pid)) s h =
    if-cases {B = Wake × Reuse} (Wakes (some (ok pid))) (pid == 0)
      (λ z e.
        subst (λ b. All (Listens false (not (not b))) (map (close_group false) s.groups)) (sym z)
          (wake_closed s.groups h))
      (λ z. process-Wakes x pid s z)

-- A reset without an error opens the wake listener and the probe listener of every port, keeps the
-- applications that are registered, and forgets that they are. A wake that follows it and does not
-- fail or wait closes every wake listener, and every probe listener if the hook gives the pid of a
-- process; if it gives none, every probe listener stays open.
pub reset-Listens :
    (w x : ReuseCalls) (s : Reuse)
    → (reset w s).0 ≡ ok tt
    → (wake x (reset w s).1).0 ≡ woken
    → All (Listens true true) (reset w s).1.groups
      × ((p : ℕ) (n : Text) → app_of p n (reset w s).1.groups ≡ app_of p n s.groups)
      × ((reset w s).1.registered_wake ≡ false)
      × All (Listens false (not (gives_process x.restore_hook))) (wake x (reset w s).1).1.groups
unfolding reset wake
reset-Listens w x s e k =
    let all_open = listen_groups-AllOpen w (map (close_group true) s.groups) e in
    (
      all_open.listens,
      (λ p n. all_open.same_apps p n ∙ app-close_group p n true s.groups),
      refl,
      restored-Wakes x x.restore_hook (reset w s).1 all_open.listens k,
    )
