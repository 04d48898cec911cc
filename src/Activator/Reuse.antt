-- ===== src/Activator/Reuse.antt =====
-- The activator that shares the ports of a container with SO_REUSEPORT (activator/reuse/activator.go
-- and activator/reuse/listener.go): a wake listener for each port, which is watched and never
-- accepts, and a probe listener. A method is a function of the whole state, as under `mu`; the lock
-- `register` is a field, as its holder may return without unlocking it.
pub mod Listening
pub mod Registered
pub mod Wakes
pub mod Start
use zeropod.Base.{
  ℕ, suc, Bool, true, false, not, ◌&&◌, Option, none, some, List, [], ◌∷◌, map, Text, codes, same,
  is_empty, delete_func, Result, ok, err, length, ltb, if◌then◌else◌, ◌==◌,
}
use zeropod.Base.Int.{ℤ, pos}
use zeropod.Activator.Interface.{
  zero_time, ActivatorError, no_listening_sockets, no_activity_recorded, broken,
}
use zeropod.Activator.Server.{lookup_key, put_key}

-- `listenerGroup` with its key; the listeners are known by whether they are open.
pub record Group : Type 0 where
  pub port : ℕ
  pub network : Text
  pub uid : ℕ
  pub app_fd : ℕ
  pub is_wake_open : Bool
  pub is_probe_open : Bool

-- A listening socket of the container, with its descriptor there; `has_fd` if it was duplicated.
pub record Found : Type 0 where
  pub port : ℕ
  pub network : Text
  pub uid : ℕ
  pub orig_fd : ℕ
  pub has_fd : Bool

pub record Reuse : Type 0 where
  pub ports : List ℕ
  pub groups : List Group
  pub is_started : Bool
  pub is_register_locked : Bool
  pub registered_wake : Bool
  pub tracker : List (ℕ × ℕ)

-- `restore_hook` gives a pid, 0 for none; `find` is listenerFds; the other fields say whether a call
-- on the sockets and the eBPF objects of a port succeeds. `clears` gives what is left of the tracker
-- if clearing the maps fails, `ignores` says whether the addresses to ignore are put, and `time_of`
-- is ConvertBPFTime.
pub record ReuseCalls : Type 0 where
  pub restore_hook : Option (Result ActivatorError ℕ)
  pub find : ℕ → Result ActivatorError (List Found)
  pub loads : ℕ → Bool
  pub attaches : ℕ → Bool
  pub listens_wake : ℕ → Bool
  pub listens_probe : ℕ → Bool
  pub attaches_wake : ℕ → Bool
  pub attaches_probe : ℕ → Bool
  pub left_open : ℕ → Bool
  pub clears : List (ℕ × ℕ) → Option (List (ℕ × ℕ))
  pub ignores : Bool
  pub tracks : ℕ → Bool
  pub time_of : ℕ → Option ℤ

abbrev pub with_app : Found → Group → Group
with_app f g = record g { uid = f.uid; app_fd = f.orig_fd }

abbrev pub new_group : Found → Group
new_group f = record {
  port = f.port;
  network = f.network;
  uid = f.uid;
  app_fd = f.orig_fd;
  is_wake_open = false;
  is_probe_open = false;
}

-- The group of the socket's port and network, which is made if it is missing.
unfoldable pub put_group : Found → List Group → List Group
put_group f [] = new_group f ∷ []
put_group f (g ∷ gs) =
    let rest = put_group f gs in
    if g.port == f.port && same g.network f.network then with_app f g ∷ gs else g ∷ rest

unfoldable pub has_group : Found → List Group → Bool
has_group f [] = false
has_group f (g ∷ gs) =
    let rest = has_group f gs in if g.port == f.port && same g.network f.network then true else rest

-- Without its application's listener, which is attached next.
unfoldable pub add_group : Found → List Group → List Group
unfolding has_group
add_group f gs = if has_group f gs then gs else record (new_group f) { uid = 0; app_fd = 0 } ∷ gs

unfoldable pub close_group : Bool → Group → Group
close_group probe g = record g {
  is_wake_open = false;
  is_probe_open = if probe then false else g.is_probe_open;
}

-- What a wake ends with; one that waits for a lock that is never given back does not end.
pub data Wake : Type 0 where
  woken failed blocked : Wake

module _ (w : ReuseCalls) where
  -- The loop over the listeners that were found.
  unfoldable pub register_each :
      List Found → List Group → Result ActivatorError (Unit {0}) × List Group
  unfolding put_group has_group add_group
  register_each [] gs = (ok tt, gs)
  register_each (f ∷ fs) gs =
      let skipped = register_each fs gs in
      let registered = register_each fs (put_group f gs) in
      if not f.has_fd
      then skipped
      else (if not (has_group f gs) && not (w.loads f.port)
          then (err broken, gs)
          else (if w.attaches f.port then registered else (err broken, add_group f gs)))

  unfoldable pub register_found :
      Result ActivatorError (List Found) → Reuse → Result ActivatorError (Unit {0}) × Reuse
  unfolding register_each
  register_found (err e) s = (err e, s)
  register_found (ok []) s = (err no_listening_sockets, s)
  register_found (ok (f ∷ fs)) s =
      let r = register_each (f ∷ fs) s.groups in
      if ltb (length (f ∷ fs)) (length s.ports)
      then (err no_listening_sockets, s)
      else (r.0, record s { groups = r.1 })

  unfoldable pub register_listeners : ℕ → Reuse → Result ActivatorError (Unit {0}) × Reuse
  unfolding register_found
  register_listeners pid s = register_found (w.find pid) s

  abbrev pub close_groups : Bool → Reuse → Reuse
  close_groups probe s = record s { groups = map (close_group probe) s.groups }

  -- After the listeners were registered, the lock is given back.
  unfoldable pub wake_registered : Result ActivatorError (Unit {0}) × Reuse → Wake × Reuse
  unfolding close_group
  wake_registered (ok u, s) = (woken, close_groups true (record s { registered_wake = true }))
  wake_registered (err e, s) = (failed, s)

  -- With the lock taken; where the listeners are registered already, it stays taken.
  unfoldable pub wake_process : ℕ → Reuse → Wake × Reuse
  unfolding register_listeners wake_registered close_group
  wake_process pid s =
      if s.is_register_locked
      then (blocked, s)
      else (if not s.registered_wake
          then wake_registered (register_listeners pid s)
          else (woken, close_groups true (record s { is_register_locked = true })))

  unfoldable pub wake_restored : Option (Result ActivatorError ℕ) → Reuse → Wake × Reuse
  unfolding wake_process close_group
  wake_restored none s = (woken, close_groups false s)
  wake_restored (some (err e)) s = (failed, s)
  wake_restored (some (ok pid)) s =
      if pid == 0 then (woken, close_groups false s) else wake_process pid s

  unfoldable pub wake : Reuse → Wake × Reuse
  unfolding wake_restored
  wake s = wake_restored w.restore_hook s

  -- A listener that cannot be attached is closed, unless that fails after it was put into the map.
  unfoldable pub listen_group : Group → Result ActivatorError (Unit {0}) × Group
  listen_group g =
      if not (w.listens_wake g.port)
      then (err broken, g)
      else (if not (w.listens_probe g.port)
          then (err broken, record g { is_wake_open = true })
          else (if not (w.attaches_wake g.port)
              then (
                err broken,
                record g { is_wake_open = w.left_open g.port; is_probe_open = true },
              )
              else (if not (w.attaches_probe g.port)
                  then (
                    err broken,
                    record g { is_wake_open = true; is_probe_open = w.left_open g.port },
                  )
                  else (ok tt, record g { is_wake_open = true; is_probe_open = true }))))

  unfoldable pub and_rest :
      Result ActivatorError (Unit {0}) × Group
      → List Group
      → Result ActivatorError (Unit {0}) × List Group
      → Result ActivatorError (Unit {0}) × List Group
  and_rest (ok u, g) gs rest = (rest.0, g ∷ rest.1)
  and_rest (err e, g) gs rest = (err e, g ∷ gs)

  unfoldable pub listen_groups : List Group → Result ActivatorError (Unit {0}) × List Group
  unfolding listen_group and_rest
  listen_groups [] = (ok tt, [])
  listen_groups (g ∷ gs) = and_rest (listen_group g) gs (listen_groups gs)

  unfoldable pub reset : Reuse → Result ActivatorError (Unit {0}) × Reuse
  unfolding listen_groups close_group
  reset s =
      let r = listen_groups (map (close_group true) s.groups) in
      (r.0, record s { registered_wake = false; groups = r.1 })

  -- The time of the last activity, the zero time before the start.
  abbrev pub converted : Option ℤ → Result ActivatorError ℤ
  converted none = err broken
  converted (some t) = ok t

  abbrev pub activity_of : Option ℕ → Result ActivatorError ℤ
  activity_of none = err broken
  activity_of (some n) = if n == 0 then err no_activity_recorded else converted (w.time_of n)

  unfoldable pub last_activity : Reuse → ℕ → Result ActivatorError ℤ
  unfolding lookup_key
  last_activity s port =
      if not s.is_started then ok zero_time else activity_of (lookup_key port s.tracker)

  -- The loop over the ports.
  unfoldable pub put_ports : List ℕ → List (ℕ × ℕ) → Result ActivatorError (Unit {0}) × List (ℕ × ℕ)
  unfolding put_key
  put_ports [] m = (ok tt, m)
  put_ports (p ∷ ps) m =
      let rest = put_ports ps (put_key p 0 m) in if w.tracks p then rest else (err broken, m)

  abbrev pub with_tracker :
      Reuse
      → Result ActivatorError (Unit {0}) × List (ℕ × ℕ)
      → Result ActivatorError (Unit {0}) × Reuse
  with_tracker s r = (r.0, record s { tracker = r.1 })

  abbrev pub cleared_tracker :
      Reuse → Option (List (ℕ × ℕ)) → Result ActivatorError (Unit {0}) × List (ℕ × ℕ)
  cleared_tracker s (some rest) = (err broken, rest)
  cleared_tracker s none = if w.ignores then put_ports s.ports [] else (err broken, [])

  unfoldable pub init_socket_tracker : Reuse → Result ActivatorError (Unit {0}) × Reuse
  unfolding put_ports
  init_socket_tracker s = with_tracker s (cleared_tracker s (w.clears s.tracker))
