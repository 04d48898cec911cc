-- ===== src/Activator/Reuse/Start.antt =====
-- Start and GetListeners of activator/reuse/activator.go.
use zeropod.Base.{
  ℕ, Bool, true, false, ◌&&◌, List, [], ◌∷◌, map, Text, codes, same, is_empty, delete_func, Result,
  ok, err, if◌then◌else◌, ◌==◌,
}
use zeropod.Activator.Interface.{ActivatorError, broken, unique_ports}
use zeropod.Activator.Reuse.{
  Group, Found, Reuse, ReuseCalls, register_listeners, reset, init_socket_tracker,
}

module _ (w : ReuseCalls) where
  abbrev pub group_of : Found → Group
  group_of f = record {
    port = f.port;
    network = if is_empty f.network then codes "tcp" else f.network;
    uid = f.uid;
    app_fd = 0;
    is_wake_open = false;
    is_probe_open = false;
  }

  abbrev pub same_listener : Group → Group → Bool
  same_listener g h = g.port == h.port && same g.network h.network

  -- A map has one group for a key, the last one that was put.
  unfoldable pub replace_group : Group → List Group → List Group
  replace_group g gs = g ∷ delete_func (same_listener g) gs

  -- The loop of a start that is skipped.
  unfoldable pub load_each : List Found → List Group → Result ActivatorError (Unit {0}) × List Group
  unfolding replace_group
  load_each [] gs = (ok tt, gs)
  load_each (f ∷ fs) gs =
      let loaded = load_each fs (replace_group (group_of f) gs) in
      if w.loads f.port then loaded else (err broken, gs)

  unfoldable pub after :
      Result ActivatorError (Unit {0}) × Reuse
      → (Reuse → Result ActivatorError (Unit {0}) × Reuse)
      → Result ActivatorError (Unit {0}) × Reuse
  after (ok u, s) f = f s
  after (err e, s) f = (err e, s)

  abbrev pub started : Reuse → Result ActivatorError (Unit {0}) × Reuse
  started s = init_socket_tracker w (record s { is_started = true })

  -- Start: without a process there is nothing to register, and the wake listeners wait at once.
  unfoldable pub start : ℕ → List Found → Bool → Reuse → Result ActivatorError (Unit {0}) × Reuse
  unfolding load_each reset register_listeners init_socket_tracker after
  start pid fs skip_start s =
      let t : Reuse = record s { ports = unique_ports (map (λ f. f.port) fs) } in
      let loaded = load_each fs t.groups in
      let waiting = after (loaded.0, record t { groups = loaded.1 }) (reset w) in
      after (if skip_start then waiting else register_listeners w pid t) started

  abbrev pub listener_of : Group → ℕ × Text × ℕ
  listener_of g = (g.port, g.network, g.uid)

  unfoldable pub get_listeners : Reuse → List (ℕ × Text × ℕ)
  get_listeners s = map listener_of s.groups
