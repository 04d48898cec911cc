-- ===== src/Activator/Server.antt =====
-- The eBPF activator (`Server` of activator/activator.go). The maps that it shares with the kernel are
-- association lists; what the kernel answers is the record `Kernel`. A method is a computation of
-- the small state monad `M`: it returns a result and the server it leaves, also after an error.
pub mod Loops
pub mod Redirects
pub mod Wiring
pub mod Start
use zeropod.Base.{
  ℕ, ◌+◌, Bool, true, false, not, Option, none, some, List, [], ◌∷◌, Text, Result, ok, err, length,
  if◌then◌else◌, ◌==◌, contains_num, delete_func,
}
use zeropod.Base.Int.{ℤ, pos, negsuc, ◌-ℤ◌, wrap64}
use zeropod.Activator.Interface.{
  ActivatorError, map_not_found, no_activity_recorded, broken, zero_time,
}

pub data BpfMap : Type 0 where
  active_connections disable_redirect egress_redirects ingress_redirects socket_tracker : BpfMap

pub data AttachAnswer : Type 0 where
  attached no_child_processes attach_failed : AttachAnswer

-- `accepts` and `free_port` are asked with the number of calls made before; a call of `Put` or
-- `Delete` that is accepted has no error but the one for a missing key. `loads` is LoadPinnedMap.
pub record Kernel : Type 0 where
  pub pinned : Bool
  pub loads : BpfMap → Bool
  pub accepts : ℕ → Bool
  pub free_port : ℕ → Option ℕ
  pub attach : AttachAnswer
  pub now : ℕ → ℤ
  pub boot_time : ℕ → Option ℤ

pub record Server : Type 0 where
  pub ports : List ℕ
  -- the proxy ports of the open listeners, the last one first
  pub listeners : List ℕ
  pub loaded : List ℕ
  pub active : List ℕ
  pub disabled : List ℕ
  pub egress : List (ℕ × ℕ)
  pub ingress : List (ℕ × ℕ)
  pub tracker : List (ℕ × ℕ)
  pub is_started : Bool
  pub is_forwarding : Bool
  pub target_addr : Text
  pub calls : ℕ

-- Lookup and Put of an eBPF hash map.
unfoldable pub lookup_key : ℕ → List (ℕ × ℕ) → Option ℕ
lookup_key k [] = none
lookup_key k ((j, v) ∷ m) = if j == k then some v else lookup_key k m

unfoldable pub put_key : ℕ → ℕ → List (ℕ × ℕ) → List (ℕ × ℕ)
put_key k v [] = (k, v) ∷ []
put_key k v ((j, w) ∷ m) = let rest = put_key k v m in if j == k then (k, v) ∷ m else (j, w) ∷ rest

-- The same for a map whose values do not matter.
unfoldable pub put_in : ℕ → List ℕ → List ℕ
put_in k ks = if contains_num ks k then ks else k ∷ ks

unfoldable pub delete_from : ℕ → List ℕ → List ℕ
delete_from k ks = delete_func (λ j. j == k) ks

abbrev pub M : Type 0 → Type 0
M A = Server → Result ActivatorError A × Server

unfoldable pub after :
    {A B : Type 0} → Result ActivatorError A × Server → (A → M B) → Result ActivatorError B × Server
after (ok a, s) f = f a s
after (err e, s) f = (err e, s)

infixl 5 ◌>>=◌ ◌>>◌
abbrev pub ◌>>=◌ : {A B : Type 0} → M A → (A → M B) → M B
◌>>=◌ m f s = after (m s) f

abbrev pub ◌>>◌ : {B : Type 0} → M (Unit {0}) → M B → M B
◌>>◌ m k s = after (m s) (λ _. k)

abbrev pub done : M (Unit {0})
done s = (ok tt, s)

-- `for _, port := range ports { if err := f(port); err != nil { return err } }`
unfoldable pub each : (ℕ → M (Unit {0})) → List ℕ → M (Unit {0})
unfolding after
each f [] s = (ok tt, s)
each f (p ∷ ps) s = after (f p s) (λ _. each f ps)

map_number : BpfMap → ℕ
map_number active_connections = 0
map_number disable_redirect = 1
map_number egress_redirects = 2
map_number ingress_redirects = 3
map_number socket_tracker = 4

module _ (k : Kernel) where
  -- One call into a map: the update is made if the kernel accepts it.
  unfoldable pub map_call : (Server → Server) → M (Unit {0})
  map_call update s =
      let called : Server = record s { calls = s.calls + 1 } in
      if k.accepts s.calls then (ok tt, update called) else (err broken, called)

  unfoldable pub disable_redirect_of : ℕ → M (Unit {0})
  unfolding map_call put_in
  disable_redirect_of port = map_call (λ s. record s { disabled = put_in port s.disabled })

  -- A missing key is no error.
  unfoldable pub enable_redirect_of : ℕ → M (Unit {0})
  unfolding map_call delete_from
  enable_redirect_of port = map_call (λ s. record s { disabled = delete_from port s.disabled })

  unfoldable pub reset : M (Unit {0})
  unfolding each enable_redirect_of
  reset s = each enable_redirect_of s.ports s

  unfoldable pub disable_redirects : M (Unit {0})
  unfolding each disable_redirect_of
  disable_redirects s = each disable_redirect_of s.ports s

  -- Puts `from` to `to` on ingress, and `to` to `from` on egress.
  unfoldable pub redirect_port : ℕ → ℕ → M (Unit {0})
  unfolding map_call put_key after
  redirect_port from to = do
    map_call (λ s. record s { ingress = put_key from to s.ingress })
    map_call (λ s. record s { egress = put_key to from s.egress })

  -- A listener on a free port.
  unfoldable pub listen : M ℕ
  listen s =
      let called : Server = record s { calls = s.calls + 1 } in
      elim (k.free_port s.calls) [
        | none ↦ (err broken, called)
        | some q ↦ (ok q, record called { listeners = q ∷ s.listeners })
      ]

  -- One round of the loop of `Start`.
  unfoldable pub listen_and_redirect : ℕ → M (Unit {0})
  unfolding listen redirect_port after
  listen_and_redirect port = do proxy_port ← listen; redirect_port port proxy_port

  load_pinned_map : BpfMap → M (Unit {0})
  unfolding map_number
  load_pinned_map m s =
      if contains_num s.loaded (map_number m)
      then (ok tt, s)
      else if k.loads m
      then (ok tt, record s { loaded = map_number m ∷ s.loaded })
      else (err broken, s)

  load_all : M (Unit {0})
  unfolding load_pinned_map
  load_all = do
    load_pinned_map active_connections
    load_pinned_map disable_redirect
    load_pinned_map egress_redirects
    load_pinned_map ingress_redirects
    load_pinned_map socket_tracker

  pub load_pinned_maps : M (Unit {0})
  unfolding load_all after
  load_pinned_maps s = if k.pinned then load_all s else (err map_not_found, s)

  init_activity_of : ℕ → M (Unit {0})
  unfolding map_call put_key
  init_activity_of port = map_call (λ s. record s { tracker = put_key port 0 s.tracker })

  pub init_activity_tracker : M (Unit {0})
  unfolding each init_activity_of
  init_activity_tracker s = each init_activity_of s.ports s

  -- The loop of `Start` over the ports.
  pub listen_all : M (Unit {0})
  unfolding each listen_and_redirect
  listen_all s = each listen_and_redirect s.ports s

  pub set_started : M (Unit {0})
  set_started s = (ok tt, record s { is_started = true })

  -- Redirects start disabled; for a container that does not run yet they are turned on at the end.
  start_all : Bool → M (Unit {0})
  unfolding load_pinned_maps init_activity_tracker disable_redirects listen_all reset set_started
  start_all skip_start = do
    load_pinned_maps
    init_activity_tracker
    disable_redirects
    listen_all
    if skip_start then reset else done
    set_started

  unfoldable pub start : List ℕ → Bool → M (Unit {0})
  unfolding start_all after
  start ports skip_start s = start_all skip_start (record s { ports = ports })

  unfoldable pub attach_exec : M (Unit {0})
  attach_exec s = elim k.attach [ attach_failed ↦ (err broken, s) | _ ↦ (ok tt, s) ]

  unfoldable pub register_connection : ℕ → M (Unit {0})
  unfolding map_call put_in
  register_connection port = map_call (λ s. record s { active = put_in port s.active })

  -- Here a missing key is an error, which the caller logs.
  unfoldable pub remove_connection : ℕ → M (Unit {0})
  unfolding map_call delete_from
  remove_connection port s =
      if contains_num s.active port
      then map_call (λ s. record s { active = delete_from port s.active }) s
      else (err broken, record s { calls = s.calls + 1 })

  -- A value of bpf_ktime_get_ns as a time.
  convert_bpf_time : ℕ → ℕ → Result ActivatorError ℤ
  convert_bpf_time calls t = elim (k.boot_time calls) [
    | none ↦ err broken
    | some b ↦ ok (k.now calls -ℤ wrap64 (b -ℤ wrap64 (pos t)))
  ]

  unfoldable pub last_activity : Server → ℕ → Result ActivatorError ℤ
  unfolding convert_bpf_time lookup_key
  last_activity s port =
      if s.is_started
      then elim (lookup_key port s.tracker) [
        | none ↦ err broken
        | some v ↦ if v == 0 then err no_activity_recorded else convert_bpf_time s.calls v
      ]
      else ok zero_time

unfoldable pub forward_to_target : Text → M (Unit {0})
forward_to_target addr s = (ok tt, record s { target_addr = addr; is_forwarding = true })

-- Stop closes the listeners and the maps; what the maps hold is pinned and stays.
unfoldable pub stop : Server → Server
stop s = record s { listeners = [] }

-- A port's redirect is on where the map of disabled ones does not hold it.
abbrev pub is_redirected : Server → ℕ → Bool
is_redirected s port = not (contains_num s.disabled port)
