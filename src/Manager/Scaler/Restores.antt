-- ===== src/Manager/Scaler/Restores.antt =====
-- Scaling the requests of a container down and up again gives them back (manager/pod_scaler.go).
use zeropod.Base.{
  ℕ, Text, ◌≡◌, refl, sym, ◌∙◌, ap, subst, true, false, not, ◌&&◌, Option, none, some, arith, ◌==◌,
  Result, ok, ◌>>=◌, is_some, if-cases,
}
use zeropod.Config.{Annotations}
use zeropod.Shim.Types.{ContainerPhase, scaled_down, running, ShimError}
use zeropod.Manager.Scaler.{
  ResourceList, PodContainer, Json, ContainerResource, is_up_to_date, new_requests, shrink, amount,
  scaled_down_cpu, scaled_down_memory, initial_request, initial_requests, annotated_requests,
  find_request, cpu_annotation_key, memory_annotation_key, scaled_container, reconcile_container,
}

-- The requests that a phase asks for are up to date in that phase.
new_requests-up_to_date :
    (initial current : ResourceList) (phase : ContainerPhase)
    → is_up_to_date initial (new_requests initial current phase) phase ≡ true
unfolding is_up_to_date new_requests shrink
new_requests-up_to_date initial current scaled_down = ground arith
new_requests-up_to_date initial current running = ground arith
new_requests-up_to_date initial current _ = refl

-- The annotation under `key` holds the quantity `q` for a container.
pub record IsRecorded (js : Json) (a : Annotations) (key name : Text) (q : Option ℕ) : Type 0 where
  pub map : ContainerResource
  pub decodes : annotated_requests js a key ≡ ok map
  pub holds : find_request name map ≡ some (amount q)

pub record AreRecorded (js : Json) (a : Annotations) (c : PodContainer) : Type 0 where
  pub cpu : IsRecorded js a cpu_annotation_key c.name c.requests.cpu
  pub memory : IsRecorded js a memory_annotation_key c.name c.requests.memory

-- One request: as it was, or shrunk.
pub data IsShrunk (small : ℕ) (q : Option ℕ) : Option ℕ → Type 0 where
  kept : IsShrunk small q q
  shrunk : IsShrunk small q (shrink small q)

initial_request-IsShrunk :
    (small : ℕ) (q r : Option ℕ) → IsShrunk small q r → initial_request (some (amount q)) r ≡ q
unfolding initial_request shrink
initial_request-IsShrunk small none _ kept = refl
initial_request-IsShrunk small none _ shrunk = refl
initial_request-IsShrunk small (some n) _ kept = ground arith
initial_request-IsShrunk small (some n) _ shrunk = ground arith

IsShrunk-same :
    (small : ℕ) (q r : Option ℕ) → IsShrunk small q r → (amount r == amount q) ≡ true → r ≡ q
unfolding shrink
IsShrunk-same small none _ kept e = refl
IsShrunk-same small none _ shrunk e = refl
IsShrunk-same small (some n) _ kept e = refl
IsShrunk-same small (some n) _ shrunk e = ground arith

IsShrunk-is_some : (small : ℕ) (q r : Option ℕ) → IsShrunk small q r → is_some r ≡ is_some q
unfolding shrink
IsShrunk-is_some small none _ kept = refl
IsShrunk-is_some small none _ shrunk = refl
IsShrunk-is_some small (some n) _ kept = refl
IsShrunk-is_some small (some n) _ shrunk = ground arith

-- A container with such requests.
abbrev pub with_requests : PodContainer → Option ℕ → Option ℕ → PodContainer
with_requests c p m = record c { requests = record c.requests { cpu = p; memory = m } }

pub data IsScaled (c : PodContainer) : PodContainer → Type 0 where
  scaled :
      (p m : Option ℕ)
      → IsShrunk scaled_down_cpu c.requests.cpu p
      → IsShrunk scaled_down_memory c.requests.memory m
      → IsScaled c (with_requests c p m)

IsShrunk-none : (small : ℕ) (q r : Option ℕ) → IsShrunk small q r → is_some r ≡ false → r ≡ q
unfolding shrink
IsShrunk-none small none _ kept e = refl
IsShrunk-none small none _ shrunk e = refl
IsShrunk-none small (some n) _ kept e = refl
IsShrunk-none small (some n) _ shrunk e = ground arith

module _ (js : Json) (a : Annotations) (c : PodContainer) (h : AreRecorded js a c) where
  pub initial-back :
      (p m : Option ℕ)
      → IsShrunk scaled_down_cpu c.requests.cpu p
      → IsShrunk scaled_down_memory c.requests.memory m
      → initial_requests js (with_requests c p m) a ≡ ok c.requests
  unfolding initial_requests ◌>>=◌
  initial-back p m sp sm =
      ap (λ r. r >>= λ cpus. annotated_requests js a memory_annotation_key >>= build cpus)
        h.cpu.decodes
      ∙ ap (λ r. r >>= build h.cpu.map) h.memory.decodes
      ∙ ap
          (λ x. ok (record c.requests {
            cpu = x;
            memory = initial_request (find_request c.name h.memory.map) m;
          }))
          (ap (λ o. initial_request o p) h.cpu.holds ∙ initial_request-IsShrunk _ _ p sp)
      ∙ ap (λ x. ok (record c.requests { memory = x }))
          (ap (λ o. initial_request o m) h.memory.holds ∙ initial_request-IsShrunk _ _ m sm)
    where
      build : ContainerResource → ContainerResource → Result ShimError ResourceList
      build cpus memory = ok (record c.requests {
        cpu = initial_request (find_request c.name cpus) p;
        memory = initial_request (find_request c.name memory) m;
      })

  both : {p m : Option ℕ} → p ≡ c.requests.cpu → m ≡ c.requests.memory → with_requests c p m ≡ c
  both {p = p} {m = m} e f =
      ap (λ x. with_requests c x m) e ∙ ap (λ x. with_requests c c.requests.cpu x) f

  scaled_container-back :
      (p m : Option ℕ)
      → IsShrunk scaled_down_cpu c.requests.cpu p
      → IsShrunk scaled_down_memory c.requests.memory m
      → scaled_container (with_requests c p m) running c.requests ≡ c
  unfolding scaled_container new_requests is_up_to_date
  scaled_container-back p m sp sm =
      if-cases (λ d. d ≡ c)
        (amount p == amount c.requests.cpu && amount m == amount c.requests.memory)
        (λ e. both (IsShrunk-same _ _ p sp (ground arith)) (IsShrunk-same _ _ m sm (ground arith)))
        (λ _. refl)

  pub reconcile-back : (d : PodContainer) → IsScaled c d → reconcile_container js a running d ≡ ok c
  unfolding reconcile_container ◌>>=◌
  reconcile-back _ (scaled p m sp sm) =
      if-cases (λ r. r ≡ ok c) (not (is_some p) && not (is_some m))
        (λ e.
          ap ok
            (both (IsShrunk-none _ _ p sp (ground arith)) (IsShrunk-none _ _ m sm (ground arith))))
        (λ _.
          ap (λ r. r >>= λ initial. ok (scaled_container (with_requests c p m) running initial))
            (initial-back p m sp sm)
          ∙ ap ok (scaled_container-back p m sp sm))

  -- Scaling down gives a container whose requests are as they were or shrunk.
  pub down-IsScaled :
      (d : PodContainer) × (reconcile_container js a scaled_down c ≡ ok d) × IsScaled c d
  unfolding reconcile_container ◌>>=◌ scaled_container new_requests
  down-IsScaled =
      if-cases (λ r. (d : PodContainer) × (r ≡ ok d) × IsScaled c d)
        (not (is_some c.requests.cpu) && not (is_some c.requests.memory))
        (λ _. (c, refl, scaled c.requests.cpu c.requests.memory kept kept))
        (λ _.
          subst (λ r. Scaled (r >>= λ initial. ok (scaled_container c scaled_down initial)))
            (sym (initial-back c.requests.cpu c.requests.memory kept kept))
            (if-cases (λ d. Scaled (ok d)) (is_up_to_date c.requests c.requests scaled_down)
              (λ _. (c, refl, scaled c.requests.cpu c.requests.memory kept kept))
              (λ _. (_, refl, scaled _ _ shrunk shrunk))))
    where
      Scaled : Result ShimError PodContainer → Type 0
      Scaled r = (d : PodContainer) × (r ≡ ok d) × IsScaled c d
