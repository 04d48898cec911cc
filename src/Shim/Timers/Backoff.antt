-- ===== src/Shim/Timers/Backoff.antt =====
-- How long the shim waits before it looks again whether the activator can start (initRetry of
-- shim/container.go).
use zeropod.Base.{ℕ, zero, suc, ◌*◌, ◌^◌, ◌≤◌, ◌<◌, ◌≡◌, refl, ◌∙◌, ap, arith, ltb, if◌then◌else◌}
use zeropod.Base.Int.{ℤ, pos, wrap64, wrap64-eq}
use zeropod.Shim.Types.{Container}
use zeropod.Shim.Timers.{next_backoff, init_retry}

-- The backoff after `k` retries.
nth_backoff : ℕ → ℤ
nth_backoff zero = pos 0
nth_backoff (suc k) = next_backoff (nth_backoff k)

abbrev pub min : ℕ → ℕ → ℕ
min a b = if ltb b a then b else a

-- No overflow, and the cap is kept.
next_backoff-double :
    (n : ℕ) → 0 < n → n ≤ 300000000000 → next_backoff (pos n) ≡ pos (min 300000000000 (n * 2))
unfolding next_backoff
next_backoff-double n p q =
    let e : wrap64 (pos (n * 2)) ≡ pos (n * 2) =
      wrap64-eq (pos (n * 2)) (omega arith, omega arith) in
    rw e (ground arith)

-- Doubling from ten milliseconds.
start : ℕ → ℕ
start zero = 10000000
start (suc k) = start k * 2

start_pos : (k : ℕ) → 10000000 ≤ start k
unfolding start
start_pos zero = omega arith
start_pos (suc k) = let ih = start_pos k in omega arith

start-pow : (k : ℕ) → start k ≡ 10000000 * 2 ^ k
unfolding start
start-pow zero = refl
start-pow (suc k) = let ih = start-pow k in omega arith

min_double :
    (n : ℕ) → 10000000 ≤ n → min 300000000000 (min 300000000000 n * 2) ≡ min 300000000000 (n * 2)
min_double n h = ground arith

min_bounds :
    (n : ℕ) → 10000000 ≤ n → (10000000 ≤ min 300000000000 n) × (min 300000000000 n ≤ 300000000000)
min_bounds n h = (ground arith, ground arith)

nth_backoff-first : nth_backoff 1 ≡ pos 10000000
unfolding nth_backoff next_backoff wrap64
nth_backoff-first = refl

nth_backoff-start : (k : ℕ) → nth_backoff (suc k) ≡ pos (min 300000000000 (start k))
unfolding nth_backoff start
nth_backoff-start zero = nth_backoff-first ∙ ap pos first
  where
    first : 10000000 ≡ min 300000000000 (start zero)
    first = refl
nth_backoff-start (suc k) =
    let (low, high) = min_bounds (start k) (start_pos k) in
    ap next_backoff (nth_backoff-start k)
    ∙ next_backoff-double (min 300000000000 (start k)) (omega arith) high
    ∙ ap pos (min_double (start k) (start_pos k))

module _ {S : Type 0} where
  -- The container after `k` retries.
  pub after_retries : ℕ → Container S → Container S
  after_retries zero c = c
  after_retries (suc k) c = (init_retry (after_retries k c)).1

  after_retries_backoff :
      (k : ℕ) (c : Container S)
      → c.init_backoff ≡ pos 0
      → (after_retries k c).init_backoff ≡ nth_backoff k
  unfolding after_retries nth_backoff init_retry
  after_retries_backoff zero c h = h
  after_retries_backoff (suc k) c h = ap next_backoff (after_retries_backoff k c h)

  -- The retry after `k` others, of a container that has not waited before, waits ten milliseconds
  -- doubled `k` times, but at most five minutes; no doubling overflows an int64.
  pub init_retry-doubles :
      (k : ℕ) (c : Container S)
      → c.init_backoff ≡ pos 0
      → (init_retry (after_retries k c)).0 ≡ pos (min (5 * 60 * 10 ^ 9) (10 * 10 ^ 6 * 2 ^ k))
  unfolding init_retry nth_backoff
  init_retry-doubles k c h =
      ap next_backoff (after_retries_backoff k c h)
      ∙ nth_backoff-start k
      ∙ ap (λ n. pos (min 300000000000 n)) (start-pow k)
