-- ===== src/Counter/Failover/Interval.antt =====
-- failover.go: the growing delay between two probes.
use sshpilot_vallete.Prelude.{ℕ, zero, suc, ◌*◌, ◌^◌, ◌≤◌, ◌<◌, ◌≡◌, arith, min, lt→ltb}
use sshpilot_vallete.Prelude.Word.{Duration, IsNonneg, slt-eq-ltb}
use sshpilot_vallete.Counter.Failover.{next_interval, max_reprobe_interval, with_reprobe_interval}
use native.Mathlib.Nat.{pow-suc, one-le-pow}

-- For positive durations the next delay is the double one, at most the ceiling, also where the
-- double does not fit in int64.
pub next_interval_lem :
    (cur max : Duration)
    → IsNonneg cur
    → IsNonneg max
    → 0 < cur
    → 0 < max
    → next_interval cur max ≡ min (cur * 2) max
unfolding next_interval
next_interval_lem cur max hc hm p q = ground arith

-- The delay before the probe that follows k failed ones.
pub delay : Duration → Duration → ℕ → Duration
delay base max zero = base
delay base max (suc k) = next_interval (delay base max k) max

min_double : (b p m : ℕ) → min (min (b * p) m * 2) m ≡ min (b * (p * 2)) m
min_double b p m = omega arith

power_pos : (b k : ℕ) → 0 < b → 0 < b * 2 ^ k
power_pos b k h = let p : 1 ≤ 2 ^ k = one-le-pow k 2 (omega arith) in grind arith

-- From a base of at most the ceiling, the delay before the next probe is the base doubled once for
-- each failed probe, at most the ceiling.
pub delay_curve :
    (base max : Duration) (k : ℕ)
    → 0 < base
    → base ≤ max
    → IsNonneg max
    → delay base max k ≡ min (base * 2 ^ k) max
unfolding delay
delay_curve base max zero p le h = omega arith
delay_curve base max (suc k) p le h =
    let so_far = delay_curve base max k p le h in
    let next =
      next_interval_lem (delay base max k) max (omega (arith, so_far)) h
        (omega (arith, so_far, power_pos base k p)) (omega arith) in
    rw (next, so_far, pow-suc) (min_double base (2 ^ k) max)

delay_above :
    (d max : Duration) (k : ℕ) → IsNonneg d → 0 < max → max < d → delay d max (suc k) ≡ max
unfolding delay
delay_above d max zero h q p =
    omega (arith, next_interval_lem d max h (omega arith) (omega arith) q)
delay_above d max (suc k) h q p =
    rw (delay_above d max k h q p)
      (omega (arith, next_interval_lem max max (omega arith) (omega arith) q q))

-- The ceiling does not bind the first delay: a configured interval above an hour is waited out in
-- full, and only the delays after it are an hour.
pub first_delay_unbounded :
    (d : Duration) (k : ℕ)
    → IsNonneg d
    → max_reprobe_interval < d
    → (delay (with_reprobe_interval d) max_reprobe_interval 0 ≡ d)
      × (delay (with_reprobe_interval d) max_reprobe_interval (suc k) ≡ max_reprobe_interval)
unfolding with_reprobe_interval
first_delay_unbounded d k h p = (
  unfold delay in ground arith,
  rw (slt-eq-ltb 0 d (omega arith) h, lt→ltb 0 d (omega arith))
      (delay_above d max_reprobe_interval k h (omega arith) p),
)
