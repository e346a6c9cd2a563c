-- ===== src/Counter/Failover.antt =====
-- internal/counter/failover.go: a store that prefers a network-backed primary and degrades to an
-- in-process fallback. The primary and the fallback are parameters, as they are in the code; the
-- request path is here and the reprobe loop in the module Reprobe.
pub mod Degraded
pub mod Interval
pub mod Reprobe
use sshpilot_vallete.Prelude.{
  ◌+◌, ◌*◌, ◌%◌, Bool, true, false, not, ◌||◌, Bytes, Err, Result, ok, err, if◌then◌else◌,
  unavailable,
}
use sshpilot_vallete.Prelude.Word.{Int64, Duration, add64, slt, sle, modulus}
use sshpilot_vallete.Counter.Port.{Context, Count, Store}

-- errors.Is(err, ErrStoreUnavailable)
abbrev pub is_unavailable : Err → Bool
is_unavailable unavailable = true
is_unavailable _ = false

-- The state of a FailoverStore with its two stores. `signal` says whether the one slot of
-- degradedCh is taken.
pub record Failover (P F : Type 0) : Type 0 where
  pub primary : P
  pub fallback : F
  pub degraded : Bool
  pub signal : Bool

module _ {P F : Type 0} where
  -- The swap succeeds only from the healthy state; a full slot drops the send.
  unfoldable pub mark_degraded : Failover P F → Failover P F
  mark_degraded f = if f.degraded then f else record f { degraded = true; signal = true }

  -- What one of the three methods does with its two calls, of the primary and of the fallback.
  module _ {A : Type 0} (on_primary : P → Result A × P) (on_fallback : F → Result A × F) where
    serve_fallback : Failover P F → Result A × Failover P F
    serve_fallback f = let (r, b) = on_fallback f.fallback in (r, record f { fallback = b })

    -- After the primary gave `r`.
    settle : Result A → Failover P F → Result A × Failover P F
    unfolding serve_fallback mark_degraded
    settle (ok a) f = (ok a, f)
    settle (err e) f = if is_unavailable e then serve_fallback (mark_degraded f) else (err e, f)

    unfoldable pub route : Failover P F → Result A × Failover P F
    unfolding settle
    route f =
        if f.degraded
        then serve_fallback f
        else (let (r, p) = on_primary f.primary in settle r (record f { primary = p }))

  module _ (primary : Store P) (fallback : Store F) where
    unfoldable pub increment :
        Context → Bytes → Int64 → Duration → Failover P F → Result Count × Failover P F
    unfolding route
    increment ctx k delta ttl =
        route (primary.increment ctx k delta ttl) (fallback.increment ctx k delta ttl)

    unfoldable pub get : Context → Bytes → Failover P F → Result Count × Failover P F
    unfolding route
    get ctx k = route (primary.get ctx k) (fallback.get ctx k)

    unfoldable pub delete : Context → Bytes → Failover P F → Result (Unit {0}) × Failover P F
    unfolding route
    delete ctx k = route (primary.delete ctx k) (fallback.delete ctx k)

    abbrev pub failover_port : Store (Failover P F)
    failover_port = record { increment = increment; get = get; delete = delete }

-- cur * 2 in int64, and the cap where that is above it or has overflowed
unfoldable pub next_interval : Duration → Duration → Duration
next_interval cur max =
    let next = (cur * 2) % modulus in if slt max next || sle next 0 then max else next

-- defaultReprobeInterval and maxReprobeInterval, in nanoseconds
abbrev pub default_reprobe_interval : Duration
default_reprobe_interval = 300000000000

abbrev pub max_reprobe_interval : Duration
max_reprobe_interval = 3600000000000

-- `WithReprobeInterval` over the default: a duration that is not positive is ignored.
unfoldable pub with_reprobe_interval : Duration → Duration
with_reprobe_interval d = if slt 0 d then d else default_reprobe_interval
