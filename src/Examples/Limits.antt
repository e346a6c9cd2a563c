-- ===== src/Examples/Limits.antt =====
-- internal/ratelimit on concrete calls, over the in-process store.
use sshpilot_vallete.Prelude.{
  ◌+◌, ◌-◌, ◌*◌, ◌^◌, ◌<◌, ◌≡◌, refl, min, true, false, none, [], ◌∷◌, codes, unavailable, arith,
  ◌=ᵇ◌, ltb, if◌then◌else◌,
}
use sshpilot_vallete.Prelude.Assoc
use sshpilot_vallete.Prelude.Decimal.{format_int}
use sshpilot_vallete.Counter.Port.{Context}
use sshpilot_vallete.Counter.Memory.{MemoryStore, new_memory_store, increment, get, memory_port}
use sshpilot_vallete.Counter.Memory.Refines.{memory-Contract}
use sshpilot_vallete.RateLimit.Limiter.{Limiter, Decision, validate, key}
use sshpilot_vallete.RateLimit.Limiter.Window.{allow_all, allow_all-opened, verdicts}
use sshpilot_vallete.RateLimit.Limiter.Window
use sshpilot_vallete.RateLimit.Limiter.Outage.{key_injective}
use sshpilot_vallete.RateLimit.Backoff
use sshpilot_vallete.RateLimit.Backoff.{
  AuthTier, AuthLimiter, lockout, refuse, permit, check, record_failure, record_success, fail_key,
  lock_key,
}
use sshpilot_vallete.RateLimit.Backoff.Lockout
use sshpilot_vallete.RateLimit.Backoff.Lockout.{lockout_bounds, lockout_curve, lockout_mono}
use sshpilot_vallete.RateLimit.Backoff.Wrap.{default_auth, lockout_wraps, lockout_default}
use sshpilot_vallete.RateLimit.Backoff.Penalty.{
  check_fails_closed, record_failure_fails_closed, locked_out,
}

abbrev at_ten : Context
at_ten = record { canceled = false; now = 10 }

abbrev at_twenty : Context
at_twenty = record { canceled = false; now = 20 }

abbrev gone : Context
gone = record { canceled = true; now = 20 }

abbrev two_a_minute : Limiter
two_a_minute = record {
  tier = record { limit = 2; window = 60000000000; fail_open = false };
  name = codes "publish";
}

usable : Window.IsUsable two_a_minute.tier
unfolding validate
usable = record { accepted = refl; limit_bound = omega arith; window_bound = omega arith }

allow_all-opened_example :
    allow_all memory_port two_a_minute
      (codes "ip")
      (at_ten ∷ at_twenty ∷ at_twenty ∷ [])
      new_memory_store
    ≡ true ∷ true ∷ false ∷ []
unfolding new_memory_store Assoc.get key
allow_all-opened_example =
    allow_all-opened memory_port memory-Contract two_a_minute usable (codes "ip") (λ e. cc) at_ten
      (at_twenty ∷ at_twenty ∷ []) new_memory_store tt refl
      (omega arith, omega arith, refl, (omega arith, omega arith, refl, tt)) (omega arith) refl

abbrev waits : Decision
waits = record { allowed = false; retry_after = 1500000000; count = 3; limit = 2 }

key_injective_example : (two_a_minute.name ≡ two_a_minute.name) × (codes "ip" ≡ codes "ip")
key_injective_example =
    key_injective two_a_minute two_a_minute (codes "ip") (codes "ip") (omega arith) (omega arith)
      refl

default-IsUsable : Lockout.IsUsable default_auth
unfolding Backoff.validate
default-IsUsable = record {
  accepted = refl;
  limit_bound = omega arith;
  window_bound = omega arith;
  horizon_bound = omega arith;
  cap_bound = omega arith;
}

lockout_curve_example : lockout default_auth 8 ≡ min (60000000000 * 2 ^ (8 - 5 - 1)) 3600000000000
lockout_curve_example =
    lockout_curve default_auth 8 default-IsUsable (omega arith) (omega arith) (omega arith)

lockout_default_example : lockout default_auth 80 ≡ min (60000000000 * 2 ^ (80 - 6)) 3600000000000
lockout_default_example = lockout_default 80 (omega arith) (omega arith)

-- A window of 2 ^ 33 + 1 nanoseconds, some eight and a half seconds.
abbrev odd_tier : AuthTier
odd_tier = record { limit = 5; window = 8589934593; horizon = 86400000000000; cap = 3600000000000 }

odd-IsUsable : Lockout.IsUsable odd_tier
unfolding Backoff.validate
odd-IsUsable = record {
  accepted = refl;
  limit_bound = omega arith;
  window_bound = omega arith;
  horizon_bound = omega arith;
  cap_bound = omega arith;
}

lockout_wraps_example :
    (lockout odd_tier (5 + 31 + 1) ≡ 2 ^ 31) × (odd_tier.cap < odd_tier.window * 2 ^ 31)
lockout_wraps_example =
    lockout_wraps odd_tier 33 31 odd-IsUsable refl (omega arith) (omega arith) refl (omega arith)
      (omega arith)

abbrev login : AuthLimiter
login = record { tier = default_auth; name = codes "auth" }

check_fails_closed_example :
    (check memory_port login gone (codes "ip") new_memory_store).0.0.allowed ≡ false
unfolding check get fail_key ◌=ᵇ◌
check_fails_closed_example =
    check_fails_closed memory_port login gone (codes "ip") new_memory_store unavailable refl

record_failure_fails_closed_example :
    (record_failure memory_port login gone (codes "ip") new_memory_store).0.0.allowed ≡ false
unfolding record_failure increment fail_key ◌=ᵇ◌
record_failure_fails_closed_example =
    record_failure_fails_closed memory_port login gone (codes "ip") new_memory_store unavailable
      refl

-- Five failures are counted, in an entry that lives for a day; the lockout key of the sixth still
-- stands from failures before them.
abbrev five_failures : MemoryStore
five_failures = record {
  entries =
      (codes "rl:auth:f:ip", record { value = 5; expires_at = 86400000000000 })
      ∷ (codes "rl:auth:l6:ip", record { value = 1; expires_at = 30 })
      ∷ [];
  ops = 5;
}

locked_out_example :
    (check memory_port login at_twenty
      (codes "ip")
      (record_failure memory_port login at_ten (codes "ip") five_failures).1).0
    ≡ ((if ltb 20 30 then refuse login (30 - 20) (5 + 1) else permit login (5 + 1)), none)
unfolding fail_key lock_key format_int Assoc.get ◌=ᵇ◌
locked_out_example =
    locked_out memory_port memory-Contract login default-IsUsable (codes "ip") (λ e. cc) at_ten
      five_failures 5 86400000000000 (refl, (refl, tt)) refl (omega arith) (omega arith)
      (omega arith) refl (λ e h. (ground arith, ground arith)) at_twenty refl (omega arith)
      (omega arith)
