-- ===== src/RateLimit/Backoff.antt =====
-- internal/ratelimit/backoff.go: failure counting with exponential backoff, over any counter store.
pub mod Lockout
pub mod Penalty
pub mod Wrap
use sshpilot_vallete.Prelude.{
  ℕ, ◌+◌, ◌-◌, ◌*◌, ◌%◌, ◌^◌, Bool, true, false, ◌||◌, Option, none, some, [], ◌∷◌, ◌++◌, Bytes,
  codes, ◌=ᵇ◌, ◌==◌, Err, Result, ok, err, if◌then◌else◌, invalid_input,
}
use sshpilot_vallete.Prelude.Decimal.{format_int}
use sshpilot_vallete.Prelude.Word.{Int64, Duration, add64, slt, sle, modulus}
use sshpilot_vallete.Counter.Port.{Context, Count, Store}
use sshpilot_vallete.RateLimit.Limiter.{Decision}

pub record AuthTier : Type 0 where
  pub limit : Int64
  pub window : Duration
  pub horizon : Duration
  pub cap : Duration

unfoldable pub validate : AuthTier → Option Err
validate t =
    if sle t.limit 0
    then some invalid_input
    else if sle t.window 0
    then some invalid_input
    else if sle t.horizon 0
    then some invalid_input
    else if sle t.cap 0
    then some invalid_input
    else if sle t.horizon t.cap
    then some invalid_input
    else none

abbrev pub max_shift : Int64
max_shift = 62

-- window << shift, clamped; the shift drops what passes 64 bits
unfoldable pub shifted : AuthTier → Int64 → Duration
shifted t shift =
    if slt max_shift shift
    then t.cap
    else (let d = (t.window * 2 ^ shift) % modulus in if sle d 0 || slt t.cap d then t.cap else d)

unfoldable pub lockout : AuthTier → Int64 → Duration
unfolding shifted
lockout t n =
    if sle n t.limit then 0 else shifted t ((n + modulus - t.limit + modulus - 1) % modulus)

pub record AuthLimiter : Type 0 where
  pub tier : AuthTier
  pub name : Bytes

-- `NewAuthLimiter`; a nil store is no value of this model
unfoldable pub new_auth_limiter : Bytes → AuthTier → Result AuthLimiter
unfolding validate
new_auth_limiter name tier =
    if name =ᵇ []
    then err invalid_input
    else elim (validate tier) [ some e ↦ err e | none ↦ ok (record { tier = tier; name = name }) ]

unfoldable pub fail_key : AuthLimiter → Bytes → Bytes
fail_key a k = codes "rl:" ++ (a.name ++ (codes ":f:" ++ k))

unfoldable pub lock_key : AuthLimiter → Bytes → Int64 → Bytes
lock_key a k level = codes "rl:" ++ (a.name ++ (codes ":l" ++ (format_int level ++ (b':' ∷ k))))

abbrev pub refuse : AuthLimiter → Duration → Int64 → Decision
refuse a wait count = record {
  allowed = false;
  retry_after = wait;
  count = count;
  limit = a.tier.limit;
}

abbrev pub permit : AuthLimiter → Int64 → Decision
permit a count = record { allowed = true; retry_after = 0; count = count; limit = a.tier.limit }

module _ {S : Type 0} (store : Store S) (a : AuthLimiter) where
  -- The decision of `Check` about the lockout key, with `failures` counted.
  check_lock : Int64 → Result Count × S → (Decision × Option Err) × S
  check_lock failures (err e, s) = ((refuse a a.tier.window 0, some e), s)
  check_lock failures (ok lock, s) =
      if lock.value == 0
      then ((permit a failures, none), s)
      else ((refuse a lock.ttl failures, none), s)

  check_failures : Context → Bytes → Result Count × S → (Decision × Option Err) × S
  unfolding check_lock
  check_failures ctx k (err e, s) = ((refuse a a.tier.window 0, some e), s)
  check_failures ctx k (ok failures, s) =
      if sle failures.value a.tier.limit
      then ((permit a failures.value, none), s)
      else check_lock failures.value (store.get ctx (lock_key a k failures.value) s)

  unfoldable pub check : Context → Bytes → S → (Decision × Option Err) × S
  unfolding check_failures
  check ctx k s =
      if k =ᵇ []
      then ((refuse a a.tier.window 0, some invalid_input), s)
      else check_failures ctx k (store.get ctx (fail_key a k) s)

  -- The decision of `RecordFailure` after the lockout key was written.
  armed : Int64 → Duration → Result Count × S → (Decision × Option Err) × S
  armed failures wait (err e, s) = ((refuse a wait 0, some e), s)
  armed failures wait (ok lock, s) = ((refuse a lock.ttl failures, none), s)

  arm : Context → Bytes → Result Count × S → (Decision × Option Err) × S
  unfolding armed
  arm ctx k (err e, s) = ((refuse a a.tier.window 0, some e), s)
  arm ctx k (ok failures, s) =
      let wait = lockout a.tier failures.value in
      if wait == 0
      then ((permit a failures.value, none), s)
      else armed failures.value wait (store.increment ctx (lock_key a k failures.value) 1 wait s)

  unfoldable pub record_failure : Context → Bytes → S → (Decision × Option Err) × S
  unfolding arm
  record_failure ctx k s =
      if k =ᵇ []
      then ((refuse a a.tier.window 0, some invalid_input), s)
      else arm ctx k (store.increment ctx (fail_key a k) 1 a.tier.horizon s)

  unfoldable pub record_success : Context → Bytes → S → Result (Unit {0}) × S
  record_success ctx k s =
      if k =ᵇ [] then (err invalid_input, s) else store.delete ctx (fail_key a k) s
