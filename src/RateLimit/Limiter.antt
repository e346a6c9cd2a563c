-- ===== src/RateLimit/Limiter.antt =====
-- internal/ratelimit/ratelimit.go: a fixed-window limit on requests, over any counter store.
pub mod Window
pub mod Outage
use sshpilot_vallete.Prelude.{
  ℕ, ◌+◌, ◌-◌, ◌*◌, ◌/◌, ◌%◌, Bool, true, false, Option, none, some, [], ◌∷◌, ◌++◌, Bytes, codes,
  ◌=ᵇ◌, Err, Result, ok, err, if◌then◌else◌, invalid_key, invalid_input, unavailable,
}
use sshpilot_vallete.Prelude.Word.{Int64, Duration, add64, slt, sle, modulus}
use sshpilot_vallete.Counter.Port.{Context, Count, Store}

pub record Tier : Type 0 where
  pub limit : Int64
  pub window : Duration
  pub fail_open : Bool

unfoldable pub validate : Tier → Option Err
validate t =
    if sle t.limit 0
    then some invalid_input
    else if sle t.window 0
    then some invalid_input
    else none

pub record Decision : Type 0 where
  pub allowed : Bool
  pub retry_after : Duration
  pub count : Int64
  pub limit : Int64

abbrev pub second : Duration
second = 1000000000

-- The division is of a number that is not negative unless the sum has wrapped.
unfoldable pub retry_after_seconds : Decision → Int64
retry_after_seconds d =
    if sle d.retry_after 0
    then 1
    else (let n = add64 d.retry_after (second - 1) in
        if slt n 0 then (modulus - (modulus - n) / second) % modulus else n / second)

pub record Limiter : Type 0 where
  pub tier : Tier
  pub name : Bytes

-- `NewLimiter`; a nil store is no value of this model
unfoldable pub new_limiter : Bytes → Tier → Result Limiter
unfolding validate
new_limiter name tier =
    if name =ᵇ []
    then err invalid_input
    else elim (validate tier) [ some e ↦ err e | none ↦ ok (record { tier = tier; name = name }) ]

unfoldable pub key : Limiter → Bytes → Bytes
key l k = codes "rl:" ++ (l.name ++ (b':' ∷ k))

unfoldable pub store_failure : Limiter → Decision
store_failure l =
    if l.tier.fail_open
    then record { allowed = true; retry_after = 0; count = 0; limit = l.tier.limit }
    else record { allowed = false; retry_after = l.tier.window; count = 0; limit = l.tier.limit }

module _ {S : Type 0} (store : Store S) (l : Limiter) where
  -- The decision about the count that `Increment` returned.
  judge : Result Count → Decision × Option Err
  judge (err e) = (store_failure l, some e)
  judge (ok c) =
      if slt l.tier.limit c.value
      then (
        record { allowed = false; retry_after = c.ttl; count = c.value; limit = l.tier.limit },
        none,
      )
      else (record { allowed = true; retry_after = 0; count = c.value; limit = l.tier.limit }, none)

  -- `Allow`: the decision, the error beside it, and the store after.
  unfoldable pub allow : Context → Bytes → S → (Decision × Option Err) × S
  unfolding judge store_failure
  allow ctx k s =
      if k =ᵇ []
      then (
        (
          record { allowed = false; retry_after = l.tier.window; count = 0; limit = l.tier.limit },
          some invalid_input,
        ),
        s,
      )
      else (let (r, s') = store.increment ctx (key l k) 1 l.tier.window s in (judge r, s'))

  unfoldable pub reset : Context → Bytes → S → Result (Unit {0}) × S
  reset ctx k s = if k =ᵇ [] then (err invalid_input, s) else store.delete ctx (key l k) s
