-- ===== src/RateLimit/Limiter/Outage.antt =====
-- ratelimit.go: the value of the Retry-After header, and the limiter's keys.
use sshpilot_vallete.Prelude.{
  ℕ, ◌+◌, ◌-◌, ◌*◌, ◌≤◌, ◌<◌, ◌≡◌, ◌⊎◌, ◌≢◌, refl, [], ◌∷◌, ◌++◌, Bytes, arith,
}
use sshpilot_vallete.Prelude.Word.{sign_bit}
use sshpilot_vallete.RateLimit.Limiter.{Limiter, Decision, second, key, retry_after_seconds}

-- The value of Retry-After is the least number of whole seconds, and at least one, that is not
-- shorter than the wait, for a wait that leaves room for the rounding in int64.
pub retry_after_seconds_least :
    (d : Decision)
    → d.retry_after + second ≤ sign_bit
    → (1 ≤ retry_after_seconds d)
      × (d.retry_after ≤ retry_after_seconds d * second)
      × ((retry_after_seconds d ≡ 1) ⊎ ((retry_after_seconds d - 1) * second < d.retry_after))
unfolding retry_after_seconds
retry_after_seconds_least d h = (ground arith, ground arith, ground arith)

abbrev pub Lacks : ℕ → Bytes → Type 0
Lacks b [] = Unit
Lacks b (x ∷ xs) = (x ≢ b) × Lacks b xs

-- A separator that neither first part holds ends both at one place.
separated :
    (b : ℕ) (xs ys us vs : Bytes)
    → Lacks b xs
    → Lacks b ys
    → xs ++ (b ∷ us) ≡ ys ++ (b ∷ vs)
    → (xs ≡ ys) × (us ≡ vs)
separated b [] [] us vs hx hy e = (refl, cc)
separated b [] (y ∷ ys) us vs hx hy e = absurd (hy.0 (cc))
separated b (x ∷ xs) [] us vs hx hy e = absurd (hx.0 (cc))
separated b (x ∷ xs) (y ∷ ys) us vs hx hy e =
    let h = separated b xs ys us vs hx.1 hy.1 (cc) in (cc (h.0), h.1)

-- Limiters whose names hold no colon share a store key only if they have one name, and then only
-- for one caller key.
pub key_injective :
    (l m : Limiter) (k j : Bytes)
    → Lacks b':' l.name
    → Lacks b':' m.name
    → key l k ≡ key m j
    → (l.name ≡ m.name) × (k ≡ j)
unfolding key
key_injective l m k j hl hm e = separated b':' l.name m.name k j hl hm (cc)
