-- ===== src/RateLimit/Backoff/Wrap.antt =====
-- backoff.go and defaults.go: where the doubling leaves int64, and the shipped tier, where it does
-- no harm.
use native.Mathlib.Nat.{pow-suc, add-zero, add-suc, pow-le-pow_right}
use native.Mathlib.Decide.{dec_lt}
use sshpilot_vallete.Prelude.{
  ℕ, zero, suc, ◌+◌, ◌-◌, ◌*◌, ◌%◌, ◌^◌, ◌≤◌, ◌<◌, ◌≡◌, ◌∙◌, refl, sym, ap, subst, lt→ltb, arith,
  min, Bool, true, ◌&&◌, ◌==◌, ==_iff,
}
use sshpilot_vallete.Prelude.Word.{Int64, IsNonneg, sign_bit, modulus}
use sshpilot_vallete.RateLimit.Backoff.{AuthTier, validate, lockout, shifted}
use sshpilot_vallete.RateLimit.Backoff.Lockout.{
  IsUsable, capped-eq, one-le-pow2, lockout-shifted, shifted-capped, pow2_large,
}

pow-add : (r s : ℕ) → 2 ^ (r + s) ≡ 2 ^ r * 2 ^ s
pow-add r zero = rw add-zero (omega arith)
pow-add r (suc s) =
    rw (add-suc, pow-suc, pow-suc) (omega (arith, ap (λ (x : ℕ). x * 2) (pow-add r s)))

-- A window of 2 ^ r + 1 nanoseconds, doubled s times with r + s = 64, wraps to 2 ^ s.
wrapped : (r s w : ℕ) → r + s ≡ 64 → 0 < s → s ≤ 62 → w ≡ 2 ^ r + 1 → (w * 2 ^ s) % modulus ≡ 2 ^ s
wrapped r s w e p q h =
    let top : 2 ^ r * 2 ^ s ≡ modulus = sym (pow-add r s) ∙ ap (λ (x : ℕ). 2 ^ x) e in
    let low : 2 ^ s ≤ 4611686018427387904 =
      pow-le-pow_right {n = 2} (omega arith) {i = s} {j = 62} q in
    rw h (omega (arith, top, low))

-- A long enough row of failures can shorten the lockout: where the window is one nanosecond above a
-- power of two, the doubling that passes 64 bits comes back positive, and is taken for the lockout
-- although the true doubling is far above the cap.
pub lockout_wraps :
    (t : AuthTier) (r s : ℕ)
    → IsUsable t
    → r + s ≡ 64
    → 2 ≤ s
    → s ≤ 62
    → t.window ≡ 2 ^ r + 1
    → 2 ^ s < t.cap
    → IsNonneg (t.limit + s + 1)
    → (lockout t (t.limit + s + 1) ≡ 2 ^ s) × (t.cap < t.window * 2 ^ s)
lockout_wraps t r s u e p q w c b =
    let low : 2 ^ s ≤ 4611686018427387904 =
      pow-le-pow_right {n = 2} (omega arith) {i = s} {j = 62} q in
    let at : lockout t (t.limit + s + 1) ≡ shifted t s =
      lockout-shifted t (t.limit + s + 1) u b (omega arith)
      ∙ ap (λ (x : ℕ). shifted t x) (omega arith) in
    (
      at
          ∙ shifted-capped t s q
          ∙ rw (wrapped r s t.window e (omega arith) q w) (
              capped-eq t.cap (2 ^ s) u.cap_bound (omega (arith, low))
                (omega (arith, one-le-pow2 s))
              ∙ omega (arith, c)),
      rw w (omega (arith, sym (pow-add r s) ∙ ap (λ (x : ℕ). 2 ^ x) e, u.cap_bound)),
    )

-- The auth tier of `DefaultTiers`: five free failures, a window of one minute, a horizon of a day and
-- a cap of an hour, in nanoseconds.
abbrev pub default_auth : AuthTier
default_auth = record {
  limit = 5;
  window = 60000000000;
  horizon = 86400000000000;
  cap = 3600000000000;
}

abbrev curve : ℕ → ℕ
curve s = min (60000000000 * 2 ^ s) 3600000000000

-- The shipped lockout meets the curve at every shift under a bound.
follows : ℕ → Bool
unfolding shifted
follows zero = true
follows (suc bound) = follows bound && shifted default_auth bound == curve bound

follows_to_63 : follows 63 ≡ true
unfolding follows shifted
follows_to_63 = refl

follows_at : (bound s : ℕ) → follows bound ≡ true → s < bound → shifted default_auth s ≡ curve s
unfolding follows
follows_at zero s h lt = ground arith
follows_at (suc bound) s h lt = elim (dec_lt s bound) [
  | yes y ↦ follows_at bound s (ground arith) y
  | no n ↦
      subst (λ t. shifted default_auth t ≡ curve t)
        (let same : bound ≡ s = omega (arith, n) in same)
        ((==_iff (shifted default_auth bound) (curve bound)).0 (ground arith))
]

default-IsUsable : IsUsable default_auth
unfolding validate
default-IsUsable = record {
  accepted = refl;
  limit_bound = omega arith;
  window_bound = omega arith;
  horizon_bound = omega arith;
  cap_bound = omega arith;
}

default_large : (s : ℕ) → 62 < s → IsNonneg s → shifted default_auth s ≡ curve s
unfolding shifted
default_large s h b =
    rw (lt→ltb ((62 + sign_bit) % modulus) ((s + sign_bit) % modulus) (omega arith))
      (omega (arith, pow2_large s h))

default_curve : (s : ℕ) → IsNonneg s → shifted default_auth s ≡ curve s
default_curve s b = elim (dec_lt 62 s) [
  | yes p ↦ default_large s p b
  | no p ↦ follows_at 63 s follows_to_63 (omega arith)
]

-- With the shipped tier the lockout is the documented curve at every number of failures that int64
-- holds: the doublings that wrap all land above the cap or below zero.
pub lockout_default :
    (n : Int64)
    → IsNonneg n
    → 5 < n
    → lockout default_auth n ≡ min (60000000000 * 2 ^ (n - 6)) 3600000000000
lockout_default n h p =
    lockout-shifted default_auth n default-IsUsable h p
    ∙ ap (λ (x : ℕ). shifted default_auth x) (omega arith)
    ∙ default_curve (n - 6) (omega arith)
