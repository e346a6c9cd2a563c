-- ===== src/RateLimit/Backoff/Lockout.antt =====
-- backoff.go: the curve of the lockout.
use sshpilot_vallete.Prelude.{
  ℕ, ◌+◌, ◌-◌, ◌*◌, ◌%◌, ◌^◌, ◌≤◌, ◌<◌, ◌≡◌, none, arith, min, le→ltb, ◌∙◌, if◌then◌else◌, ◌||◌,
}
use native.Mathlib.Nat.{one-le-pow, pow-le-pow_right}
use native.Mathlib.Decide.{dec_lt}
use sshpilot_vallete.Prelude.Word.{Int64, IsNonneg, sign_bit, modulus, sle, slt}
use sshpilot_vallete.RateLimit.Backoff.{AuthTier, validate, lockout, shifted}

-- A tier that `NewAuthLimiter` accepts, with numbers that are patterns of int64.
pub record IsUsable (t : AuthTier) : Type 0 where
  pub accepted : validate t ≡ none
  pub limit_bound : IsNonneg t.limit
  pub window_bound : IsNonneg t.window
  pub horizon_bound : IsNonneg t.horizon
  pub cap_bound : IsNonneg t.cap

pub lockout_free :
    (t : AuthTier) (n : Int64) → IsUsable t → IsNonneg n → n ≤ t.limit → lockout t n ≡ 0
unfolding lockout validate
lockout_free t n u h p = ground arith

-- Above the free limit there always is a lockout, and it is never longer than the cap, also where the
-- doubling overflows.
pub lockout_bounds :
    (t : AuthTier) (n : Int64)
    → IsUsable t
    → IsNonneg n
    → t.limit < n
    → (0 < lockout t n) × (lockout t n ≤ t.cap)
unfolding lockout validate
lockout_bounds t n u h p = (ground arith, ground arith)

pub one-le-pow2 : (s : ℕ) → 1 ≤ 2 ^ s
one-le-pow2 s = one-le-pow s 2 (omega arith)

-- 63 doublings pass every int64.
pub pow2_large : (s : ℕ) → 62 < s → sign_bit ≤ 2 ^ s
pow2_large s h = pow-le-pow_right {n = 2} (omega arith) h

pub product_large : (w p : ℕ) → 0 < w → sign_bit ≤ p → sign_bit ≤ w * p
product_large w p h k = grind arith

pub product_pos : (w p : ℕ) → 0 < w → 1 ≤ p → 0 < w * p
product_pos w p h k = grind arith

-- The test against the cap, on a doubling that has not wrapped.
unfoldable pub capped : ℕ → ℕ → ℕ
capped cap d = if sle d 0 || slt cap d then cap else d

pub capped-eq : (cap d : ℕ) → IsNonneg cap → IsNonneg d → 0 < d → capped cap d ≡ min d cap
unfolding capped
capped-eq cap d hc hd p = ground arith

pub shifted-capped :
    (t : AuthTier) (s : ℕ) → s ≤ 62 → shifted t s ≡ capped t.cap ((t.window * 2 ^ s) % modulus)
unfolding shifted capped
shifted-capped t s h =
    rw (le→ltb ((62 + sign_bit) % modulus) ((s + sign_bit) % modulus) (omega arith))

mod_small : (d : ℕ) → d < sign_bit → d % modulus ≡ d
mod_small d h = omega arith

pub window_pos : (t : AuthTier) → IsUsable t → 0 < t.window
unfolding validate
window_pos t u = ground arith

-- The doubling without wrap-around.
shifted-exact :
    (t : AuthTier) (s : ℕ)
    → IsUsable t
    → t.window * 2 ^ s < sign_bit
    → shifted t s ≡ min (t.window * 2 ^ s) t.cap
shifted-exact t s u h = elim (dec_lt 62 s) [
  | yes p ↦ absurd (omega (arith, product_large t.window (2 ^ s) (window_pos t u) (pow2_large s p)))
  | no p ↦
      rw (shifted-capped t s (omega arith), mod_small (t.window * 2 ^ s) h)
        (capped-eq t.cap (t.window * 2 ^ s) u.cap_bound h
          (product_pos t.window (2 ^ s) (window_pos t u) (one-le-pow2 s)))
]

-- The exponent, computed in int64.
shift-eq :
    (limit n : ℕ)
    → IsNonneg n
    → limit < n
    → (n + modulus - limit + modulus - 1) % modulus ≡ n - limit - 1
shift-eq limit n h p = omega arith

pub lockout-shifted :
    (t : AuthTier) (n : Int64)
    → IsUsable t
    → IsNonneg n
    → t.limit < n
    → lockout t n ≡ shifted t (n - t.limit - 1)
unfolding lockout
lockout-shifted t n u h p = ground (arith, shift-eq t.limit n)

-- As long as the doubling of the window fits in int64, the lockout at n failures is the documented
-- curve: the window doubled once for each failure past the first above the limit, at most the cap.
pub lockout_curve :
    (t : AuthTier) (n : Int64)
    → IsUsable t
    → IsNonneg n
    → t.limit < n
    → t.window * 2 ^ (n - t.limit - 1) < sign_bit
    → lockout t n ≡ min (t.window * 2 ^ (n - t.limit - 1)) t.cap
lockout_curve t n u h p b = lockout-shifted t n u h p ∙ shifted-exact t (n - t.limit - 1) u b

doubling_le : (w p q : ℕ) → p ≤ q → w * p ≤ w * q
doubling_le w p q h = grind arith

-- While the doubling fits, one more failure never shortens the lockout.
pub lockout_mono :
    (t : AuthTier) (n m : Int64)
    → IsUsable t
    → IsNonneg m
    → n ≤ m
    → t.window * 2 ^ (m - t.limit - 1) < sign_bit
    → lockout t n ≤ lockout t m
lockout_mono t n m u h le b = elim (dec_lt t.limit n) [
  | no p ↦ omega (arith, lockout_free t n u (omega arith) (omega arith))
  | yes p ↦
      let grows = doubling_le t.window (2 ^ (n - t.limit - 1)) (2 ^ (m - t.limit - 1)) (
        pow-le-pow_right {n = 2} (omega arith) {i = n - t.limit - 1} {j = m - t.limit - 1}
          (omega arith)) in
      omega (
        arith,
        grows,
        lockout_curve t n u (omega arith) p (omega (arith, grows)),
        lockout_curve t m u h (omega arith) b,
      )
]
