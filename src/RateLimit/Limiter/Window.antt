-- ===== src/RateLimit/Limiter/Window.antt =====
-- ratelimit.go: what `Allow` answers over a window, on any store that meets the port's contract.
use sshpilot_vallete.Prelude.{
  ℕ, ◌+◌, ◌≤◌, ◌<◌, ◌≡◌, ◌≢◌, refl, Bool, false, Option, none, some, List, [], ◌∷◌, Bytes, ◌=ᵇ◌,
  =ᵇ_iff, ok, leb, arith, length, ap₂, =ᵇ_refl,
}
use sshpilot_vallete.Prelude.Word.{Time, IsNonneg, add_time, sub_time, sign_bit}
use sshpilot_vallete.Counter.Port.{Context, Entry, Store, Contract, live, bump, count_at, refused}
use sshpilot_vallete.RateLimit.Limiter.{Limiter, Tier, validate, key, judge, allow}

-- A tier that `NewLimiter` accepts, with numbers that are patterns of int64.
pub record IsUsable (t : Tier) : Type 0 where
  pub accepted : validate t ≡ none
  pub limit_bound : IsNonneg t.limit
  pub window_bound : IsNonneg t.window

-- Calls that are not canceled, at instants that do not fall, all before `end`.
abbrev pub Within : Time → Time → List Context → Type 0
Within end prev [] = Unit
Within end prev (c ∷ cs) =
    (prev ≤ c.now) × (c.now < end) × (c.canceled ≡ false) × Within end c.now cs

-- The verdicts on requests that are numbered from n + 1: yes up to the limit.
abbrev pub verdicts : ℕ → ℕ → List Context → List Bool
verdicts limit n [] = []
verdicts limit n (c ∷ cs) = leb (n + 1) limit ∷ verdicts limit (n + 1) cs

module _ {S : Type 0} (store : Store S) where
  -- Whether each of a list of requests of one key is let through.
  pub allow_all : Limiter → Bytes → List Context → S → List Bool
  allow_all l k [] s = []
  allow_all l k (c ∷ cs) s = let (r, s') = allow store l c k s in r.0.allowed ∷ allow_all l k cs s'

window_open : (t : Tier) → IsUsable t → (now : Time) → now < add_time now t.window
unfolding validate
window_open t u now = ground arith

key-accepted :
    (l : Limiter) (c : Context) (k : Bytes)
    → IsUsable l.tier
    → c.canceled ≡ false
    → refused c (key l k) 1 l.tier.window ≡ false
unfolding validate key ◌=ᵇ◌
key-accepted l c k u h = ground arith

module _ {S : Type 0} (store : Store S) {IsValid : S → Type 0}
    {view : S → Time → Bytes → Option Entry} (contract : Contract store IsValid view) (l : Limiter)
    (usable : IsUsable l.tier) (k : Bytes) (named : k ≢ []) where
  allow-eq :
      (c : Context) (s : S)
      → allow store l c k s ≡ (
        judge store l (store.increment c (key l k) 1 l.tier.window s).0,
        (store.increment c (key l k) 1 l.tier.window s).1,
      )
  unfolding allow
  allow-eq c s = ground (arith, =ᵇ_iff k [])

  -- One request: the store counts it, and the decision is about the count that results.
  allow-result :
      (c : Context) (s : S)
      → IsValid s
      → c.canceled ≡ false
      → (allow store l c k s).0
        ≡ judge store l (ok (count_at c.now (bump c.now 1 l.tier.window (view s c.now (key l k)))))
  allow-result c s v h = rw (
    allow-eq c s,
    contract.increment_result c (key l k) 1 l.tier.window s v (key-accepted l c k usable h),
  )

  allow-IsValid : (c : Context) (s : S) → IsValid s → IsValid (allow store l c k s).1
  allow-IsValid c s v =
      rw (allow-eq c s) (contract.increment_IsValid c (key l k) 1 l.tier.window s v)

  allow-view :
      (c : Context) (s : S)
      → IsValid s
      → c.canceled ≡ false
      → view (allow store l c k s).1 c.now (key l k)
        ≡ live c.now (some (bump c.now 1 l.tier.window (view s c.now (key l k))))
  allow-view c s v h = rw (
    allow-eq c s,
    contract.increment_view c (key l k) 1 l.tier.window s c.now (key l k) v
        (key-accepted l c k usable h) (omega arith),
    =ᵇ_refl (key l k),
  )

  verdict :
      (c : Context) (n end : ℕ)
      → n + 1 < sign_bit
      → (judge store l (ok (record { value = n + 1; ttl = sub_time end c.now }))).0.allowed
        ≡ leb (n + 1) l.tier.limit
  unfolding judge
  verdict c n end h = ground (arith, usable.limit_bound)

  -- The view of the key when a call is made inside the window.
  still_counted :
      (c : Context) (s : S) (prev n end : ℕ)
      → IsValid s
      → prev ≤ c.now
      → c.now < end
      → view s prev (key l k) ≡ some (record { value = n; expires_at = end })
      → view s c.now (key l k) ≡ some (record { value = n; expires_at = end })
  still_counted c s prev n end v le lt e =
      ground (arith, contract.view_later s prev c.now (key l k) v le)

  allow_counted :
      (c : Context) (s : S) (n end : ℕ)
      → IsValid s
      → c.canceled ≡ false
      → c.now < end
      → n + 1 < sign_bit
      → view s c.now (key l k) ≡ some (record { value = n; expires_at = end })
      → ((allow store l c k s).0.0.allowed ≡ leb (n + 1) l.tier.limit)
        × (view (allow store l c k s).1 c.now (key l k)
            ≡ some (record { value = n + 1; expires_at = end }))
  allow_counted c s n end v h lt b e =
      (ground (arith, allow-result c s v h, verdict c n end b), ground (arith, allow-view c s v h))

  -- With n requests counted in a window that ends at `end`.
  allow_all-counted :
      (cs : List Context) (s : S) (prev n end : ℕ)
      → IsValid s
      → Within end prev cs
      → n + length cs < sign_bit
      → view s prev (key l k) ≡ some (record { value = n; expires_at = end })
      → allow_all store l k cs s ≡ verdicts l.tier.limit n cs
  unfolding allow_all
  allow_all-counted [] s prev n end v w b e = refl
  allow_all-counted (c ∷ cs) s prev n end v w b e =
      let seen = still_counted c s prev n end v w.0 w.1 e in
      let now = allow_counted c s n end v w.2 w.1 (omega arith) seen in
      ap₂ (λ x xs. x ∷ xs) now.0
        (allow_all-counted cs (allow store l c k s).1 c.now (n + 1) end (allow-IsValid c s v) w.3
          (omega arith) now.1)

  allow_opened :
      (c : Context) (s : S)
      → IsValid s
      → c.canceled ≡ false
      → view s c.now (key l k) ≡ none
      → ((allow store l c k s).0.0.allowed ≡ leb 1 l.tier.limit)
        × (view (allow store l c k s).1 c.now (key l k)
            ≡ some (record { value = 1; expires_at = add_time c.now l.tier.window }))
  allow_opened c s v h e = (
    ground (arith, allow-result c s v h, verdict c 0 (add_time c.now l.tier.window)),
    ground (arith, allow-view c s v h, window_open l.tier usable c.now),
  )

  -- Of the requests of one key in a window that the first of them opens, exactly the first `limit`
  -- are let through, on every store that meets the port's contract.
  pub allow_all-opened :
      (c : Context) (cs : List Context) (s : S)
      → IsValid s
      → c.canceled ≡ false
      → Within (add_time c.now l.tier.window) c.now cs
      → 1 + length cs < sign_bit
      → view s c.now (key l k) ≡ none
      → allow_all store l k (c ∷ cs) s ≡ verdicts l.tier.limit 0 (c ∷ cs)
  unfolding allow_all
  allow_all-opened c cs s v h w b e =
      let now = allow_opened c s v h e in
      ap₂ (λ x xs. x ∷ xs) now.0
        (allow_all-counted cs (allow store l c k s).1 c.now 1 (add_time c.now l.tier.window)
          (allow-IsValid c s v) w b now.1)
