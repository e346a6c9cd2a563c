-- ===== src/RateLimit/Backoff/Penalty.antt =====
-- backoff.go: failures, lockouts and successes, on any store that meets the port's contract.
use sshpilot_vallete.Prelude.{
  ℕ, ◌+◌, ◌-◌, ◌≤◌, ◌<◌, ◌≡◌, ◌≢◌, refl, false, Option, none, some, [], ◌∷◌, ◌++◌, Bytes, ◌=ᵇ◌,
  =ᵇ_iff, =ᵇ_refl, Err, Result, Option-cases, inl, inr, ok, err, ltb, if◌then◌else◌, arith, ◌∙◌,
  codes,
}
use sshpilot_vallete.Prelude.Word.{Int64, Duration, Time, IsNonneg, sub_time, sign_bit}
use sshpilot_vallete.Prelude.Decimal.{format_int}
use sshpilot_vallete.Counter.Port.{
  Context, Count, Entry, Store, Contract, live, bump, count_or_zero, zero_count, refused,
}
use sshpilot_vallete.RateLimit.Backoff.{
  AuthLimiter, refuse, permit, validate, lockout, fail_key, lock_key, check, check_lock,
  check_failures, record_failure, record_success,
}
use sshpilot_vallete.RateLimit.Backoff.Lockout.{IsUsable, lockout_bounds}

cancel_left : (p xs ys : Bytes) → p ++ xs ≡ p ++ ys → xs ≡ ys
cancel_left [] xs ys e = e
cancel_left (b ∷ p) xs ys e = cancel_left p xs ys (cc)

-- When the lockout ends that a failure at `now` arms for `wait`, or finds armed.
abbrev pub locked_until : Time → Duration → Option Entry → Time
locked_until now wait none = now + wait
locked_until now wait (some e) = e.expires_at

-- The two key spaces of a tier never meet.
fail_key-ne-lock_key : (a : AuthLimiter) (k : Bytes) (n : Int64) → fail_key a k ≢ lock_key a k n
unfolding fail_key lock_key
fail_key-ne-lock_key a k n e =
    let tails : codes ":f:" ++ k ≡ codes ":l" ++ (format_int n ++ (b':' ∷ k)) =
      cancel_left a.name (codes ":f:" ++ k) (codes ":l" ++ (format_int n ++ (b':' ∷ k))) (cc) in
    ground arith

module _ {S : Type 0} (store : Store S) (a : AuthLimiter) (c : Context) (k : Bytes) (s : S) where
  -- Whenever `Check` returns an error beside its decision, the decision is a refusal.
  pub check_fails_closed :
      (e : Err) → (check store a c k s).0.1 ≡ some e → (check store a c k s).0.0.allowed ≡ false
  unfolding check
  check_fails_closed e h = ground arith

  -- Whenever `RecordFailure` returns an error beside its decision, the decision is a refusal.
  pub record_failure_fails_closed :
      (e : Err)
      → (record_failure store a c k s).0.1 ≡ some e
      → (record_failure store a c k s).0.0.allowed ≡ false
  unfolding record_failure
  record_failure_fails_closed e h = ground arith

module _ {S : Type 0} (store : Store S) {IsValid : S → Type 0}
    {view : S → Time → Bytes → Option Entry} (contract : Contract store IsValid view)
    (a : AuthLimiter) (usable : IsUsable a.tier) (k : Bytes) (named : k ≢ []) where
  check_lock-state : (n : Int64) (r : Result Count) (s : S) → (check_lock store a n (r, s)).1 ≡ s
  unfolding check_lock
  check_lock-state n (err e) s = refl
  check_lock-state n (ok lock) s = ground arith

  check_failures-state :
      (c : Context) (r : Result Count) (s : S)
      → IsValid s
      → (check_failures store a c k (r, s)).1 ≡ s
  unfolding check_failures
  check_failures-state c (err e) s v = refl
  check_failures-state c (ok f) s v = ground (
    arith,
    check_lock-state f.value (store.get c (lock_key a k f.value) s).0
        (store.get c (lock_key a k f.value) s).1,
    contract.get_state c (lock_key a k f.value) s v,
  )

  -- A check records nothing, whatever it answers.
  pub check-state : (c : Context) (s : S) → IsValid s → (check store a c k s).1 ≡ s
  unfolding check
  check-state c s v = ground (
    arith,
    check_failures-state c (store.get c (fail_key a k) s).0 s v,
    contract.get_state c (fail_key a k) s v,
  )

  fail_accepted :
      (c : Context) → c.canceled ≡ false → refused c (fail_key a k) 1 a.tier.horizon ≡ false
  unfolding validate fail_key ◌=ᵇ◌
  fail_accepted c h = ground (arith, usable.accepted)

  lock_accepted :
      (c : Context) (n : Int64) (wait : Duration)
      → c.canceled ≡ false
      → 0 < wait
      → IsNonneg wait
      → refused c (lock_key a k n) 1 wait ≡ false
  unfolding lock_key ◌=ᵇ◌
  lock_accepted c n wait h p b = ground arith

  fail_named : fail_key a k ≢ []
  unfolding fail_key
  fail_named = λ e. cc

  lock_named : (n : Int64) → lock_key a k n ≢ []
  unfolding lock_key
  lock_named n = λ e. cc

  keys_apart : (n : Int64) → (fail_key a k =ᵇ lock_key a k n) ≡ false
  keys_apart n = ground (arith, =ᵇ_iff (fail_key a k) (lock_key a k n), fail_key-ne-lock_key a k n)

  keys_apart' : (n : Int64) → (lock_key a k n =ᵇ fail_key a k) ≡ false
  keys_apart' n = ground (arith, =ᵇ_iff (lock_key a k n) (fail_key a k), fail_key-ne-lock_key a k n)

  -- The store after the first of the two writes of a failure.
  counted : Context → S → S
  counted c s = (store.increment c (fail_key a k) 1 a.tier.horizon s).1

  -- The failure that follows `n` counted ones: its level, and its lockout.
  module _ (c : Context) (s : S) (n end : ℕ) (v : IsValid s) (open_call : c.canceled ≡ false)
      (room : n + 1 < sign_bit) (over : a.tier.limit ≤ n) (before : c.now < end)
      (seen : view s c.now (fail_key a k) ≡ some (record { value = n; expires_at = end }))
      (fits : (e : Entry)
        → view s c.now (lock_key a k (n + 1)) ≡ some e
        → (e.value + 1 < sign_bit) × (e.expires_at < c.now + sign_bit)) where
    wait : Duration
    wait = lockout a.tier (n + 1)

    wait_bounds : (0 < wait) × IsNonneg wait
    unfolding wait
    wait_bounds =
        omega (arith, usable.cap_bound, lockout_bounds a.tier (n + 1) usable room (omega arith))

    counted_result :
        (store.increment c (fail_key a k) 1 a.tier.horizon s).0
        ≡ ok (record { value = n + 1; ttl = sub_time end c.now })
    counted_result =
        contract.increment_result c (fail_key a k) 1 a.tier.horizon s v (fail_accepted c open_call)
        ∙ rw seen (ground arith)

    counted-IsValid : IsValid (counted c s)
    unfolding counted
    counted-IsValid = contract.increment_IsValid c (fail_key a k) 1 a.tier.horizon s v

    counted_view :
        (t : Time)
        → c.now ≤ t
        → t < end
        → view (counted c s) t (fail_key a k) ≡ some (record { value = n + 1; expires_at = end })
    unfolding counted
    counted_view t le lt =
        contract.increment_view c (fail_key a k) 1 a.tier.horizon s t (fail_key a k) v
          (fail_accepted c open_call) le
        ∙ rw (=ᵇ_refl (fail_key a k), seen) (ground arith)

    counted_lock :
        view (counted c s) c.now (lock_key a k (n + 1)) ≡ view s c.now (lock_key a k (n + 1))
    unfolding counted
    counted_lock =
        contract.increment_view c (fail_key a k) 1 a.tier.horizon s c.now (lock_key a k (n + 1)) v
          (fail_accepted c open_call) (omega arith)
        ∙ rw (keys_apart (n + 1))

    failed_state :
        (record_failure store a c k s).1
        ≡ (store.increment c (lock_key a k (n + 1)) 1 wait (counted c s)).1
    unfolding record_failure counted wait
    failed_state = ground (arith, =ᵇ_iff k [], counted_result, wait_bounds)

    failed-IsValid : IsValid (record_failure store a c k s).1
    failed-IsValid =
        rw failed_state
          (contract.increment_IsValid c (lock_key a k (n + 1)) 1 wait (counted c s) counted-IsValid)

    failed_count :
        (t : Time)
        → c.now ≤ t
        → t < end
        → view (record_failure store a c k s).1 t (fail_key a k)
          ≡ some (record { value = n + 1; expires_at = end })
    failed_count t le lt = rw failed_state (
        contract.increment_view c (lock_key a k (n + 1)) 1 wait (counted c s) t (fail_key a k)
          counted-IsValid (lock_accepted c (n + 1) wait open_call wait_bounds.0 wait_bounds.1) le
        ∙ rw (keys_apart' (n + 1)) (counted_view t le lt))

    failed_lock :
        (t : Time)
        → c.now ≤ t
        → view (record_failure store a c k s).1 t (lock_key a k (n + 1))
          ≡ live t (some (bump c.now 1 wait (view s c.now (lock_key a k (n + 1)))))
    failed_lock t le = rw failed_state (
        contract.increment_view c (lock_key a k (n + 1)) 1 wait (counted c s) t
          (lock_key a k (n + 1)) counted-IsValid
          (lock_accepted c (n + 1) wait open_call wait_bounds.0 wait_bounds.1) le
        ∙ rw (=ᵇ_refl (lock_key a k (n + 1)), counted_lock))

    fail_read :
        (d : Context)
        → d.canceled ≡ false
        → c.now ≤ d.now
        → d.now < end
        → (store.get d (fail_key a k) (record_failure store a c k s).1).0
          ≡ ok (record { value = n + 1; ttl = sub_time end d.now })
    fail_read d h le lt =
        contract.get_result d (fail_key a k) (record_failure store a c k s).1 failed-IsValid
          fail_named h
        ∙ rw (failed_count d.now le lt)

    lock_read :
        (d : Context)
        → d.canceled ≡ false
        → c.now ≤ d.now
        → (store.get d (lock_key a k (n + 1)) (record_failure store a c k s).1).0
          ≡ ok (
              count_or_zero d.now
                (live d.now (some (bump c.now 1 wait (view s c.now (lock_key a k (n + 1)))))))
    lock_read d h le =
        contract.get_result d (lock_key a k (n + 1)) (record_failure store a c k s).1 failed-IsValid
          (lock_named (n + 1)) h
        ∙ rw (failed_lock d.now le)

    -- On any store that meets the port's contract, when a failure takes a remembered count above
    -- the limit, and the check comes with no other call in between and neither context is canceled:
    -- before the lockout of that level has elapsed the check is refused and told exactly the time
    -- that is left, and later, while the failures are remembered, it is let through with the
    -- failures still counted. The lockout is that of the tier's curve from the failure on, unless
    -- the level's lockout key already stands, say from failures that a success has cleared since:
    -- then it is what that key has left. The counts, and the time that a standing key has left, are
    -- asked to fit in int64.
    pub locked_out :
        (d : Context)
        → d.canceled ≡ false
        → c.now ≤ d.now
        → d.now < end
        → let until =
            locked_until c.now (lockout a.tier (n + 1)) (view s c.now (lock_key a k (n + 1))) in
          (check store a d k (record_failure store a c k s).1).0
          ≡ ((if ltb d.now until then refuse a (until - d.now) (n + 1) else permit a (n + 1)), none)
    unfolding check wait
    locked_out d h le lt = elim (Option-cases (view s c.now (lock_key a k (n + 1)))) [
      | inl new ↦ rw new (
          ground (
            arith,
            =ᵇ_iff k [],
            fail_read d h le lt,
            contract.get_state d (fail_key a k) (record_failure store a c k s).1 failed-IsValid,
            lock_read d h le,
            new,
            wait_bounds,
            usable.limit_bound,
          ))
      | inr (e, old) ↦ rw old (
          ground (
            arith,
            =ᵇ_iff k [],
            fail_read d h le lt,
            contract.get_state d (fail_key a k) (record_failure store a c k s).1 failed-IsValid,
            lock_read d h le,
            old,
            fits e old,
            usable.limit_bound,
          ))
    ]

  cleared :
      (c d : Context) (s : S)
      → IsValid s
      → c.canceled ≡ false
      → d.canceled ≡ false
      → c.now ≤ d.now
      → (store.get d (fail_key a k) (store.delete c (fail_key a k) s).1).0 ≡ ok zero_count
  cleared c d s v hc hd le =
      contract.get_result d (fail_key a k) (store.delete c (fail_key a k) s).1
        (contract.delete_IsValid c (fail_key a k) s v) fail_named hd
      ∙ rw (
        contract.delete_view c (fail_key a k) s d.now (fail_key a k) v fail_named hc le,
        =ᵇ_refl (fail_key a k),
      )

  -- A success clears the failures: the next check, whenever it comes, is let through with none counted.
  pub success_clears :
      (c d : Context) (s : S)
      → IsValid s
      → c.canceled ≡ false
      → d.canceled ≡ false
      → c.now ≤ d.now
      → (check store a d k (record_success store a c k s).1).0 ≡ (permit a 0, none)
  unfolding check record_success
  success_clears c d s v hc hd le =
      ground (arith, =ᵇ_iff k [], cleared c d s v hc hd le, usable.limit_bound)
