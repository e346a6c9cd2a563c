-- ===== src/Counter/Failover/Reprobe.antt =====
-- failover.go: the reprobe loop beside any number of requests. A request that finds the primary down
-- swaps `degraded` and then, in a step of its own, sends into the one-slot channel; the loop moves
-- through the points at which it can be interrupted.
use sshpilot_vallete.Prelude.{
  ℕ, suc, ◌+◌, ◌-◌, ◌≢◌, ◌<◌, ◌≡◌, ◌⊎◌, inl, inr, refl, Bool, true, false, arith,
}
use sshpilot_vallete.Prelude.Word.{Duration}
use sshpilot_vallete.Counter.Failover.{next_interval}

-- Where the loop stands: at the outer select, at the test of the inner loop, at the timer, in a
-- probe, after a good probe and before the store of `false`, or returned.
pub data Phase : Type 0 where
  waiting : Phase
  testing : Duration → Phase
  timing : Duration → Phase
  probing : Duration → Phase
  recovering : Phase
  stopped : Phase

-- `sending` counts the requests between their swap and their send; `closed` says that done is closed.
pub record Loop : Type 0 where
  pub degraded : Bool
  pub signal : Bool
  pub sending : ℕ
  pub closed : Bool
  pub phase : Phase

abbrev pub start : Loop
start = record { degraded = false; signal = false; sending = 0; closed = false; phase = waiting }

-- The steps of the loop itself and of a request that is about to send.
module _ (base max : Duration) where
  pub data LoopStep (s : Loop) : Loop → Type 0 where
    send : (n : ℕ) → s.sending ≡ suc n → LoopStep s (record s { sending = n; signal = true })
    wake :
        s.phase ≡ waiting
        → s.signal ≡ true
        → LoopStep s (record s { signal = false; phase = testing base })
    arm :
        (i : Duration)
        → s.phase ≡ testing i
        → s.degraded ≡ true
        → LoopStep s (record s { phase = timing i })
    leave :
        (i : Duration)
        → s.phase ≡ testing i
        → s.degraded ≡ false
        → LoopStep s (record s { phase = waiting })
    fire : (i : Duration) → s.phase ≡ timing i → LoopStep s (record s { phase = probing i })
    healthy : (i : Duration) → s.phase ≡ probing i → LoopStep s (record s { phase = recovering })
    recover : s.phase ≡ recovering → LoopStep s (record s { degraded = false; phase = waiting })
    ailing :
        (i : Duration)
        → s.phase ≡ probing i
        → LoopStep s (record s { phase = testing (next_interval i max) })
    stop_waiting : s.phase ≡ waiting → s.closed ≡ true → LoopStep s (record s { phase = stopped })
    stop_timing :
        (i : Duration)
        → s.phase ≡ timing i
        → s.closed ≡ true
        → LoopStep s (record s { phase = stopped })

  -- One step of the whole: the loop's, a request's successful swap, or `Close`.
  pub data Step (s : Loop) : Loop → Type 0 where
    loop : {t : Loop} → LoopStep s t → Step s t
    swap : s.degraded ≡ false → Step s (record s { degraded = true; sending = s.sending + 1 })
    close : Step s (record s { closed = true })

  pub data Reach : Loop → Type 0 where
    here : Reach start
    next : {s t : Loop} → Reach s → Step s t → Reach t

  pub data LoopReach (s : Loop) : Loop → Type 0 where
    done : LoopReach s s
    go : {t u : Loop} → LoopReach s t → LoopStep t u → LoopReach s u

  abbrev pub is_waiting : Phase → Bool
  is_waiting waiting = true
  is_waiting _ = false

  -- A degraded store is on its way back: a request is about to signal, a signal is pending, or the
  -- loop is awake or has returned.
  abbrev pub IsAttended : Loop → Type 0
  IsAttended s =
      (s.degraded ≡ false) ⊎ ((0 < s.sending) ⊎ ((s.signal ≡ true) ⊎ (is_waiting s.phase ≡ false)))

  LoopStep-IsAttended : {s t : Loop} → LoopStep s t → IsAttended s → IsAttended t
  LoopStep-IsAttended (send n e) h = inr (inr (inl refl))
  LoopStep-IsAttended (wake p q) h = inr (inr (inr refl))
  LoopStep-IsAttended (arm i p q) h = inr (inr (inr refl))
  LoopStep-IsAttended (leave i p q) h = inl q
  LoopStep-IsAttended (fire i p) h = inr (inr (inr refl))
  LoopStep-IsAttended (healthy i p) h = inr (inr (inr refl))
  LoopStep-IsAttended (recover p) h = inl refl
  LoopStep-IsAttended (ailing i p) h = inr (inr (inr refl))
  LoopStep-IsAttended (stop_waiting p q) h = inr (inr (inr refl))
  LoopStep-IsAttended (stop_timing i p q) h = inr (inr (inr refl))

  Step-IsAttended : {s t : Loop} → Step s t → IsAttended s → IsAttended t
  Step-IsAttended (loop l) h = LoopStep-IsAttended l h
  Step-IsAttended (swap d) h = inr (inl (omega arith))
  Step-IsAttended close h = h

  -- No wake-up is lost: in every state that the store and its loop can reach, a degraded store has a
  -- pending signal, a request about to signal, or a loop that is not waiting for one.
  pub Reach-IsAttended : {s : Loop} → Reach s → IsAttended s
  Reach-IsAttended here = inl refl
  Reach-IsAttended (next r st) = Step-IsAttended st (Reach-IsAttended r)

  -- The loop returns only after `Close`.
  abbrev ClosedIfStopped : Loop → Type 0
  ClosedIfStopped s = s.phase ≡ stopped → s.closed ≡ true

  Step-ClosedIfStopped : {s t : Loop} → Step s t → ClosedIfStopped s → ClosedIfStopped t
  Step-ClosedIfStopped (loop (send n e)) h = h
  Step-ClosedIfStopped (loop (wake p q)) h = λ d. cc
  Step-ClosedIfStopped (loop (arm i p q)) h = λ d. cc
  Step-ClosedIfStopped (loop (leave i p q)) h = λ d. cc
  Step-ClosedIfStopped (loop (fire i p)) h = λ d. cc
  Step-ClosedIfStopped (loop (healthy i p)) h = λ d. cc
  Step-ClosedIfStopped (loop (recover p)) h = λ d. cc
  Step-ClosedIfStopped (loop (ailing i p)) h = λ d. cc
  Step-ClosedIfStopped (loop (stop_waiting p q)) h = λ d. q
  Step-ClosedIfStopped (loop (stop_timing i p q)) h = λ d. q
  Step-ClosedIfStopped (swap d) h = h
  Step-ClosedIfStopped close h = λ d. refl

  Reach-ClosedIfStopped : {s : Loop} → Reach s → ClosedIfStopped s
  Reach-ClosedIfStopped here = λ d. cc
  Reach-ClosedIfStopped (next r st) = Step-ClosedIfStopped st (Reach-ClosedIfStopped r)

  -- A state from which the loop and the sends alone lead to a healthy store.
  abbrev pub CanRecover : Loop → Type 0
  CanRecover s = (t : Loop) × LoopReach s t × (t.degraded ≡ false)

  module _ (s : Loop) where
    from_recovering : (t : Loop) → LoopReach s t → t.phase ≡ recovering → CanRecover s
    from_recovering t r p = (record t { degraded = false; phase = waiting }, go r (recover p), refl)

    from_probing : (t : Loop) (i : Duration) → LoopReach s t → t.phase ≡ probing i → CanRecover s
    from_probing t i r p =
        from_recovering (record t { phase = recovering }) (go r (healthy i p)) refl

    from_timing : (t : Loop) (i : Duration) → LoopReach s t → t.phase ≡ timing i → CanRecover s
    from_timing t i r p = from_probing (record t { phase = probing i }) i (go r (fire i p)) refl

    from_testing :
        (t : Loop) (i : Duration)
        → LoopReach s t
        → t.phase ≡ testing i
        → t.degraded ≡ true
        → CanRecover s
    from_testing t i r p d = from_timing (record t { phase = timing i }) i (go r (arm i p d)) refl

    from_signal :
        (t : Loop)
        → LoopReach s t
        → t.phase ≡ waiting
        → t.signal ≡ true
        → t.degraded ≡ true
        → CanRecover s
    from_signal t r p q d =
        from_testing (record t { signal = false; phase = testing base }) base (go r (wake p q)) refl
          d

    from_sending :
        (n : ℕ) → s.phase ≡ waiting → s.sending ≡ suc n → s.degraded ≡ true → CanRecover s
    from_sending n p e d =
        from_signal (record s { sending = n; signal = true }) (go done (send n e)) p refl d

  attended_recovers :
      (s : Loop) (p : Phase)
      → s.phase ≡ p
      → IsAttended s
      → s.degraded ≡ true
      → p ≢ stopped
      → CanRecover s
  attended_recovers s (testing i) e a d n = from_testing s s i done e d
  attended_recovers s (timing i) e a d n = from_timing s s i done e
  attended_recovers s (probing i) e a d n = from_probing s s i done e
  attended_recovers s recovering e a d n = from_recovering s s done e
  attended_recovers s stopped e a d n = absurd (n refl)
  attended_recovers s waiting e a d n = elim a [
    | inl h ↦ absurd (cc)
    | inr (inl p) ↦ from_sending s (s.sending - 1) e (omega arith) d
    | inr (inr (inl g)) ↦ from_signal s s done e g d
    | inr (inr (inr w)) ↦ absurd (ground arith)
  ]

  -- Until the store is closed, every degraded state that can be reached leads back to a healthy one by
  -- steps of the loop and of requests that are about to send, if a probe is answered: none waits for a
  -- new request.
  pub Reach-CanRecover : {s : Loop} → Reach s → s.closed ≡ false → s.degraded ≡ true → CanRecover s
  Reach-CanRecover {s} r c d =
      attended_recovers s s.phase refl (Reach-IsAttended r) d (λ e. cc (Reach-ClosedIfStopped r e))
