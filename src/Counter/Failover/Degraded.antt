-- ===== src/Counter/Failover/Degraded.antt =====
-- failover.go: what a caller sees of an outage of the primary.
use sshpilot_vallete.Prelude.{
  ◌≡◌, ◌≢◌, refl, true, false, Option, Bytes, Result, ok, err, unavailable, arith,
}
use sshpilot_vallete.Prelude.Word.{Time}
use sshpilot_vallete.Counter.Port.{Entry, Store, Contract}
use sshpilot_vallete.Counter.Failover.{
  Failover, settle, route, increment, get, delete, failover_port,
}

module _ {P F A : Type 0} (on_primary : P → Result A × P) (on_fallback : F → Result A × F) where
  settle-passes :
      (r : Result A) (f : Failover P F)
      → r ≢ err unavailable
      → ((settle on_primary on_fallback r f).0 ≡ r)
        × ((settle on_primary on_fallback r f).1.degraded ≡ f.degraded)
        × ((settle on_primary on_fallback r f).1.fallback ≡ f.fallback)
  unfolding settle
  settle-passes (ok a) f n = (refl, refl, refl)
  settle-passes (err unavailable) f n = absurd (n refl)
  settle-passes (err e) f n = (refl, refl, refl)

module _ {P F A : Type 0} (on_primary : P → Result A × P) (on_fallback : F → Result A × F)
    (f : Failover P F) where
  -- Whichever method is called: an unavailable answer is the fallback's own, never the primary's.
  pub route_hides_outage :
      (route on_primary on_fallback f).0 ≡ err unavailable
      → (on_fallback f.fallback).0 ≡ err unavailable
  unfolding route
  route_hides_outage h = ground arith

  -- An outage of a healthy primary degrades the store, leaves a signal for the reprobe loop, and
  -- is answered from the fallback.
  pub route_outage :
      f.degraded ≡ false
      → (on_primary f.primary).0 ≡ err unavailable
      → ((route on_primary on_fallback f).0 ≡ (on_fallback f.fallback).0)
        × ((route on_primary on_fallback f).1.degraded ≡ true)
        × ((route on_primary on_fallback f).1.signal ≡ true)
        × ((route on_primary on_fallback f).1.fallback ≡ (on_fallback f.fallback).1)
  unfolding route
  route_outage h e = ground arith

  -- Any other answer of a healthy primary, a refusal of the call included, is passed on, and neither
  -- the fallback nor the degraded flag is touched.
  pub route_passes :
      f.degraded ≡ false
      → (on_primary f.primary).0 ≢ err unavailable
      → ((route on_primary on_fallback f).0 ≡ (on_primary f.primary).0)
        × ((route on_primary on_fallback f).1.degraded ≡ false)
        × ((route on_primary on_fallback f).1.fallback ≡ f.fallback)
  unfolding route
  route_passes h n = ground (
    arith,
    settle-passes on_primary on_fallback (on_primary f.primary).0
        (record f { primary = (on_primary f.primary).1 }) n,
  )

-- While the store is degraded it keeps the fallback's promises: whatever the primary does, the port
-- meets its contract with the abstract state of the fallback.
pub degraded-Contract :
    {P F : Type 0} (primary : Store P) (fallback : Store F) {IsValid : F → Type 0}
    {view : F → Time → Bytes → Option Entry} (contract : Contract fallback IsValid view)
    → Contract
        (failover_port primary fallback)
        (λ f. (f.degraded ≡ true) × IsValid f.fallback)
        (λ f. view f.fallback)
unfolding increment get delete
degraded-Contract primary fallback {IsValid} {view} contract = record {
  view_later = λ f t t' k v. contract.view_later f.fallback t t' k v.1;
  increment_IsValid = λ c k delta ttl f v.
      (ground arith, ground (arith, contract.increment_IsValid c k delta ttl f.fallback v.1));
  increment_result = λ c k delta ttl f v h.
      ground (arith, contract.increment_result c k delta ttl f.fallback v.1 h);
  increment_view = λ c k delta ttl f t j v h le.
      ground (arith, contract.increment_view c k delta ttl f.fallback t j v.1 h le);
  get_result = λ c k f v n h. ground (arith, contract.get_result c k f.fallback v.1 n h);
  get_state = λ c k f v. ground (arith, contract.get_state c k f.fallback v.1);
  delete_IsValid =
      λ c k f v. (ground arith, ground (arith, contract.delete_IsValid c k f.fallback v.1));
  delete_view =
      λ c k f t j v n h le. ground (arith, contract.delete_view c k f.fallback t j v.1 n h le);
  increment_refused = λ c k delta ttl f v h.
      ground (arith, contract.increment_refused c k delta ttl f.fallback v.1 h);
  increment_unnamed =
      λ c delta ttl f v. ground (arith, contract.increment_unnamed c delta ttl f.fallback v.1);
  increment_not_positive = λ c k delta ttl f v n h.
      ground (arith, contract.increment_not_positive c k delta ttl f.fallback v.1 n h);
  increment_canceled = λ c k delta ttl f v n p h.
      ground (arith, contract.increment_canceled c k delta ttl f.fallback v.1 n p h);
  get_unnamed = λ c f v. ground (arith, contract.get_unnamed c f.fallback v.1);
  get_canceled = λ c k f v n h. ground (arith, contract.get_canceled c k f.fallback v.1 n h);
  delete_result = λ c k f v n h. ground (arith, contract.delete_result c k f.fallback v.1 n h);
  delete_unnamed = λ c f v. ground (arith, contract.delete_unnamed c f.fallback v.1);
  delete_canceled = λ c k f v n h. ground (arith, contract.delete_canceled c k f.fallback v.1 n h);
}
