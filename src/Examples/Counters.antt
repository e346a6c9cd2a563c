-- ===== src/Examples/Counters.antt =====
-- internal/counter on concrete calls.
use sshpilot_vallete.Prelude.{
  ◌+◌, ◌≡◌, refl, Bool, true, false, List, [], ◌∷◌, codes, Result, ok, err, unavailable, arith,
  ◌=ᵇ◌,
}
use sshpilot_vallete.Prelude.Assoc
use sshpilot_vallete.Counter.Port.{Context, Contract, zero_count, Call, incr, del, run}
use sshpilot_vallete.Counter.Memory.{
  new_memory_store, increment, get, delete, sweep_locked, memory_port,
}
use sshpilot_vallete.Counter.Memory.Refines.{memory-Contract, memory_view, IsMap}
use sshpilot_vallete.Counter.Memory.Residents.{Swept, since-Swept}
use sshpilot_vallete.Counter.Failover.{
  Failover, route, failover_port, max_reprobe_interval, with_reprobe_interval,
}
use sshpilot_vallete.Counter.Failover.Degraded.{route_hides_outage, route_passes, degraded-Contract}
use sshpilot_vallete.Counter.Failover.Interval.{delay, first_delay_unbounded}
use sshpilot_vallete.Counter.Failover.Reprobe.{
  Loop, waiting, Reach, here, next, swap, IsAttended, Reach-IsAttended, CanRecover,
  Reach-CanRecover,
}

abbrev at_ten : Context
at_ten = record { canceled = false; now = 10 }

abbrev at_twenty : Context
at_twenty = record { canceled = false; now = 20 }

abbrev calls : List Call
calls = incr at_ten (codes "a") 1 5 ∷ incr at_ten (codes "b") 2 50 ∷ del at_twenty (codes "a") ∷ []

-- The second key is still counted at 20, the first has expired.
counted_at_twenty :
    ((get at_twenty (codes "b") (run memory_port calls new_memory_store)).0
      ≡ ok (record { value = 2; ttl = 40 }))
    × ((get at_twenty (codes "a") (run memory_port calls new_memory_store)).0 ≡ ok zero_count)
unfolding get increment delete new_memory_store Assoc.get Assoc.put Assoc.remove ◌=ᵇ◌ sweep_locked
counted_at_twenty = (refl, refl)

since-Swept_example : Swept calls
since-Swept_example = since-Swept calls

-- A primary that is down, and one that answers.
abbrev down : Bool → Result Bool × Bool
down s = (err unavailable, s)

abbrev up : Bool → Result Bool × Bool
up s = (ok s, true)

abbrev both : Failover Bool Bool
both = record { primary = false; fallback = true; degraded = false; signal = false }

route_hides_outage_example : (down both.fallback).0 ≡ err unavailable
unfolding route
route_hides_outage_example = route_hides_outage down down both refl

route_passes_example :
    ((route up down both).0 ≡ (up both.primary).0)
    × ((route up down both).1.degraded ≡ false)
    × ((route up down both).1.fallback ≡ both.fallback)
route_passes_example = route_passes up down both refl (λ e. cc)

degraded-Contract_example :
    Contract
      (failover_port memory_port memory_port)
      (λ f. (f.degraded ≡ true) × IsMap f.fallback)
      (λ f. memory_view f.fallback)
degraded-Contract_example = degraded-Contract memory_port memory_port memory-Contract

first_delay_unbounded_example :
    (delay (with_reprobe_interval 7200000000000) max_reprobe_interval 0 ≡ 7200000000000)
    × (delay (with_reprobe_interval 7200000000000) max_reprobe_interval 1 ≡ max_reprobe_interval)
first_delay_unbounded_example = first_delay_unbounded 7200000000000 0 (omega arith) (omega arith)

-- A request has found the primary down and is about to signal.
abbrev failing : Loop
failing = record {
  degraded = true;
  signal = false;
  sending = 0 + 1;
  closed = false;
  phase = waiting;
}

reached : Reach 5 60 failing
reached = next here (swap refl)

Reach-IsAttended_example : IsAttended 5 60 failing
Reach-IsAttended_example = Reach-IsAttended 5 60 reached

Reach-CanRecover_example : CanRecover 5 60 failing
Reach-CanRecover_example = Reach-CanRecover 5 60 reached refl refl
