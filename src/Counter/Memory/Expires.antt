-- ===== src/Counter/Memory/Expires.antt =====
-- memory.go: an expired key that nobody reads leaves the map within one sweep interval.
use sshpilot_vallete.Prelude.{
  ℕ, ◌+◌, ◌≤◌, ◌<◌, ◌≡◌, ◌≢◌, ◌⊎◌, inl, inr, none, List, [], ◌∷◌, Bytes, ltb, arith, length,
  Bool-cases,
}
use sshpilot_vallete.Prelude.Assoc
use sshpilot_vallete.Prelude.Assoc.{get-keep, keep-IsDistinct}
use sshpilot_vallete.Prelude.Word.{Time}
use sshpilot_vallete.Counter.Port.{Entry, Call, instant, step, run, PassBy, ActiveExpiry}
use sshpilot_vallete.Counter.Memory.{
  MemoryStore, sweep_interval, purge_locked, sweep_locked, memory_port,
}
use sshpilot_vallete.Counter.Memory.Refines.{IsMap, memory_view, sweep_locked-IsMap}
use sshpilot_vallete.Counter.Memory.Writes.{step-Writes}

-- The map has a slot for the key, expired or not.
abbrev pub IsResident : MemoryStore → Bytes → Type 0
IsResident s k = Assoc.get k s.entries ≢ none

-- The key is out of the map, or a sweep is due within `n` calls that will drop it.
abbrev IsDue : Time → Bytes → ℕ → MemoryStore → Type 0
IsDue t k n s =
    IsMap s
    × (memory_view s t k ≡ none)
    × ((Assoc.get k s.entries ≡ none) ⊎ ((0 < n) × (sweep_interval ≤ s.ops + n)))

purged :
    (t now : Time) (k : Bytes) (s : MemoryStore)
    → IsMap s
    → memory_view s t k ≡ none
    → t ≤ now
    → Assoc.get k (purge_locked now s).entries ≡ none
unfolding purge_locked
purged t now k s d e h =
    ground (arith, get-keep (λ (e : Entry). ltb now e.expires_at) k s.entries d)

swept-IsDue :
    (t now : Time) (k : Bytes) (n : ℕ) (s : MemoryStore)
    → IsDue t k (n + 1) s
    → t ≤ now
    → IsDue t k n (sweep_locked now s)
unfolding sweep_locked
swept-IsDue t now k n s (d, e, w) h = elim (Bool-cases (ltb (s.ops + 1) sweep_interval)) [
  | inl more ↦ rw more (d, e, ground arith)
  | inr last ↦
      let gone = purged t now k (record s { ops = 0 }) d e h in
      (sweep_locked-IsMap now s d, ground (arith, gone), inl (ground (arith, gone)))
]

step-IsDue :
    (t : Time) (k : Bytes) (c : Call) (cs : List Call) (s : MemoryStore)
    → PassBy t k (c ∷ cs)
    → IsDue t k (length (c ∷ cs)) s
    → IsDue t k (length cs) (step memory_port c s)
step-IsDue t k c cs s p (d, e, w) =
    let wr = step-Writes c s p.1 in
    let same = wr.keeps_rest k p.2 in
    rw wr.swept (
      swept-IsDue t (instant c) k (length cs) wr.written
        (wr.keeps_map d, rw same e, ground (arith, same, wr.same_ops)) p.0)

run-gone :
    (t : Time) (k : Bytes) (cs : List Call) (s : MemoryStore)
    → PassBy t k cs
    → IsDue t k (length cs) s
    → Assoc.get k (run memory_port cs s).entries ≡ none
run-gone t k [] s p (d, e, w) = ground arith
run-gone t k (c ∷ cs) s p w = run-gone t k cs (step memory_port c s) p.3 (step-IsDue t k c cs s p w)

-- Expiry is active: whatever the map holds, a key that has expired and is not written again leaves
-- the map within any sweep interval's number of accepted increments and deletions of other keys,
-- while a key that is live is in the map.
pub memory-ActiveExpiry : ActiveExpiry memory_port IsMap memory_view IsResident sweep_interval
memory-ActiveExpiry = record {
  held = λ s t k e d h n. ground arith;
  let_go = λ s t k cs d e p l h. h (run-gone t k cs s p (d, e, inr (omega arith, omega arith)));
}
