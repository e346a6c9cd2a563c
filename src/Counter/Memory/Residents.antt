-- ===== src/Counter/Memory/Residents.antt =====
-- memory.go: how many entries stay resident between two sweeps.
use sshpilot_vallete.Prelude.{
  ◌+◌, ◌≤◌, ◌<◌, ◌≡◌, inl, inr, refl, true, false, List, [], ◌∷◌, ◌++◌, Bytes, ltb, arith, length,
  All, Bool-cases, ap,
}
use sshpilot_vallete.Prelude.Assoc
use sshpilot_vallete.Prelude.Assoc.{Assoc}
use sshpilot_vallete.Prelude.Word.{Time}
use sshpilot_vallete.Counter.Port.{Entry, Call, instant, is_refused, step}
use sshpilot_vallete.Counter.Memory.{
  MemoryStore, sweep_interval, new_memory_store, purge_locked, sweep_locked, memory_port,
}
use sshpilot_vallete.Counter.Memory.Writes.{Writes, step-Writes, step-refused}

abbrev IsLive : Time → Bytes × Entry → Type 0
IsLive now (k, e) = now < e.expires_at

keep-IsLive :
    (now : Time) (m : Assoc Entry) → All (IsLive now) (Assoc.keep (λ e. ltb now e.expires_at) m)
unfolding Assoc.keep
keep-IsLive now [] = tt
keep-IsLive now ((k, e) ∷ m) = elim (Bool-cases (ltb now e.expires_at)) [
  | inl h ↦ rw h (ground arith, keep-IsLive now m)
  | inr h ↦ rw h (keep-IsLive now m)
]

-- After a purge every resident entry is live.
purge_locked-IsLive : (now : Time) (s : MemoryStore) → All (IsLive now) (purge_locked now s).entries
unfolding purge_locked
purge_locked-IsLive now s = keep-IsLive now s.entries

-- The calls of a client, the latest first, on a new store.
abbrev pub since : List Call → MemoryStore
since [] = new_memory_store
since (c ∷ cs) = step memory_port c (since cs)

-- The store is new, or every entry is live at the instant of the latest call.
abbrev pub AllLive : List Call → Type 0
AllLive [] = Unit
AllLive (c ∷ cs) = All (IsLive (instant c)) (since (c ∷ cs)).entries

-- Where the last sweep stands in the calls, and what was added since.
pub record Swept (cs : List Call) : Type 0 where
  pub later : List Call
  pub until : List Call
  pub split : cs ≡ later ++ until
  pub all_live : AllLive until
  pub grown : length (since cs).entries ≤ length (since until).entries + (since cs).ops
  pub counted : (since cs).ops ≤ length later
  pub few : (since cs).ops < sweep_interval

none-Swept : Swept []
unfolding new_memory_store
none-Swept = record {
  later = [];
  until = [];
  split = refl;
  all_live = tt;
  grown = omega arith;
  counted = omega arith;
  few = omega arith;
}

module _ (c : Call) (cs : List Call) (w : Swept cs) where
  refused-Swept : is_refused c ≡ true → Swept (c ∷ cs)
  refused-Swept r = record {
    later = c ∷ w.later;
    until = w.until;
    split = ap (λ l. c ∷ l) w.split;
    all_live = w.all_live;
    grown = rw (step-refused c (since cs) r) w.grown;
    counted = rw (step-refused c (since cs) r) (omega (arith, w.counted));
    few = rw (step-refused c (since cs) r) w.few;
  }

  module _ (wr : Writes c (since cs)) where
    unswept-Swept : ltb (wr.written.ops + 1) sweep_interval ≡ true → Swept (c ∷ cs)
    unfolding sweep_locked
    unswept-Swept h = record {
      later = c ∷ w.later;
      until = w.until;
      split = ap (λ l. c ∷ l) w.split;
      all_live = w.all_live;
      grown = rw (wr.swept, h) (omega (arith, w.grown, wr.grown, wr.same_ops));
      counted = rw (wr.swept, h) (omega (arith, w.counted, wr.same_ops));
      few = rw (wr.swept, h) (ground arith);
    }

    purged-Swept : ltb (wr.written.ops + 1) sweep_interval ≡ false → Swept (c ∷ cs)
    unfolding sweep_locked purge_locked
    purged-Swept h = record {
      later = [];
      until = c ∷ cs;
      split = refl;
      all_live = rw (wr.swept, h) (purge_locked-IsLive (instant c) (record wr.written { ops = 0 }));
      grown = omega arith;
      counted = rw (wr.swept, h) (omega arith);
      few = rw (wr.swept, h) (omega arith);
    }

step-Swept : (c : Call) (cs : List Call) → Swept cs → Swept (c ∷ cs)
step-Swept c cs w = elim (Bool-cases (is_refused c)) [
  | inl r ↦ refused-Swept c cs w r
  | inr a ↦
      let wr = step-Writes c (since cs) a in
      elim (Bool-cases (ltb (wr.written.ops + 1) sweep_interval)) [
        | inl h ↦ unswept-Swept c cs w wr h
        | inr h ↦ purged-Swept c cs w wr h
      ]
]

-- After any calls on a new store there is a call that swept it, or no sweep was due yet: that call
-- left only entries that are live at its instant, and the store has grown since by at most one entry
-- for each operation that it counts, no more than the later calls and fewer than `sweep_interval`.
pub since-Swept : (cs : List Call) → Swept cs
since-Swept [] = none-Swept
since-Swept (c ∷ cs) = step-Swept c cs (since-Swept cs)
