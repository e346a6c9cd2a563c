-- ===== src/Counter/Memory/Writes.antt =====
-- memory.go: an accepted increment or deletion as a write to one key and the sweep after it.
use sshpilot_vallete.Prelude.{◌+◌, ◌≤◌, ◌≡◌, refl, true, false, Option, Bytes, ◌=ᵇ◌, arith, length}
use sshpilot_vallete.Prelude.Assoc
use sshpilot_vallete.Prelude.Assoc.{
  get-put, get-remove, put-IsDistinct, remove-IsDistinct, length-put, length-remove,
}
use sshpilot_vallete.Prelude.Word.{Int64, Duration, Time, add64}
use sshpilot_vallete.Counter.Port.{
  Context, Entry, Call, incr, del, instant, named, is_refused, step, refused,
}
use sshpilot_vallete.Counter.Memory.{
  MemoryStore, window, sweep_locked, increment, delete, memory_port,
}
use sshpilot_vallete.Counter.Memory.Refines.{IsMap}

-- The store between the write of a call and its sweep.
pub record Writes (c : Call) (s : MemoryStore) : Type 0 where
  pub written : MemoryStore
  pub swept : step memory_port c s ≡ sweep_locked (instant c) written
  pub same_ops : written.ops ≡ s.ops
  pub grown : length written.entries ≤ length s.entries + 1
  pub keeps_map : IsMap s → IsMap written
  pub keeps_rest :
      (k : Bytes) → (named c =ᵇ k) ≡ false → Assoc.get k written.entries ≡ Assoc.get k s.entries

-- The entry that `Increment` writes.
abbrev started : Time → Int64 → Duration → Option Entry → Entry
started now delta ttl o =
    let e = window now ttl o in record { value = add64 e.value delta; expires_at = e.expires_at }

increment-write :
    (ctx : Context) (k : Bytes) (delta : Int64) (ttl : Duration) (s : MemoryStore)
    → refused ctx k delta ttl ≡ false
    → (increment ctx k delta ttl s).1
      ≡ sweep_locked ctx.now (record s {
        entries = Assoc.put k (started ctx.now delta ttl (Assoc.get k s.entries)) s.entries;
      })
unfolding increment
increment-write ctx k delta ttl s h = ground arith

delete-write :
    (ctx : Context) (k : Bytes) (s : MemoryStore)
    → is_refused (del ctx k) ≡ false
    → (delete ctx k s).1 ≡ sweep_locked ctx.now (record s { entries = Assoc.remove k s.entries })
unfolding delete
delete-write ctx k s h = ground arith

pub step-Writes : (c : Call) (s : MemoryStore) → is_refused c ≡ false → Writes c s
step-Writes (incr ctx k delta ttl) s h = record {
  written = record s {
    entries = Assoc.put k (started ctx.now delta ttl (Assoc.get k s.entries)) s.entries;
  };
  swept = increment-write ctx k delta ttl s h;
  same_ops = refl;
  grown = length-put k _ s.entries;
  keeps_map = put-IsDistinct k _ s.entries;
  keeps_rest = λ j n.
      ground (arith, get-put k j (started ctx.now delta ttl (Assoc.get k s.entries)) s.entries);
}
step-Writes (del ctx k) s h = record {
  written = record s { entries = Assoc.remove k s.entries };
  swept = delete-write ctx k s h;
  same_ops = refl;
  grown = omega (arith, length-remove k s.entries);
  keeps_map = remove-IsDistinct k s.entries;
  keeps_rest = λ j n. ground (arith, get-remove k j s.entries);
}

pub step-refused : (c : Call) (s : MemoryStore) → is_refused c ≡ true → step memory_port c s ≡ s
unfolding increment delete
step-refused (incr ctx k delta ttl) s h = ground arith
step-refused (del ctx k) s h = ground arith
