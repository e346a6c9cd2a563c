-- ===== src/Counter/Memory.antt =====
-- internal/counter/memory.go: the in-process store. Each operation runs under the store's mutex, so
-- it is one step on the record; the proofs are in the modules below.
pub mod Expires
pub mod Refines
pub mod Residents
pub mod Writes
use sshpilot_vallete.Prelude.{
  ℕ, ◌+◌, ◌-◌, Bool, Option, none, some, [], Bytes, ◌=ᵇ◌, Result, ok, err, ltb, if◌then◌else◌,
  invalid_key, invalid_input, unavailable, length,
}
use sshpilot_vallete.Prelude.Assoc
use sshpilot_vallete.Prelude.Assoc.{Assoc}
use sshpilot_vallete.Prelude.Word.{Int64, Duration, Time, add64, sle, add_time}
use sshpilot_vallete.Counter.Port.{Context, Count, zero_count, Store, Entry, count_at}

abbrev pub sweep_interval : ℕ
sweep_interval = 256

pub record MemoryStore : Type 0 where
  pub entries : Assoc Entry
  pub ops : ℕ

unfoldable pub new_memory_store : MemoryStore
new_memory_store = record { entries = []; ops = 0 }

unfoldable pub purge_locked : Time → MemoryStore → MemoryStore
purge_locked now s = record s { entries = Assoc.keep (λ e. ltb now e.expires_at) s.entries }

unfoldable pub sweep_locked : Time → MemoryStore → MemoryStore
sweep_locked now s =
    if ltb (s.ops + 1) sweep_interval
    then record s { ops = s.ops + 1 }
    else purge_locked now (record s { ops = 0 })

-- The entry that the addition starts from: the live one, or a new one that starts at 0.
window : Time → Duration → Option Entry → Entry
window now ttl none = record { value = 0; expires_at = add_time now ttl }
window now ttl (some e) =
    if ltb now e.expires_at then e else record { value = 0; expires_at = add_time now ttl }

-- The part of `Increment` under the lock.
add_locked : Time → Bytes → Int64 → Duration → MemoryStore → Result Count × MemoryStore
unfolding window
add_locked now key delta ttl s =
    let e = window now ttl (Assoc.get key s.entries) in
    let e' : Entry = record { value = add64 e.value delta; expires_at = e.expires_at } in
    (ok (count_at now e'), sweep_locked now (record s { entries = Assoc.put key e' s.entries }))

unfoldable pub increment :
    Context → Bytes → Int64 → Duration → MemoryStore → Result Count × MemoryStore
unfolding add_locked
increment ctx key delta ttl s =
    if key =ᵇ []
    then (err invalid_key, s)
    else if sle delta 0
    then (err invalid_input, s)
    else if sle ttl 0
    then (err invalid_input, s)
    else if ctx.canceled
    then (err unavailable, s)
    else add_locked ctx.now key delta ttl s

-- The answer of `Get` about an entry that may be absent or expired.
read_entry : Time → Option Entry → Count
read_entry now none = zero_count
read_entry now (some e) = if ltb now e.expires_at then count_at now e else zero_count

unfoldable pub get : Context → Bytes → MemoryStore → Result Count × MemoryStore
unfolding read_entry
get ctx key s =
    if key =ᵇ []
    then (err invalid_key, s)
    else if ctx.canceled
    then (err unavailable, s)
    else (ok (read_entry ctx.now (Assoc.get key s.entries)), s)

unfoldable pub delete : Context → Bytes → MemoryStore → Result (Unit {0}) × MemoryStore
delete ctx key s =
    if key =ᵇ []
    then (err invalid_key, s)
    else if ctx.canceled
    then (err unavailable, s)
    else (ok tt, sweep_locked ctx.now (record s { entries = Assoc.remove key s.entries }))

-- `Sweep`: the store after the purge, and how many entries went.
unfoldable pub sweep : Time → MemoryStore → ℕ × MemoryStore
sweep now s = let s' = purge_locked now s in (length s.entries - length s'.entries, s')

abbrev pub memory_port : Store MemoryStore
memory_port = record { increment = increment; get = get; delete = delete }
