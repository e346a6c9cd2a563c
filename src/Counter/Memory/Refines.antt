-- ===== src/Counter/Memory/Refines.antt =====
-- memory.go and the promises of counter.go about the three calls: what a caller sees never depends
-- on the sweep.
use sshpilot_vallete.Prelude.{
  refl, ◌||◌, err, invalid_input, unavailable, ◌≤◌, ◌≡◌, ◌≢◌, true, false, Option, none, some, [],
  Bytes, ◌=ᵇ◌, =ᵇ_iff, ok, ltb, if◌then◌else◌, arith, Bool-cases, inl, inr,
}
use sshpilot_vallete.Prelude.Assoc
use sshpilot_vallete.Prelude.Assoc.{
  Assoc, IsDistinct, get-put, get-remove, get-keep, put-IsDistinct, remove-IsDistinct,
  keep-IsDistinct,
}
use sshpilot_vallete.Prelude.Word.{Int64, Duration, Time, sle}
use sshpilot_vallete.Counter.Port.{
  Context, Entry, Contract, live, bump, count_at, count_or_zero, refused,
}
use sshpilot_vallete.Counter.Memory.{
  MemoryStore, purge_locked, sweep_locked, increment, get, delete, memory_port,
}

-- What a caller can see of the store at `t`.
abbrev pub memory_view : MemoryStore → Time → Bytes → Option Entry
memory_view s t k = live t (Assoc.get k s.entries)

abbrev pub IsMap : MemoryStore → Type 0
IsMap s = IsDistinct s.entries

live-keep :
    (now t : Time) (o : Option Entry)
    → now ≤ t
    → live t (Assoc.keep_option (λ e. ltb now e.expires_at) o) ≡ live t o
live-keep now t o h = ground arith

view-purge_locked :
    (now t : Time) (s : MemoryStore) (k : Bytes)
    → IsMap s
    → now ≤ t
    → memory_view (purge_locked now s) t k ≡ memory_view s t k
unfolding purge_locked
view-purge_locked now t s k d h = ground (
  arith,
  get-keep (λ (e : Entry). ltb now e.expires_at) k s.entries d,
  live-keep now t (Assoc.get k s.entries),
)

view-sweep_locked :
    (now t : Time) (s : MemoryStore) (k : Bytes)
    → IsMap s
    → now ≤ t
    → memory_view (sweep_locked now s) t k ≡ memory_view s t k
unfolding sweep_locked
view-sweep_locked now t s k d h =
    ground (arith, view-purge_locked now t (record s { ops = 0 }) k d h)

pub sweep_locked-IsMap : (now : Time) (s : MemoryStore) → IsMap s → IsMap (sweep_locked now s)
unfolding sweep_locked purge_locked
sweep_locked-IsMap now s d =
    ground (arith, keep-IsDistinct (λ (e : Entry). ltb now e.expires_at) s.entries d)

module _ (ctx : Context) (k : Bytes) (delta : Int64) (ttl : Duration) (s : MemoryStore)
    (d : IsMap s) where
  added : MemoryStore
  added = record s {
    entries = Assoc.put k (bump ctx.now delta ttl (memory_view s ctx.now k)) s.entries;
  }

  added-IsMap : IsMap added
  unfolding added
  added-IsMap = put-IsDistinct k _ s.entries d

  increment-added :
      refused ctx k delta ttl ≡ false
      → increment ctx k delta ttl s ≡ (
        ok (count_at ctx.now (bump ctx.now delta ttl (memory_view s ctx.now k))),
        sweep_locked ctx.now added,
      )
  unfolding increment added
  increment-added h = ground arith

  increment-refused : refused ctx k delta ttl ≡ true → (increment ctx k delta ttl s).1 ≡ s
  unfolding increment
  increment-refused h = ground arith

  increment-IsMap : IsMap (increment ctx k delta ttl s).1
  increment-IsMap = elim (Bool-cases (refused ctx k delta ttl)) [
    | inl r ↦ rw (increment-refused r) d
    | inr a ↦ rw (increment-added a) (sweep_locked-IsMap ctx.now added added-IsMap)
  ]

  increment-view :
      (t : Time) (j : Bytes)
      → refused ctx k delta ttl ≡ false
      → ctx.now ≤ t
      → memory_view (increment ctx k delta ttl s).1 t j ≡ (
          if k =ᵇ j
          then live t (some (bump ctx.now delta ttl (memory_view s ctx.now k)))
          else memory_view s t j)
  unfolding added
  increment-view t j h le =
      rw (increment-added h, view-sweep_locked ctx.now t added j added-IsMap le)
        (ground (arith, get-put k j (bump ctx.now delta ttl (memory_view s ctx.now k)) s.entries))

module _ (ctx : Context) (k : Bytes) (s : MemoryStore) (d : IsMap s) where
  dropped : MemoryStore
  dropped = record s { entries = Assoc.remove k s.entries }

  dropped-IsMap : IsMap dropped
  unfolding dropped
  dropped-IsMap = remove-IsDistinct k s.entries d

  delete-IsMap : IsMap (delete ctx k s).1
  unfolding delete dropped
  delete-IsMap = ground (arith, sweep_locked-IsMap ctx.now dropped dropped-IsMap)

  delete-view :
      (t : Time) (j : Bytes)
      → k ≢ []
      → ctx.canceled ≡ false
      → ctx.now ≤ t
      → memory_view (delete ctx k s).1 t j ≡ (if k =ᵇ j then none else memory_view s t j)
  unfolding delete dropped
  delete-view t j h c le = ground (
    arith,
    view-sweep_locked ctx.now t dropped j dropped-IsMap le,
    get-remove k j s.entries,
    =ᵇ_iff k [],
  )

  get-result :
      k ≢ []
      → ctx.canceled ≡ false
      → (get ctx k s).0 ≡ ok (count_or_zero ctx.now (memory_view s ctx.now k))
  unfolding get
  get-result h c = ground (arith, =ᵇ_iff k [])

get-state : (ctx : Context) (k : Bytes) (s : MemoryStore) → (get ctx k s).1 ≡ s
unfolding get
get-state ctx k s = ground arith

view-later :
    (s : MemoryStore) (t t' : Time) (k : Bytes)
    → t ≤ t'
    → memory_view s t' k ≡ live t' (memory_view s t k)
view-later s t t' k h = ground arith

module _ (ctx : Context) (k : Bytes) (s : MemoryStore) where
  increment-not_positive :
      (delta : Int64) (ttl : Duration)
      → k ≢ []
      → (sle delta 0 || sle ttl 0) ≡ true
      → (increment ctx k delta ttl s).0 ≡ err invalid_input
  unfolding increment
  increment-not_positive delta ttl n h = ground (arith, =ᵇ_iff k [])

  increment-canceled :
      (delta : Int64) (ttl : Duration)
      → k ≢ []
      → (sle delta 0 || sle ttl 0) ≡ false
      → ctx.canceled ≡ true
      → (increment ctx k delta ttl s).0 ≡ err unavailable
  unfolding increment
  increment-canceled delta ttl n p h = ground (arith, =ᵇ_iff k [])

  get-canceled : k ≢ [] → ctx.canceled ≡ true → (get ctx k s).0 ≡ err unavailable
  unfolding get
  get-canceled n h = ground (arith, =ᵇ_iff k [])

  delete-result : k ≢ [] → ctx.canceled ≡ false → (delete ctx k s).0 ≡ ok tt
  unfolding delete
  delete-result n h = ground (arith, =ᵇ_iff k [])

  delete-canceled : k ≢ [] → ctx.canceled ≡ true → delete ctx k s ≡ (err unavailable, s)
  unfolding delete
  delete-canceled n h = ground (arith, =ᵇ_iff k [])

increment-result :
    (ctx : Context) (k : Bytes) (delta : Int64) (ttl : Duration) (s : MemoryStore)
    → IsMap s
    → refused ctx k delta ttl ≡ false
    → (increment ctx k delta ttl s).0
      ≡ ok (count_at ctx.now (bump ctx.now delta ttl (memory_view s ctx.now k)))
increment-result ctx k delta ttl s d h = rw (increment-added ctx k delta ttl s d h)

-- The in-process store keeps the port's contract of the three calls: an increment adds to the live
-- entry or starts a window, its answer is the entry that results, no other key changes, a read
-- answers the live entry or zero and changes nothing, a deletion removes its key, a call with an
-- empty key, with a step or a window that is not positive, or with a canceled context has the
-- documented error and changes nothing, and the sweep that a call may run is never observed.
pub memory-Contract : Contract memory_port IsMap memory_view
unfolding increment get delete ◌=ᵇ◌
memory-Contract = record {
  view_later = λ s t t' k _ h. view-later s t t' k h;
  increment_IsValid = increment-IsMap;
  increment_result = increment-result;
  increment_view = λ ctx k delta ttl s t j d. increment-view ctx k delta ttl s d t j;
  increment_refused = λ ctx k delta ttl s d. increment-refused ctx k delta ttl s d;
  increment_unnamed = λ ctx delta ttl s d. refl;
  increment_not_positive = λ ctx k delta ttl s d. increment-not_positive ctx k s delta ttl;
  increment_canceled = λ ctx k delta ttl s d. increment-canceled ctx k s delta ttl;
  get_result = get-result;
  get_state = λ ctx k s _. get-state ctx k s;
  get_unnamed = λ ctx s d. refl;
  get_canceled = λ ctx k s d. get-canceled ctx k s;
  delete_IsValid = delete-IsMap;
  delete_view = λ ctx k s t j d. delete-view ctx k s d t j;
  delete_result = λ ctx k s d. delete-result ctx k s;
  delete_unnamed = λ ctx s d. refl;
  delete_canceled = λ ctx k s d. delete-canceled ctx k s;
}
