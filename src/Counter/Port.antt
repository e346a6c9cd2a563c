-- ===== src/Counter/Port.antt =====
-- internal/counter/counter.go: the counter-store port and what it promises to its consumers.
-- A store's state is a type `S`; each operation takes the caller's context and the state, and gives
-- the result and the next state.
use sshpilot_vallete.Prelude.{
  ℕ, ◌≤◌, ◌≡◌, ◌≢◌, Bool, true, false, Option, none, some, List, [], ◌∷◌, Bytes, ◌=ᵇ◌, Result, ok,
  err, ltb, if◌then◌else◌, ◌||◌, length, invalid_key, invalid_input, unavailable,
}
use sshpilot_vallete.Prelude.Word.{Int64, Duration, Time, add64, sle, add_time, sub_time}

-- A context that is canceled or not, and the instant that the store's clock shows during the call.
pub record Context : Type 0 where
  pub canceled : Bool
  pub now : Time

pub record Count : Type 0 where
  pub value : Int64
  pub ttl : Duration

abbrev pub zero_count : Count
zero_count = record { value = 0; ttl = 0 }

pub record Store (S : Type 0) : Type 0 where
  pub increment : Context → Bytes → Int64 → Duration → S → Result Count × S
  pub get : Context → Bytes → S → Result Count × S
  pub delete : Context → Bytes → S → Result (Unit {0}) × S

-- What the port's documentation says of a key: a value that disappears on its own.
pub record Entry : Type 0 where
  pub value : Int64
  pub expires_at : Time

-- The entry, if it has not expired at `t`.
abbrev pub live : Time → Option Entry → Option Entry
live t none = none
live t (some e) = if ltb t e.expires_at then some e else none

-- An increment adds to a live entry and leaves its expiry alone; otherwise it starts a new window.
abbrev pub bump : Time → Int64 → Duration → Option Entry → Entry
bump t delta ttl none = record { value = add64 0 delta; expires_at = add_time t ttl }
bump t delta ttl (some e) = record { value = add64 e.value delta; expires_at = e.expires_at }

abbrev pub count_at : Time → Entry → Count
count_at t e = record { value = e.value; ttl = sub_time e.expires_at t }

abbrev pub count_or_zero : Time → Option Entry → Count
count_or_zero t none = zero_count
count_or_zero t (some e) = count_at t e

-- An increment that the port refuses: no key, a step or a window that is not positive, or a context
-- that is canceled.
abbrev pub refused : Context → Bytes → Int64 → Duration → Bool
refused ctx key delta ttl = (key =ᵇ []) || (sle delta 0 || (sle ttl 0 || ctx.canceled))

-- The contract of the three calls: `view` is the abstract state, the entries that are live at an
-- instant, and `IsValid` the invariant of the store. A refused call has the error that the port
-- documents and leaves the state as it is.
pub record Contract {S : Type 0} (store : Store S) (IsValid : S → Type 0)
    (view : S → Time → Bytes → Option Entry) : Type 0 where
  pub view_later :
      (s : S) (t t' : Time) (k : Bytes) → IsValid s → t ≤ t' → view s t' k ≡ live t' (view s t k)
  pub increment_IsValid :
      (ctx : Context) (k : Bytes) (delta : Int64) (ttl : Duration) (s : S)
      → IsValid s
      → IsValid (store.increment ctx k delta ttl s).1
  pub increment_result :
      (ctx : Context) (k : Bytes) (delta : Int64) (ttl : Duration) (s : S)
      → IsValid s
      → refused ctx k delta ttl ≡ false
      → (store.increment ctx k delta ttl s).0
        ≡ ok (count_at ctx.now (bump ctx.now delta ttl (view s ctx.now k)))
  pub increment_view :
      (ctx : Context) (k : Bytes) (delta : Int64) (ttl : Duration) (s : S) (t : Time) (j : Bytes)
      → IsValid s
      → refused ctx k delta ttl ≡ false
      → ctx.now ≤ t
      → view (store.increment ctx k delta ttl s).1 t j
        ≡ (if k =ᵇ j then live t (some (bump ctx.now delta ttl (view s ctx.now k))) else view s t j)
  pub increment_refused :
      (ctx : Context) (k : Bytes) (delta : Int64) (ttl : Duration) (s : S)
      → IsValid s
      → refused ctx k delta ttl ≡ true
      → (store.increment ctx k delta ttl s).1 ≡ s
  pub increment_unnamed :
      (ctx : Context) (delta : Int64) (ttl : Duration) (s : S)
      → IsValid s
      → (store.increment ctx [] delta ttl s).0 ≡ err invalid_key
  pub increment_not_positive :
      (ctx : Context) (k : Bytes) (delta : Int64) (ttl : Duration) (s : S)
      → IsValid s
      → k ≢ []
      → (sle delta 0 || sle ttl 0) ≡ true
      → (store.increment ctx k delta ttl s).0 ≡ err invalid_input
  pub increment_canceled :
      (ctx : Context) (k : Bytes) (delta : Int64) (ttl : Duration) (s : S)
      → IsValid s
      → k ≢ []
      → (sle delta 0 || sle ttl 0) ≡ false
      → ctx.canceled ≡ true
      → (store.increment ctx k delta ttl s).0 ≡ err unavailable
  pub get_result :
      (ctx : Context) (k : Bytes) (s : S)
      → IsValid s
      → k ≢ []
      → ctx.canceled ≡ false
      → (store.get ctx k s).0 ≡ ok (count_or_zero ctx.now (view s ctx.now k))
  pub get_state : (ctx : Context) (k : Bytes) (s : S) → IsValid s → (store.get ctx k s).1 ≡ s
  pub get_unnamed : (ctx : Context) (s : S) → IsValid s → (store.get ctx [] s).0 ≡ err invalid_key
  pub get_canceled :
      (ctx : Context) (k : Bytes) (s : S)
      → IsValid s
      → k ≢ []
      → ctx.canceled ≡ true
      → (store.get ctx k s).0 ≡ err unavailable
  pub delete_IsValid :
      (ctx : Context) (k : Bytes) (s : S) → IsValid s → IsValid (store.delete ctx k s).1
  pub delete_view :
      (ctx : Context) (k : Bytes) (s : S) (t : Time) (j : Bytes)
      → IsValid s
      → k ≢ []
      → ctx.canceled ≡ false
      → ctx.now ≤ t
      → view (store.delete ctx k s).1 t j ≡ (if k =ᵇ j then none else view s t j)
  pub delete_result :
      (ctx : Context) (k : Bytes) (s : S)
      → IsValid s
      → k ≢ []
      → ctx.canceled ≡ false
      → (store.delete ctx k s).0 ≡ ok tt
  pub delete_unnamed :
      (ctx : Context) (s : S) → IsValid s → store.delete ctx [] s ≡ (err invalid_key, s)
  pub delete_canceled :
      (ctx : Context) (k : Bytes) (s : S)
      → IsValid s
      → k ≢ []
      → ctx.canceled ≡ true
      → store.delete ctx k s ≡ (err unavailable, s)

-- A call that can write; `Get` writes nothing.
pub data Call : Type 0 where
  incr : Context → Bytes → Int64 → Duration → Call
  del : Context → Bytes → Call

abbrev pub instant : Call → Time
instant (incr ctx k delta ttl) = ctx.now
instant (del ctx k) = ctx.now

abbrev pub named : Call → Bytes
named (incr ctx k delta ttl) = k
named (del ctx k) = k

abbrev pub is_refused : Call → Bool
is_refused (incr ctx k delta ttl) = refused ctx k delta ttl
is_refused (del ctx k) = (k =ᵇ []) || ctx.canceled

module _ {S : Type 0} (store : Store S) where
  abbrev pub step : Call → S → S
  step (incr ctx k delta ttl) s = (store.increment ctx k delta ttl s).1
  step (del ctx k) s = (store.delete ctx k s).1

  abbrev pub run : List Call → S → S
  run [] s = s
  run (c ∷ cs) s = run cs (step c s)

-- Calls that the store accepts, from `t` on, none of them for `k`.
abbrev pub PassBy : Time → Bytes → List Call → Type 0
PassBy t k [] = Unit
PassBy t k (c ∷ cs) =
    (t ≤ instant c) × (is_refused c ≡ false) × ((named c =ᵇ k) ≡ false) × PassBy t k cs

-- The port's demand that expiry is active: a store that holds on to a key after it expired lets it
-- go within `period` calls, though nobody reads it. `Holds` is what takes memory.
pub record ActiveExpiry {S : Type 0} (store : Store S) (IsValid : S → Type 0)
    (view : S → Time → Bytes → Option Entry) (Holds : S → Bytes → Type 0) (period : ℕ)
    : Type 0 where
  pub held :
      (s : S) (t : Time) (k : Bytes) (e : Entry) → IsValid s → view s t k ≡ some e → Holds s k
  pub let_go :
      (s : S) (t : Time) (k : Bytes) (cs : List Call)
      → IsValid s
      → view s t k ≡ none
      → PassBy t k cs
      → period ≤ length cs
      → ¬ Holds (run store cs s) k
