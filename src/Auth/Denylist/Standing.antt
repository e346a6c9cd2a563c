-- ===== src/Auth/Denylist/Standing.antt =====
-- denylist.go: an entry of the counter store that stands while the store's clients go on calling.
use sshpilot_vallete.Prelude.{
  ◌+◌, ◌≤◌, ◌<◌, ◌≡◌, ◌∙◌, true, false, Option, none, some, List, [], ◌∷◌, Bytes, ◌=ᵇ◌, =ᵇ_iff,
  arith, length, Bool-cases, inl, inr, ℕ, sym,
}
use sshpilot_vallete.Prelude.Word.{Int64, Duration, Time, sign_bit}
use sshpilot_vallete.Counter.Port.{
  Context, Entry, Store, Contract, live, refused, Call, incr, del, run,
}

-- What may be called up to `t` beside a key: anything on other keys, and steps of one on the key.
abbrev pub Spares : Time → Bytes → List Call → Type 0
Spares t key [] = Unit
Spares t key (incr ctx k delta ttl ∷ cs) =
    (ctx.now ≤ t) × ((k =ᵇ key) ≡ true → delta ≡ 1) × Spares t key cs
Spares t key (del ctx k ∷ cs) = (ctx.now ≤ t) × ((k =ᵇ key) ≡ false) × Spares t key cs

live-some :
    (t : Time) (o : Option Entry) (e : Entry)
    → live t o ≡ some e
    → (o ≡ some e) × (t < e.expires_at)
live-some t none e h = ground arith
live-some t (some x) e h = ground arith

module _ {S : Type 0} (store : Store S) {IsValid : S → Type 0}
    {view : S → Time → Bytes → Option Entry} (contract : Contract store IsValid view) (t : Time)
    (key : Bytes) where
  -- An entry of the key that is live at `t`, with room for `n` more steps.
  abbrev pub Stands : S → ℕ → Type 0
  Stands s n =
      IsValid s × (e : Entry) × (view s t key ≡ some e) × (0 < e.value) × (e.value + n < sign_bit)

  seen_before :
      (s : S) (now : Time) (e : Entry)
      → IsValid s
      → now ≤ t
      → view s t key ≡ some e
      → (view s now key ≡ some e) × (t < e.expires_at)
  seen_before s now e v le h =
      live-some t (view s now key) e (sym (contract.view_later s now t key v le) ∙ h)

  incr-view :
      (ctx : Context) (k : Bytes) (delta : Int64) (ttl : Duration) (s : S) (e : Entry) (n : ℕ)
      → IsValid s
      → refused ctx k delta ttl ≡ false
      → ctx.now ≤ t
      → ((k =ᵇ key) ≡ true → delta ≡ 1)
      → view s t key ≡ some e
      → 0 < e.value
      → e.value + (n + 1) < sign_bit
      → (e' : Entry) × (view (store.increment ctx k delta ttl s).1 t key ≡ some e')
        × (0 < e'.value)
        × (e'.value + n < sign_bit)
  incr-view ctx k delta ttl s e n v a le one h p b =
      let after = contract.increment_view ctx k delta ttl s t key v a le in
      elim (Bool-cases (k =ᵇ key)) [
        | inr other ↦ (e, after ∙ rw other h, p, omega arith)
        | inl same ↦
            let seen = seen_before s ctx.now e v le h in
            let at_key : k ≡ key = ground (arith, =ᵇ_iff k key) in
            (
              record { value = e.value + 1; expires_at = e.expires_at },
              after ∙ rw (same, at_key, seen.0, one same) (ground (arith, seen.1)),
              omega arith,
              omega arith,
            )
      ]

  incr-Stands :
      (ctx : Context) (k : Bytes) (delta : Int64) (ttl : Duration) (s : S) (n : ℕ)
      → ctx.now ≤ t
      → ((k =ᵇ key) ≡ true → delta ≡ 1)
      → Stands s (n + 1)
      → Stands (store.increment ctx k delta ttl s).1 n
  incr-Stands ctx k delta ttl s n le one (v, e, h, p, b) =
      elim (Bool-cases (refused ctx k delta ttl)) [
        | inl r ↦ rw (contract.increment_refused ctx k delta ttl s v r) (v, e, h, p, omega arith)
        | inr a ↦
            let w = incr-view ctx k delta ttl s e n v a le one h p b in
            (contract.increment_IsValid ctx k delta ttl s v, w.0, w.1, w.2, w.3)
      ]

  del-view :
      (ctx : Context) (k : Bytes) (s : S)
      → IsValid s
      → ctx.now ≤ t
      → (k =ᵇ key) ≡ false
      → view (store.delete ctx k s).1 t key ≡ view s t key
  del-view ctx [] s v le n = rw (contract.delete_unnamed ctx s v)
  del-view ctx (x ∷ k) s v le n = elim (Bool-cases ctx.canceled) [
    | inl c ↦ rw (contract.delete_canceled ctx (x ∷ k) s v (λ e. cc) c)
    | inr c ↦ contract.delete_view ctx (x ∷ k) s t key v (λ e. cc) c le ∙ rw n
  ]

  pub run-Stands :
      (cs : List Call) (s : S) (n : ℕ)
      → Spares t key cs
      → Stands s (length cs + n)
      → Stands (run store cs s) n
  run-Stands [] s n sp w = (w.0, w.1, w.2, w.3, omega (arith, w.4))
  run-Stands (incr ctx k delta ttl ∷ cs) s n (le, one, sp) w =
      run-Stands cs (store.increment ctx k delta ttl s).1 n sp (
        incr-Stands ctx k delta ttl s (length cs + n) le one
          (w.0, w.1, w.2, w.3, omega (arith, w.4)))
  run-Stands (del ctx k ∷ cs) s n (le, other, sp) (v, e, h, p, b) =
      run-Stands cs (store.delete ctx k s).1 n sp
        (contract.delete_IsValid ctx k s v, e, del-view ctx k s v le other ∙ h, p, omega arith)
