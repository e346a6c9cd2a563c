-- ===== src/Storage/Table.antt =====
-- The statements of SQL on one table, a list of its rows. The list is kept in the order of the
-- primary key, which is the order that the queries ask for.
use sshpilot_vallete.Prelude.{
  ℕ, suc, ◌≤◌, ◌≡◌, refl, subst, Bool, true, false, Option, none, some, Option-cases, inl, inr,
  List, [], ◌∷◌, Bytes, ◌=ᵇ◌, =ᵇ_iff, precedes, if◌then◌else◌, arith, All, Bool-cases,
}

module _ {R : Type 0} where
  -- UPDATE … SET change WHERE matches
  unfoldable pub update : (R → Bool) → (R → R) → List R → List R
  update matches change [] = []
  update matches change (r ∷ rs) = (if matches r then change r else r) ∷ update matches change rs

  -- The number of rows that a WHERE clause matches.
  unfoldable pub count : (R → Bool) → List R → ℕ
  count matches [] = 0
  count matches (r ∷ rs) = let n = count matches rs in if matches r then suc n else n

  -- SELECT … WHERE matches, for one row and for all
  unfoldable pub first : (R → Bool) → List R → Option R
  first matches [] = none
  first matches (r ∷ rs) = let later = first matches rs in if matches r then some r else later

  unfoldable pub select : (R → Bool) → List R → List R
  select matches [] = []
  select matches (r ∷ rs) = let rest = select matches rs in if matches r then r ∷ rest else rest

  module _ (key : R → Bytes) where
    -- INSERT, at the place of the row's key
    unfoldable pub insert : R → List R → List R
    insert r [] = r ∷ []
    insert r (x ∷ xs) =
        let rest = insert r xs in if precedes (key x) (key r) then x ∷ rest else r ∷ x ∷ xs

    unfoldable pub at_key : Bytes → List R → Option R
    unfolding first
    at_key k = first (λ r. key r =ᵇ k)

    pub at_key-insert :
        (k : Bytes) (r : R) (rs : List R)
        → at_key (key r) rs ≡ none
        → at_key k (insert r rs) ≡ (if key r =ᵇ k then some r else at_key k rs)
    unfolding at_key first insert
    at_key-insert k r [] h = refl
    at_key-insert k r (x ∷ xs) h =
        ground
          (arith, at_key-insert k r xs, =ᵇ_iff (key x) (key r), =ᵇ_iff (key x) k, =ᵇ_iff (key r) k)

    -- An update that leaves the keys alone changes the row at a key if it matches it.
    pub at_key-update :
        (matches : R → Bool) (change : R → R) (k : Bytes) (rs : List R)
        → ((r : R) → key (change r) ≡ key r)
        → at_key k (update matches change rs)
          ≡ (elim (at_key k rs) [ none ↦ none | some r ↦ some (if matches r then change r else r) ])
    unfolding at_key first update
    at_key-update matches change k [] keeps = refl
    at_key-update matches change k (x ∷ xs) keeps =
        ground (arith, at_key-update matches change k xs keeps, keeps x)

    -- No row takes a key that no row had.
    pub update-at_key :
        (matches : R → Bool) (change : R → R) (k : Bytes) (rs : List R)
        → ((r : R) → key (change r) ≡ key r)
        → at_key k (update matches change rs) ≡ none
        → at_key k rs ≡ none
    update-at_key matches change k rs keeps h = elim (Option-cases (at_key k rs)) [
      | inl n ↦ n
      | inr (r, e) ↦ ground (arith, at_key-update matches change k rs keeps)
    ]

  pub count-insert :
      (key : R → Bytes) (matches : R → Bool) (r : R) (rs : List R)
      → count matches (insert key r rs)
        ≡ (if matches r then suc (count matches rs) else count matches rs)
  unfolding count insert
  count-insert key matches r [] = refl
  count-insert key matches r (x ∷ xs) = ground (arith, count-insert key matches r xs)

  -- An update after which no matched row is counted any more.
  pub count-update-le :
      (counted matches : R → Bool) (change : R → R) (rs : List R)
      → ((r : R) → counted (change r) ≡ true → counted r ≡ true)
      → count counted (update matches change rs) ≤ count counted rs
  unfolding count update
  count-update-le counted matches change [] h = omega arith
  count-update-le counted matches change (r ∷ rs) h =
      ground (arith, count-update-le counted matches change rs h, h r)

  -- An update without a row to match changes nothing.
  pub update-unmatched :
      (matches : R → Bool) (change : R → R) (rs : List R)
      → count matches rs ≡ 0
      → update matches change rs ≡ rs
  unfolding count update
  update-unmatched matches change [] h = refl
  update-unmatched matches change (r ∷ rs) h = ground (arith, update-unmatched matches change rs)

  module _ (P : R → Type 0) where
    pub insert-All :
        (key : R → Bytes) (r : R) (rs : List R) → P r → All P rs → All P (insert key r rs)
    unfolding insert
    insert-All key r [] pr h = (pr, tt)
    insert-All key r (x ∷ xs) pr (px, h) = elim (Bool-cases (precedes (key x) (key r))) [
      | inl e ↦ ground (arith, insert-All key r xs pr h)
      | inr e ↦ ground arith
    ]

    pub update-All :
        (matches : R → Bool) (change : R → R) (rs : List R)
        → ((r : R) → P r → P (change r))
        → All P rs
        → All P (update matches change rs)
    unfolding update
    update-All matches change [] keeps h = tt
    update-All matches change (r ∷ rs) keeps (pr, h) = elim (Bool-cases (matches r)) [
      | inl e ↦ (ground (arith, keeps r pr), update-All matches change rs keeps h)
      | inr e ↦ (ground arith, update-All matches change rs keeps h)
    ]

  pub map-All : (P Q : R → Type 0) (rs : List R) → ((r : R) → P r → Q r) → All P rs → All Q rs
  map-All P Q [] f h = tt
  map-All P Q (r ∷ rs) f (pr, h) = (f r pr, map-All P Q rs f h)

  pub at_key-All :
      (P : R → Type 0) (key : R → Bytes) (k : Bytes) (r : R) (rs : List R)
      → at_key key k rs ≡ some r
      → All P rs
      → P r
  unfolding at_key first
  at_key-All P key k r [] h all = ground arith
  at_key-All P key k r (x ∷ xs) h (px, all) = elim (Bool-cases (key x =ᵇ k)) [
    | inl e ↦ subst P (ground arith) px
    | inr e ↦ at_key-All P key k r xs (ground arith) all
  ]

  pub at_key-key :
      (key : R → Bytes) (k : Bytes) (r : R) (rs : List R)
      → at_key key k rs ≡ some r
      → (key r =ᵇ k) ≡ true
  unfolding at_key first
  at_key-key key k r [] h = ground arith
  at_key-key key k r (x ∷ xs) h = ground (arith, at_key-key key k r xs)

  -- An update that turns a test off leaves no row that passes it.
  pub count-quenched :
      (matches : R → Bool) (change : R → R) (rs : List R)
      → ((r : R) → matches (change r) ≡ false)
      → count matches (update matches change rs) ≡ 0
  unfolding count update
  count-quenched matches change [] h = refl
  count-quenched matches change (r ∷ rs) h = ground (arith, count-quenched matches change rs h, h r)

  pub update-All_to :
      (P Q : R → Type 0) (matches : R → Bool) (change : R → R) (rs : List R)
      → ((r : R) → P r → Q (if matches r then change r else r))
      → All P rs
      → All Q (update matches change rs)
  unfolding update
  update-All_to P Q matches change [] f h = tt
  update-All_to P Q matches change (r ∷ rs) f (pr, h) =
      (f r pr, update-All_to P Q matches change rs f h)

  pub first-All :
      (P : R → Type 0) (test : R → Bool) (r : R) (rs : List R)
      → first test rs ≡ some r
      → All P rs
      → P r × (test r ≡ true)
  unfolding first
  first-All P test r [] h all = ground arith
  first-All P test r (x ∷ xs) h (px, all) = elim (Bool-cases (test x)) [
    | inl e ↦ (subst P (ground arith) px, ground arith)
    | inr e ↦ first-All P test r xs (ground arith) all
  ]

  pub first-test : (test : R → Bool) (r : R) (rs : List R) → first test rs ≡ some r → test r ≡ true
  unfolding first
  first-test test r [] h = ground arith
  first-test test r (x ∷ xs) h = ground (arith, first-test test r xs)
