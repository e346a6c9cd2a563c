-- ===== src/Prelude/Results.antt =====
-- A Go result `(v, err)`: a value or an error, the error by the classes that `errors.Is` tells apart.

use mathlib.Core.Path.{◌≡◌, refl}
use mathlib.Core.Logic.{◌⊎◌, inl, inr}
use mathlib.Core.Bool.{Bool, true, false}

-- The sentinels of the packages counter, domain, auth, managedblock and migrate that this library's
-- code returns or compares against; `failed` stands for an error that wraps none of them.
pub data Err : Type 0 where
  invalid_key : Err
  invalid_input : Err
  unavailable : Err
  not_found : Err
  conflict : Err
  auth_failed : Err
  forbidden : Err
  failed : Err
  malformed_block : Err
  would_empty : Err
  not_regular_file : Err
  too_large : Err
  bad_path : Err
  invalid_registry : Err
  checksum_mismatch : Err
  ledger_ahead : Err
  ledger_order : Err
  engine_mismatch : Err
  dependency_unmet : Err
  precondition_failed : Err
  destructive_blocked : Err
  irreversible : Err
  unknown_target : Err
  poll_pending : Err

pub data Result {ℓ} (A : Type ℓ) : Type ℓ where
  ok : A → Result A
  err : Err → Result A

infixl 5 ◌>>=◌
abbrev pub ◌>>=◌ {ℓ κ} : {A : Type ℓ} {B : Type κ} → Result A → (A → Result B) → Result B
ok a >>= f = f a
err e >>= f = err e

pub Result-cases {ℓ} :
    {A : Type ℓ} (r : Result A) → ((a : A) × (r ≡ ok a)) ⊎ ((e : Err) × (r ≡ err e))
Result-cases (ok a) = inl (a, refl)
Result-cases (err e) = inr (e, refl)

-- errors.Is(err, domain.ErrConflict), the sentinels that wrap it included.
unfoldable pub is_conflict : Err → Bool
is_conflict conflict = true
is_conflict checksum_mismatch = true
is_conflict ledger_ahead = true
is_conflict ledger_order = true
is_conflict engine_mismatch = true
is_conflict dependency_unmet = true
is_conflict precondition_failed = true
is_conflict _ = false

-- errors.Is(err, domain.ErrNotFound), the sentinel that wraps it included.
unfoldable pub is_not_found : Err → Bool
is_not_found not_found = true
is_not_found unknown_target = true
is_not_found _ = false
