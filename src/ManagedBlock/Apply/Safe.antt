-- ===== src/ManagedBlock/Apply/Safe.antt =====
-- apply.go: the target file is the old one or the new one, never another.
use sshpilot_vallete.Prelude.{
  ℕ, ◌+◌, ◌≤◌, ◌≡◌, ◌≢◌, ◌⊎◌, inl, inr, refl, ap, ◌∙◌, Option, none, some, [], ◌++◌, Bytes, codes,
  Err, Result, ok, err, arith, length, length-append,
}
use sshpilot_vallete.ManagedBlock.Apply.{
  Fs, or_abandon, or_remove, install, created, named, write_atomic, temp_name,
}

-- What a file system promises about the files of the target's directory, by name: content and
-- permission bits. A call on one name leaves the others, and a rename is whole or nothing.
pub record Laws {W : Type 0} (fs : Fs W) (file : W → Bytes → Option (Bytes × ℕ)) : Type 0 where
  pub rand_keeps : (w : W) (n : Bytes) → file (fs.rand w).1 n ≡ file w n
  pub mkdir_keeps : (d n : Bytes) (m : ℕ) (w : W) → file (fs.mkdir_all d m w).1 n ≡ file w n
  pub chmod_path_keeps : (d n : Bytes) (m : ℕ) (w : W) → file (fs.chmod_path d m w).1 n ≡ file w n
  pub create_other : (t n : Bytes) (m : ℕ) (w : W) → n ≢ t → file (fs.create t m w).1 n ≡ file w n
  pub chmod_other :
      (t n : Bytes) (m : ℕ) (w : W) → n ≢ t → file (fs.chmod_file t m w).1 n ≡ file w n
  pub write_other : (t n c : Bytes) (w : W) → n ≢ t → file (fs.write t c w).1 n ≡ file w n
  pub remove_other : (t n : Bytes) (w : W) → n ≢ t → file (fs.remove t w) n ≡ file w n
  pub sync_keeps : (t n : Bytes) (w : W) → file (fs.sync t w).1 n ≡ file w n
  pub close_keeps : (t n : Bytes) (w : W) → file (fs.close_file t w).1 n ≡ file w n
  pub sync_dir_keeps : (d n : Bytes) (w : W) → file (fs.sync_dir d w).1 n ≡ file w n
  pub create_ok :
      (t : Bytes) (m : ℕ) (w : W)
      → (fs.create t m w).0 ≡ none
      → (p : ℕ) × (file (fs.create t m w).1 t ≡ some ([], p))
  pub chmod_ok :
      (t c : Bytes) (m p : ℕ) (w : W)
      → (fs.chmod_file t m w).0 ≡ none
      → file w t ≡ some (c, p)
      → file (fs.chmod_file t m w).1 t ≡ some (c, m)
  pub write_ok :
      (t c : Bytes) (p : ℕ) (w : W)
      → (fs.write t c w).0 ≡ none
      → file w t ≡ some ([], p)
      → file (fs.write t c w).1 t ≡ some (c, p)
  pub rename_ok :
      (t b : Bytes) (w : W) → (fs.rename t b w).0 ≡ none → file (fs.rename t b w).1 b ≡ file w t
  pub rename_err :
      (t b n : Bytes) (w : W) (e : Err)
      → (fs.rename t b w).0 ≡ some e
      → file (fs.rename t b w).1 n ≡ file w n

temp_name_longer : (base random : Bytes) → length base + 1 ≤ length (temp_name base random)
unfolding temp_name
temp_name_longer base random = omega (
  arith,
  length-append (codes "." ++ base ++ codes "." ++ random) (codes ".tmp"),
  length-append (codes "." ++ base ++ codes ".") random,
  length-append (codes "." ++ base) (codes "."),
)

temp_name_fresh : (base random : Bytes) → base ≢ temp_name base random
temp_name_fresh base random h = omega (arith, temp_name_longer base random, ap length h)

-- The target is as it was and there is an error, or it is the new file.
abbrev pub IsSafe :
    {W : Type 0}
    → (W → Bytes → Option (Bytes × ℕ))
    → Bytes
    → Bytes × ℕ
    → Option (Bytes × ℕ)
    → Option Err × W
    → Type 0
IsSafe file base new v r = ((file r.1 base ≡ v) × (r.0 ≢ none)) ⊎ (file r.1 base ≡ some new)

module _ {W : Type 0} (fs : Fs W) {file : W → Bytes → Option (Bytes × ℕ)} (laws : Laws fs file)
    (tmp base content : Bytes) (mode : ℕ) (v : Option (Bytes × ℕ)) (fresh : base ≢ tmp) where
  or_abandon-IsSafe :
      (r : Option Err × W) (rest : W → Option Err × W)
      → file r.1 base ≡ v
      → (r.0 ≡ none → IsSafe file base (content, mode) v (rest r.1))
      → IsSafe file base (content, mode) v (or_abandon fs tmp r rest)
  unfolding or_abandon
  or_abandon-IsSafe (none, w) rest h k = k refl
  or_abandon-IsSafe (some e, w) rest h k = inl (
    laws.remove_other tmp base (fs.close_file tmp w).1 fresh ∙ laws.close_keeps tmp base w ∙ h,
    ground arith,
  )

  or_remove-IsSafe :
      (r : Option Err × W) (rest : W → Option Err × W)
      → ((e : Err) → r.0 ≡ some e → file r.1 base ≡ v)
      → (r.0 ≡ none → IsSafe file base (content, mode) v (rest r.1))
      → IsSafe file base (content, mode) v (or_remove fs tmp r rest)
  unfolding or_remove
  or_remove-IsSafe (none, w) rest h k = k refl
  or_remove-IsSafe (some e, w) rest h k =
      inl (laws.remove_other tmp base w fresh ∙ h e refl, ground arith)

  install-IsSafe :
      (dir : Bytes) (w : W) (p : ℕ)
      → file w base ≡ v
      → file w tmp ≡ some ([], p)
      → IsSafe file base (content, mode) v (install fs tmp base content mode dir w)
  unfolding install
  install-IsSafe dir w p h t =
      let b₁ = laws.chmod_other tmp base mode w fresh ∙ h in
      or_abandon-IsSafe (fs.chmod_file tmp mode w) _ b₁ (λ e₁.
        let t₁ = laws.chmod_ok tmp [] mode p w e₁ t in
        let w₁ = (fs.chmod_file tmp mode w).1 in
        let b₂ = laws.write_other tmp base content w₁ fresh ∙ b₁ in
        or_abandon-IsSafe (fs.write tmp content w₁) _ b₂ (λ e₂.
          let t₂ = laws.write_ok tmp content mode w₁ e₂ t₁ in
          let w₂ = (fs.write tmp content w₁).1 in
          let b₃ = laws.sync_keeps tmp base w₂ ∙ b₂ in
          or_abandon-IsSafe (fs.sync tmp w₂) _ b₃ (λ e₃.
            let w₃ = (fs.sync tmp w₂).1 in
            let b₄ = laws.close_keeps tmp base w₃ ∙ b₃ in
            or_abandon-IsSafe (fs.close_file tmp w₃) _ b₄ (λ e₄.
              let w₄ = (fs.close_file tmp w₃).1 in
              let t₄ = laws.close_keeps tmp tmp w₃ ∙ laws.sync_keeps tmp tmp w₂ ∙ t₂ in
              or_remove-IsSafe (fs.rename tmp base w₄) _
                (λ e f. laws.rename_err tmp base base w₄ e f ∙ b₄)
                (λ e₅. inr (
                  laws.sync_dir_keeps dir base (fs.rename tmp base w₄).1
                  ∙ laws.rename_ok tmp base w₄ e₅
                  ∙ t₄))))))

module _ {W : Type 0} (fs : Fs W) {file : W → Bytes → Option (Bytes × ℕ)}
    (laws : Laws fs file) where
  created_result :
      (tmp base content dir : Bytes) (mode : ℕ) (v : Option (Bytes × ℕ)) (r : Option Err × W)
      → base ≢ tmp
      → file r.1 base ≡ v
      → (r.0 ≡ none → (p : ℕ) × (file r.1 tmp ≡ some ([], p)))
      → IsSafe file base (content, mode) v (created fs tmp base content mode dir r)
  unfolding created
  created_result tmp base content dir mode v (some e, w) fresh b t = inl (b, ground arith)
  created_result tmp base content dir mode v (none, w) fresh b t =
      let (p, f) = t refl in install-IsSafe fs laws tmp base content mode v fresh dir w p b f

  created-IsSafe :
      (tmp base content dir : Bytes) (mode : ℕ) (w : W) (v : Option (Bytes × ℕ))
      → base ≢ tmp
      → file w base ≡ v
      → IsSafe file base
          (content, mode)
          v
          (created fs tmp base content mode dir (fs.create tmp mode w))
  created-IsSafe tmp base content dir mode w v fresh h =
      created_result tmp base content dir mode v (fs.create tmp mode w) fresh
        (laws.create_other tmp base mode w fresh ∙ h) (laws.create_ok tmp mode w)

  named-IsSafe :
      (base content dir : Bytes) (mode : ℕ) (v : Option (Bytes × ℕ)) (r : Result Bytes × W)
      → file r.1 base ≡ v
      → IsSafe file base (content, mode) v (named fs base content mode dir r)
  unfolding named
  named-IsSafe base content dir mode v (err e, w) h = inl (h, ground arith)
  named-IsSafe base content dir mode v (ok random, w) h =
      created-IsSafe (temp_name base random) base content dir mode w v (temp_name_fresh base random)
        h

  -- If the file system keeps its promises, then after writeAtomic either there is an error and the
  -- target is as it was, or the target is the new content with the chosen permission bits.
  pub write_atomic-IsSafe :
      (base content dir : Bytes) (mode : ℕ) (w : W)
      → IsSafe file base (content, mode) (file w base) (write_atomic fs base content mode dir w)
  unfolding write_atomic
  write_atomic-IsSafe base content dir mode w =
      named-IsSafe base content dir mode (file w base) (fs.rand w) (laws.rand_keeps w base)
