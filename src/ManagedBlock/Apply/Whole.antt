-- ===== src/ManagedBlock/Apply/Whole.antt =====
-- apply.go: what Apply as a whole does to the target, and its permission bits.
use sshpilot_vallete.Prelude.{
  ℕ, ◌/◌, ◌%◌, ◌≤◌, ◌<◌, ◌≡◌, ◌⊎◌, inl, inr, refl, sym, ap, subst, ◌∙◌, Bool, true, false, not,
  ◌&&◌, ◌||◌, Option, none, some, List, [], Bytes, codes, ◌=ᵇ◌, ◌==◌, Err, Result, ok, arith, ltb,
  if◌then◌else◌, Result-cases, Option-cases, Bool-cases,
}
use sshpilot_vallete.ManagedBlock.Block.{render, merge, block_key_count}
use sshpilot_vallete.ManagedBlock.Apply.{
  Fs, Options, empty_report, Report, final_mode, file_mode, read_existing, ensure_dir, after_mkdir,
  commit, update, place, apply, missing,
}
use sshpilot_vallete.ManagedBlock.Apply.Safe.{Laws, write_atomic-IsSafe}

-- The bits of the result are 0600 for a new file, and for an old one those of 0600 that it had.
pub final_mode_narrow :
    (mode : ℕ)
    → (final_mode mode false ≡ file_mode)
      × (final_mode mode true ≤ mode)
      × (final_mode mode true ≤ file_mode)
      × (final_mode mode true / 256 % 2 ≡ mode / 256 % 2)
      × (final_mode mode true / 128 % 2 ≡ mode / 128 % 2)
      × (final_mode mode true % 128 ≡ 0)
unfolding final_mode
final_mode_narrow mode = ground arith

module _ {W : Type 0} (fs : Fs W) where
  commit_dry :
      (opts : Options) (dir base existing block merged : Bytes) (rep : Report) (w : W)
      → opts.dry_run ≡ true
      → (commit fs opts dir base existing block merged rep w).1 ≡ w
  unfolding commit
  commit_dry opts dir base existing block merged rep w h = ground arith

  update_dry :
      (opts : Options) (dir base block : Bytes) (rep : Report) (w : W)
      → opts.dry_run ≡ true
      → (update fs opts dir base block rep w).1 ≡ w
  unfolding update
  update_dry opts dir base block rep w h = elim (Option-cases (fs.open_root dir w)) [
    | inr (e, o) ↦ rw (update, o) refl
    | inl o ↦ elim (Result-cases (read_existing fs base w)) [
      | inr (e, r) ↦ rw (update, o, r) refl
      | inl (old, r) ↦ elim (Result-cases (merge old.0 block)) [
        | inr (e, m) ↦ rw (update, o, r, m) refl
        | inl (merged, m) ↦ rw (update, o, r, m) (commit_dry opts dir base old.0 block merged _ w h)
      ]
    ]
  ]

  place_dry :
      (opts : Options) (path dir base block : Bytes) (w : W)
      → opts.dry_run ≡ true
      → (place fs opts path dir base block w).1 ≡ w
  unfolding place
  place_dry opts path dir base block w h = elim (Bool-cases (missing fs (fs.stat_dir dir w))) [
    | inl e ↦ rw (place, h, e) refl
    | inr e ↦
        rw (place, h, e)
          (update_dry (record opts { dry_run = true }) dir base block (empty_report fs path) w refl)
  ]

  -- A dry run changes nothing, whatever the keys, the path and the file system are.
  pub apply_dry :
      {K : Type 0} (parse : Bytes → Result K) (emit_line : K → Result Bytes) (ks : List Bytes)
      (opts : Options) (w : W)
      → opts.dry_run ≡ true
      → (apply fs parse emit_line ks opts w).1 ≡ w
  unfolding apply
  apply_dry parse emit_line ks opts w h = elim (Result-cases (render parse emit_line ks)) [
    | inr (e, r) ↦ rw (apply, r) refl
    | inl (block, r) ↦ ground (
      arith,
      r,
      place_dry opts (fs.clean opts.path)
          (if (fs.split (fs.clean opts.path)).0 =ᵇ []
            then codes "."
            else (fs.split (fs.clean opts.path)).0)
          (fs.split (fs.clean opts.path)).1 block w h,
    )
  ]

module _ {W : Type 0} (fs : Fs W) {file : W → Bytes → Option (Bytes × ℕ)}
    (laws : Laws fs file) where
  -- The target is untouched, or it holds the old content with the block merged in, under narrowed
  -- permission bits; then no block of keys was emptied without leave.
  abbrev pub IsOutcome : Bool → Bytes → Bytes → W → W → Type 0
  IsOutcome allow_empty base block w w' =
      (file w' base ≡ file w base)
      ⊎ ((v : W) × (old : Bytes) × (perm : ℕ) × (existed : Bool) × (merged : Bytes) × (read_existing
              fs base v
            ≡ ok (old, (perm, existed)))
          × (merge old block ≡ ok merged)
          × (file w' base ≡ some (merged, final_mode perm existed))
          × ((allow_empty ≡ true) ⊎ ((block_key_count old ≡ 0) ⊎ (0 < block_key_count block))))

  commit-IsOutcome :
      (opts : Options) (dir base block merged old : Bytes) (perm : ℕ) (existed : Bool)
      (rep : Report) (w : W)
      → rep.mode ≡ final_mode perm existed
      → read_existing fs base w ≡ ok (old, (perm, existed))
      → merge old block ≡ ok merged
      → IsOutcome opts.allow_empty base block w (commit fs opts dir base old block merged rep w).1
  unfolding commit
  commit-IsOutcome opts dir base block merged old perm existed rep w m r g =
      elim (Bool-cases
        (not opts.allow_empty && ltb 0 (block_key_count old) && block_key_count block == 0)) [
          | inl e ↦ inl (ground arith)
          | inr e ↦ elim (Bool-cases (opts.dry_run || not rep.changed)) [
            | inl d ↦ inl (ground arith)
            | inr d ↦ elim (write_atomic-IsSafe fs laws base merged dir rep.mode w) [
              | inl (same, _) ↦ inl (ground (arith, same))
              | inr new ↦
                  inr (w, old, perm, existed, merged, r, g, ground (arith, new, m), ground arith)
            ]
          ]
        ]

  update-IsOutcome :
      (opts : Options) (dir base block : Bytes) (rep : Report) (w : W)
      → IsOutcome opts.allow_empty base block w (update fs opts dir base block rep w).1
  unfolding update
  update-IsOutcome opts dir base block rep w = elim (Option-cases (fs.open_root dir w)) [
    | inr (e, o) ↦ inl (rw (update, o) refl)
    | inl o ↦ elim (Result-cases (read_existing fs base w)) [
      | inr (e, r) ↦ inl (rw (update, o, r) refl)
      | inl ((old, (perm, existed)), r) ↦ elim (Result-cases (merge old block)) [
        | inr (e, m) ↦ inl (rw (update, o, r, m) refl)
        | inl (merged, m) ↦
            rw (update, o, r, m)
              (commit-IsOutcome opts dir base block merged old perm existed _ w refl r m)
      ]
    ]
  ]

  -- The outcome from a state in which the target is the same.
  IsOutcome-from :
      (allow_empty : Bool) (base block : Bytes) (w v w' : W)
      → file v base ≡ file w base
      → IsOutcome allow_empty base block v w'
      → IsOutcome allow_empty base block w w'
  IsOutcome-from allow_empty base block w v w' h (inl same) = inl (same ∙ h)
  IsOutcome-from allow_empty base block w v w' h (inr new) = inr new

  after_mkdir_keeps :
      (dir base : Bytes) (r : Option Err × W) → file (after_mkdir fs dir r).1 base ≡ file r.1 base
  unfolding after_mkdir
  after_mkdir_keeps dir base (some e, w) = refl
  after_mkdir_keeps dir base (none, w) = laws.chmod_path_keeps dir base _ w

  ensure_dir_keeps : (dir base : Bytes) (w : W) → file (ensure_dir fs dir w).1 base ≡ file w base
  unfolding ensure_dir
  ensure_dir_keeps dir base w =
      ground (
        arith,
        after_mkdir_keeps dir base (fs.mkdir_all dir 448 w),
        laws.mkdir_keeps dir base 448 w,
      )

  place_wet :
      (opts : Options) (path dir base block : Bytes) (w : W)
      → opts.dry_run ≡ false
      → (ensure_dir fs dir w).0 ≡ none
      → place fs opts path dir base block w
        ≡ update fs opts dir base block (empty_report fs path) (ensure_dir fs dir w).1
  unfolding place
  place_wet opts path dir base block w d x = ground arith

  place-IsOutcome :
      (opts : Options) (path dir base block : Bytes) (w : W)
      → IsOutcome opts.allow_empty base block w (place fs opts path dir base block w).1
  unfolding place
  place-IsOutcome opts path dir base block w = elim (Bool-cases opts.dry_run) [
    | inl d ↦ inl (ap (λ t. file t base) (place_dry fs opts path dir base block w d))
    | inr d ↦ elim (Option-cases (ensure_dir fs dir w).0) [
      | inr (e, x) ↦ inl (ground (arith, ensure_dir_keeps dir base w))
      | inl x ↦
          IsOutcome-from opts.allow_empty base block w (ensure_dir fs dir w).1 _
            (ensure_dir_keeps dir base w)
            (subst (λ t. IsOutcome opts.allow_empty base block (ensure_dir fs dir w).1 t.1)
              (sym (place_wet opts path dir base block w d x))
              (update-IsOutcome opts dir base block (empty_report fs path) (ensure_dir fs dir w).1))
    ]
  ]

  -- If the file system keeps its promises, then whatever Apply is called with, where the path's last
  -- part is the name of the target, the target is untouched afterwards, or it holds the content read
  -- before with the rendered block merged in, under finalMode's permission bits; and then,
  -- unless the options allow it, a block that held keys was not emptied.
  pub apply-IsOutcome :
      {K : Type 0} (parse : Bytes → Result K) (emit_line : K → Result Bytes) (ks : List Bytes)
      (opts : Options) (w : W)
      → (file (apply fs parse emit_line ks opts w).1 (fs.split (fs.clean opts.path)).1
          ≡ file w (fs.split (fs.clean opts.path)).1)
        ⊎ ((block : Bytes) × (render parse emit_line ks ≡ ok block)
            × IsOutcome opts.allow_empty
                (fs.split (fs.clean opts.path)).1
                block
                w
                (apply fs parse emit_line ks opts w).1)
  unfolding apply
  apply-IsOutcome parse emit_line ks opts w = elim (Result-cases (render parse emit_line ks)) [
    | inr (e, r) ↦ inl (rw (apply, r) refl)
    | inl (block, r) ↦
        elim (Bool-cases (
          (fs.split (fs.clean opts.path)).1 =ᵇ []
          || (fs.split (fs.clean opts.path)).1 =ᵇ codes "."
          || (fs.split (fs.clean opts.path)).1 =ᵇ codes "..")) [
            | inl b ↦ inl (rw (apply, r, b) refl)
            | inr b ↦ inr (
              block,
              r,
              rw (apply, r, b)
                  (place-IsOutcome opts (fs.clean opts.path)
                    (if (fs.split (fs.clean opts.path)).0 =ᵇ []
                      then codes "."
                      else (fs.split (fs.clean opts.path)).0)
                    (fs.split (fs.clean opts.path)).1 block w),
            )
          ]
  ]
