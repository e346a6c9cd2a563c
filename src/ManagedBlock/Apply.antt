-- ===== src/ManagedBlock/Apply.antt =====
-- internal/managedblock/apply.go: installing the block. The file system is a parameter, a state `W`
-- with the calls that the source makes; a failed call returns its next state too.
pub mod Safe
pub mod Whole
use sshpilot_vallete.Prelude.{
  ℕ, ◌+◌, ◌*◌, ◌/◌, ◌%◌, Bool, true, false, not, ◌&&◌, ◌||◌, Option, none, some, List, [], ◌∷◌,
  ◌++◌, Bytes, codes, ◌=ᵇ◌, Err, Result, ok, err, ltb, ◌==◌, if◌then◌else◌, length, not_found,
  not_regular_file, too_large, bad_path, would_empty,
}
use sshpilot_vallete.ManagedBlock.Block.{render, merge, block_key_count}

abbrev pub file_mode : ℕ
file_mode = 384

abbrev pub dir_mode : ℕ
dir_mode = 448

abbrev pub max_file_bytes : ℕ
max_file_bytes = 1048576

pub record Info : Type 0 where
  pub regular : Bool
  pub perm : ℕ

-- The calls of os, io and crypto/rand. A name is one in the directory; `read_all` stops after the
-- given number of bytes; `rand` is the text that the random bytes print as.
pub record Fs (W : Type 0) : Type 0 where
  pub clean : Bytes → Bytes
  pub split : Bytes → Bytes × Bytes
  pub stat_dir : Bytes → W → Option Err
  pub mkdir_all : Bytes → ℕ → W → Option Err × W
  pub chmod_path : Bytes → ℕ → W → Option Err × W
  pub open_root : Bytes → W → Option Err
  pub lstat : Bytes → W → Result Info
  pub open_file : Bytes → W → Option Err
  pub read_all : Bytes → ℕ → W → Result Bytes
  pub rand : W → Result Bytes × W
  pub create : Bytes → ℕ → W → Option Err × W
  pub chmod_file : Bytes → ℕ → W → Option Err × W
  pub write : Bytes → Bytes → W → Option Err × W
  pub sync : Bytes → W → Option Err × W
  pub close_file : Bytes → W → Option Err × W
  pub rename : Bytes → Bytes → W → Option Err × W
  pub remove : Bytes → W → W
  pub sync_dir : Bytes → W → Option Err × W

pub record Options : Type 0 where
  pub path : Bytes
  pub dry_run : Bool
  pub allow_empty : Bool

pub record Report : Type 0 where
  pub path : Bytes
  pub existed : Bool
  pub changed : Bool
  pub mode : ℕ
  pub size : ℕ

-- mode & 0600, on the permission bits.
unfoldable pub final_mode : ℕ → Bool → ℕ
final_mode mode existed =
    if existed then (mode / 256) % 2 * 256 + (mode / 128) % 2 * 128 else file_mode

unfoldable pub temp_name : Bytes → Bytes → Bytes
temp_name base random = codes "." ++ base ++ codes "." ++ random ++ codes ".tmp"

module _ {W : Type 0} (fs : Fs W) where
  -- A step of the sequence on the temporary file: the rest follows a success, and a failure removes
  -- the file.
  unfoldable pub or_remove : Bytes → Option Err × W → (W → Option Err × W) → Option Err × W
  or_remove tmp (some e, w) rest = (some e, fs.remove tmp w)
  or_remove tmp (none, w) rest = rest w

  -- abandon: the file is closed first, and the error of that is dropped.
  unfoldable pub or_abandon : Bytes → Option Err × W → (W → Option Err × W) → Option Err × W
  or_abandon tmp (some e, w) rest = (some e, fs.remove tmp (fs.close_file tmp w).1)
  or_abandon tmp (none, w) rest = rest w

  unfoldable pub install : Bytes → Bytes → Bytes → ℕ → Bytes → W → Option Err × W
  install tmp base content mode dir w = or_abandon tmp (fs.chmod_file tmp mode w) (λ w₁.
      or_abandon tmp (fs.write tmp content w₁) (λ w₂. or_abandon tmp (fs.sync tmp w₂) (λ w₃.
        or_abandon tmp (fs.close_file tmp w₃)
          (λ w₄. or_remove tmp (fs.rename tmp base w₄) (λ w₅. fs.sync_dir dir w₅)))))

  unfoldable pub created : Bytes → Bytes → Bytes → ℕ → Bytes → Option Err × W → Option Err × W
  created tmp base content mode dir (some e, w) = (some e, w)
  created tmp base content mode dir (none, w) = install tmp base content mode dir w

  unfoldable pub named : Bytes → Bytes → ℕ → Bytes → Result Bytes × W → Option Err × W
  named base content mode dir (err e, w) = (some e, w)
  named base content mode dir (ok random, w) =
      let tmp = temp_name base random in created tmp base content mode dir (fs.create tmp mode w)

  unfoldable pub write_atomic : Bytes → Bytes → ℕ → Bytes → W → Option Err × W
  write_atomic base content mode dir w = named base content mode dir (fs.rand w)

  after_mkdir : Bytes → Option Err × W → Option Err × W
  after_mkdir dir (some e, w) = (some e, w)
  after_mkdir dir (none, w) = fs.chmod_path dir dir_mode w

  is_not_exist : Err → Bool
  is_not_exist not_found = true
  is_not_exist _ = false

  unfoldable pub ensure_dir : Bytes → W → Option Err × W
  unfolding after_mkdir is_not_exist
  ensure_dir dir w = elim (fs.stat_dir dir w) [
    | none ↦ (none, w)
    | some e ↦ if is_not_exist e then after_mkdir dir (fs.mkdir_all dir dir_mode w) else (some e, w)
  ]

  -- The content, the permission bits and whether the file was there.
  unfoldable pub read_existing : Bytes → W → Result (Bytes × (ℕ × Bool))
  unfolding is_not_exist
  read_existing base w = elim (fs.lstat base w) [
    | err e ↦ if is_not_exist e then ok ([], (0, false)) else err e
    | ok info ↦ if not info.regular then err not_regular_file else elim (fs.open_file base w) [
      | some e ↦ err e
      | none ↦ elim (fs.read_all base (max_file_bytes + 1) w) [
        | err e ↦ err e
        | ok content ↦
            if ltb max_file_bytes (length content)
            then err too_large
            else ok (content, (info.perm, true))
      ]
    ]
  ]

  -- Apply from the refusal on: the report, the error, and the file system.
  unfoldable pub commit :
      Options → Bytes → Bytes → Bytes → Bytes → Bytes → Report → W → (Report × Option Err) × W
  unfolding write_atomic
  commit opts dir base existing block merged rep w =
      if not opts.allow_empty && ltb 0 (block_key_count existing) && block_key_count block == 0
      then ((rep, some would_empty), w)
      else if opts.dry_run || not rep.changed
      then ((rep, none), w)
      else let r = write_atomic base merged rep.mode dir w in ((rep, r.0), r.1)

  -- Apply once the directory is there.
  unfoldable pub update : Options → Bytes → Bytes → Bytes → Report → W → (Report × Option Err) × W
  unfolding read_existing final_mode commit
  update opts dir base block rep w = elim (fs.open_root dir w) [
    | some e ↦ ((rep, some e), w)
    | none ↦ elim (read_existing base w) [
      | err e ↦ ((rep, some e), w)
      | ok old ↦
          let rep₁ : Report = record rep { existed = old.1.1; mode = final_mode old.1.0 old.1.1 } in
          elim (merge old.0 block) [
            | err e ↦ ((rep₁, some e), w)
            | ok merged ↦
                commit opts dir base old.0 block merged
                  (record rep₁ {
                    size = length merged;
                    changed = not old.1.1 || not (old.0 =ᵇ merged);
                  })
                  w
          ]
    ]
  ]

  abbrev empty_report : Bytes → Report
  empty_report path = record { path = path; existed = false; changed = false; mode = 0; size = 0 }

  missing : Option Err → Bool
  unfolding is_not_exist
  missing none = false
  missing (some e) = is_not_exist e

  -- Apply once the block is rendered and the path is split.
  unfoldable pub place : Options → Bytes → Bytes → Bytes → Bytes → W → (Report × Option Err) × W
  unfolding ensure_dir update missing
  place opts path dir base block w =
      if opts.dry_run
      then (if missing (fs.stat_dir dir w)
          then (
            (
              record (empty_report path) { mode = file_mode; size = length block; changed = true },
              none,
            ),
            w,
          )
          else update opts dir base block (empty_report path) w)
      else let e = ensure_dir dir w in
        elim e.0 [
          | some x ↦ ((empty_report path, some x), e.1)
          | none ↦ update opts dir base block (empty_report path) e.1
        ]

  unfoldable pub apply :
      {K : Type 0}
      → (Bytes → Result K)
      → (K → Result Bytes)
      → List Bytes
      → Options
      → W
      → (Report × Option Err) × W
  unfolding place
  apply parse emit_line pubkeys opts w = elim (render parse emit_line pubkeys) [
    | err e ↦ ((empty_report [], some e), w)
    | ok block ↦
        let path = fs.clean opts.path in
        let dir = (fs.split path).0 in
        let base = (fs.split path).1 in
        if base =ᵇ [] || base =ᵇ codes "." || base =ᵇ codes ".."
        then ((empty_report [], some bad_path), w)
        else place opts path (if dir =ᵇ [] then codes "." else dir) base block w
  ]
