-- ===== src/Examples/Blocks.antt =====
-- internal/managedblock on a small file and a directory that is a map from names to files.
use sshpilot_vallete.Prelude.{
  ℕ, ◌≡◌, ◌≢◌, ◌⊎◌, refl, true, false, Option, none, some, [], ◌∷◌, ◌++◌, Bytes, codes, ◌=ᵇ◌,
  =ᵇ_refl, =ᵇ_iff, Err, Result, ok, err, arith, All,
}
use sshpilot_vallete.Prelude.Assoc
use sshpilot_vallete.Prelude.Assoc.{Assoc, get-put, get-remove}
use sshpilot_vallete.ManagedBlock.Block.{
  begin_marker, end_marker, render, render_keys, check_emitted, is_marker, trim, trim_left,
  trim_right, trim_suffix, contains_break, last_byte, ends_line, merge, locate, collect, judge,
  line_spans, spans_from, index_newline,
}
use sshpilot_vallete.ManagedBlock.Block.Lines.{lines, concat}
use sshpilot_vallete.ManagedBlock.Block.Located.{IsPlain, Located}
use sshpilot_vallete.ManagedBlock.Block.Spliced.{separator}
use sshpilot_vallete.ManagedBlock.Block.Repeated.{merge-cases}
use sshpilot_vallete.ManagedBlock.Block.Rendered.{render_last_wins}
use sshpilot_vallete.ManagedBlock.Apply.{Fs, Options, Info, apply, write_atomic}
use sshpilot_vallete.ManagedBlock.Apply.Safe.{Laws, IsSafe, write_atomic-IsSafe}
use sshpilot_vallete.ManagedBlock.Apply.Whole.{IsOutcome, apply-IsOutcome}

abbrev parsed : Bytes → Result Bytes
parsed raw = ok raw

abbrev printed : Bytes → Result Bytes
printed k = ok (k ++ (10 ∷ []))

abbrev old_text : Bytes
old_text = codes "mine"

abbrev one_block : Bytes
one_block = begin_marker ++ (10 ∷ []) ++ codes "k1" ++ (10 ∷ []) ++ end_marker ++ (10 ∷ [])

abbrev merged_text : Bytes
merged_text = old_text ++ (10 ∷ []) ++ one_block

one_rendered : render parsed printed (codes "k1" ∷ []) ≡ ok one_block
unfolding render render_keys check_emitted is_marker trim trim_left trim_right trim_suffix
    contains_break last_byte ends_line ◌=ᵇ◌
one_rendered = refl

one_merged : merge old_text one_block ≡ ok merged_text
unfolding merge locate collect judge line_spans spans_from index_newline is_marker trim trim_left
    trim_right trim_suffix last_byte ends_line ◌=ᵇ◌
one_merged = refl

render_last_wins_example :
    (merge merged_text [] ≡ merge old_text []) × (merge merged_text one_block ≡ ok merged_text)
render_last_wins_example =
    render_last_wins parsed printed (codes "k1" ∷ []) old_text one_block [] merged_text one_rendered
      one_merged

merge-cases_example :
    ((p : Located (lines old_text)) × (merge old_text one_block
        ≡ ok (concat p.before ++ one_block ++ concat p.behind)))
    ⊎ ((All IsPlain (lines old_text)
          × (merge old_text one_block ≡ ok (old_text ++ separator old_text ++ one_block)))
        ⊎ (((e : Err) × (merge old_text one_block ≡ err e))
            × (¬ (All IsPlain (lines old_text)) × ¬ (Located (lines old_text)))))
merge-cases_example = merge-cases old_text one_block

-- The files of one directory.
abbrev Files : Type 0
Files = Assoc (Bytes × ℕ)

abbrev content_of : Option (Bytes × ℕ) → Bytes
content_of none = []
content_of (some f) = f.0

abbrev mode_of : Option (Bytes × ℕ) → ℕ
mode_of none = 0
mode_of (some f) = f.1

abbrev moved : Bytes → Bytes → Option (Bytes × ℕ) → Files → Option Err × Files
moved t b none w = (some Err.not_found, w)
moved t b (some f) w = (none, Assoc.put b f w)

abbrev info_of : Option (Bytes × ℕ) → Result Info
info_of none = err Err.not_found
info_of (some f) = ok (record { regular = true; perm = f.1 })

abbrev directory : Fs Files
directory = record {
  clean = λ p. p;
  split = λ p. (codes "d/", p);
  stat_dir = λ d w. none;
  mkdir_all = λ d m w. (none, w);
  chmod_path = λ d m w. (none, w);
  open_root = λ d w. none;
  lstat = λ n w. info_of (Assoc.get n w);
  open_file = λ n w. none;
  read_all = λ n limit w. ok (content_of (Assoc.get n w));
  rand = λ w. (ok (codes "ab"), w);
  create = λ t m w. (none, Assoc.put t ([], m) w);
  chmod_file = λ t m w. (none, Assoc.put t (content_of (Assoc.get t w), m) w);
  write = λ t c w. (none, Assoc.put t (content_of (Assoc.get t w) ++ c, mode_of (Assoc.get t w)) w);
  sync = λ t w. (none, w);
  close_file = λ t w. (none, w);
  rename = λ t b w. moved t b (Assoc.get t w) w;
  remove = λ t w. Assoc.remove t w;
  sync_dir = λ d w. (none, w);
}

abbrev file_of : Files → Bytes → Option (Bytes × ℕ)
file_of w n = Assoc.get n w

put_other :
    (t n : Bytes) (f : Bytes × ℕ) (w : Files) → n ≢ t → file_of (Assoc.put t f w) n ≡ file_of w n
put_other t n f w h = ground (arith, get-put t n f w, =ᵇ_iff t n)

put_same : (t : Bytes) (f : Bytes × ℕ) (w : Files) → file_of (Assoc.put t f w) t ≡ some f
put_same t f w = ground (arith, get-put t t f w, =ᵇ_refl t)

remove_other : (t n : Bytes) (w : Files) → n ≢ t → file_of (Assoc.remove t w) n ≡ file_of w n
remove_other t n w h = ground (arith, get-remove t n w, =ᵇ_iff t n)

moved_ok :
    (t b : Bytes) (o : Option (Bytes × ℕ)) (w : Files)
    → (moved t b o w).0 ≡ none
    → file_of (moved t b o w).1 b ≡ o
moved_ok t b none w h = ground arith
moved_ok t b (some f) w h = put_same b f w

moved_err :
    (t b n : Bytes) (o : Option (Bytes × ℕ)) (w : Files) (e : Err)
    → (moved t b o w).0 ≡ some e
    → file_of (moved t b o w).1 n ≡ file_of w n
moved_err t b n none w e h = refl
moved_err t b n (some f) w e h = ground arith

directory_laws : Laws directory file_of
directory_laws = record {
  rand_keeps = λ w n. refl;
  mkdir_keeps = λ d n m w. refl;
  chmod_path_keeps = λ d n m w. refl;
  create_other = λ t n m w h. put_other t n _ w h;
  chmod_other = λ t n m w h. put_other t n _ w h;
  write_other = λ t n c w h. put_other t n _ w h;
  remove_other = λ t n w h. remove_other t n w h;
  sync_keeps = λ t n w. refl;
  close_keeps = λ t n w. refl;
  sync_dir_keeps = λ d n w. refl;
  create_ok = λ t m w h. (m, put_same t _ w);
  chmod_ok = λ t c m p w h e. rw (e) (put_same t (c, m) w);
  write_ok = λ t c p w h e. rw (e) (put_same t (c, p) w);
  rename_ok = λ t b w h. moved_ok t b (Assoc.get t w) w h;
  rename_err = λ t b n w e h. moved_err t b n (Assoc.get t w) w e h;
}

abbrev home : Files
home = (codes "keys", (old_text, 420)) ∷ []

write_atomic-IsSafe_example :
    IsSafe file_of
      (codes "keys")
      (merged_text, 384)
      (file_of home (codes "keys"))
      (write_atomic directory (codes "keys") merged_text 384 (codes "d/") home)
write_atomic-IsSafe_example =
    write_atomic-IsSafe directory directory_laws (codes "keys") merged_text (codes "d/") 384 home

abbrev dry : Options
dry = record { path = codes "keys"; dry_run = true; allow_empty = false }

abbrev wet : Options
wet = record dry { dry_run = false }

apply-IsOutcome_example :
    (file_of (apply directory parsed printed (codes "k1" ∷ []) wet home).1 (codes "keys")
      ≡ file_of home (codes "keys"))
    ⊎ ((block : Bytes) × (render parsed printed (codes "k1" ∷ []) ≡ ok block)
        × IsOutcome directory directory_laws false
            (codes "keys")
            block
            home
            (apply directory parsed printed (codes "k1" ∷ []) wet home).1)
apply-IsOutcome_example =
    apply-IsOutcome directory directory_laws parsed printed (codes "k1" ∷ []) wet home
