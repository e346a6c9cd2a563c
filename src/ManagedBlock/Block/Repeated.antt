-- ===== src/ManagedBlock/Block/Repeated.antt =====
-- block.go: Merge on any text, and Merge on its own result.
use sshpilot_vallete.Prelude.{
  ℕ, ◌≡◌, ◌⊎◌, inl, inr, refl, sym, ap, subst, ◌∙◌, true, false, List, [], ◌∷◌, ◌++◌, append-nil,
  append_assoc, Bytes, ◌=ᵇ◌, =ᵇ_iff, Err, ok, err, arith, All, Bool-cases,
}
use sshpilot_vallete.ManagedBlock.Block.{is_marker, trim_suffix, last_byte, ends_line, merge}
use sshpilot_vallete.ManagedBlock.Block.Lines.{
  lines, concat, concat-lines, terminated, IsTerminated, open_line, IsLines, lines-IsLines,
  lines-cons, lines-concat-lines, IsLines-tail, IsLines-front,
}
use sshpilot_vallete.ManagedBlock.Block.Located.{IsPlain, Located}
use sshpilot_vallete.ManagedBlock.Block.Found.{locate-cases}
use sshpilot_vallete.ManagedBlock.Block.Spliced.{
  IsBlock, separator, merge_found, merge_absent, merge_around,
}

last_byte-append : (l c : Bytes) (x : ℕ) → last_byte (l ++ (x ∷ c)) ≡ last_byte (x ∷ c)
unfolding last_byte
last_byte-append [] c x = refl
last_byte-append (y ∷ []) c x = refl
last_byte-append (y ∷ z ∷ zs) c x = last_byte-append (z ∷ zs) c x

open_ends : (l : Bytes) → open_line l ≡ true → ends_line l ≡ false
unfolding open_line ends_line last_byte
open_ends [] h = ground arith
open_ends (c ∷ []) h = ground arith
open_ends (c ∷ d ∷ ds) h = ground (arith, open_ends (d ∷ ds))

terminated_ends : (l : Bytes) → terminated l ≡ true → ends_line l ≡ true
unfolding terminated ends_line last_byte
terminated_ends [] h = ground arith
terminated_ends (c ∷ []) h = ground arith
terminated_ends (c ∷ d ∷ ds) h = ground (arith, terminated_ends (d ∷ ds))

open_closed : (l : Bytes) → open_line l ≡ true → terminated (l ++ (10 ∷ [])) ≡ true
unfolding open_line terminated
open_closed [] h = ground arith
open_closed (c ∷ []) h = ground arith
open_closed (c ∷ d ∷ ds) h = ground (arith, open_closed (d ∷ ds))

trim_closed : (l : Bytes) → open_line l ≡ true → trim_suffix 10 (l ++ (10 ∷ [])) ≡ l
unfolding open_line trim_suffix
trim_closed [] h = ground arith
trim_closed (c ∷ []) h = ground arith
trim_closed (c ∷ d ∷ ds) h = ground (arith, trim_closed (d ∷ ds))

trim_open : (l : Bytes) → open_line l ≡ true → trim_suffix 10 l ≡ l
unfolding open_line trim_suffix
trim_open [] h = ground arith
trim_open (c ∷ []) h = ground arith
trim_open (c ∷ d ∷ ds) h = ground (arith, trim_open (d ∷ ds))

-- A newline at the end makes no line a marker that was none.
IsPlain-closed : (l : Bytes) → open_line l ≡ true → IsPlain l → IsPlain (l ++ (10 ∷ []))
unfolding is_marker
IsPlain-closed l h p = rw (trim_closed l h, sym (trim_open l h)) p

line_first :
    (m : Bytes) (ls : List Bytes) → IsLines (m ∷ ls) → (x : ℕ) × (xs : Bytes) × (m ≡ x ∷ xs)
unfolding terminated open_line
line_first [] [] h = ground arith
line_first [] (l ∷ ls) h = ground arith
line_first (x ∷ xs) ls h = (x, xs, refl)

-- The end of a text is the end of its last line.
ends_tail :
    (l m : Bytes) (ls : List Bytes)
    → IsLines (m ∷ ls)
    → ends_line (l ++ concat (m ∷ ls)) ≡ ends_line (concat (m ∷ ls))
unfolding ends_line
ends_tail l m ls h =
    let (x, xs, e) = line_first m ls h in
    rw (e, ends_line, last_byte-append l (xs ++ concat ls) x) refl

ended_lines : (ls : List Bytes) → IsLines ls → ends_line (concat ls) ≡ true → All IsTerminated ls
ended_lines [] h e = tt
ended_lines (l ∷ []) (inl t) e = (t, tt)
ended_lines (l ∷ []) (inr o) e = ground (arith, append-nil l, open_ends l o)
ended_lines (l ∷ m ∷ ls) (t, h) e = (t, ended_lines (m ∷ ls) h (sym (ends_tail l m ls h) ∙ e))

closed_lines :
    (l : Bytes) (ls : List Bytes)
    → IsLines (l ∷ ls)
    → All IsPlain (l ∷ ls)
    → ends_line (concat (l ∷ ls)) ≡ false
    → All IsPlain (lines (concat (l ∷ ls) ++ (10 ∷ [])))
      × All IsTerminated (lines (concat (l ∷ ls) ++ (10 ∷ [])))
unfolding lines
closed_lines l [] (inl t) p e = ground (arith, append-nil l, terminated_ends l t)
closed_lines l [] (inr o) p e =
    let one : lines ((l ++ []) ++ (10 ∷ [])) ≡ (l ++ (10 ∷ [])) ∷ [] =
      ap (λ t. lines (t ++ (10 ∷ []))) (append-nil l)
      ∙ ap lines (sym (append-nil (l ++ (10 ∷ []))))
      ∙ lines-cons (l ++ (10 ∷ [])) [] (open_closed l o) in
    rw (one) ((IsPlain-closed l o p.0, tt), (open_closed l o, tt))
closed_lines l (m ∷ ls) (t, h) (pl, p) e =
    let (a, b) = closed_lines m ls h p (sym (ends_tail l m ls h) ∙ e) in
    let one : lines ((l ++ concat (m ∷ ls)) ++ (10 ∷ []))
        ≡ l ∷ lines (concat (m ∷ ls) ++ (10 ∷ [])) =
      ap lines (append_assoc l (concat (m ∷ ls)) (10 ∷ []))
      ∙ lines-cons l (concat (m ∷ ls) ++ (10 ∷ [])) t in
    rw (one) ((pl, a), (t, b))

open_separator : (b : Bytes) → ends_line b ≡ true → separator b ≡ []
unfolding separator
open_separator b h = ground arith

closed_separator :
    (b : Bytes) (x : ℕ) (xs : Bytes) → b ≡ x ∷ xs → ends_line b ≡ false → separator b ≡ 10 ∷ []
unfolding separator
closed_separator b x xs e h = ground (arith, =ᵇ_iff b [])

-- The text in front of an appended block is whole lines, and no marker is among them.
whole_lines :
    (ls : List Bytes)
    → IsLines ls
    → All IsPlain ls
    → All IsPlain (lines (concat ls ++ separator (concat ls)))
      × All IsTerminated (lines (concat ls ++ separator (concat ls)))
unfolding separator lines ◌=ᵇ◌
whole_lines [] h p = (tt, tt)
whole_lines (l ∷ ls) h p = elim (Bool-cases (ends_line (concat (l ∷ ls)))) [
  | inl e ↦
      rw
        (
          open_separator (concat (l ∷ ls)) e,
          append-nil (concat (l ∷ ls)),
          lines-concat-lines (l ∷ ls) h,
        )
        (p, ended_lines (l ∷ ls) h e)
  | inr e ↦
      let (x, xs, m) = line_first l ls h in
      rw (closed_separator (concat (l ∷ ls)) x (xs ++ concat ls) (ap (λ t. t ++ concat ls) m) e)
        (closed_lines l ls h p e)
]

whole_front :
    (b : Bytes)
    → All IsPlain (lines b)
    → All IsPlain (lines (b ++ separator b)) × All IsTerminated (lines (b ++ separator b))
whole_front b p =
    subst
      (λ t. All IsPlain (lines (t ++ separator t)) × All IsTerminated (lines (t ++ separator t)))
      (concat-lines b) (whole_lines (lines b) (lines-IsLines b) p)

-- What Merge does with any text: in place of the one block that it holds, or behind a text without a
-- marker, it puts the new block and keeps every other byte, save the newline that ends an open last
-- line; a text whose markers are neither is an error.
pub merge-cases :
    (b block : Bytes)
    → ((p : Located (lines b)) × (merge b block ≡ ok (concat p.before ++ block ++ concat p.behind)))
      ⊎ ((All IsPlain (lines b) × (merge b block ≡ ok (b ++ separator b ++ block)))
          ⊎ (((e : Err) × (merge b block ≡ err e))
              × (¬ (All IsPlain (lines b)) × ¬ (Located (lines b)))))
unfolding merge
merge-cases b block = elim (locate-cases b) [
  | inl (e, h) ↦ inr (inl (h, merge_absent b block h))
  | inr (inl (p, e)) ↦ inl (p, merge_found b block p)
  | inr (inr ((x, e), h)) ↦ inr (inr ((x, rw (merge, e) refl), h))
]

lines_split :
    (b : Bytes) (p : Located (lines b))
    → IsLines (p.before ++ (p.opening ∷ (p.inside ++ (p.closing ∷ p.behind))))
lines_split b p = subst IsLines p.split (lines-IsLines b)

merged_again :
    (b block next out : Bytes)
    → IsBlock block
    → merge b block ≡ ok out
    → merge out next ≡ merge b next
merged_again b block next out k h = elim (merge-cases b block) [
  | inl (p, e) ↦
      let same : out ≡ concat p.before ++ block ++ concat p.behind = ground (arith, h, e) in
      rw (same, merge_found b next p)
        (merge_around p.before p.behind block next k
          (IsLines-front p.before p.opening _ (lines_split b p))
          (IsLines-tail (p.closing ∷ []) p.behind (
            IsLines-tail (p.opening ∷ p.inside) (p.closing ∷ p.behind)
              (IsLines-tail p.before _ (lines_split b p))))
          p.before_plain p.behind_plain)
  | inr (inl (pl, e)) ↦
      let same : out ≡ b ++ separator b ++ block = ground (arith, h, e) in
      let (p, t) = whole_front b pl in
      rw (same, merge_absent b next pl)
        (subst (λ f. merge (f ++ block) next ≡ ok (f ++ next)) (concat-lines (b ++ separator b))
          (subst (λ f. merge f next ≡ ok (concat (lines (b ++ separator b)) ++ next)) (append-nil _)
            (merge_around (lines (b ++ separator b)) [] block next k t tt p tt
              ∙ ap ok (append-nil _))))
  | inr (inr ((x, e), _)) ↦ ground arith
]

-- The last Merge wins: after a block was merged into any text that accepts it, merging another one
-- gives what merging that one alone gives. With the same block, a second Merge changes nothing.
pub merge_last_wins :
    (b block next out : Bytes)
    → IsBlock block
    → merge b block ≡ ok out
    → (merge out next ≡ merge b next) × (merge out block ≡ ok out)
merge_last_wins b block next out k h =
    (merged_again b block next out k h, merged_again b block block out k h ∙ h)
