-- ===== src/ManagedBlock/Block/Spliced.antt =====
-- block.go: what Merge makes of the text around the block, and of a second block.
use sshpilot_vallete.Prelude.{
  ℕ, ◌+◌, ◌≡◌, inl, inr, refl, sym, ap, subst, ◌∙◌, true, not, ◌&&◌, List, [], ◌∷◌, ◌++◌,
  append-nil, append_assoc, Bytes, ◌=ᵇ◌, if◌then◌else◌, ok, arith, All, length, take, drop,
  length-append, take-append, drop-append, Bool-cases,
}
use sshpilot_vallete.ManagedBlock.Block.{begin_marker, end_marker, is_marker, ends_line, merge}
use sshpilot_vallete.ManagedBlock.Block.Lines.{
  lines, concat, concat-lines, concat-append, IsTerminated, IsLines, lines-concat,
  lines-concat-lines,
}
use sshpilot_vallete.ManagedBlock.Block.Located.{
  IsPlain, Located, span_of, locate-Located, locate-plain,
}

-- The newline that Merge writes after a text that lacks one.
unfoldable pub separator : Bytes → Bytes
separator b = if not (b =ᵇ []) && not (ends_line b) then 10 ∷ [] else []

-- The text of a located block and the texts around it.
parts :
    (b : Bytes) (p : Located (lines b))
    → b ≡ concat p.before ++ ((p.opening ++ (concat p.inside ++ p.closing)) ++ concat p.behind)
parts b p = ground (
  arith,
  concat-lines b,
  ap concat p.split,
  concat-append p.before (p.opening ∷ (p.inside ++ (p.closing ∷ p.behind))),
  concat-append p.inside (p.closing ∷ p.behind),
  append_assoc (concat p.inside) p.closing (concat p.behind),
  append_assoc p.opening (concat p.inside ++ p.closing) (concat p.behind),
)

cut :
    (front old behind block : Bytes) (stop : ℕ)
    → stop ≡ length front + length old
    → take (length front) (front ++ (old ++ behind))
        ++ block
        ++ drop stop (front ++ (old ++ behind))
      ≡ front ++ block ++ behind
cut front old behind block stop h =
    rw
      (
        h,
        take-append front (old ++ behind),
        sym (length-append front old),
        sym (append_assoc front old behind),
        drop-append (front ++ old) behind,
      )
      refl

pub merge_found :
    (b block : Bytes) (p : Located (lines b))
    → merge b block ≡ ok (concat p.before ++ block ++ concat p.behind)
unfolding merge
merge_found b block p =
    rw (merge, locate-Located b p)
      (ap ok (
        subst
          (λ t.
            take (span_of p).start t ++ block ++ drop (span_of p).stop t
            ≡ concat p.before ++ block ++ concat p.behind)
          (sym (parts b p))
          (cut (concat p.before) (p.opening ++ (concat p.inside ++ p.closing)) (concat p.behind)
            block (span_of p).stop
            (omega (
              arith,
              length-append p.opening (concat p.inside ++ p.closing),
              length-append (concat p.inside) p.closing,
            )))))

separated :
    (b block : Bytes)
    → (if not (b =ᵇ []) && not (ends_line b) then ok (b ++ (10 ∷ []) ++ block) else ok (b ++ block))
      ≡ ok (b ++ separator b ++ block)
unfolding separator
separated b block = elim (Bool-cases (not (b =ᵇ []) && not (ends_line b))) [
  | inl e ↦ rw (e) refl
  | inr e ↦ rw (e, append-nil b) refl
]

pub merge_absent :
    (b block : Bytes) → All IsPlain (lines b) → merge b block ≡ ok (b ++ separator b ++ block)
unfolding merge
merge_absent b block h = rw (merge, locate-plain b h) (separated b block)

-- A rendered block: its BEGIN line, lines that are no markers, its END line, all terminated.
pub record IsBlock (block : Bytes) : Type 0 where
  pub keys : List Bytes
  pub opening : Bytes
  pub closing : Bytes
  pub split : lines block ≡ opening ∷ (keys ++ (closing ∷ []))
  pub ended : All IsTerminated (lines block)
  pub keys_plain : All IsPlain keys
  pub opens : is_marker opening begin_marker ≡ true
  pub closes : is_marker closing end_marker ≡ true

-- The lines of a text with a block between whole lines.
lines_around :
    (front behind : List Bytes) (block : Bytes)
    → All IsTerminated front
    → All IsTerminated (lines block)
    → IsLines behind
    → lines (concat front ++ block ++ concat behind) ≡ front ++ (lines block ++ behind)
lines_around front behind block hf hb hl =
    rw
      (
        append_assoc (concat front) block (concat behind),
        lines-concat front (block ++ concat behind) hf,
      )
      (ap (λ t. front ++ t)
        (ap (λ t. lines (t ++ concat behind)) (sym (concat-lines block))
          ∙ lines-concat (lines block) (concat behind) hb
          ∙ ap (λ t. lines block ++ t) (lines-concat-lines behind hl)))

located_around :
    (front behind : List Bytes) (block : Bytes) (k : IsBlock block)
    → All IsTerminated front
    → IsLines behind
    → All IsPlain front
    → All IsPlain behind
    → Located (lines (concat front ++ block ++ concat behind))
located_around front behind block k hf hl pf pb = record {
  before = front;
  opening = k.opening;
  inside = k.keys;
  closing = k.closing;
  behind = behind;
  split =
      lines_around front behind block hf k.ended hl
      ∙ ap (λ t. front ++ (t ++ behind)) k.split
      ∙ ap (λ t. front ++ (k.opening ∷ t)) (append_assoc k.keys (k.closing ∷ []) behind);
  before_plain = pf;
  inside_plain = k.keys_plain;
  behind_plain = pb;
  opens = k.opens;
  closes = k.closes;
}

-- A second block takes the place of the first.
pub merge_around :
    (front behind : List Bytes) (block next : Bytes) (k : IsBlock block)
    → All IsTerminated front
    → IsLines behind
    → All IsPlain front
    → All IsPlain behind
    → merge (concat front ++ block ++ concat behind) next
      ≡ ok (concat front ++ next ++ concat behind)
unfolding located_around
merge_around front behind block next k hf hl pf pb =
    merge_found (concat front ++ block ++ concat behind) next
      (located_around front behind block k hf hl pf pb)
