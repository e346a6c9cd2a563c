-- ===== src/ManagedBlock/Block/Rendered.antt =====
-- block.go: every block that Render returns has the shape that Merge relies on, whatever the parser
-- and the printer of the keys do.
use sshpilot_vallete.Prelude.{
  ◌-◌, ◌≡◌, inl, inr, refl, sym, ap, subst, ◌∙◌, true, false, List, [], ◌∷◌, ◌++◌, append-nil,
  append_assoc, Bytes, ◌=ᵇ◌, Result, Result-cases, ok, arith, All, All-append, length, take,
}
use sshpilot_vallete.ManagedBlock.Block.{
  begin_marker, end_marker, is_marker, contains_break, last_byte, ends_line, check_emitted,
  render_keys, render, merge,
}
use sshpilot_vallete.ManagedBlock.Block.Lines.{
  lines, concat, concat-append, terminated, IsTerminated, lines-concat,
}
use sshpilot_vallete.ManagedBlock.Block.Located.{IsPlain}
use sshpilot_vallete.ManagedBlock.Block.Spliced.{IsBlock}
use sshpilot_vallete.ManagedBlock.Block.Repeated.{merge_last_wins}

unbroken_terminated :
    (l : Bytes)
    → ends_line l ≡ true
    → contains_break (take (length l - 1) l) ≡ false
    → terminated l ≡ true
unfolding ends_line last_byte contains_break terminated
unbroken_terminated [] h b = ground arith
unbroken_terminated (c ∷ []) h b = ground arith
unbroken_terminated (c ∷ d ∷ ds) h b = ground (arith, unbroken_terminated (d ∷ ds))

check_emitted-ok : (l : Bytes) → check_emitted l ≡ ok tt → IsTerminated l × IsPlain l
unfolding check_emitted
check_emitted-ok l h = ground (arith, unbroken_terminated l)

module _ {K : Type 0} (parse : Bytes → Result K) (emit_line : K → Result Bytes) where
  -- The lines of the keys.
  render_keys-lines :
      (ks : List Bytes) (body : Bytes)
      → render_keys parse emit_line ks ≡ ok body
      → (ls : List Bytes) × (body ≡ concat ls) × All IsTerminated ls × All IsPlain ls
  unfolding render_keys
  render_keys-lines [] body h = ([], ground arith, tt, tt)
  render_keys-lines (raw ∷ raws) body h = elim (Result-cases (parse raw)) [
    | inr (x, e) ↦ ground arith
    | inl (k, e) ↦ elim (Result-cases (emit_line k)) [
      | inr (x, f) ↦ ground arith
      | inl (line, f) ↦ elim (Result-cases (check_emitted line)) [
        | inr (x, g) ↦ ground arith
        | inl (u, g) ↦ elim (Result-cases (render_keys parse emit_line raws)) [
          | inr (x, r) ↦ ground arith
          | inl (rest, r) ↦
              let (ls, same, t, p) = render_keys-lines raws rest r in
              let (lt, lp) = check_emitted-ok line g in
              (line ∷ ls, ground (arith, same), (lt, t), (lp, p))
        ]
      ]
    ]
  ]

opening_line : Bytes
opening_line = begin_marker ++ (10 ∷ [])

closing_line : Bytes
closing_line = end_marker ++ (10 ∷ [])

framed : List Bytes → List Bytes
framed ls = opening_line ∷ (ls ++ (closing_line ∷ []))

framed_text :
    (ls : List Bytes)
    → begin_marker ++ (10 ∷ []) ++ concat ls ++ end_marker ++ (10 ∷ []) ≡ concat (framed ls)
unfolding framed opening_line closing_line
framed_text ls = ground (
  arith,
  concat-append ls ((end_marker ++ (10 ∷ [])) ∷ []),
  append-nil (end_marker ++ (10 ∷ [])),
  append_assoc (begin_marker ++ (10 ∷ []) ++ concat ls) end_marker (10 ∷ []),
  append_assoc (begin_marker ++ (10 ∷ [])) (concat ls) (end_marker ++ (10 ∷ [])),
)

framed-IsTerminated : (ls : List Bytes) → All IsTerminated ls → All IsTerminated (framed ls)
unfolding framed opening_line closing_line terminated
framed-IsTerminated ls h = (refl, All-append IsTerminated ls _ h (refl, tt))

lines-framed : (ls : List Bytes) → All IsTerminated ls → lines (concat (framed ls)) ≡ framed ls
unfolding lines
lines-framed ls h =
    ap lines (sym (append-nil (concat (framed ls))))
    ∙ lines-concat (framed ls) [] (framed-IsTerminated ls h)
    ∙ append-nil (framed ls)

framed-IsBlock :
    (ls : List Bytes) → All IsTerminated ls → All IsPlain ls → IsBlock (concat (framed ls))
unfolding framed opening_line closing_line is_marker ◌=ᵇ◌
framed-IsBlock ls h p = record {
  keys = ls;
  opening = opening_line;
  closing = closing_line;
  split = lines-framed ls h;
  ended = subst (λ t. All IsTerminated t) (sym (lines-framed ls h)) (framed-IsTerminated ls h);
  keys_plain = p;
  opens = refl;
  closes = refl;
}

module _ {K : Type 0} (parse : Bytes → Result K) (emit_line : K → Result Bytes) where
  pub render-IsBlock :
      (ks : List Bytes) (block : Bytes) → render parse emit_line ks ≡ ok block → IsBlock block
  unfolding render
  render-IsBlock ks block h = elim (Result-cases (render_keys parse emit_line ks)) [
    | inr (x, e) ↦ ground arith
    | inl (body, e) ↦
        let (ls, same, t, p) = render_keys-lines parse emit_line ks body e in
        let out : block ≡ concat (framed ls) = ground (arith, same, framed_text ls, h, e) in
        rw (out) (framed-IsBlock ls t p)
  ]

  -- The last Merge wins: once a rendered block was merged into any text that accepts it, merging
  -- another block gives what merging that one alone gives, and merging the same one again changes
  -- nothing, whatever the parser and the printer of the keys do.
  pub render_last_wins :
      (ks : List Bytes) (b block next out : Bytes)
      → render parse emit_line ks ≡ ok block
      → merge b block ≡ ok out
      → (merge out next ≡ merge b next) × (merge out block ≡ ok out)
  render_last_wins ks b block next out h m =
      merge_last_wins b block next out (render-IsBlock ks block h) m
