-- ===== src/ManagedBlock/Block/Located.antt =====
-- block.go: what locate answers about a text with one block, and about one without a marker.
use sshpilot_vallete.Prelude.{
  ℕ, ◌+◌, ◌<◌, ◌≡◌, refl, sym, ap, subst, true, false, none, some, List, [], ◌∷◌, ◌++◌,
  append_assoc, Bytes, ◌=ᵇ◌, =ᵇ_iff, if◌then◌else◌, ok, arith, All, length, length-append,
}
use sshpilot_vallete.ManagedBlock.Block.{
  begin_marker, end_marker, is_marker, trim, trim_suffix, trim_left, trim_right, Span, collect,
  judge, locate,
}
use sshpilot_vallete.ManagedBlock.Block.Lines.{
  lines, concat, concat-lines, offsets, line_spans-offsets, slice_line,
}

-- A line that is no marker.
abbrev pub IsPlain : Bytes → Type 0
IsPlain l = (is_marker l begin_marker ≡ false) × (is_marker l end_marker ≡ false)

-- Lines with one block: the lines before it, its BEGIN line, those inside, its END line, the rest.
pub record Located (ls : List Bytes) : Type 0 where
  pub before : List Bytes
  pub opening : Bytes
  pub inside : List Bytes
  pub closing : Bytes
  pub behind : List Bytes
  pub split : ls ≡ before ++ (opening ∷ (inside ++ (closing ∷ behind)))
  pub before_plain : All IsPlain before
  pub inside_plain : All IsPlain inside
  pub behind_plain : All IsPlain behind
  pub opens : is_marker opening begin_marker ≡ true
  pub closes : is_marker closing end_marker ≡ true

-- The markers among lines that stand at an offset.
unfoldable pub tagged : ℕ → List Bytes → List Span × List Span
tagged off [] = ([], [])
tagged off (l ∷ ls) =
    let rest = tagged (off + length l) ls in
    let s : Span = record { start = off; stop = off + length l } in
    if is_marker l begin_marker
    then (s ∷ rest.0, rest.1)
    else if is_marker l end_marker
    then (rest.0, s ∷ rest.1)
    else rest

collect-tagged :
    (front : Bytes) (ls : List Bytes)
    → collect (front ++ concat ls) (offsets (length front) ls) ≡ tagged (length front) ls
unfolding collect tagged
collect-tagged front [] = refl
collect-tagged front (l ∷ ls) =
    let later : collect (front ++ (l ++ concat ls)) (offsets (length front + length l) ls)
        ≡ tagged (length front + length l) ls =
      rw (sym (append_assoc front l (concat ls)), sym (length-append front l))
        (collect-tagged (front ++ l) ls) in
    rw (slice_line front l (concat ls), later) refl

pub locate-tagged : (b : Bytes) → locate b ≡ judge (tagged 0 (lines b))
unfolding locate
locate-tagged b =
    let h : collect b (offsets 0 (lines b)) ≡ tagged 0 (lines b) =
      subst (λ t. collect t (offsets 0 (lines b)) ≡ tagged 0 (lines b)) (concat-lines b)
        (collect-tagged [] (lines b)) in
    rw (locate, line_spans-offsets b, h) refl

tagged_plain :
    (off : ℕ) (pre ls : List Bytes)
    → All IsPlain pre
    → tagged off (pre ++ ls) ≡ tagged (off + length (concat pre)) ls
unfolding tagged
tagged_plain off [] ls h = ap (λ n. tagged n ls) (omega arith)
tagged_plain off (l ∷ pre) ls ((b, e), h) =
    ground (arith, tagged_plain (off + length l) pre ls h, length-append l (concat pre))

marker_nonempty : (l m : Bytes) → is_marker l (35 ∷ m) ≡ true → 0 < length l
unfolding is_marker trim trim_suffix trim_left trim_right ◌=ᵇ◌
marker_nonempty [] m h = ground arith
marker_nonempty (c ∷ cs) m h = omega arith

end_not_begin : (l : Bytes) → is_marker l end_marker ≡ true → is_marker l begin_marker ≡ false
unfolding is_marker ◌=ᵇ◌
end_not_begin l h = rw ((=ᵇ_iff (trim (trim_suffix 13 (trim_suffix 10 l))) end_marker).0 h) refl

tagged_none : (off : ℕ) (ls : List Bytes) → All IsPlain ls → tagged off ls ≡ ([], [])
unfolding tagged
tagged_none off [] h = refl
tagged_none off (l ∷ ls) ((b, e), h) = ground (arith, tagged_none (off + length l) ls h)

-- The span of the one block.
abbrev pub span_of : {ls : List Bytes} → Located ls → Span
span_of p = record {
  start = length (concat p.before);
  stop =
      length (concat p.before) + (length p.opening + (length (concat p.inside) + length p.closing));
}

tagged_one :
    (pre mid post : List Bytes) (x y : Bytes)
    → All IsPlain pre
    → All IsPlain mid
    → All IsPlain post
    → is_marker x begin_marker ≡ true
    → is_marker y end_marker ≡ true
    → judge (tagged 0 (pre ++ (x ∷ (mid ++ (y ∷ post)))))
      ≡ ok (
          some (record {
            start = length (concat pre);
            stop = length (concat pre) + (length x + (length (concat mid) + length y));
          }))
unfolding tagged judge
tagged_one pre mid post x y hp hm hq hx hy = rw (tagged_plain 0 pre (x ∷ (mid ++ (y ∷ post))) hp) (
    ground (
      arith,
      tagged_plain (length (concat pre) + length x) mid (y ∷ post) hm,
      tagged_none (length (concat pre) + length x + length (concat mid) + length y) post hq,
      marker_nonempty x _ hx,
      end_not_begin y hy,
    ))

pub locate-Located : (b : Bytes) (p : Located (lines b)) → locate b ≡ ok (some (span_of p))
locate-Located b p =
    rw (locate-tagged b, p.split)
      (tagged_one p.before p.inside p.behind p.opening p.closing p.before_plain p.inside_plain
        p.behind_plain p.opens p.closes)

pub locate-plain : (b : Bytes) → All IsPlain (lines b) → locate b ≡ ok none
unfolding judge
locate-plain b h = rw (locate-tagged b, tagged_none 0 (lines b) h) refl
