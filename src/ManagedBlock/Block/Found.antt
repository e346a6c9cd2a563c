-- ===== src/ManagedBlock/Block/Found.antt =====
-- block.go: what the answer of locate says of any text.
use sshpilot_vallete.Prelude.{
  ℕ, ◌+◌, ◌≤◌, ◌<◌, ◌≡◌, ◌⊎◌, inl, inr, refl, sym, ap, ◌∙◌, true, none, some, List, [], ◌∷◌, ◌++◌,
  Bytes, Err, Result-cases, ok, err, arith, All, length, Option-cases, Bool-cases,
}
use sshpilot_vallete.ManagedBlock.Block.{begin_marker, end_marker, is_marker, Span, judge, locate}
use sshpilot_vallete.ManagedBlock.Block.Lines.{lines}
use sshpilot_vallete.ManagedBlock.Block.Located.{
  IsPlain, Located, tagged, locate-tagged, span_of, locate-Located, locate-plain,
}

-- And back: what the tags say of the lines.
IsPlain-tagged : (off : ℕ) (ls : List Bytes) → tagged off ls ≡ ([], []) → All IsPlain ls
unfolding tagged
IsPlain-tagged off [] h = tt
IsPlain-tagged off (l ∷ ls) h = ground (arith, IsPlain-tagged (off + length l) ls)

start_tagged :
    (off : ℕ) (ls : List Bytes) (x : Span) (xs : List Span)
    → (tagged off ls).0 ≡ x ∷ xs
    → off ≤ x.start
unfolding tagged
start_tagged off [] x xs h = ground arith
start_tagged off (l ∷ ls) x xs h = ground (arith, start_tagged (off + length l) ls x xs)

-- The lines of which one is an END line and no other is a marker.
abbrev ClosedBy : List Bytes → Type 0
ClosedBy ls =
    (mid : List Bytes) × (y : Bytes) × (post : List Bytes) × (ls ≡ mid ++ (y ∷ post))
    × All IsPlain mid
    × All IsPlain post
    × (is_marker y end_marker ≡ true)

closed_tagged : (off : ℕ) (ls : List Bytes) (y : Span) → tagged off ls ≡ ([], y ∷ []) → ClosedBy ls
unfolding tagged
closed_tagged off [] y h = ground arith
closed_tagged off (l ∷ ls) y h = elim (Bool-cases (is_marker l begin_marker)) [
  | inl b ↦ ground arith
  | inr b ↦ elim (Bool-cases (is_marker l end_marker)) [
    | inl e ↦ ([], l, ls, refl, tt, IsPlain-tagged (off + length l) ls (ground arith), e)
    | inr e ↦
        let (mid, z, post, split, hm, hp, hz) =
          closed_tagged (off + length l) ls y (ground arith) in
        (l ∷ mid, z, post, ap (λ t. l ∷ t) split, ((b, e), hm), hp, hz)
  ]
]

located_tagged :
    (off : ℕ) (ls : List Bytes) (x y : Span)
    → tagged off ls ≡ (x ∷ [], y ∷ [])
    → x.start < y.start
    → Located ls
unfolding tagged
located_tagged off [] x y h lt = ground arith
located_tagged off (l ∷ ls) x y h lt = elim (Bool-cases (is_marker l begin_marker)) [
  | inl b ↦
      let (mid, z, post, split, hm, hp, hz) = closed_tagged (off + length l) ls y (ground arith) in
      record {
        before = [];
        opening = l;
        inside = mid;
        closing = z;
        behind = post;
        split = ap (λ t. l ∷ t) split;
        before_plain = tt;
        inside_plain = hm;
        behind_plain = hp;
        opens = b;
        closes = hz;
      }
  | inr b ↦ elim (Bool-cases (is_marker l end_marker)) [
    | inl e ↦ ground (arith, start_tagged (off + length l) ls x [])
    | inr e ↦
        let p = located_tagged (off + length l) ls x y (ground arith) lt in
        record {
          before = l ∷ p.before;
          opening = p.opening;
          inside = p.inside;
          closing = p.closing;
          behind = p.behind;
          split = ap (λ t. l ∷ t) p.split;
          before_plain = ((b, e), p.before_plain);
          inside_plain = p.inside_plain;
          behind_plain = p.behind_plain;
          opens = p.opens;
          closes = p.closes;
        }
  ]
]

judge-none : (t : List Span × List Span) → judge t ≡ ok none → t ≡ ([], [])
unfolding judge
judge-none ([], []) h = refl
judge-none ([], y ∷ ys) h = ground arith
judge-none (x ∷ [], []) h = ground arith
judge-none (x ∷ [], y ∷ []) h = ground arith
judge-none (x ∷ [], y ∷ z ∷ ys) h = ground arith
judge-none (x ∷ w ∷ xs, ys) h = ground arith

judge-some :
    (t : List Span × List Span) (s : Span)
    → judge t ≡ ok (some s)
    → (x : Span) × (y : Span) × (t ≡ (x ∷ [], y ∷ [])) × (x.start < y.start)
unfolding judge
judge-some ([], []) s h = ground arith
judge-some ([], y ∷ ys) s h = ground arith
judge-some (x ∷ [], []) s h = ground arith
judge-some (x ∷ [], y ∷ []) s h = (x, y, refl, ground arith)
judge-some (x ∷ [], y ∷ z ∷ ys) s h = ground arith
judge-some (x ∷ w ∷ xs, ys) s h = ground arith

IsPlain-locate : (b : Bytes) → locate b ≡ ok none → All IsPlain (lines b)
IsPlain-locate b h =
    IsPlain-tagged 0 (lines b) (judge-none (tagged 0 (lines b)) (sym (locate-tagged b) ∙ h))

Located-locate : (b : Bytes) (s : Span) → locate b ≡ ok (some s) → Located (lines b)
Located-locate b s h =
    let (x, y, e, lt) = judge-some (tagged 0 (lines b)) s (sym (locate-tagged b) ∙ h) in
    located_tagged 0 (lines b) x y e lt

-- What locate finds in any text: no marker among its lines, or one block and its span, or an error
-- when the lines are neither.
pub locate-cases :
    (b : Bytes)
    → ((locate b ≡ ok none) × All IsPlain (lines b))
      ⊎ (((p : Located (lines b)) × (locate b ≡ ok (some (span_of p))))
          ⊎ (((e : Err) × (locate b ≡ err e))
              × (¬ (All IsPlain (lines b)) × ¬ (Located (lines b)))))
locate-cases b = elim (Result-cases (locate b)) [
  | inl (o, e) ↦ elim (Option-cases o) [
    | inl n ↦ inl (e ∙ ap (λ x. ok x) n, IsPlain-locate b (e ∙ ap (λ x. ok x) n))
    | inr (s, n) ↦
        let p = Located-locate b s (e ∙ ap (λ x. ok x) n) in inr (inl (p, locate-Located b p))
  ]
  | inr (x, e) ↦ inr (
      inr
        ((x, e), (λ h. ground (arith, locate-plain b h), λ p. ground (arith, locate-Located b p))))
]
