-- ===== src/ManagedBlock/Block/Lines.antt =====
-- block.go: a text as the list of its lines, and lineSpans as the offsets of those lines.
use sshpilot_vallete.Prelude.{
  ℕ, zero, suc, ◌+◌, ◌-◌, ◌≤◌, ◌≡◌, ◌⊎◌, inl, inr, refl, sym, Bool, true, false, not, ◌&&◌, none,
  some, List, [], ◌∷◌, ◌++◌, append-nil, append_assoc, Bytes, ◌==◌, if◌then◌else◌, arith, All,
  length, take, drop, take-append, drop-append, Option-cases, Bool-cases,
}
use sshpilot_vallete.ManagedBlock.Block.{Span, index_newline, spans_from, line_spans, slice}

-- The independent description: a line ends after each newline.
join_first : ℕ → List Bytes → List Bytes
join_first c [] = (c ∷ []) ∷ []
join_first c (l ∷ ls) = (c ∷ l) ∷ ls

unfoldable pub lines : Bytes → List Bytes
unfolding join_first
lines [] = []
lines (c ∷ cs) = let rest = lines cs in if c == 10 then (10 ∷ []) ∷ rest else join_first c rest

abbrev pub concat : List Bytes → Bytes
concat [] = []
concat (l ∷ ls) = l ++ concat ls

-- One newline, at the end.
unfoldable pub terminated : Bytes → Bool
terminated [] = false
terminated (c ∷ []) = c == 10
terminated (c ∷ d ∷ ds) = not (c == 10) && terminated (d ∷ ds)

abbrev pub IsTerminated : Bytes → Type 0
IsTerminated l = terminated l ≡ true

concat-join_first : (c : ℕ) (ls : List Bytes) → concat (join_first c ls) ≡ c ∷ concat ls
unfolding join_first
concat-join_first c [] = refl
concat-join_first c (l ∷ ls) = refl

pub concat-lines : (b : Bytes) → concat (lines b) ≡ b
unfolding lines
concat-lines [] = refl
concat-lines (c ∷ cs) = ground (arith, concat-lines cs, concat-join_first c (lines cs))

pub concat-append : (xs ys : List Bytes) → concat (xs ++ ys) ≡ concat xs ++ concat ys
concat-append [] ys = refl
concat-append (x ∷ xs) ys = rw (concat-append xs ys) (sym (append_assoc x (concat xs) (concat ys)))

-- A terminated line in front stands for itself.
pub lines-cons : (l c : Bytes) → IsTerminated l → lines (l ++ c) ≡ l ∷ lines c
unfolding lines terminated join_first
lines-cons [] c h = ground arith
lines-cons (x ∷ []) c h = ground arith
lines-cons (x ∷ y ∷ ys) c h = ground (arith, lines-cons (y ∷ ys) c)

pub lines-concat :
    (pre : List Bytes) (c : Bytes) → All IsTerminated pre → lines (concat pre ++ c) ≡ pre ++ lines c
lines-concat [] c h = refl
lines-concat (l ∷ ls) c (t, h) =
    rw (append_assoc l (concat ls) c, lines-cons l (concat ls ++ c) t, lines-concat ls c h) refl

-- A last line: no newline in it, or one at its end.
unfoldable pub open_line : Bytes → Bool
open_line [] = false
open_line (c ∷ []) = not (c == 10)
open_line (c ∷ d ∷ ds) = not (c == 10) && open_line (d ∷ ds)

-- What the lines of a text are: all terminated, but the last one, which may be open.
abbrev pub IsLines : List Bytes → Type 0
IsLines [] = Unit
IsLines (l ∷ []) = IsTerminated l ⊎ (open_line l ≡ true)
IsLines (l ∷ m ∷ ls) = IsTerminated l × IsLines (m ∷ ls)

join_first-IsLines :
    (c : ℕ) (ls : List Bytes) → (c == 10) ≡ false → IsLines ls → IsLines (join_first c ls)
unfolding join_first terminated open_line
join_first-IsLines c [] h ok = inr (ground arith)
join_first-IsLines c ([] ∷ []) h ok = ground arith
join_first-IsLines c ((x ∷ xs) ∷ []) h ok = ground arith
join_first-IsLines c ([] ∷ m ∷ ls) h ok = ground arith
join_first-IsLines c ((x ∷ xs) ∷ m ∷ ls) h ok = ground arith

newline-IsLines : (ls : List Bytes) → IsLines ls → IsLines ((10 ∷ []) ∷ ls)
unfolding terminated
newline-IsLines [] h = inl refl
newline-IsLines (l ∷ ls) h = (refl, h)

pub lines-IsLines : (b : Bytes) → IsLines (lines b)
unfolding lines
lines-IsLines [] = tt
lines-IsLines (c ∷ cs) =
    ground (arith, join_first-IsLines c (lines cs), newline-IsLines (lines cs), lines-IsLines cs)

lines-open : (l : Bytes) → open_line l ≡ true → lines l ≡ l ∷ []
unfolding lines open_line join_first
lines-open [] h = ground arith
lines-open (c ∷ []) h = ground arith
lines-open (c ∷ d ∷ ds) h = ground (arith, lines-open (d ∷ ds))

pub lines-concat-lines : (ls : List Bytes) → IsLines ls → lines (concat ls) ≡ ls
unfolding lines
lines-concat-lines [] h = refl
lines-concat-lines (l ∷ []) (inl t) = lines-cons l [] t
lines-concat-lines (l ∷ []) (inr o) = rw (append-nil l) (lines-open l o)
lines-concat-lines (l ∷ m ∷ ls) (t, h) =
    rw (lines-cons l (concat (m ∷ ls)) t, lines-concat-lines (m ∷ ls) h) refl

pub IsLines-tail : (pre ls : List Bytes) → IsLines (pre ++ ls) → IsLines ls
IsLines-tail [] ls h = h
IsLines-tail (p ∷ []) [] h = tt
IsLines-tail (p ∷ []) (l ∷ ls) h = h.1
IsLines-tail (p ∷ q ∷ qs) ls h = IsLines-tail (q ∷ qs) ls h.1

pub IsLines-front :
    (pre : List Bytes) (l : Bytes) (ls : List Bytes)
    → IsLines (pre ++ (l ∷ ls))
    → All IsTerminated pre
IsLines-front [] l ls h = tt
IsLines-front (p ∷ []) l ls h = (h.0, tt)
IsLines-front (p ∷ q ∷ qs) l ls h = (h.0, IsLines-front (q ∷ qs) l ls h.1)

-- The spans of a list of lines, from an offset on.
abbrev pub offsets : ℕ → List Bytes → List Span
offsets off [] = []
offsets off (l ∷ ls) = record { start = off; stop = off + length l } ∷ offsets (off + length l) ls

index_newline-none : (b : Bytes) → index_newline b ≡ none → (b ≡ []) ⊎ (lines b ≡ b ∷ [])
unfolding index_newline lines join_first
index_newline-none [] h = inl refl
index_newline-none (c ∷ cs) h = inr (ground (arith, index_newline-none cs))

-- One turn of the loop takes the first line.
index_newline-some :
    (b : Bytes) (i : ℕ)
    → index_newline b ≡ some i
    → (i + 1 ≤ length b) × (lines b ≡ take (i + 1) b ∷ lines (drop (i + 1) b))
unfolding index_newline lines join_first
index_newline-some [] i h = ground arith
index_newline-some (c ∷ cs) i h = elim (Bool-cases (c == 10)) [
  | inl e ↦ ground arith
  | inr e ↦ elim (Option-cases (index_newline cs)) [
    | inl n ↦ ground arith
    | inr (j, m) ↦ ground (arith, index_newline-some cs j)
  ]
]

length-take : (n : ℕ) (b : Bytes) → n ≤ length b → length (take n b) ≡ n
length-take zero b h = omega arith
length-take (suc n) [] h = omega arith
length-take (suc n) (c ∷ cs) h = omega (arith, length-take n cs)

length-drop : (n : ℕ) (b : Bytes) → length (drop n b) ≡ length b - n
length-drop zero b = omega arith
length-drop (suc n) [] = omega arith
length-drop (suc n) (c ∷ cs) = omega (arith, length-drop n cs)

one_span :
    (off : ℕ) (b : Bytes)
    → lines b ≡ b ∷ []
    → record { start = off; stop = off + length b } ∷ [] ≡ offsets off (lines b)
one_span off b h = rw (h) refl

first_span :
    (off i : ℕ) (b : Bytes) (rest : List Span)
    → index_newline b ≡ some i
    → rest ≡ offsets (off + i + 1) (lines (drop (i + 1) b))
    → record { start = off; stop = off + i + 1 } ∷ rest ≡ offsets off (lines b)
first_span off i b rest e h =
    let (le, l) = index_newline-some b i e in
    let assoc : off + i + 1 ≡ off + (i + 1) = omega arith in
    rw (l, length-take (i + 1) b le, h, assoc) refl

pub spans_from-offsets :
    (fuel off : ℕ) (b : Bytes) → length b ≤ fuel → spans_from fuel off b ≡ offsets off (lines b)
unfolding spans_from lines
spans_from-offsets fuel off [] h = refl
spans_from-offsets zero off (c ∷ cs) h = ground arith
spans_from-offsets (suc fuel) off (c ∷ cs) h = elim (Option-cases (index_newline (c ∷ cs))) [
  | inl n ↦
      rw (spans_from, n) (one_span off (c ∷ cs) (ground (arith, index_newline-none (c ∷ cs) n)))
  | inr (i, e) ↦
      rw (spans_from, e)
        (first_span off i (c ∷ cs) _ e (
          spans_from-offsets fuel (off + i + 1) (drop (i + 1) (c ∷ cs))
            (omega (arith, length-drop (i + 1) (c ∷ cs)))))
]

pub line_spans-offsets : (b : Bytes) → line_spans b ≡ offsets 0 (lines b)
unfolding line_spans
line_spans-offsets b = spans_from-offsets (length b) 0 b (omega arith)

pub slice_line :
    (front l rest : Bytes)
    → slice (front ++ (l ++ rest)) (record { start = length front; stop = length front + length l })
      ≡ l
slice_line front l rest =
    let len : length front + length l - length front ≡ length l = omega arith in
    rw (len, drop-append front (l ++ rest)) (take-append l rest)
