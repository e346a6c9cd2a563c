-- ===== src/ManagedBlock/Block.antt =====
-- internal/managedblock/block.go: finding, rendering and splicing the managed block. The parser and
-- the printer of one key are code of internal/keys and parameters of `render`.
pub mod Lines
pub mod Located
pub mod Found
pub mod Spliced
pub mod Repeated
pub mod Rendered
use sshpilot_vallete.Prelude.{
  ℕ, zero, suc, ◌+◌, ◌-◌, Bool, true, false, not, ◌&&◌, ◌||◌, Option, none, some, List, [], ◌∷◌,
  ◌++◌, Bytes, codes, ◌=ᵇ◌, Err, Result, ok, err, ◌>>=◌, ltb, ◌==◌, if◌then◌else◌, length, take,
  drop, malformed_block,
}
use mathlib.Core.Option

abbrev pub begin_marker : Bytes
begin_marker = codes "# >>> sshpilot-vallet managed keys BEGIN >>>"

abbrev pub end_marker : Bytes
end_marker = codes "# <<< sshpilot-vallet managed keys END <<<"

-- strings.TrimSuffix(s, c) for a suffix of one byte.
unfoldable pub trim_suffix : ℕ → Bytes → Bytes
trim_suffix c [] = []
trim_suffix c (x ∷ []) = if x == c then [] else x ∷ []
trim_suffix c (x ∷ y ∷ ys) = x ∷ trim_suffix c (y ∷ ys)

is_blank : ℕ → Bool
is_blank c = c == 32 || c == 9

unfoldable pub trim_left : Bytes → Bytes
unfolding is_blank
trim_left [] = []
trim_left (x ∷ xs) = if is_blank x then trim_left xs else x ∷ xs

unfoldable pub trim_right : Bytes → Bytes
unfolding is_blank
trim_right [] = []
trim_right (x ∷ xs) = let rest = trim_right xs in if is_blank x && rest =ᵇ [] then [] else x ∷ rest

-- strings.Trim(s, " \t")
unfoldable pub trim : Bytes → Bytes
unfolding trim_left trim_right
trim s = trim_right (trim_left s)

unfoldable pub is_marker : Bytes → Bytes → Bool
unfolding trim_suffix trim
is_marker line marker = trim (trim_suffix 13 (trim_suffix 10 line)) =ᵇ marker

-- strings.ContainsAny(line, "\n\r\x00")
unfoldable pub contains_break : Bytes → Bool
contains_break [] = false
contains_break (c ∷ cs) = (c == 10 || c == 13 || c == 0) || contains_break cs

unfoldable pub last_byte : Bytes → Option ℕ
last_byte [] = none
last_byte (c ∷ []) = some c
last_byte (c ∷ d ∷ ds) = last_byte (d ∷ ds)

-- strings.HasSuffix(s, "\n")
unfoldable pub ends_line : Bytes → Bool
unfolding last_byte
ends_line b = elim (last_byte b) [ none ↦ false | some c ↦ c == 10 ]

unfoldable pub check_emitted : Bytes → Result (Unit {0})
unfolding is_marker contains_break ends_line
check_emitted line =
    if not (ends_line line) || contains_break (take (length line - 1) line)
    then err malformed_block
    else if is_marker line begin_marker || is_marker line end_marker
    then err malformed_block
    else ok tt

module _ {K : Type 0} (parse : Bytes → Result K) (emit_line : K → Result Bytes) where
  -- The loop of Render: the lines of the keys, one after another.
  unfoldable pub render_keys : List Bytes → Result Bytes
  unfolding check_emitted
  render_keys [] = ok []
  render_keys (raw ∷ raws) = parse raw >>= λ k. emit_line k >>= λ line.
      check_emitted line >>= λ _. render_keys raws >>= λ rest. ok (line ++ rest)

  unfoldable pub render : List Bytes → Result Bytes
  unfolding render_keys
  render pubkeys = render_keys pubkeys >>= λ body.
      ok (begin_marker ++ (10 ∷ []) ++ body ++ end_marker ++ (10 ∷ []))

pub record Span : Type 0 where
  pub start : ℕ
  pub stop : ℕ

-- bytes.IndexByte(b, '\n')
unfoldable pub index_newline : Bytes → Option ℕ
index_newline [] = none
index_newline (c ∷ cs) = if c == 10 then some 0 else Option.map suc (index_newline cs)

-- The loop of lineSpans: `b` is what follows the offset. Each turn drops a byte at least, so its
-- length is fuel enough.
unfoldable pub spans_from : ℕ → ℕ → Bytes → List Span
spans_from fuel off [] = []
spans_from zero off (c ∷ cs) = []
spans_from (suc fuel) off (c ∷ cs) = elim (index_newline (c ∷ cs)) [
  | none ↦ record { start = off; stop = off + length (c ∷ cs) } ∷ []
  | some i ↦
      record { start = off; stop = off + i + 1 }
      ∷ spans_from fuel (off + i + 1) (drop (i + 1) (c ∷ cs))
]

unfoldable pub line_spans : Bytes → List Span
unfolding spans_from
line_spans b = spans_from (length b) 0 b

-- b[s.start:s.stop]
abbrev pub slice : Bytes → Span → Bytes
slice b s = take (s.stop - s.start) (drop s.start b)

-- The loop of locate: the spans of the BEGIN lines and those of the END lines.
unfoldable pub collect : Bytes → List Span → List Span × List Span
unfolding is_marker
collect b [] = ([], [])
collect b (s ∷ ss) =
    let rest = collect b ss in
    if is_marker (slice b s) begin_marker
    then (s ∷ rest.0, rest.1)
    else if is_marker (slice b s) end_marker
    then (rest.0, s ∷ rest.1)
    else rest

-- The switch after it.
unfoldable pub judge : List Span × List Span → Result (Option Span)
judge ([], []) = ok none
judge (x ∷ [], y ∷ []) =
    if ltb x.start y.start
    then ok (some (record { start = x.start; stop = y.stop }))
    else err malformed_block
judge _ = err malformed_block

unfoldable pub locate : Bytes → Result (Option Span)
unfolding collect judge line_spans
locate existing = judge (collect existing (line_spans existing))

is_key_line : Bytes → Bool
unfolding is_marker
is_key_line line =
    not (is_marker line begin_marker || is_marker line end_marker)
    && not (trim (trim_suffix 13 (trim_suffix 10 line)) =ᵇ [])

unfoldable pub count_keys : Bytes → List Span → ℕ
unfolding is_key_line
count_keys inner [] = 0
count_keys inner (s ∷ ss) =
    let n = count_keys inner ss in if is_key_line (slice inner s) then suc n else n

unfoldable pub block_key_count : Bytes → ℕ
unfolding locate count_keys line_spans
block_key_count b = elim (locate b) [
  | err e ↦ 0
  | ok o ↦ elim o [ none ↦ 0 | some s ↦ count_keys (slice b s) (line_spans (slice b s)) ]
]

unfoldable pub merge : Bytes → Bytes → Result Bytes
unfolding locate ends_line
merge existing block = locate existing >>= λ found. elim found [
  | some s ↦ ok (take s.start existing ++ block ++ drop s.stop existing)
  | none ↦
      if not (existing =ᵇ []) && not (ends_line existing)
      then ok (existing ++ (10 ∷ []) ++ block)
      else ok (existing ++ block)
]
