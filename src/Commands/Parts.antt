-- ===== src/Commands/Parts.antt =====
-- The parts of a parsed command.
use kinetic_mirror_matrix_es.Prelude.{
  ℕ, zero, suc, ◌≡◌, refl, sym, ap, ◌∙◌, Bool, true, false, not, ◌&&◌, ◌||◌, List, [], ◌∷◌, ◌++◌,
  Option, some, none, arith, map, if◌then◌else◌, ltb, take, drop, take-append-drop, ◌==◌,
  Bool-cases, inl, inr,
}
use mathlib.Core.Option
use mathlib.Core.List.{append-nil}
use kinetic_mirror_matrix_es.Motor.Mask.{All}
use kinetic_mirror_matrix_es.Text.{Bytes, is_empty, split, to_upper_copy, trim}
use kinetic_mirror_matrix_es.Text.Trim.{empty-nil, ends_blank, starts_blank, trim-split}
use kinetic_mirror_matrix_es.Commands.{
  ParsedCommand, find, separator, command_at, parse_command, parse_segments, parse,
}

-- The text has neither of the two separators.
abbrev pub word_only : Bytes → Bool
word_only [] = true
word_only (c ∷ s) = not (c == b' ') && not (c == b':') && word_only s

-- Nothing, or a text that starts with a separator.
abbrev pub separator_or_end : Bytes → Bool
separator_or_end [] = true
separator_or_end (c ∷ s) = c == b' ' || c == b':'

-- A command is its action's word, which has no separator, alone or with one separator and the
-- arguments after it; it is not empty, and neither starts nor ends with white space.
abbrev pub IsSplit : ParsedCommand → Type 0
IsSplit p =
    (word : Bytes) × (rest : Bytes) × (p.raw ≡ word ++ rest)
    × (p.action ≡ to_upper_copy word)
    × (word_only word ≡ true)
    × (separator_or_end rest ≡ true)
    × (p.args ≡ drop 1 rest)
    × (is_empty p.raw ≡ false)
    × (starts_blank p.raw ≡ false)
    × (ends_blank p.raw ≡ false)

-- The texts of a list, trimmed, without those that are blank.
abbrev pub trimmed : List Bytes → List Bytes
trimmed [] = []
trimmed (s ∷ ss) = let rest = trimmed ss in if is_empty (trim s) then rest else trim s ∷ rest

-- Where the first separator stands.
first_separator : Bytes → Option ℕ
first_separator s = separator (find b' ' s) (find b':' s)

separator-shift :
    (a b : Option ℕ)
    → separator (Option.map suc a) (Option.map suc b) ≡ Option.map suc (separator a b)
separator-shift none b = refl
separator-shift (some i) none = refl
separator-shift (some i) (some j) = elim (Bool-cases (ltb i j)) [
  | inl less ↦ let up : ltb (suc i) (suc j) ≡ true = ground arith in rw (less, up) refl
  | inr more ↦ let up : ltb (suc i) (suc j) ≡ false = ground arith in rw (more, up) refl
]

first_separator-cons :
    (c : ℕ) (s : Bytes)
    → (c == b' ') ≡ false
    → (c == b':') ≡ false
    → first_separator (c ∷ s) ≡ Option.map suc (first_separator s)
unfolding first_separator find
first_separator-cons c s x y = rw (x, y, find) (separator-shift (find b' ' s) (find b':' s))

zero_left : (o : Option ℕ) → separator (some 0) (Option.map suc o) ≡ some 0
zero_left none = refl
zero_left (some i) = ground arith

zero_right : (o : Option ℕ) → separator (Option.map suc o) (some 0) ≡ some 0
zero_right none = refl
zero_right (some i) = ground arith

first_separator-space : (c : ℕ) (s : Bytes) → (c == b' ') ≡ true → first_separator (c ∷ s) ≡ some 0
unfolding first_separator find
first_separator-space c s x =
    let y : (c == b':') ≡ false = ground arith in rw (x, y, find) (zero_left (find b':' s))

first_separator-colon : (c : ℕ) (s : Bytes) → (c == b':') ≡ true → first_separator (c ∷ s) ≡ some 0
unfolding first_separator find
first_separator-colon c s y =
    let x : (c == b' ') ≡ false = ground arith in rw (x, y, find) (zero_right (find b' ' s))

-- The text before a place, and from it on.
abbrev before : Bytes → Option ℕ → Bytes
before s none = s
before s (some i) = take i s

abbrev from : Bytes → Option ℕ → Bytes
from s none = []
from s (some i) = drop i s

before-cons :
    (c : ℕ) (s : Bytes) (o : Option ℕ) → before (c ∷ s) (Option.map suc o) ≡ c ∷ before s o
before-cons c s none = refl
before-cons c s (some i) = refl

before-word_only : (s : Bytes) → word_only (before s (first_separator s)) ≡ true
unfolding first_separator find
before-word_only [] = refl
before-word_only (c ∷ s) = elim (Bool-cases (c == b' ')) [
  | inl space ↦ rw (first_separator-space c s space) refl
  | inr x ↦ elim (Bool-cases (c == b':')) [
    | inl colon ↦ rw (first_separator-colon c s colon) refl
    | inr y ↦
        rw (first_separator-cons c s x y, before-cons c s (first_separator s), x, y)
          (before-word_only s)
  ]
]

from-cons : (c : ℕ) (s : Bytes) (o : Option ℕ) → from (c ∷ s) (Option.map suc o) ≡ from s o
from-cons c s none = refl
from-cons c s (some i) = refl

from-separator : (s : Bytes) → separator_or_end (from s (first_separator s)) ≡ true
unfolding first_separator find
from-separator [] = refl
from-separator (c ∷ s) = elim (Bool-cases (c == b' ')) [
  | inl space ↦ rw (first_separator-space c s space) (ground arith)
  | inr x ↦ elim (Bool-cases (c == b':')) [
    | inl colon ↦ rw (first_separator-colon c s colon) (ground arith)
    | inr y ↦
        rw (first_separator-cons c s x y, from-cons c s (first_separator s)) (from-separator s)
  ]
]

before-from : (s : Bytes) (o : Option ℕ) → s ≡ before s o ++ from s o
before-from s none = sym (append-nil s)
before-from s (some i) = sym (take-append-drop i s)

drop-suc : (i : ℕ) (s : Bytes) → drop (suc i) s ≡ drop 1 (drop i s)
drop-suc zero s = refl
drop-suc (suc i) [] = refl
drop-suc (suc i) (c ∷ s) = drop-suc i s

command_at-args : (s : Bytes) (o : Option ℕ) → (command_at s o).args ≡ drop 1 (from s o)
command_at-args s none = refl
command_at-args s (some i) = drop-suc i s

command_at-action :
    (s : Bytes) (o : Option ℕ) → (command_at s o).action ≡ to_upper_copy (before s o)
command_at-action s none = refl
command_at-action s (some i) = refl

command_at-raw : (s : Bytes) (o : Option ℕ) → (command_at s o).raw ≡ s
command_at-raw s none = refl
command_at-raw s (some i) = refl

parse_command-IsSplit :
    (cmd : Bytes)
    → is_empty cmd ≡ false
    → starts_blank cmd ≡ false
    → ends_blank cmd ≡ false
    → IsSplit (parse_command cmd)
unfolding parse_command first_separator
parse_command-IsSplit cmd some_text start end =
    let o = first_separator cmd in
    let raw = command_at-raw cmd o in
    (
      before cmd o,
      from cmd o,
      raw ∙ before-from cmd o,
      command_at-action cmd o,
      before-word_only cmd,
      from-separator cmd,
      command_at-args cmd o,
      ap is_empty raw ∙ some_text,
      ap starts_blank raw ∙ start,
      ap ends_blank raw ∙ end,
    )

parse_segments-IsSplit : (segments : List Bytes) → All IsSplit (parse_segments segments)
unfolding parse_segments
parse_segments-IsSplit [] = tt
parse_segments-IsSplit (segment ∷ segments) = elim (Bool-cases (is_empty (trim segment))) [
  | inl blank ↦ rw (blank, parse_segments) (parse_segments-IsSplit segments)
  | inr text ↦
      let (_, _, _, _, _, start, end) = trim-split segment in
      rw (text, parse_segments)
        (parse_command-IsSplit (trim segment) text start end, parse_segments-IsSplit segments)
]

parse_segments-trimmed :
    (segments : List Bytes) → map (λ p. p.raw) (parse_segments segments) ≡ trimmed segments
unfolding parse_segments parse_command
parse_segments-trimmed [] = refl
parse_segments-trimmed (segment ∷ segments) = elim (Bool-cases (is_empty (trim segment))) [
  | inl blank ↦ rw (blank, parse_segments) (parse_segments-trimmed segments)
  | inr text ↦
      let cmd = trim segment in
      let raw = command_at-raw cmd (separator (find b' ' cmd) (find b':' cmd)) in
      rw (text, parse_segments, raw) (ap (λ ss. cmd ∷ ss) (parse_segments-trimmed segments))
]

-- The commands of a line are, in order, its parts between semicolons, trimmed, without those that
-- are blank. Each one's raw text is not empty, neither starts nor ends with white space, and is a
-- word with neither blank nor colon, alone or followed by one separator and the rest; the action is
-- the word in upper case, and the arguments are the rest after the separator, or none.
pub parse-IsSplit :
    (line : Bytes)
    → (map (λ p. p.raw) (parse line) ≡ trimmed (split (trim line) b';')) × All IsSplit (parse line)
unfolding parse split
parse-IsSplit line = elim (Bool-cases (is_empty (trim line))) [
  | inl blank ↦
      rw (blank, parse) (sym (ap (λ s. trimmed (split s b';')) (empty-nil (trim line) blank)), tt)
  | inr text ↦
      rw (text, parse)
        (
          parse_segments-trimmed (split (trim line) b';'),
          parse_segments-IsSplit (split (trim line) b';'),
        )
]
