-- ===== src/Text.antt =====
-- lib/MotorControl/src/command/CommandUtils.cpp: the text helpers of the command line. A
-- `std::string` is the list of its bytes. `long` is the 32-bit one of the ESP32, so that the
-- overload of `ParseInt` for `int` is the one for `long`.
pub mod Quote
pub mod Trim
pub mod Ids
pub mod Numbers
use kinetic_mirror_matrix_es.Prelude.{
  ℕ, zero, suc, ◌+◌, ◌-◌, ◌*◌, ◌/◌, ◌%◌, ◌^◌, Bool, true, false, not, ◌&&◌, ◌||◌, List, [], ◌∷◌,
  ◌++◌, map, Option, some, none, ltb, leb, ◌==◌, if◌then◌else◌,
}
use kinetic_mirror_matrix_es.Prelude.Int.{ℤ, pos, negsuc, pos_part, ltb_ℤ, sub_ℕ}
use Prim.Native.String.{String}
use Prim.Native.Char.{code}

abbrev pub Bytes : Type 0
Bytes = List ℕ

-- The bytes of an ASCII literal.
abbrev pub codes : String → Bytes
codes String.[] = []
codes (String.◌∷◌ c s) = code c ∷ codes s

abbrev pub eq_bytes : Bytes → Bytes → Bool
eq_bytes [] [] = true
eq_bytes [] (d ∷ t) = false
eq_bytes (c ∷ s) [] = false
eq_bytes (c ∷ s) (d ∷ t) = c == d && eq_bytes s t

abbrev pub is_empty {ℓ} : {A : Type ℓ} → List A → Bool
is_empty [] = true
is_empty (x ∷ xs) = false

-- `std::isspace` in the C locale.
abbrev pub is_space : ℕ → Bool
is_space c = c == 32 || leb 9 c && leb c 13

-- The two loops of `Trim`: the index a, and the index b.
unfoldable pub drop_spaces : Bytes → Bytes
drop_spaces [] = []
drop_spaces (c ∷ s) = if is_space c then drop_spaces s else c ∷ s

unfoldable pub drop_last_spaces : Bytes → Bytes
drop_last_spaces [] = []
drop_last_spaces (c ∷ s) =
    let rest = drop_last_spaces s in if is_empty rest && is_space c then [] else c ∷ rest

unfoldable pub trim : Bytes → Bytes
unfolding drop_spaces drop_last_spaces
trim s = drop_last_spaces (drop_spaces s)

-- `::toupper` in the C locale.
abbrev to_upper : ℕ → ℕ
to_upper c = if leb b'a' c && leb c b'z' then c - 32 else c

unfoldable pub to_upper_copy : Bytes → Bytes
to_upper_copy s = map to_upper s

-- `std::getline` up to the delimiter, in a loop: a text that ends with the delimiter has no empty
-- last segment, and the empty text has no segment. The argument `cur` is the segment so far.
unfoldable pub split_from : Bytes → Bytes → ℕ → List Bytes
split_from cur [] delim = if is_empty cur then [] else cur ∷ []
split_from cur (c ∷ s) delim =
    let here = split_from [] s delim in
    let on = split_from (cur ++ (c ∷ [])) s delim in if c == delim then cur ∷ here else on

unfoldable pub split : Bytes → ℕ → List Bytes
unfolding split_from
split s delim = split_from [] s delim

-- The states of the loop of `ParseCsvQuoted`: outside quotes, inside, and after a backslash.
pub data CsvState : Type 0 where
  plain in_quotes escaped : CsvState

unfoldable pub csv_from : CsvState → Bytes → List Bytes → Bytes → List Bytes
unfolding trim
csv_from plain cur out [] = out ++ (trim cur ∷ [])
csv_from in_quotes cur out [] = []
csv_from escaped cur out [] = []
csv_from plain cur out (c ∷ s) = elim (c == b',') [
  | true ↦ csv_from plain [] (out ++ (trim cur ∷ [])) s
  | false ↦ elim (c == b'"') [
    | true ↦ elim (is_empty (trim cur)) [
      | true ↦ csv_from in_quotes [] out s
      | false ↦ csv_from plain (cur ++ (c ∷ [])) out s
    ]
    | false ↦ csv_from plain (cur ++ (c ∷ [])) out s
  ]
]
csv_from in_quotes cur out (c ∷ s) = elim (c == b'\\') [
  | true ↦ csv_from escaped cur out s
  | false ↦ elim (c == b'"') [
    | true ↦ csv_from plain cur out s
    | false ↦ csv_from in_quotes (cur ++ (c ∷ [])) out s
  ]
]
csv_from escaped cur out (c ∷ s) = csv_from in_quotes (cur ++ (c ∷ [])) out s

unfoldable pub parse_csv_quoted : Bytes → List Bytes
unfolding csv_from
parse_csv_quoted s = csv_from plain [] [] s

unfoldable pub escape : Bytes → Bytes
escape [] = []
escape (c ∷ s) = if c == b'"' || c == b'\\' then b'\\' ∷ c ∷ escape s else c ∷ escape s

unfoldable pub quote_string : Bytes → Bytes
unfolding escape
quote_string s = b'"' ∷ escape s ++ (b'"' ∷ [])

abbrev pub is_digit : ℕ → Bool
is_digit c = leb b'0' c && leb c b'9'

-- The digits that `std::strtol` reads: their value, and the text after them.
unfoldable pub read_digits : ℕ → Bytes → ℕ × Bytes
read_digits n [] = (n, [])
read_digits n (c ∷ s) = if is_digit c then read_digits (n * 10 + (c - b'0')) s else (n, c ∷ s)

abbrev pub long_max : ℕ
long_max = 2147483647

-- `std::strtol`'s saturation.
abbrev signed : Bool → ℕ → ℤ
signed negative n =
    if negative
    then sub_ℕ 0 (if ltb (long_max + 1) n then long_max + 1 else n)
    else pos (if ltb long_max n then long_max else n)

abbrev pub starts_with_digit : Bytes → Bool
starts_with_digit [] = false
starts_with_digit (c ∷ s) = is_digit c

-- `std::strtol (s, &end, 10)`, and the text at `end`: all of it where there is no number.
unfoldable pub read_signed : Bool → Bytes → Bytes → ℤ × Bytes
unfolding read_digits
read_signed negative all s =
    if starts_with_digit s
    then (let (n, rest) = read_digits 0 s in (signed negative n, rest))
    else (pos 0, all)

unfoldable pub read_sign : Bytes → Bytes → ℤ × Bytes
unfolding read_signed
read_sign all [] = (pos 0, all)
read_sign all (c ∷ s) =
    if c == b'-'
    then read_signed true all s
    else if c == b'+'
    then read_signed false all s
    else read_signed false all (c ∷ s)

unfoldable pub strtol : Bytes → ℤ × Bytes
unfolding read_sign drop_spaces
strtol s = read_sign s (drop_spaces s)

-- `*end == '\0'`: the end of the text, or a zero byte in it.
abbrev pub at_end : Bytes → Bool
at_end [] = true
at_end (c ∷ s) = c == 0

unfoldable pub parse_int : Bytes → Option ℤ
unfolding strtol
parse_int s =
    if is_empty s then none else (let (v, rest) = strtol s in if at_end rest then some v else none)

unfoldable pub parse_id_mask : Bytes → ℕ → Option ℕ
unfolding parse_int to_upper_copy
parse_id_mask token max_motors =
    if eq_bytes (to_upper_copy token) (codes "ALL")
    then some (if leb 32 max_motors then 2 ^ 32 - 1 else 2 ^ max_motors - 1)
    else elim (parse_int token) [
      | none ↦ none
      | some id ↦
          if ltb_ℤ id (pos 0) || not (ltb_ℤ id (pos max_motors))
          then none
          else some (2 ^ pos_part id)
    ]

-- `std::to_string` of a number that is not negative.
unfoldable pub digits_of : ℕ → ℕ → Bytes
digits_of zero n = []
digits_of (suc fuel) n =
    let high = digits_of fuel (n / 10) in
    if ltb n 10 then (b'0' + n) ∷ [] else high ++ ((b'0' + n % 10) ∷ [])

-- A number has no more digits than its value and one.
unfoldable pub to_string : ℕ → Bytes
unfolding digits_of
to_string n = digits_of (suc n) n

-- `std::string`'s order, the one of the keys of a `std::map`.
abbrev pub less_bytes : Bytes → Bytes → Bool
less_bytes s [] = false
less_bytes [] (d ∷ t) = true
less_bytes (c ∷ s) (d ∷ t) = ltb c d || c == d && less_bytes s t
