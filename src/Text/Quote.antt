-- ===== src/Text/Quote.antt =====
-- Round trip of `QuoteString` and `ParseCsvQuoted`.
use kinetic_mirror_matrix_es.Prelude.{
  ℕ, ◌≡◌, refl, ap, ◌∙◌, false, List, [], ◌∷◌, ◌++◌, arith, ◌==◌, Bool-cases, inl, inr,
}
use mathlib.Core.List.{append_assoc, append-nil}
use kinetic_mirror_matrix_es.Text.{
  Bytes, drop_spaces, drop_last_spaces, trim, plain, in_quotes, csv_from, parse_csv_quoted, escape,
  quote_string,
}

csv_from-letter :
    (cur : Bytes) (out : List Bytes) (c : ℕ) (t : Bytes)
    → (c == b'"') ≡ false
    → (c == b'\\') ≡ false
    → csv_from in_quotes cur out (c ∷ t) ≡ csv_from in_quotes (cur ++ (c ∷ [])) out t
unfolding csv_from
csv_from-letter cur out c t other letter = ground arith

-- Inside quotes the loop reads an escaped text back, up to the closing quote.
csv_from-escape :
    (cur : Bytes) (out : List Bytes) (s rest : Bytes)
    → csv_from in_quotes cur out (escape s ++ (b'"' ∷ rest)) ≡ csv_from plain (cur ++ s) out rest
unfolding csv_from escape
csv_from-escape cur out [] rest = rw (append-nil cur) refl
csv_from-escape cur out (c ∷ s) rest =
    let next =
      csv_from-escape (cur ++ (c ∷ [])) out s rest
      ∙ ap (λ t. csv_from plain t out rest) (append_assoc cur (c ∷ []) s) in
    elim (Bool-cases (c == b'"')) [
      | inl quote ↦ rw quote next
      | inr other ↦ elim (Bool-cases (c == b'\\')) [
        | inl slash ↦ rw (other, slash) next
        | inr letter ↦
            rw (other, letter)
              (csv_from-letter cur out c (escape s ++ (b'"' ∷ rest)) other letter ∙ next)
      ]
    ]

-- Reading back a text that `QuoteString` has quoted gives one value: the text without its outer
-- white space, whatever quotes, backslashes and commas it contains.
pub parse_csv_quoted-quote_string : (s : Bytes) → parse_csv_quoted (quote_string s) ≡ trim s ∷ []
unfolding parse_csv_quoted quote_string csv_from trim drop_spaces drop_last_spaces
parse_csv_quoted-quote_string s = csv_from-escape [] [] s []
