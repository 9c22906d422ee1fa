-- ===== src/Tests/TextTests.antt =====
-- The text helpers, the tracker and the status of a response at concrete inputs.
use kinetic_mirror_matrix_es.Prelude.{
  ◌≡◌, refl, map, true, false, [], ◌∷◌, some, none, if◌then◌else◌, ℕ, suc, ◌+◌, ◌≤◌, ◌==◌,
}
use kinetic_mirror_matrix_es.Prelude.Int.{pos, negsuc}
use kinetic_mirror_matrix_es.Motor.{fresh_motor}
use kinetic_mirror_matrix_es.Motor.Mask.{selected}
use kinetic_mirror_matrix_es.Text.{
  Bytes, codes, parse_csv_quoted, parse_id_mask, parse_int, quote_string, split, to_string, trim,
}
use kinetic_mirror_matrix_es.Text.Quote.{parse_csv_quoted-quote_string}
use kinetic_mirror_matrix_es.Commands.{parse}
use kinetic_mirror_matrix_es.Commands.Parts.{IsSplit, parse-IsSplit, trimmed}
use kinetic_mirror_matrix_es.Motor.Mask.{All}
use kinetic_mirror_matrix_es.MessageIds.{Ids, next, next-ends}
use kinetic_mirror_matrix_es.Transport.{ResponseLine, make_error_line}
use kinetic_mirror_matrix_es.Transport.Lines.{format_serial_response, make_data_line}
use kinetic_mirror_matrix_es.Transport.Dispatcher.{no_sinks}
use kinetic_mirror_matrix_es.Transport.Completion.{Pending, View, tick}
use kinetic_mirror_matrix_es.Transport.Completion.Once.{
  Distinct, registers, run, run-empty-Distinct, ticks,
}

negative : parse_int (codes " -42") ≡ some (negsuc 41)
unfolding parse_int
negative = refl

saturated : parse_int (codes "99999999999") ≡ some (pos 2147483647)
unfolding parse_int
saturated = refl

trailing : parse_int (codes "12a") ≡ none
unfolding parse_int
trailing = refl

no_last_segment : split (codes "a,,b,") b',' ≡ codes "a" ∷ [] ∷ codes "b" ∷ []
unfolding split
no_last_segment = refl

ninety : to_string 900 ≡ codes "900"
unfolding to_string
ninety = refl

parse_csv_quoted-quote_string_example :
    parse_csv_quoted (quote_string (codes " a,b ")) ≡ trim (codes " a,b ") ∷ []
parse_csv_quoted-quote_string_example = parse_csv_quoted-quote_string (codes " a,b ")

id_two : parse_id_mask (codes "2") 3 ≡ some 4
unfolding parse_id_mask
id_two = refl

bit_two : selected 4 2 ≡ true
unfolding selected
bit_two = refl

abbrev error_reply : ResponseLine
error_reply = make_error_line (codes "7") (codes "E99") [] []

-- A controller at rest, whose one motor has run for 120 ms.
abbrev at_rest : View
at_rest = record {
  moving = λ mask. false;
  motors = record (fresh_motor 0) { last_op_last_ms = 120 } ∷ [];
}

abbrev waiting : Pending
waiting = record {
  cmd_id = codes "7";
  action = codes "MOVE";
  mask = 1;
  controller = some 0;
  active = true;
}

sent : (tick (λ c. at_rest) (waiting ∷ []) no_sinks).0 ≡ []
unfolding tick
sent = refl

run-empty-Distinct_example :
    Distinct
      (run
        (registers (codes "7") (codes "MOVE") 1 0
          ∷ registers (codes "7") (codes "HOME") 2 0
          ∷ ticks (λ c. at_rest)
          ∷ [])
        ([], no_sinks)).0
run-empty-Distinct_example =
    run-empty-Distinct
      (registers (codes "7") (codes "MOVE") 1 0
        ∷ registers (codes "7") (codes "HOME") 2 0
        ∷ ticks (λ c. at_rest)
        ∷ [])
      no_sinks

abbrev line : Bytes
line = codes " move:0, 100 ; ;WAKE all"

parsed :
    parse line
    ≡ record { raw = codes "move:0, 100"; action = codes "MOVE"; args = codes "0, 100" }
      ∷ record { raw = codes "WAKE all"; action = codes "WAKE"; args = codes "all" }
      ∷ []
unfolding parse
parsed = refl

parse-IsSplit_example :
    (map (λ p. p.raw) (parse line) ≡ trimmed (split (trim line) b';')) × All IsSplit (parse line)
parse-IsSplit_example = parse-IsSplit line

busy_text :
    format_serial_response (
      make_error_line
        (codes "7")
        (codes "E04")
        (codes "BUSY")
        (record { key = codes "id"; value = codes "2" } ∷ [])
      ∷ make_data_line (record { key = codes "a"; value = codes "1" } ∷ [])
      ∷ [])
    ≡ codes "CTRL:ERR msg_id=7 E04 BUSY id=2\na=1"
unfolding format_serial_response
busy_text = refl

-- The generator repeats the active id once.
abbrev texts : ℕ → Bytes
texts n = if n == 0 then codes "a" else codes "b"

abbrev ids : Ids
ids = record { drawn = 0; active_id = codes "a"; last_issued_id = [] }

next-ends_example :
    (m : ℕ) × (next texts 2 ids
      ≡ some (texts m, record ids { drawn = suc m; last_issued_id = texts m }))
    × (m ≤ 0 + 1 + 1)
next-ends_example = next-ends texts 1 ids refl
