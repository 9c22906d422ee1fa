-- ===== src/Transport/Status.antt =====
-- The status that `DeriveCompletionStatus` gives a response.
use kinetic_mirror_matrix_es.Prelude.{
  ◌≡◌, refl, sym, ◌∙◌, ap, Bool, true, false, List, [], ◌∷◌, Option, some, none, Bool-cases,
  Option-cases, inl, inr, if◌then◌else◌, ◌||◌,
}
use kinetic_mirror_matrix_es.Text.{Bytes, eq_bytes, is_empty}
use kinetic_mirror_matrix_es.Transport.{
  ResponseLine, ErrorDescriptor, CompletionStatus, ok_status, error_status, unknown_status,
  error_catalog, find_code, lookup_error, find_ack_line, find_primary_error, is_ack, is_error_line,
  error_status_of, derive_completion_status,
}
use kinetic_mirror_matrix_es.Motor.Mask.{All}

abbrev pub any_line : (ResponseLine → Bool) → List ResponseLine → Bool
any_line p [] = false
any_line p (line ∷ lines) = p line || any_line p lines

abbrev status_or : CompletionStatus → Option ErrorDescriptor → CompletionStatus
status_or s none = s
status_or s (some d) = d.status

some_status :
    {d e : ErrorDescriptor} → some d ≡ some e → d.status ≡ error_status → e.status ≡ error_status
some_status {d} e h = sym (ap (status_or error_status) e) ∙ h

find_code-status :
    (code : Bytes) (es : List ErrorDescriptor) {e : ErrorDescriptor}
    → All (λ d. d.status ≡ error_status) es
    → find_code code es ≡ some e
    → e.status ≡ error_status
unfolding find_code
find_code-status code [] h found = cc
find_code-status code (d ∷ es) h found = elim (Bool-cases (eq_bytes code d.code)) [
  | inl hit ↦ some_status (rw (hit, find_code) at found) h.0
  | inr miss ↦ find_code-status code es h.1 (rw (miss, find_code) at found)
]

catalog-status : All (λ d. d.status ≡ error_status) error_catalog
unfolding error_catalog
catalog-status = (
  refl,
  (
    refl,
    (
      refl,
      (
        refl,
        (
          refl,
          (
            refl,
            (
              refl,
              (refl, (refl, (refl, (refl, (refl, (refl, (refl, (refl, (refl, (refl, tt)))))))))),
            ),
          ),
        ),
      ),
    ),
  ),
)

abbrev is_some : Option ResponseLine → Bool
is_some none = false
is_some (some line) = true

any-error :
    (lines : List ResponseLine) → any_line is_error_line lines ≡ is_some (find_primary_error lines)
unfolding find_primary_error
any-error [] = refl
any-error (line ∷ lines) = elim (Bool-cases (is_error_line line)) [
  | inl hit ↦ rw (hit, find_primary_error) refl
  | inr miss ↦ rw (miss, find_primary_error) (any-error lines)
]

any-ack : (lines : List ResponseLine) → any_line is_ack lines ≡ is_some (find_ack_line lines)
unfolding find_ack_line
any-ack [] = refl
any-ack (line ∷ lines) = elim (Bool-cases (is_ack line)) [
  | inl hit ↦ rw (hit, find_ack_line) refl
  | inr miss ↦ rw (miss, find_ack_line) (any-ack lines)
]

error_status_of-error : (line : ResponseLine) → error_status_of line ≡ error_status
unfolding lookup_error
error_status_of-error line = elim (Bool-cases (is_empty line.code)) [
  | inl blank ↦ rw blank refl
  | inr named ↦ elim (Option-cases (lookup_error line.code)) [
    | inl unknown ↦ rw (named, unknown) refl
    | inr (d, found) ↦
        rw (named, found) (find_code-status line.code error_catalog catalog-status found)
  ]
]

-- The status of a response is an error exactly where one of its lines is an error, whatever the
-- code of that line; else it is a success exactly where a line is an ACK; else it is unknown.
pub derive_completion_status_lem :
    (lines : List ResponseLine)
    → derive_completion_status lines ≡ (
        if any_line is_error_line lines
        then error_status
        else if any_line is_ack lines
        then ok_status
        else unknown_status)
unfolding derive_completion_status
derive_completion_status_lem lines =
    rw (any-error lines, any-ack lines)
      (elim (Option-cases (find_primary_error lines)) [
        | inr (line, found) ↦ rw (found, derive_completion_status) (error_status_of-error line)
        | inl clean ↦ elim (Option-cases (find_ack_line lines)) [
          | inl silent ↦ rw (clean, silent, derive_completion_status) refl
          | inr (line, found) ↦ rw (clean, found, derive_completion_status) refl
        ]
      ])
