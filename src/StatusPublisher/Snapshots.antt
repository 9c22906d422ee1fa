-- ===== src/StatusPublisher/Snapshots.antt =====
-- lib/mqtt_status/src/MqttStatusPublisher.cpp: the numbers of a snapshot.
use kinetic_mirror_matrix_es.Prelude.{
  ℕ, zero, suc, ◌+◌, ◌/◌, ◌%◌, ◌≤◌, ◌<◌, ◌≡◌, refl, ap, ◌∙◌, true, false, [], ◌∷◌, ◌++◌, arith, ltb,
  ◌==◌, Bool-cases, inl, inr,
}
use mathlib.Core.List.{append-nil, append_assoc}
use kinetic_mirror_matrix_es.Prelude.Int.{ℤ, pos, negsuc, ◌≤ℤ◌}
use kinetic_mirror_matrix_es.Text.{
  Bytes, digits_of, drop_spaces, read_digits, read_sign, read_signed, starts_with_digit, strtol,
  to_string, long_max,
}
use kinetic_mirror_matrix_es.Text.Numbers.{
  read_digits-to_string, starts-to_string, strtol-to_string,
}
use kinetic_mirror_matrix_es.StatusPublisher.{
  append_signed_digits, append_unsigned_digits, digits_into,
}

small-quotient : (n : ℕ) → ltb n 10 ≡ true → (n / 10 == 0) ≡ true
small-quotient n h = ground arith

large-quotient : (n : ℕ) → ltb n 10 ≡ false → (n / 10 == 0) ≡ false
large-quotient n h = ground arith

small-digit : (n : ℕ) → ltb n 10 ≡ true → n % 10 ≡ n
small-digit n h = ground arith

tenth-lt : {n fuel : ℕ} → ltb n 10 ≡ false → n < suc fuel → n / 10 < fuel
tenth-lt h k = ground arith

digits_into-digits_of :
    (fuel : ℕ) (buffer : Bytes) (n : ℕ)
    → n < fuel
    → digits_into fuel buffer n ≡ digits_of fuel n ++ buffer
unfolding digits_into digits_of
digits_into-digits_of zero buffer n h = absurd (omega arith)
digits_into-digits_of (suc fuel) buffer n h = elim (Bool-cases (ltb n 10)) [
  | inl small ↦ rw (small, small-quotient n small, small-digit n small) refl
  | inr large ↦
      rw
        (
          large,
          large-quotient n large,
          digits_into-digits_of fuel ((b'0' + n % 10) ∷ buffer) (n / 10) (tenth-lt large h),
          append_assoc (digits_of fuel (n / 10)) ((b'0' + n % 10) ∷ []) buffer,
        )
        refl
]

-- The buffer loop prints a number as `std::to_string` does.
pub append_unsigned_digits-to_string :
    (out : Bytes) (n : ℕ) → append_unsigned_digits out n ≡ out ++ to_string n
unfolding append_unsigned_digits to_string
append_unsigned_digits-to_string out n =
    ap (λ s. out ++ s)
      (digits_into-digits_of (suc n) [] n (omega arith) ∙ append-nil (digits_of (suc n) n))

strtol-minus :
    (s : Bytes) (n : ℕ)
    → starts_with_digit s ≡ true
    → read_digits 0 s ≡ (n + 1, [])
    → n ≤ long_max
    → strtol (b'-' ∷ s) ≡ (negsuc n, [])
unfolding strtol drop_spaces read_sign read_signed
strtol-minus s n starts e h = rw (starts, e) (ground arith)

-- A `long` from -2147483648 to 2147483647 that a snapshot shows is read back by `std::strtol` as
-- it was, up to its end.
pub strtol-append_signed_digits :
    (v : ℤ)
    → negsuc long_max ≤ℤ v
    → v ≤ℤ pos long_max
    → strtol (append_signed_digits [] v) ≡ (v, [])
unfolding append_signed_digits
strtol-append_signed_digits (pos n) low high =
    ap strtol (append_unsigned_digits-to_string [] n) ∙ strtol-to_string n (omega arith)
strtol-append_signed_digits (negsuc n) low high =
    ap strtol (append_unsigned_digits-to_string (b'-' ∷ []) (n + 1))
    ∙ strtol-minus (to_string (n + 1)) n (starts-to_string (n + 1)) (read_digits-to_string (n + 1))
        (omega arith)
