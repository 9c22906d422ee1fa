-- ===== src/Text/Numbers.antt =====
-- lib/MotorControl/src/command/CommandUtils.cpp: what a printed number is read as, and the test of
-- equal texts.
use kinetic_mirror_matrix_es.Prelude.{
  ℕ, zero, suc, ◌+◌, ◌*◌, ◌/◌, ◌%◌, ◌≤◌, ◌<◌, ◌≡◌, refl, sym, ◌∙◌, ap, true, false, [], ◌∷◌, ◌++◌,
  arith, ltb, ltb→lt, Bool-cases, inl, inr,
}
use mathlib.Core.List.{append-nil, append_assoc}
use kinetic_mirror_matrix_es.Prelude.Int.{pos}
use kinetic_mirror_matrix_es.Text.{
  Bytes, eq_bytes, read_digits, digits_of, to_string, strtol, read_sign, read_signed, drop_spaces,
  starts_with_digit, long_max,
}

pub eq_bytes_refl : (s : Bytes) → eq_bytes s s ≡ true
eq_bytes_refl [] = refl
eq_bytes_refl (c ∷ s) = ground (arith, eq_bytes_refl s)

pub eq_bytes→≡ : (s t : Bytes) → eq_bytes s t ≡ true → s ≡ t
eq_bytes→≡ [] [] h = refl
eq_bytes→≡ [] (d ∷ t) h = cc
eq_bytes→≡ (c ∷ s) [] h = cc
eq_bytes→≡ (c ∷ s) (d ∷ t) h = ground (arith, eq_bytes→≡ s t)

-- One digit, from 0 to 9, is read behind what was read before it.
read_digits-digit :
    (n d : ℕ) (s : Bytes) → d < 10 → read_digits n ((b'0' + d) ∷ s) ≡ read_digits (n * 10 + d) s
unfolding read_digits
read_digits-digit n d s h = ground arith

tenth-lt : {n fuel : ℕ} → ltb n 10 ≡ false → n < suc fuel → n / 10 < fuel
tenth-lt h k = ground arith

read_digits-digits_of :
    (fuel n : ℕ) (s : Bytes) → n < fuel → read_digits 0 (digits_of fuel n ++ s) ≡ read_digits n s
unfolding digits_of
read_digits-digits_of zero n s h = absurd (omega arith)
read_digits-digits_of (suc fuel) n s h = elim (Bool-cases (ltb n 10)) [
  | inl small ↦
      rw (small, read_digits-digit 0 n s (ltb→lt n 10 small))
        (ap (λ k. read_digits k s) (omega arith))
  | inr large ↦
      rw
        (
          large,
          append_assoc (digits_of fuel (n / 10)) ((b'0' + n % 10) ∷ []) s,
          read_digits-digits_of fuel (n / 10) ((b'0' + n % 10) ∷ s) (tenth-lt large h),
          read_digits-digit (n / 10) (n % 10) s (omega arith),
        )
        (ap (λ k. read_digits k s) (omega arith))
]

starts-append : (s t : Bytes) → starts_with_digit s ≡ true → starts_with_digit (s ++ t) ≡ true
starts-append [] t h = cc
starts-append (c ∷ s) t h = h

-- A printed number starts with a digit.
starts-digits_of : (fuel n : ℕ) → n < fuel → starts_with_digit (digits_of fuel n) ≡ true
unfolding digits_of
starts-digits_of zero n h = absurd (omega arith)
starts-digits_of (suc fuel) n h = elim (Bool-cases (ltb n 10)) [
  | inl small ↦ rw small (ground arith)
  | inr large ↦ rw large (
      starts-append (digits_of fuel (n / 10)) ((b'0' + n % 10) ∷ [])
        (starts-digits_of fuel (n / 10) (tenth-lt large h)))
]

read_sign-digits :
    (all s : Bytes) → starts_with_digit s ≡ true → read_sign all s ≡ read_signed false all s
unfolding read_sign
read_sign-digits all [] h = cc
read_sign-digits all (c ∷ s) h = ground arith

drop_spaces-digits : (s : Bytes) → starts_with_digit s ≡ true → drop_spaces s ≡ s
unfolding drop_spaces
drop_spaces-digits [] h = refl
drop_spaces-digits (c ∷ s) h = ground arith

read_signed-digits :
    (all s : Bytes) (n : ℕ)
    → starts_with_digit s ≡ true
    → read_digits 0 s ≡ (n, [])
    → n ≤ long_max
    → read_signed false all s ≡ (pos n, [])
unfolding read_signed
read_signed-digits all s n starts e h = rw (starts, e) (ground arith)

strtol-digits :
    (s : Bytes) (n : ℕ)
    → starts_with_digit s ≡ true
    → read_digits 0 s ≡ (n, [])
    → n ≤ long_max
    → strtol s ≡ (pos n, [])
unfolding strtol
strtol-digits s n starts e h =
    rw (drop_spaces-digits s starts, read_sign-digits s s starts)
      (read_signed-digits s s n starts e h)

pub read_digits-to_string : (n : ℕ) → read_digits 0 (to_string n) ≡ (n, [])
unfolding to_string read_digits
read_digits-to_string n =
    ap (read_digits 0) (sym (append-nil (digits_of (suc n) n)))
    ∙ read_digits-digits_of (suc n) n [] (omega arith)

pub starts-to_string : (n : ℕ) → starts_with_digit (to_string n) ≡ true
unfolding to_string
starts-to_string n = starts-digits_of (suc n) n (omega arith)

-- A number within the range of `long` that is printed is read as it was, up to its end.
pub strtol-to_string : (n : ℕ) → n ≤ long_max → strtol (to_string n) ≡ (pos n, [])
strtol-to_string n h =
    strtol-digits (to_string n) n (starts-to_string n) (read_digits-to_string n) h
