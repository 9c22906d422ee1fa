-- ===== src/Text/Ids.antt =====
-- The masks that `ParseIdMask` gives.
use kinetic_mirror_matrix_es.Prelude.{
  ℕ, suc, ◌-◌, ◌/◌, ◌^◌, ◌≤◌, ◌<◌, ◌≡◌, true, not, ◌||◌, some, none, arith, ltb, leb, Bool-cases,
  Option-cases, inl, inr, if◌then◌else◌,
}
use mathlib.Core.Bool.{false≢true}
use native.Mathlib.Nat.{pow-le-pow_right, one-le-pow, div-eq_of_lt, two-pow-succ}
use kinetic_mirror_matrix_es.Prelude.Int.{ℤ, pos, pos_part, ltb_ℤ}
use kinetic_mirror_matrix_es.Motor.Mask.{selected}
use kinetic_mirror_matrix_es.Text.{Bytes, codes, eq_bytes, to_upper_copy, parse_int, parse_id_mask}

pow-pos : (n : ℕ) → 0 < 2 ^ n
pow-pos n = omega (arith, one-le-pow n 2 (omega arith))

-- A mask below 2 ^ n selects no motor from n on.
selected-below : (mask n i : ℕ) → mask < 2 ^ n → selected mask i ≡ true → i < n
unfolding selected
selected-below mask n i h s = elim (Bool-cases (ltb i n)) [
  | inl below ↦ ground arith
  | inr above ↦
      let le : n ≤ i = ground arith in
      let small : mask < 2 ^ i = omega (arith, pow-le-pow_right {n = 2} (omega arith) le) in
      let gone : mask / 2 ^ i ≡ 0 = div-eq_of_lt small in absurd (false≢true (rw gone at s))
]

one_bit : (id n : ℕ) → id < n → 2 ^ id < 2 ^ n
one_bit id n h =
    let up = pow-le-pow_right {n = 2} (omega arith) {i = suc id} {j = n} h in
    omega (arith, two-pow-succ id, pow-pos id)

some_below : {a b n : ℕ} → some a ≡ some b → a < n → b < n
some_below e h = ground arith

id_mask-below :
    (n : ℕ) (id : ℤ) {mask : ℕ}
    → (if ltb_ℤ id (pos 0) || not (ltb_ℤ id (pos n)) then none else some (2 ^ pos_part id))
      ≡ some mask
    → mask < 2 ^ n
id_mask-below n id e = elim (Bool-cases (ltb_ℤ id (pos 0) || not (ltb_ℤ id (pos n)))) [
  | inl out ↦ ground arith
  | inr within ↦ some_below (rw within at e) (one_bit (pos_part id) n (ground arith))
]

all_mask-below : (n : ℕ) → (if leb 32 n then 2 ^ 32 - 1 else 2 ^ n - 1) < 2 ^ n
all_mask-below n = elim (Bool-cases (leb 32 n)) [
  | inl many ↦
      let le : 32 ≤ n = ground arith in
      rw many (omega (arith, pow-le-pow_right {n = 2} (omega arith) le))
  | inr few ↦ rw few (omega (arith, pow-pos n))
]

parse_id_mask-below :
    (token : Bytes) (n : ℕ) {mask : ℕ} → parse_id_mask token n ≡ some mask → mask < 2 ^ n
unfolding parse_id_mask
parse_id_mask-below token n {mask} e =
    elim (Bool-cases (eq_bytes (to_upper_copy token) (codes "ALL"))) [
      | inl word ↦ some_below (rw (word, parse_id_mask) at e) (all_mask-below n)
      | inr number ↦ elim (Option-cases (parse_int token)) [
        | inl bad ↦
            let nothing : none ≡ some mask = rw (number, bad, parse_id_mask) at e in ground arith
        | inr (id, read) ↦ id_mask-below n id (rw (number, read, parse_id_mask) at e)
      ]
    ]

-- A motor that the mask of a token selects, be it a number or ALL, is a motor of the controller.
pub parse_id_mask-in_range :
    (token : Bytes) (n : ℕ) {mask : ℕ} (i : ℕ)
    → parse_id_mask token n ≡ some mask
    → selected mask i ≡ true
    → i < n
parse_id_mask-in_range token n {mask} i e s =
    selected-below mask n i (parse_id_mask-below token n e) s
