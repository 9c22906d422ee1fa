-- ===== src/Handlers/Requests.antt =====
-- lib/MotorControl/src/command/CommandHandlers.cpp: what `handleMove` and `handleHome` read from
-- the arguments of a command before they touch the controller.
use kinetic_mirror_matrix_es.Prelude.{
  ℕ, Bool, true, ◌&&◌, ◌||◌, List, [], ◌∷◌, Option, some, none, ltb, length, drop, get_or,
  if◌then◌else◌,
}
use kinetic_mirror_matrix_es.Prelude.Int.{ℤ, pos, ltb_ℤ}
use kinetic_mirror_matrix_es.Motor.{
  min_pos_steps, max_pos_steps, default_overshoot, default_backoff,
}
use kinetic_mirror_matrix_es.Text.{Bytes, codes, is_empty, parse_int, parse_id_mask, split, trim}

-- A refusal, with its code and its reason, or a value.
pub data Checked (A : Type 0) : Type 0 where
  rejected : Bytes → Bytes → Checked A
  accepted : A → Checked A

abbrev pub bad_param : {A : Type 0} → Checked A
bad_param = rejected (codes "E03") (codes "BAD_PARAM")

abbrev pub bad_id : {A : Type 0} → Checked A
bad_id = rejected (codes "E02") (codes "BAD_ID")

abbrev pub token : List Bytes → ℕ → Bytes
token parts i = trim (get_or parts i [])

abbrev all_blank : List Bytes → Bool
all_blank [] = true
all_blank (p ∷ ps) = is_empty (trim p) && all_blank ps

-- A parameter that may be left blank.
unfoldable number_or : ℤ → Bytes → Option ℤ
unfolding parse_int
number_or default text = if is_empty text then some default else parse_int text

abbrev only_positive : Option ℤ → Option ℤ
only_positive none = none
only_positive (some v) = if ltb_ℤ (pos 0) v then some v else none

unfoldable positive_or : ℤ → Bytes → Option ℤ
unfolding parse_int
positive_or default text = if is_empty text then some default else only_positive (parse_int text)

pub record MoveRequest : Type 0 where
  pub mask : ℕ
  pub target : ℤ
  pub speed : ℤ
  pub accel : ℤ

-- With shared STEP the speed and the acceleration are the defaults, and a text for them is an error.
unfoldable pub speed_accel : Bool → ℤ → ℤ → List Bytes → Option (ℤ × ℤ)
unfolding positive_or trim
speed_accel shared_step speed accel parts =
    if shared_step
    then (if is_empty (token parts 2) && is_empty (token parts 3)
        then some (speed, accel)
        else none)
    else elim (positive_or speed (token parts 2)) [
      | none ↦ none
      | some v ↦ elim (positive_or accel (token parts 3)) [
        | none ↦ none
        | some a ↦ if all_blank (drop 4 parts) then some (v, a) else none
      ]
    ]

unfoldable pub move_request : Bool → ℕ → ℤ → ℤ → Bytes → Checked MoveRequest
unfolding speed_accel parse_id_mask parse_int split trim
move_request shared_step motor_count speed accel args =
    let parts = split args b',' in
    if ltb (length parts) 2 then bad_param else elim (parse_id_mask (token parts 0) motor_count) [
      | none ↦ bad_id
      | some mask ↦ elim (parse_int (token parts 1)) [
        | none ↦ bad_param
        | some target ↦
            if ltb_ℤ target min_pos_steps || ltb_ℤ max_pos_steps target
            then rejected (codes "E07") (codes "POS_OUT_OF_RANGE")
            else elim (speed_accel shared_step speed accel parts) [
              | none ↦ bad_param
              | some (v, a) ↦
                  accepted (record { mask = mask; target = target; speed = v; accel = a })
            ]
      ]
    ]

pub record HomeRequest : Type 0 where
  pub mask : ℕ
  pub overshoot : ℤ
  pub backoff : ℤ
  pub speed : ℤ
  pub accel : ℤ
  pub full_range : ℤ

-- The speed, the acceleration and the full range: tokens 3 to 5, or token 3 alone with shared STEP.
unfoldable pub home_motion : Bool → ℤ → ℤ → List Bytes → Option (ℤ × ℤ × ℤ)
unfolding positive_or number_or trim
home_motion shared_step speed accel parts =
    if shared_step
    then elim (number_or (pos 0) (token parts 3)) [
      | none ↦ none
      | some r ↦ if is_empty (token parts 4) then some (speed, accel, r) else none
    ]
    else elim (positive_or speed (token parts 3)) [
      | none ↦ none
      | some v ↦ elim (positive_or accel (token parts 4)) [
        | none ↦ none
        | some a ↦ elim (number_or (pos 0) (token parts 5)) [
          | none ↦ none
          | some r ↦ if all_blank (drop 6 parts) then some (v, a, r) else none
        ]
      ]
    ]

unfoldable pub home_request : Bool → ℕ → ℤ → ℤ → Bytes → Checked HomeRequest
unfolding home_motion number_or parse_id_mask split trim
home_request shared_step motor_count speed accel args =
    let parts = split args b',' in
    if is_empty parts then bad_param else elim (parse_id_mask (token parts 0) motor_count) [
      | none ↦ bad_id
      | some mask ↦ elim (number_or default_overshoot (token parts 1)) [
        | none ↦ bad_param
        | some overshoot ↦ elim (number_or default_backoff (token parts 2)) [
          | none ↦ bad_param
          | some backoff ↦ elim (home_motion shared_step speed accel parts) [
            | none ↦ bad_param
            | some (v, a, r) ↦ accepted (record {
              mask = mask;
              overshoot = overshoot;
              backoff = backoff;
              speed = v;
              accel = a;
              full_range = r;
            })
          ]
        ]
      ]
    ]
