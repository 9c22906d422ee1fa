-- ===== src/Handlers/MqttConfig/Pairs.antt =====
-- lib/MotorControl/src/command/CommandHandlers.cpp, `ParseKeyValueArgs`: the pairs of SET_CONFIG.
use kinetic_mirror_matrix_es.Prelude.{ℕ, Bool, ◌||◌, List, [], ◌∷◌, ◌++◌, ◌==◌, if◌then◌else◌}
use kinetic_mirror_matrix_es.Text.{Bytes, codes, is_empty, is_space, trim}

-- A key with its value, or the text of the error.
pub data Parsed (A : Type 0) : Type 0 where
  parsed : A → Parsed A
  invalid : Bytes → Parsed A

-- `ParseKeyValueArgs`, byte by byte: between two pairs, in a key, behind a key, before a value, in
-- a plain value, in quotes, and behind a backslash in quotes.
pub data KeyState : Type 0 where
  between in_key after_key before_value in_value in_quotes escaped : KeyState

abbrev pub KeyValues : Type 0
KeyValues = List (Bytes × Bytes)

-- The pair is stored where its key is not empty.
abbrev pub stored : Bytes → Bytes → Parsed KeyValues → Parsed KeyValues
stored key value (parsed rest) =
    if is_empty (trim key) then invalid (codes "missing key") else parsed ((trim key, value) ∷ rest)
stored key value (invalid error) =
    invalid (if is_empty (trim key) then codes "missing key" else error)

abbrev pub no_equals : Parsed KeyValues
no_equals = invalid (codes "expected key=value")

-- What the state and the end of the text give.
abbrev pub at_end_of : KeyState → Bytes → Bytes → Parsed KeyValues
at_end_of between key value = parsed []
at_end_of in_key key value = no_equals
at_end_of after_key key value = no_equals
at_end_of before_value key value = stored key value (parsed [])
at_end_of in_value key value = stored key value (parsed [])
at_end_of in_quotes key value = invalid (codes "unterminated quote")
at_end_of escaped key value = invalid (codes "unterminated quote")

abbrev pub is_separator : ℕ → Bool
is_separator c = is_space c || c == b','

-- One byte: the state after it, the end of a pair, or the end with an error.
pub data Step : Type 0 where
  goes : KeyState → Bytes → Bytes → Step
  stores : Bytes → Bytes → Step
  stops : Step

unfoldable pub step : KeyState → Bytes → Bytes → ℕ → Step
step between key value c =
    if is_separator c
    then goes between [] []
    else if c == b'='
    then goes before_value [] []
    else goes in_key (c ∷ []) []
step in_key key value c =
    if c == b'='
    then goes before_value key []
    else if is_space c
    then goes after_key key []
    else if c == b','
    then stops
    else goes in_key (key ++ (c ∷ [])) []
step after_key key value c =
    if is_space c
    then goes after_key key []
    else if c == b'='
    then goes before_value key []
    else stops
step before_value key value c =
    if is_space c
    then goes before_value key []
    else if c == b'"'
    then goes in_quotes key []
    else if c == b','
    then stores key []
    else goes in_value key (c ∷ [])
step in_value key value c =
    if is_separator c then stores key value else goes in_value key (value ++ (c ∷ []))
step in_quotes key value c =
    if c == b'\\'
    then goes escaped key value
    else if c == b'"'
    then stores key value
    else goes in_quotes key (value ++ (c ∷ []))
step escaped key value c = goes in_quotes key (value ++ (c ∷ []))

unfoldable pub key_values : KeyState → Bytes → Bytes → Bytes → Parsed KeyValues
unfolding step
key_values state key value [] = at_end_of state key value
key_values state key value (c ∷ s) = elim (step state key value c) [
  | goes state' key' value' ↦ key_values state' key' value' s
  | stores key' value' ↦ stored key' value' (key_values between [] [] s)
  | stops ↦ no_equals
]

unfoldable pub parse_key_value_args : Bytes → Parsed KeyValues
unfolding key_values
parse_key_value_args input = key_values between [] [] input
