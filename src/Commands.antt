-- ===== src/Commands.antt =====
-- lib/MotorControl/src/command/CommandParser.cpp: a line of text is parsed into commands.
pub mod Parts
use kinetic_mirror_matrix_es.Prelude.{
  ℕ, suc, Bool, true, false, not, ◌&&◌, ◌||◌, List, [], ◌∷◌, Option, some, none, ltb, take, drop,
  ◌==◌, if◌then◌else◌,
}
use mathlib.Core.Option
use kinetic_mirror_matrix_es.Text.{Bytes, is_empty, split, to_upper_copy, trim}

pub record ParsedCommand : Type 0 where
  pub raw : Bytes
  pub action : Bytes
  pub args : Bytes

-- `std::string::find`
unfoldable pub find : ℕ → Bytes → Option ℕ
find d [] = none
find d (c ∷ s) = let rest = find d s in if c == d then some 0 else Option.map suc rest

-- Where the action ends: at the first blank, if no colon stands before it, else at the first colon.
abbrev pub separator : Option ℕ → Option ℕ → Option ℕ
separator (some space) none = some space
separator (some space) (some colon) = if ltb space colon then some space else some colon
separator none colon = colon

abbrev pub command_at : Bytes → Option ℕ → ParsedCommand
command_at cmd none = record { raw = cmd; action = to_upper_copy cmd; args = [] }
command_at cmd (some i) = record {
  raw = cmd;
  action = to_upper_copy (take i cmd);
  args = drop (suc i) cmd;
}

unfoldable pub parse_command : Bytes → ParsedCommand
unfolding find to_upper_copy
parse_command cmd = command_at cmd (separator (find b' ' cmd) (find b':' cmd))

unfoldable pub parse_segments : List Bytes → List ParsedCommand
unfolding parse_command trim
parse_segments [] = []
parse_segments (segment ∷ segments) =
    let rest = parse_segments segments in
    let cmd = trim segment in if is_empty cmd then rest else parse_command cmd ∷ rest

unfoldable pub parse : Bytes → List ParsedCommand
unfolding parse_segments split trim
parse line = if is_empty (trim line) then [] else parse_segments (split (trim line) b';')
