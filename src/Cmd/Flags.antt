-- ===== src/Cmd/Flags.antt =====
-- Go's package flag, as far as `flag.Parse` is used: the syntax of the arguments and the flags of
-- texts and of Booleans.
use Prim.Native.Char.{Char, code}
use upgrade_controller.Prelude.{
  String, Bool, true, false, ◌||◌, Option, none, some, List, [], ◌∷◌, ◌==◌, Dict, lookup, nat_eq,
  if◌then◌else◌,
}

-- A flag over the variables `V`; `set` fails on a value that is not one of the flag's type.
pub record Flag (V : Type 0) : Type 0 where
  pub is_bool : Bool
  pub set : String → V → Option V

abbrev pub string_var : {V : Type 0} → (String → V → V) → Flag V
string_var assign = record { is_bool = false; set = λ text v. some (assign text v) }

-- `strconv.ParseBool`
unfoldable pub parse_bool : String → Option Bool
parse_bool text =
    if text == "1"
      || text == "t"
      || text == "T"
      || text == "true"
      || text == "TRUE"
      || text == "True"
    then some true
    else if text == "0"
        || text == "f"
        || text == "F"
        || text == "false"
        || text == "FALSE"
        || text == "False"
    then some false
    else none

abbrev assign_parsed : {V : Type 0} → (Bool → V → V) → V → Option Bool → Option V
assign_parsed assign v none = none
assign_parsed assign v (some b) = some (assign b v)

abbrev pub bool_var : {V : Type 0} → (Bool → V → V) → Flag V
bool_var assign = record {
  is_bool = true;
  set = λ text v. assign_parsed assign v (parse_bool text);
}

pub data Argument : Type 0 where
  -- an argument that is no flag, or the terminator "--": parsing stops
  end_of_flags : Argument
  bad_syntax : Argument
  named : (name : String) (value : Option String) → Argument

abbrev push_name : Char → Argument → Argument
push_name c (named name value) = named (String.◌∷◌ c name) value
push_name c other = other

-- the name, and the value behind the first "="
unfoldable pub split_value : String → Argument
split_value String.[] = named "" none
split_value (String.◌∷◌ c s) =
    let rest = split_value s in if nat_eq (code c) b'=' then named "" (some s) else push_name c rest

-- behind the dashes
unfoldable pub read_name : String → Argument
unfolding split_value
read_name String.[] = bad_syntax
read_name (String.◌∷◌ c s) =
    if nat_eq (code c) b'-' || nat_eq (code c) b'='
    then bad_syntax
    else split_value (String.◌∷◌ c s)

-- behind the first dash
unfoldable pub read_dashed : String → Argument
unfolding read_name
read_dashed String.[] = end_of_flags
read_dashed (String.◌∷◌ c String.[]) =
    if nat_eq (code c) b'-' then end_of_flags else read_name (String.◌∷◌ c "")
read_dashed (String.◌∷◌ c (String.◌∷◌ d s)) =
    if nat_eq (code c) b'-'
    then read_name (String.◌∷◌ d s)
    else read_name (String.◌∷◌ c (String.◌∷◌ d s))

unfoldable pub read_argument : String → Argument
unfolding read_dashed
read_argument String.[] = end_of_flags
read_argument (String.◌∷◌ c s) = if nat_eq (code c) b'-' then read_dashed s else end_of_flags

-- the end of the parsing: the variables, or the program ends with the exit code of
-- `flag.ExitOnError`
pub data Parsed (V : Type 0) : Type 0 where
  parsed : V → Parsed V
  -- "-h" and "-help", where no flag has the name: code 0
  help : Parsed V
  -- code 2
  bad_usage : Parsed V

-- what an argument does
pub data Taken (V : Type 0) : Type 0 where
  stop : Parsed V → Taken V
  take_one : V → Taken V
  take_two : V → Taken V

module _ {V : Type 0} where
  abbrev set_or_fail : (V → Taken V) → Option V → Taken V
  set_or_fail next none = stop bad_usage
  set_or_fail next (some v) = next v

  -- the flag of that name, with the value in the argument and the argument that follows
  abbrev take_flag : Flag V → V → Option String → Option String → Taken V
  take_flag flag v (some value) following = set_or_fail take_one (flag.set value v)
  take_flag flag v none following =
      if flag.is_bool then set_or_fail take_one (flag.set "true" v) else elim following [
        | none ↦ stop bad_usage
        | some value ↦ set_or_fail take_two (flag.set value v)
      ]

  abbrev take_named : String → Option (Flag V) → V → Option String → Option String → Taken V
  take_named name (some flag) v value following = take_flag flag v value following
  take_named name none v value following =
      if name == "help" || name == "h" then stop help else stop bad_usage

  abbrev take_argument : Dict (Flag V) → V → Argument → Option String → Taken V
  take_argument flags v end_of_flags following = stop (parsed v)
  take_argument flags v bad_syntax following = stop bad_usage
  take_argument flags v (named name value) following =
      take_named name (lookup name flags) v value following

  unfoldable pub parse_arguments : Dict (Flag V) → V → List String → Parsed V
  unfolding read_argument lookup
  parse_arguments flags v [] = parsed v
  parse_arguments flags v (argument ∷ []) =
      elim (take_argument flags v (read_argument argument) none) [
        | stop end ↦ end
        | take_one v' ↦ parsed v'
        | take_two v' ↦ parsed v'
      ]
  parse_arguments flags v (argument ∷ following ∷ rest) =
      elim (take_argument flags v (read_argument argument) (some following)) [
        | stop end ↦ end
        | take_one v' ↦ parse_arguments flags v' (following ∷ rest)
        | take_two v' ↦ parse_arguments flags v' rest
      ]
