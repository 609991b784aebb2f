-- ===== src/Process/Arguments.antt =====
-- The loop over the arguments in `main` of src/main.rs.
use docker_proxy.Common.{
  Bool, true, false, ◌||◌, if◌then◌else◌, Option, some, List, [], ◌∷◌, Str, codes, str_eq,
}

pub data Argument : Type 0 where
  check_config : Argument
  config : Argument
  help : Argument
  unknown : Argument

unfoldable pub argument_of : Str → Argument
argument_of s =
    if str_eq s (codes "--check-config")
    then check_config
    else if str_eq s (codes "--config")
    then config
    else if str_eq s (codes "--help") || str_eq s (codes "-h")
    then help
    else unknown

-- `refused`: the process exits with the code 2.
pub data Command : Type 0 where
  runs : Bool → Option Str → Command
  shows_help : Command
  refused : Command

-- `awaits`: the argument before was `--config`.
unfoldable pub parse_args : Bool → Bool → Option Str → List Str → Command
unfolding argument_of
parse_args true check path [] = refused
parse_args false check path [] = runs check path
parse_args true check path (a ∷ args) = parse_args false check (some a) args
parse_args false check path (a ∷ args) = elim (argument_of a) [
  | check_config ↦ parse_args false true path args
  | config ↦ parse_args true check path args
  | help ↦ shows_help
  | unknown ↦ refused
]
