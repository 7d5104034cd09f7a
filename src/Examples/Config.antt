-- ===== src/Examples/Config.antt =====
-- The configuration from an environment with two variables.
use gpuid.Base.{
  ℕ, ◌≡◌, ◌↔◌, refl, leb, ltb, if◌then◌else◌, none, some, ok, codes, text_eq, pos, negsuc,
}
use gpuid.Runner.Config.{Float32, Command, validate}
use gpuid.Runner.Config.Validate.{IsValid, validate_iff}
use gpuid.Runner.Config.Env.{
  Parsers, Environment, apply_option, apply_options, default_command, new_command, get_env,
  get_env_as, env_options, new_command_from_env_vars,
}
use gpuid.Runner.Config.Env.Laws.{IsLoaded, new_command_from_env_vars-IsLoaded}

-- Numbers stand in for the floats.
abbrev pub float : Float32
float = record {
  F = ℕ;
  nonpositive = λ f. leb f 0;
  less = λ f g. ltb f g;
  of_int = λ n. elim n [ pos m ↦ m | negsuc m ↦ 0 ];
  parse = λ s. none;
}

-- One number is known to each parser.
abbrev pub parsers : Parsers
parsers = record {
  parse_int = λ s. if text_eq s (codes "4") then some (pos 4) else none;
  parse_bool = λ s. none;
  parse_duration = λ s. none;
}

abbrev pub env : Environment
env name =
    if text_eq name (codes "WORKERS")
    then some (codes "4")
    else if text_eq name (codes "CLUSTER_NAME")
    then some (codes "lab")
    else none

abbrev pub loaded : Command ℕ
loaded = record (default_command float) { workers = pos 4; cluster = codes "lab" }

pub load_test : new_command_from_env_vars float parsers env ≡ ok loaded
unfolding new_command_from_env_vars new_command env_options get_env_as get_env apply_options
    apply_option text_eq
load_test = refl

new_command_from_env_vars-IsLoaded_example : IsLoaded float parsers env loaded
new_command_from_env_vars-IsLoaded_example =
    new_command_from_env_vars-IsLoaded float parsers env loaded load_test

validate_iff_example : (validate float loaded ≡ none) ↔ IsValid float loaded
validate_iff_example = validate_iff float loaded
