-- ===== src/Config.antt =====
-- How the services read their settings: `envStr`, `envInt`, `envInt64` and `envStrSet`, and the list
-- of brokers, as each main.go under services/ has them. The functions of Go's strconv and strings
-- that they call are in Numbers and Texts.
pub mod Numbers
pub mod Texts
pub mod Brokers
pub mod Defaults
mod Tests
use obarena.Prelude.{String, str_eq, ℤ, if◌then◌else◌, Option, none, some}
use obarena.Config.Numbers.{atoi}

-- `os.LookupEnv`
abbrev pub Env : Type 0
Env = String → Option String

-- `os.Getenv`
unfoldable pub getenv : Env → String → String
getenv env key = elim (env key) [ none ↦ "" | some v ↦ v ]

unfoldable pub env_str : Env → String → String → String
unfolding getenv
env_str env key def = if str_eq (getenv env key) "" then def else getenv env key

-- A variable that is set to the empty text counts.
unfoldable pub env_str_set : Env → String → String → String
unfolding getenv
env_str_set env key def = elim (env key) [ none ↦ def | some v ↦ getenv env key ]

unfoldable pub env_int : Env → String → ℤ → ℤ
unfolding getenv
env_int env key def =
    if str_eq (getenv env key) ""
    then def
    else elim (atoi (getenv env key)) [ none ↦ def | some n ↦ n ]

-- `strconv.ParseInt(v, 10, 64)` accepts what `strconv.Atoi` does.
unfoldable pub env_int64 : Env → String → ℤ → ℤ
unfolding env_int
env_int64 env key def = env_int env key def
