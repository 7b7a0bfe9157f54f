-- ===== src/Config/Defaults.antt =====
-- What `envStr` and `envInt` of the services under services/ can give.
use obarena.Prelude.{
  ◌≡◌, refl, inl, inr, String, str_eq, some-cases, false, if-intro, ℤ, none, some,
}
use obarena.Config.{Env, getenv, env_str, env_int}
use obarena.Config.Numbers.{IsInt, atoi, format_int}
use obarena.Config.Numbers.RoundTrip.{atoi-IsInt, atoi-format_int, format_int-some}

pub getenv-set : (env : Env) (key v : String) → env key ≡ some v → getenv env key ≡ v
unfolding getenv
getenv-set env key v set = rw (set, getenv) refl

-- With a default that is not empty, neither is the value.
pub env_str-some :
    (env : Env) (key def : String) → str_eq def "" ≡ false → str_eq (env_str env key def) "" ≡ false
unfolding env_str
env_str-some env key def h =
    if-intro (λ v. str_eq v "" ≡ false) (str_eq (getenv env key) "") def (getenv env key) (λ _. h)
      (λ some_value. some_value)

-- A value that is not empty is read as it is.
pub env_str-set :
    (env : Env) (key def v : String)
    → env key ≡ some v
    → str_eq v "" ≡ false
    → env_str env key def ≡ v
unfolding env_str
env_str-set env key def v set h = rw (getenv-set env key v set, h) refl

pub env_int-IsInt : (env : Env) (key : String) (def : ℤ) → IsInt def → IsInt (env_int env key def)
unfolding env_int
env_int-IsInt env key def h =
    if-intro IsInt (str_eq (getenv env key) "") def
      (elim (atoi (getenv env key)) [ none ↦ def | some n ↦ n ]) (λ _. h)
      (λ _. elim (some-cases (atoi (getenv env key))) [
        | inl no_number ↦ rw no_number h
        | inr (n, number) ↦ rw number (atoi-IsInt (getenv env key) n number)
      ])

-- An int that was printed is read as it is.
pub env_int-set :
    (env : Env) (key : String) (def n : ℤ)
    → env key ≡ some (format_int n)
    → IsInt n
    → env_int env key def ≡ n
unfolding env_int
env_int-set env key def n set h =
    rw (getenv-set env key (format_int n) set, format_int-some n, atoi-format_int n h) refl
