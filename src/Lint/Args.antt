-- ===== src/Lint/Args.antt =====
-- crates/analyzer-cli/src/lint.rs: the arguments of `dbopt lint`. An error's text is a value of
-- `ArgError`.
pub mod Ready
use dbopt.Base.{
  ℕ, zero, suc, ◌+◌, ◌-◌, ◌*◌, ◌≡◌, refl, Bool, true, false, not, ◌&&◌, ◌||◌, Option, none, some,
  List, [], ◌∷◌, ◌++◌, ltb, leb, ◌==◌, if◌then◌else◌, any, Bool-cases, inl, inr, arith,
}
use dbopt.Base.Bytes.{Bytes, codes, is_digit, eq_bytes, lowercase, starts_with}
use dbopt.Base.Text.{trim, is_empty}
use dbopt.Findings.{Severity, info, warning, error, critical}
use dbopt.Suppress.{split_specs}
use dbopt.Lint.{Format, human, json, sarif, Options}

-- The flags that take a value.
pub data Flag : Type 0 where
  max_per_rule ignore format fail_on server_version : Flag

pub data ArgError : Type 0 where
  missing : Flag → ArgError
  bad_value : Flag → Bytes → ArgError
  unsupported_version : Bytes → ArgError
  unknown_flag : Bytes → ArgError
  no_paths : ArgError

pub data Parsed {ℓ} (A : Type ℓ) : Type ℓ where
  parsed : A → Parsed A
  help : Parsed A
  failed : ArgError → Parsed A

abbrev digits_from : ℕ → Bytes → Option ℕ
digits_from n [] = some n
digits_from n (b ∷ bs) =
    let rest = digits_from (n * 10 + (b - b'0')) bs in if is_digit b then rest else none

abbrev without_plus : Bytes → Bytes
without_plus [] = []
without_plus (b ∷ bs) = if b == b'+' then bs else b ∷ bs

abbrev at_most : ℕ → Option ℕ → Option ℕ
at_most max none = none
at_most max (some n) = if leb n max then some n else none

-- `str::parse` of an unsigned type with a greatest value.
unfoldable pub parse_unsigned : ℕ → Bytes → Option ℕ
unfolding is_digit
parse_unsigned max s =
    if is_empty (without_plus s) then none else at_most max (digits_from 0 (without_plus s))

abbrev u64_max : ℕ
u64_max = 18446744073709551615

unfoldable pub parse_severity : Bytes → Option Severity
unfolding lowercase eq_bytes
parse_severity v =
    let word = lowercase v in
    if eq_bytes word (codes "info")
    then some info
    else if eq_bytes word (codes "warning") || eq_bytes word (codes "warn")
    then some warning
    else if eq_bytes word (codes "error")
    then some error
    else if eq_bytes word (codes "critical")
    then some critical
    else none

-- The years that are supported.
abbrev pub is_supported : ℕ → Bool
is_supported n = any (λ y. n == y) (2014 ∷ 2016 ∷ 2017 ∷ 2019 ∷ 2022 ∷ 2025 ∷ [])

-- The year of a year or of an internal major version.
unfoldable pub year_of : ℕ → Option ℕ
year_of n =
    if is_supported n
    then some n
    else if n == 12
    then some 2014
    else if n == 13
    then some 2016
    else if n == 14
    then some 2017
    else if n == 15
    then some 2019
    else if n == 16
    then some 2022
    else if n == 17
    then some 2025
    else none

unfoldable pub parse_server_version : Bytes → Parsed ℕ
unfolding parse_unsigned trim year_of
parse_server_version v = elim (parse_unsigned u64_max (trim v)) [
  | none ↦ failed (bad_value server_version v)
  | some wide ↦ elim (year_of (if leb wide 65535 then wide else 65535)) [
    | none ↦ failed (unsupported_version v)
    | some year ↦ parsed year
  ]
]

unfoldable pub parse_format : Bytes → Option Format
unfolding eq_bytes
parse_format v =
    if eq_bytes v (codes "human")
    then some human
    else if eq_bytes v (codes "json")
    then some json
    else if eq_bytes v (codes "sarif")
    then some sarif
    else none

abbrev or_bad {ℓ} : {A : Type ℓ} → Flag → Bytes → Option A → (A → Options) → Parsed Options
or_bad f v none set = failed (bad_value f v)
or_bad f v (some a) set = parsed (set a)

abbrev with_version : Options → Parsed ℕ → Parsed Options
with_version o (parsed n) = parsed (record o { server_version = some n })
with_version o help = help
with_version o (failed e) = failed e

-- The arm of a flag with its value.
unfoldable pub set_flag : Options → Flag → Bytes → Parsed Options
unfolding parse_unsigned parse_severity parse_server_version parse_format split_specs
set_flag o max_per_rule v =
    or_bad max_per_rule v (parse_unsigned u64_max v) (λ n. record o { max_per_rule = some n })
set_flag o ignore v = parsed (record o { ignore = o.ignore ++ split_specs v })
set_flag o format v = or_bad format v (parse_format v) (λ f. record o { format = f })
set_flag o fail_on v = or_bad fail_on v (parse_severity v) (λ s. record o { fail_on = s })
set_flag o server_version v = with_version o (parse_server_version v)

pub data Arg : Type 0 where
  help_flag stdin_flag unknown path : Arg
  valued : Flag → Arg

-- The arm of the match that an argument takes.
unfoldable pub arm_of : Bytes → Arg
unfolding eq_bytes starts_with
arm_of arg =
    if eq_bytes arg (codes "--help") || eq_bytes arg (codes "-h")
    then help_flag
    else if eq_bytes arg (codes "--stdin")
    then stdin_flag
    else if eq_bytes arg (codes "--max-per-rule")
    then valued max_per_rule
    else if eq_bytes arg (codes "--ignore")
    then valued ignore
    else if eq_bytes arg (codes "--format")
    then valued format
    else if eq_bytes arg (codes "--fail-on")
    then valued fail_on
    else if eq_bytes arg (codes "--server-version")
    then valued server_version
    else if starts_with (codes "--") arg
    then unknown
    else path

-- The loop over the arguments.
unfoldable pub parse_loop : Options → List Bytes → Parsed Options
unfolding arm_of set_flag
parse_loop o [] = parsed o
parse_loop o (arg ∷ []) = elim (arm_of arg) [
  | help_flag ↦ help
  | stdin_flag ↦ parsed (record o { stdin = true })
  | unknown ↦ failed (unknown_flag arg)
  | path ↦ parsed (record o { paths = o.paths ++ arg ∷ [] })
  | valued f ↦ failed (missing f)
]
parse_loop o (arg ∷ v ∷ rest) = elim (arm_of arg) [
  | help_flag ↦ help
  | stdin_flag ↦ parse_loop (record o { stdin = true }) (v ∷ rest)
  | unknown ↦ failed (unknown_flag arg)
  | path ↦ parse_loop (record o { paths = o.paths ++ arg ∷ [] }) (v ∷ rest)
  | valued f ↦ elim (set_flag o f v) [
    | help ↦ help
    | failed e ↦ failed e
    | parsed o' ↦ parse_loop o' rest
  ]
]

abbrev first_options : Options
first_options = record {
  paths = [];
  format = human;
  fail_on = error;
  server_version = none;
  ignore = [];
  stdin = false;
  max_per_rule = none;
}

abbrev with_input : Parsed Options → Parsed Options
with_input (parsed o) = if is_empty o.paths && not o.stdin then failed no_paths else parsed o
with_input help = help
with_input (failed e) = failed e

unfoldable pub parse_args : List Bytes → Parsed Options
unfolding parse_loop
parse_args args = with_input (parse_loop first_options args)
