-- ===== src/Lint/Args/Ready.antt =====
-- What options `parse_args` lets through.
use dbopt.Base.{
  ℕ, ◌≡◌, refl, Bool, true, not, ◌&&◌, ◌||◌, Option, none, some, List, [], ◌∷◌, ◌++◌, leb,
  if◌then◌else◌, if_cases, arith,
}
use dbopt.Base.Bytes.{Bytes}
use dbopt.Base.Text.{is_empty, trim}
use dbopt.Lint.{Options}
use dbopt.Lint.Args.{
  Flag, max_per_rule, ignore, format, fail_on, server_version, Parsed, parsed, help, failed,
  unsupported_version, bad_value, unknown_flag, missing, no_paths, is_supported, year_of, u64_max,
  parse_unsigned, parse_severity, parse_format, parse_server_version, set_flag, help_flag,
  stdin_flag, unknown, path, valued, Arg, arm_of, parse_loop, parse_args, with_input, first_options,
  with_version, or_bad,
}

-- The version is a supported year, where one is set.
abbrev pub version_ok : Option ℕ → Bool
version_ok none = true
version_ok (some y) = is_supported y

-- Whatever was parsed passes a test.
abbrev pub Passes {ℓ} : {A : Type ℓ} → (A → Bool) → Parsed A → Type 0
Passes p (parsed a) = p a ≡ true
Passes p help = Unit
Passes p (failed e) = Unit

year_of-supported : (n : ℕ) → version_ok (year_of n) ≡ true
unfolding year_of
year_of-supported n = ground arith

-- A version that is accepted is a supported year, whatever the text was.
pub parse_server_version-supported : (v : Bytes) → Passes is_supported (parse_server_version v)
unfolding parse_server_version
parse_server_version-supported v = first (parse_unsigned u64_max (trim v))
  where
    second :
        (y : Option ℕ)
        → version_ok y ≡ true
        → Passes is_supported
            (elim y [ none ↦ failed (unsupported_version v) | some year ↦ parsed year ])
    second none h = tt
    second (some y) h = h

    first :
        (n : Option ℕ)
        → Passes is_supported (elim n [
          | none ↦ failed (bad_value server_version v)
          | some wide ↦ elim (year_of (if leb wide 65535 then wide else 65535)) [
            | none ↦ failed (unsupported_version v)
            | some year ↦ parsed year
          ]
        ])
    first none = tt
    first (some wide) =
        second (year_of (if leb wide 65535 then wide else 65535))
          (year_of-supported (if leb wide 65535 then wide else 65535))

abbrev version_fine : Options → Bool
version_fine o = version_ok o.server_version

or_bad-fine :
    {A : Type 0} (f : Flag) (v : Bytes) (a : Option A) (set : A → Options)
    → ((x : A) → version_fine (set x) ≡ true)
    → Passes version_fine (or_bad f v a set)
or_bad-fine f v none set h = tt
or_bad-fine f v (some a) set h = h a

with_version-fine :
    (o : Options) (n : Parsed ℕ) → Passes is_supported n → Passes version_fine (with_version o n)
with_version-fine o (parsed n) h = h
with_version-fine o help h = tt
with_version-fine o (failed e) h = tt

set_flag-fine :
    (o : Options) (f : Flag) (v : Bytes)
    → version_fine o ≡ true
    → Passes version_fine (set_flag o f v)
unfolding set_flag
set_flag-fine o max_per_rule v h =
    or_bad-fine max_per_rule v (parse_unsigned u64_max v) (λ n. record o { max_per_rule = some n })
      (λ x. h)
set_flag-fine o ignore v h = h
set_flag-fine o format v h =
    or_bad-fine format v (parse_format v) (λ x. record o { format = x }) (λ x. h)
set_flag-fine o fail_on v h =
    or_bad-fine fail_on v (parse_severity v) (λ s. record o { fail_on = s }) (λ x. h)
set_flag-fine o server_version v h =
    with_version-fine o (parse_server_version v) (parse_server_version-supported v)

abbrev last_arm : Options → Bytes → Arg → Parsed Options
last_arm o arg a = elim a [
  | help_flag ↦ help
  | stdin_flag ↦ parsed (record o { stdin = true })
  | unknown ↦ failed (unknown_flag arg)
  | path ↦ parsed (record o { paths = o.paths ++ arg ∷ [] })
  | valued f ↦ failed (missing f)
]

last_arm-fine :
    (o : Options) (arg : Bytes) (a : Arg)
    → version_fine o ≡ true
    → Passes version_fine (last_arm o arg a)
last_arm-fine o arg help_flag h = tt
last_arm-fine o arg stdin_flag h = h
last_arm-fine o arg unknown h = tt
last_arm-fine o arg path h = h
last_arm-fine o arg (valued f) h = tt

-- Behind the value of a flag.
abbrev then_loop : Parsed Options → List Bytes → Parsed Options
then_loop s rest = elim s [ help ↦ help | failed e ↦ failed e | parsed o ↦ parse_loop o rest ]

set_then-fine :
    (s : Parsed Options) (rest : List Bytes)
    → ((o : Options) → version_fine o ≡ true → Passes version_fine (parse_loop o rest))
    → Passes version_fine s
    → Passes version_fine (then_loop s rest)
set_then-fine help rest behind g = tt
set_then-fine (failed e) rest behind g = tt
set_then-fine (parsed o) rest behind g = behind o g

arm-fine :
    (o : Options) (arg v : Bytes) (rest : List Bytes)
    → version_fine o ≡ true
    → ((o : Options) → version_fine o ≡ true → Passes version_fine (parse_loop o (v ∷ rest)))
    → ((o : Options) → version_fine o ≡ true → Passes version_fine (parse_loop o rest))
    → (a : Arg)
    → Passes version_fine (elim a [
      | help_flag ↦ help
      | stdin_flag ↦ parse_loop (record o { stdin = true }) (v ∷ rest)
      | unknown ↦ failed (unknown_flag arg)
      | path ↦ parse_loop (record o { paths = o.paths ++ arg ∷ [] }) (v ∷ rest)
      | valued f ↦ then_loop (set_flag o f v) rest
    ])
arm-fine o arg v rest h next behind help_flag = tt
arm-fine o arg v rest h next behind stdin_flag = next (record o { stdin = true }) h
arm-fine o arg v rest h next behind unknown = tt
arm-fine o arg v rest h next behind path = next (record o { paths = o.paths ++ arg ∷ [] }) h
arm-fine o arg v rest h next behind (valued f) =
    set_then-fine (set_flag o f v) rest behind (set_flag-fine o f v h)

parse_loop-fine :
    (args : List Bytes) (o : Options)
    → version_fine o ≡ true
    → Passes version_fine (parse_loop o args)
unfolding parse_loop
parse_loop-fine [] o h = h
parse_loop-fine (arg ∷ []) o h = last_arm-fine o arg (arm_of arg) h
parse_loop-fine (arg ∷ v ∷ rest) o h =
    arm-fine o arg v rest h (λ o' g. parse_loop-fine (v ∷ rest) o' g)
      (λ o' g. parse_loop-fine rest o' g) (arm_of arg)

-- There is something to read, and the version is a supported year, where one is set.
abbrev pub is_ready : Options → Bool
is_ready o = (not (is_empty o.paths) || o.stdin) && version_ok o.server_version

with_input-ready : (p : Parsed Options) → Passes version_fine p → Passes is_ready (with_input p)
with_input-ready (parsed o) h =
    if_cases (Passes is_ready) (is_empty o.paths && not o.stdin) (failed no_paths) (parsed o)
      (λ e. tt) (λ e. ground (arith, h))
with_input-ready help h = tt
with_input-ready (failed e) h = tt

-- Options that `parse_args` accepts name a path or standard input, and their version, where one is
-- set, is a supported year.
pub parse_args-ready : (args : List Bytes) → Passes is_ready (parse_args args)
unfolding parse_args
parse_args-ready args =
    with_input-ready (parse_loop first_options args) (parse_loop-fine args first_options refl)
