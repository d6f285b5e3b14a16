-- ===== src/Options/RandomAccess.antt =====
-- performance/multi-node/random_access.c: the options of `main`.
use cray_tests.Prelude.{
  ℕ, ◌-◌, ◌%◌, ◌^◌, ◌<◌, ◌≡◌, refl, arith, Bool, true, false, Option, none, some, List, ◌==◌,
  if◌then◌else◌,
}
use cray_tests.Fabric.Libfabric.{ℤ, pos, negsuc}
use cray_tests.Options.{
  Opt, atoi, strtol, positive, with_number, parse_all, ct_parse_std_opts, positive-InRange,
  with_number-keeps, parse_all-keeps,
}

-- `struct test_tunables`, and the name of the provider in the hints.
pub record Tunables : Type 0 where
  pub total_mem_opt : ℕ
  pub num_updates_opt : ℕ
  pub use_auth_keys : Bool
  pub prov_name : Option (List ℕ)

abbrev pub defaults : Tunables
defaults = record {
  total_mem_opt = 0;
  num_updates_opt = 0;
  use_auth_keys = false;
  prov_name = none;
}

-- A `long` as a `uint64_t`.
abbrev pub to_word : ℤ → ℕ
to_word (pos n) = n % 2 ^ 64
to_word (negsuc n) = 2 ^ 64 - 1 - n % 2 ^ 64

abbrev with_updates : Tunables → ℕ → Tunables
with_updates t n = record t { num_updates_opt = n }

-- The `switch`, with `HAVE_DRC` given; `none` where the usage is printed and `main` returns. The
-- test `total_mem_opt <= 0` is one of an unsigned number. `atoll` is `strtol`.
unfoldable pub parse_opt : Bool → Tunables → Opt → Option Tunables
parse_opt have_drc t o =
    if o.op == b'm'
    then (if to_word (strtol o.optarg) == 0
        then none
        else some (record t { total_mem_opt = to_word (strtol o.optarg) }))
    else if o.op == b'n'
    then with_number (positive (atoi o.optarg)) (with_updates t)
    else if o.op == b'a'
    then some (if have_drc then record t { use_auth_keys = true } else t)
    else if o.op == b'?'
    then none
    else if o.op == b'h'
    then none
    else some (record t { prov_name = ct_parse_std_opts o t.prov_name })

unfoldable pub parse_options : Bool → List Opt → Option Tunables
unfolding parse_opt
parse_options have_drc opts = parse_all (parse_opt have_drc) defaults opts

-- The numbers fit their types, and keys are only used with DRC.
pub record IsValid (have_drc : Bool) (t : Tunables) : Type 0 where
  pub mem_word : t.total_mem_opt < 2 ^ 64
  pub updates_int : t.num_updates_opt < 2 ^ 31
  pub keys_drc : have_drc ≡ false → t.use_auth_keys ≡ false

to_word-lt : (i : ℤ) → to_word i < 2 ^ 64
to_word-lt (pos n) = omega arith
to_word-lt (negsuc n) = omega arith

parse_opt-IsValid :
    (have_drc : Bool) (t : Tunables) (o : Opt) (t' : Tunables)
    → IsValid have_drc t
    → parse_opt have_drc t o ≡ some t'
    → IsValid have_drc t'
unfolding parse_opt
parse_opt-IsValid true t o t' v e = ground (
  arith,
  to_word-lt (strtol o.optarg),
  with_number-keeps (IsValid true) (positive (atoi o.optarg)) (with_updates t) t'
      (positive-InRange o.optarg)
      (λ n lo hi. record { mem_word = v.mem_word; updates_int = hi; keys_drc = v.keys_drc }),
)
parse_opt-IsValid false t o t' v e =
    let kept = v.keys_drc refl in
    ground (
      arith,
      to_word-lt (strtol o.optarg),
      with_number-keeps (IsValid false) (positive (atoi o.optarg)) (with_updates t) t'
          (positive-InRange o.optarg)
          (λ n lo hi. record { mem_word = v.mem_word; updates_int = hi; keys_drc = v.keys_drc }),
    )

-- Whatever the options are, the program ends with its usage or has numbers that fit their types,
-- and uses authorization keys only where DRC is there.
pub parse_options-IsValid :
    (have_drc : Bool) (opts : List Opt) (t : Tunables)
    → parse_options have_drc opts ≡ some t
    → IsValid have_drc t
unfolding parse_options
parse_options-IsValid have_drc opts t e =
    parse_all-keeps (parse_opt have_drc) (IsValid have_drc) (parse_opt-IsValid have_drc) defaults
      opts t (record { mem_word = omega arith; updates_int = omega arith; keys_drc = λ _. refl }) e
