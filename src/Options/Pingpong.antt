-- ===== src/Options/Pingpong.antt =====
-- performance/multi-node/rdm_pingpong.c: the options of `main`.
use cray_tests.Prelude.{
  ℕ, ◌<◌, ◌^◌, ◌≡◌, arith, Bool, true, false, Option, none, some, List, ◌==◌, if◌then◌else◌,
}
use cray_tests.Options.{
  Opt, atoi, positive, part, with_number, parse_all, ct_parse_std_opts, positive-InRange,
  part-bounds, with_number-keeps, parse_all-keeps,
}

-- The global variables that the options set, and the name of the provider in the hints.
pub record Settings : Type 0 where
  pub loop : ℕ
  pub skip : ℕ
  pub loop_large : ℕ
  pub skip_large : ℕ
  pub threads : ℕ
  pub thread_safe : Bool
  pub prov_name : Option (List ℕ)

abbrev pub defaults : Settings
defaults = record {
  loop = 10000;
  skip = 1000;
  loop_large = 100;
  skip_large = 10;
  threads = 1;
  thread_safe = true;
  prov_name = none;
}

abbrev with_loop : Settings → ℕ → Settings
with_loop s n = record s { loop = n; loop_large = part 100 n }

abbrev with_skip : Settings → ℕ → Settings
with_skip s n = record s { skip = n; skip_large = part 100 n }

abbrev with_threads : Settings → ℕ → Settings
with_threads s n = record s { threads = n }

-- The `switch`; `none` where the usage is printed and `main` returns.
unfoldable pub parse_opt : Settings → Opt → Option Settings
parse_opt s o =
    if o.op == b'l'
    then with_number (positive (atoi o.optarg)) (with_loop s)
    else if o.op == b'm'
    then some (record s { thread_safe = false })
    else if o.op == b's'
    then with_number (positive (atoi o.optarg)) (with_skip s)
    else if o.op == b't'
    then with_number (positive (atoi o.optarg)) (with_threads s)
    else if o.op == b'?'
    then none
    else if o.op == b'h'
    then none
    else some (record s { prov_name = ct_parse_std_opts o s.prov_name })

unfoldable pub parse_options : List Opt → Option Settings
unfolding parse_opt
parse_options opts = parse_all parse_opt defaults opts

-- The counts are at least 1 and fit an `int`.
pub record IsValid (s : Settings) : Type 0 where
  pub loop_pos : 0 < s.loop
  pub loop_int : s.loop < 2 ^ 31
  pub skip_pos : 0 < s.skip
  pub skip_int : s.skip < 2 ^ 31
  pub loop_large_pos : 0 < s.loop_large
  pub loop_large_int : s.loop_large < 2 ^ 31
  pub skip_large_pos : 0 < s.skip_large
  pub skip_large_int : s.skip_large < 2 ^ 31
  pub threads_pos : 0 < s.threads
  pub threads_int : s.threads < 2 ^ 31

parse_opt-IsValid :
    (s : Settings) (o : Opt) (s' : Settings) → IsValid s → parse_opt s o ≡ some s' → IsValid s'
unfolding parse_opt
parse_opt-IsValid s o s' v e =
    let keeps = λ (f : ℕ → Settings) (h : (n : ℕ) → 0 < n → n < 2 ^ 31 → IsValid (f n)).
      with_number-keeps IsValid (positive (atoi o.optarg)) f s' (positive-InRange o.optarg) h in
    ground (
      arith,
      keeps (with_loop s) (λ n lo hi. ground (arith, part-bounds 100 n)),
      keeps (with_skip s) (λ n lo hi. ground (arith, part-bounds 100 n)),
      keeps (with_threads s) (λ n lo hi. ground arith),
    )

-- Whatever the options are, the program ends with its usage or has counts that are at least 1 and
-- fit an `int`.
pub parse_options-IsValid :
    (opts : List Opt) (s : Settings) → parse_options opts ≡ some s → IsValid s
unfolding parse_options
parse_options-IsValid opts s e =
    parse_all-keeps parse_opt IsValid parse_opt-IsValid defaults opts s (omega arith) e
