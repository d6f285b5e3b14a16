-- ===== src/Options/Mbw.antt =====
-- performance/multi-node/rdm_mbw_mr.c: the options of `main`.
use mathlib.Core.Path.{subst}
use mathlib.Core.Option.{some-injective}
use cray_tests.Prelude.{
  ℕ, zero, suc, ◌/◌, ◌≡◌, arith, Bool, true, false, Option, none, some, List, ◌==◌, leb,
  if◌then◌else◌,
}
use cray_tests.Fabric.Libfabric.{ℤ, pos, negsuc}
use cray_tests.Fabric.Mbw.{TestType}
use cray_tests.Fabric.Mbw.Wait.{WaitType}
use cray_tests.Options.{Opt, atoi, parse_all, ct_parse_std_opts, parse_all-keeps}

-- The variables that the options set, and the name of the provider in the hints.
pub record Settings : Type 0 where
  pub pairs : ℤ
  pub window_size : ℤ
  pub window_varied : Bool
  pub print_rate : Bool
  pub wait_type : WaitType
  pub test_type : TestType
  pub prov_name : Option (List ℕ)

unfoldable pub defaults : ℕ → Settings
defaults numprocs = record {
  pairs = pos (numprocs / 2);
  window_size = pos 64;
  window_varied = false;
  print_rate = true;
  wait_type = WaitType.wait_none;
  test_type = TestType.cq_test;
  prov_name = none;
}

-- `FI_WAIT_NONE`, `FI_WAIT_UNSPEC` and `FI_WAIT_SET` are 0, 1 and 2.
abbrev pub wait_of : ℤ → Option WaitType
wait_of (pos zero) = some WaitType.wait_none
wait_of (pos (suc zero)) = some WaitType.wait_unspec
wait_of (pos (suc (suc zero))) = some WaitType.wait_set
wait_of _ = none

abbrev pub test_of : ℤ → Option TestType
test_of (pos zero) = some TestType.cq_test
test_of (pos (suc zero)) = some TestType.cntr_test
test_of _ = none

abbrev pub flag_of : ℤ → Option Bool
flag_of (pos zero) = some false
flag_of (pos (suc zero)) = some true
flag_of _ = none

-- `pairs <= bound`
abbrev pub at_most : ℕ → ℤ → Bool
at_most bound (pos n) = leb n bound
at_most bound (negsuc n) = true

abbrev with_value {ℓ} : {A : Type ℓ} → Option A → (A → Settings) → Option Settings
with_value none f = none
with_value (some a) f = some (f a)

-- The `switch`; `none` where the usage is printed and `main` returns.
unfoldable pub parse_opt : ℕ → Settings → Opt → Option Settings
parse_opt numprocs s o =
    if o.op == b'x'
    then (if at_most (numprocs / 2) (atoi o.optarg)
        then some (record s { pairs = atoi o.optarg })
        else none)
    else if o.op == b'm'
    then with_value (wait_of (atoi o.optarg)) (λ t. record s { wait_type = t })
    else if o.op == b'c'
    then with_value (test_of (atoi o.optarg)) (λ t. record s { test_type = t })
    else if o.op == b'w'
    then some (record s { window_size = atoi o.optarg })
    else if o.op == b'v'
    then some (record s { window_varied = true })
    else if o.op == b'r'
    then with_value (flag_of (atoi o.optarg)) (λ b. record s { print_rate = b })
    else if o.op == b'?'
    then none
    else if o.op == b'h'
    then none
    else some (record s { prov_name = ct_parse_std_opts o s.prov_name })

unfoldable pub parse_options : ℕ → List Opt → Option Settings
unfolding parse_opt defaults
parse_options numprocs opts = parse_all (parse_opt numprocs) (defaults numprocs) opts

-- Each pair is two ranks that exist.
abbrev pub PairsFit : ℕ → Settings → Type 0
PairsFit numprocs s = at_most (numprocs / 2) s.pairs ≡ true

with_value-PairsFit {ℓ} :
    {A : Type ℓ} (numprocs : ℕ) (m : Option A) (f : A → Settings) (s' : Settings)
    → ((a : A) → PairsFit numprocs (f a))
    → with_value m f ≡ some s'
    → PairsFit numprocs s'
with_value-PairsFit numprocs none f s' h e = absurd (cc)
with_value-PairsFit numprocs (some a) f s' h e =
    subst (PairsFit numprocs) (some-injective (f a) s' e) (h a)

parse_opt-PairsFit :
    (numprocs : ℕ) (s : Settings) (o : Opt) (s' : Settings)
    → PairsFit numprocs s
    → parse_opt numprocs s o ≡ some s'
    → PairsFit numprocs s'
unfolding parse_opt
parse_opt-PairsFit numprocs s o s' v e = ground (
  arith,
  with_value-PairsFit numprocs (wait_of (atoi o.optarg)) (λ t. record s { wait_type = t }) s'
      (λ t. v),
  with_value-PairsFit numprocs (test_of (atoi o.optarg)) (λ t. record s { test_type = t }) s'
      (λ t. v),
  with_value-PairsFit numprocs (flag_of (atoi o.optarg)) (λ b. record s { print_rate = b }) s'
      (λ t. v),
)

pub parse_options-PairsFit :
    (numprocs : ℕ) (opts : List Opt) (s : Settings)
    → parse_options numprocs opts ≡ some s
    → PairsFit numprocs s
unfolding parse_options
parse_options-PairsFit numprocs opts s e =
    parse_all-keeps (parse_opt numprocs) (PairsFit numprocs) (parse_opt-PairsFit numprocs)
      (defaults numprocs) opts s (ground arith) e
