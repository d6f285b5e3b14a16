-- ===== src/Measure/Pingpong/Rounds.antt =====
-- performance/multi-node/rdm_pingpong.c: the rounds of `main`.
use cray_tests.Prelude.{ℕ, ◌*◌, ◌≡◌, refl, ap₂, ◌∙◌, arith, false, some, List, [], ◌∷◌, map, ltb}
use cray_tests.Options.{Opt}
use cray_tests.Options.Pingpong.{Settings, parse_options, parse_options-IsValid}
use cray_tests.Measure.Sizes.{sizes, AllAtMost, sizes-AllAtMost}
use cray_tests.Measure.Rounds.{Sweep, main_rounds, settings_for, main_rounds-map}

-- `MAX_MSG_SIZE`
abbrev pub max_msg_size : ℕ
max_msg_size = 8 * 1024

abbrev pub sweep : Sweep
sweep = record {
  Settings = Settings;
  threads = λ s. s.threads;
  large = λ s. record s { loop = s.loop_large; skip = s.skip_large };
  large-large = λ s. refl;
  threads-large = λ s. refl;
}

settings_for-small :
    (s : Settings) (list : List ℕ)
    → AllAtMost max_msg_size list
    → map {B = ℕ × Settings} (λ n. (n, settings_for sweep s n)) list ≡ map (λ n. (n, s)) list
settings_for-small s [] h = refl
settings_for-small s (n ∷ list) (le, h) =
    let small : ltb 8192 n ≡ false = ground arith in
    let here : settings_for sweep s n ≡ s = rw small refl in
    ap₂ (λ (t : Settings) (rest : List (ℕ × Settings)). (n, t) ∷ rest) here
      (settings_for-small s list h)

-- Whatever options are accepted, every round has the counts of the options: the largest size is not
-- above `large_message_size`, so that the counts for large messages are never used.
pub main_rounds-constant :
    (opts : List Opt) (s : Settings)
    → parse_options opts ≡ some s
    → main_rounds sweep max_msg_size s ≡ map (λ n. (n, s)) (sizes max_msg_size)
main_rounds-constant opts s e =
    let some_thread = (parse_options-IsValid opts s e).threads_pos in
    main_rounds-map sweep max_msg_size s some_thread
    ∙ settings_for-small s (sizes max_msg_size) (sizes-AllAtMost max_msg_size)
