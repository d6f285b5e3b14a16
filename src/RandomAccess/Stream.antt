-- ===== src/RandomAccess/Stream.antt =====
-- performance/multi-node/random_access.c: the pseudo-random stream of updates (`update_table`'s
-- step) and `generate_initial_xor_val`, which jumps to a place in it. A `uint64_t` is a number
-- below 2 ^ 64; `(int64_t)x < 0` holds when bit 63 of `x` is set.
pub mod Linear
mod Square
pub mod Jump
use cray_tests.Prelude.{
  ℕ, zero, suc, ◌+◌, ◌-◌, ◌*◌, ◌/◌, ◌%◌, ◌^◌, bit_xor, Bool, Option, none, some, List, [], ◌∷◌, ltb,
  leb, ◌==◌, if◌then◌else◌,
}

abbrev pub poly : ℕ
poly = 7

abbrev pub period : ℕ
period = 1317624576693539401

-- `(ran << 1) ^ ((int64_t)ran < 0 ? POLY : 0)`
unfoldable pub next_ran : ℕ → ℕ
next_ran ran = bit_xor (ran * 2 % 2 ^ 64) (if leb (2 ^ 63) ran then poly else 0)

-- `(x >> i) & 1`
abbrev pub bit : ℕ → ℕ → Bool
bit x i = x / 2 ^ i % 2 == 1

-- `while (seed > PERIOD) seed -= PERIOD;` Each round lowers the seed, so the seed itself is enough
-- fuel.
pub reduce_seed : ℕ → ℕ → ℕ
reduce_seed zero seed = seed
reduce_seed (suc fuel) seed =
    let rest = reduce_seed fuel (seed - period) in if ltb period seed then rest else seed

-- The loop that fills `m2`, with `n` rounds left.
unfoldable pub fill_m2 : ℕ → ℕ → List ℕ
fill_m2 zero temp = []
fill_m2 (suc n) temp = temp ∷ fill_m2 n (next_ran (next_ran temp))

abbrev pub m2 : List ℕ
m2 = fill_m2 64 1

-- `for (i = n - 1; i >= 0; i--) if ((seed >> i) & 1) break;` where `none` is the end at i = -1.
pub top_bit : ℕ → ℕ → Option ℕ
top_bit zero seed = none
top_bit (suc i) seed = if bit seed i then some i else top_bit i seed

-- The inner loop over `j`: `temp ^= m2[j]` for each bit of `ret`.
pub combine : List ℕ → ℕ → ℕ → ℕ → ℕ
combine [] j ret temp = temp
combine (m ∷ ms) j ret temp = combine ms (j + 1) ret (if bit ret j then bit_xor temp m else temp)

-- `while (i > 0) { … }`
pub jump : ℕ → ℕ → ℕ → ℕ
unfolding combine
jump zero seed ret = ret
jump (suc i) seed ret =
    let squared = combine m2 0 ret 0 in
    jump i seed (if bit seed i then next_ran squared else squared)

jump_from : Option ℕ → ℕ → ℕ
unfolding jump
jump_from none seed = 2
jump_from (some i) seed = jump i seed 2

unfoldable pub generate_initial_xor_val : ℕ → ℕ
unfolding reduce_seed top_bit jump_from
generate_initial_xor_val seed =
    let reduced = reduce_seed seed seed in
    if reduced == 0 then 1 else jump_from (top_bit 63 reduced) reduced
