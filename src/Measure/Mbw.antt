-- ===== src/Measure/Mbw.antt =====
-- performance/multi-node/rdm_mbw_mr.c: the measurements of `main`, and the table of the results.
pub mod Calls
pub mod Pairing
pub mod Results
use cray_tests.Prelude.{
  ℕ, zero, suc, ◌+◌, ◌-◌, ◌*◌, ◌/◌, ◌^◌, Bool, true, false, Option, none, some, List, [], ◌∷◌, ◌++◌,
  length, ◌==◌, ltb, if◌then◌else◌, Outcome, ok, aborted, fault, ◌>>=◌,
}
use cray_tests.Fabric.Mbw.Bandwidth.{SendRecvType, Event, calc_bw}
use cray_tests.Measure.Sizes.{sizes}

-- `MAX_MSG_SIZE` and `IOV_CNT`
abbrev pub max_msg_size : ℕ
max_msg_size = 2 ^ 22

abbrev pub iov_cnt_max : ℕ
iov_cnt_max = 8

-- `WINDOW_SIZES`
abbrev pub window_array : List ℕ
window_array = 8 ∷ 16 ∷ 32 ∷ 64 ∷ 128 ∷ []

-- The values of `type` before `FIN`, in order.
abbrev pub types : List SendRecvType
types =
    SendRecvType.send_recv ∷ SendRecvType.sendv_recvv ∷ SendRecvType.send_recvv
    ∷ SendRecvType.sendv_recv ∷ []

-- The arguments of a call of `calc_bw` that change; `iov_len` is the length that `main` sets in each
-- of the first `iov_cnt` vectors before the call.
pub record Call : Type 0 where
  pub window_size : ℕ
  pub iov_cnt : ℕ
  pub iov_len : ℕ
  pub buf_len : ℕ
  pub type : SendRecvType

-- A loop over the values of a list.
unfoldable pub for_each {ℓ κ} : {A : Type ℓ} {B : Type κ} → List A → (A → List B) → List B
for_each [] body = []
for_each (a ∷ list) body = body a ++ for_each list body

-- `for (c = ...; c < IOV_CNT; c++)`, with `n` rounds left.
unfoldable pub parts : SendRecvType → ℕ → ℕ → ℕ → ℕ → List Call
parts type window_size curr_size c zero = []
parts type window_size curr_size c (suc n) =
    record {
      window_size = window_size;
      iov_cnt = c + 1;
      iov_len = curr_size;
      buf_len = (c + 1) * curr_size;
      type = type;
    }
    ∷ parts type window_size curr_size (c + 1) n

-- The calls for one type: with each window size of the array, or with the one that was set.
unfoldable pub calls_of_type : Bool → ℕ → SendRecvType → List Call
unfolding for_each parts
calls_of_type true window_size type =
    for_each (sizes max_msg_size)
      (λ curr_size. for_each window_array (λ w. parts type w curr_size 0 iov_cnt_max))
calls_of_type false window_size type =
    for_each (sizes max_msg_size) (λ curr_size. parts type window_size curr_size 0 iov_cnt_max)

-- With a varied window the variable is raised to the largest one of the array after the first type,
-- which only changes what is printed.
unfoldable pub calls : Bool → ℕ → List Call
unfolding calls_of_type
calls window_varied window_size = for_each types (calls_of_type window_varied window_size)

-- What a rank does in the calls, one after the other.
unfoldable pub run_calls : ℕ → ℕ → List Call → Outcome (List Event)
run_calls rank pairs [] = ok []
run_calls rank pairs (call ∷ more) = do
  events ← calc_bw rank pairs call.window_size call.iov_cnt call.buf_len call.type
  rest ← run_calls rank pairs more
  ok (events ++ rest)

-- `main` of a rank from the measurements to its end.
unfoldable pub main_events : ℕ → ℕ → Bool → ℕ → Outcome (List Event)
unfolding calls run_calls
main_events rank pairs window_varied window_size = do
  events ← run_calls rank pairs (calls window_varied window_size)
  ok (events ++ Event.barrier ∷ Event.barrier ∷ [])

-- `log_val`, from the message size that is halved, on fuel.
unfoldable pub log_loop : ℕ → ℕ → ℕ → ℕ
log_loop zero size log_val = log_val
log_loop (suc fuel) size log_val =
    let rest = log_loop fuel (size / 2) (log_val + 1) in if size / 2 == 0 then log_val else rest

unfoldable pub log_val : ℕ → ℕ
unfolding log_loop
log_val max = log_loop max max 1

-- `bandwidth_results`: `log_val` rows of one entry for each window size. A write elsewhere is one
-- past the memory.
abbrev pub Table : Type 0
Table = ℕ → ℕ → ℕ

abbrev pub put : Table → ℕ → ℕ → ℕ → Table
put t j i v j' i' = if j' == j then (if i' == i then v else t j' i') else t j' i'

unfoldable pub write : ℕ → Table → ℕ → ℕ → ℕ → Outcome Table
write rows t j i v =
    if ltb j rows then (if ltb i (length window_array) then ok (put t j i v) else fault) else fault

-- The loops of `main` that fill the table, where `bw j i c` is what `calc_bw` returns.
unfoldable pub fill_parts : (ℕ → ℕ → ℕ → ℕ) → ℕ → ℕ → ℕ → ℕ → ℕ → Table → Outcome Table
unfolding write
fill_parts bw rows j i c zero t = ok t
fill_parts bw rows j i c (suc n) t = do
  written ← write rows t j i (bw j i c)
  fill_parts bw rows j i (suc c) n written

unfoldable pub fill_row : (ℕ → ℕ → ℕ → ℕ) → ℕ → ℕ → ℕ → ℕ → Table → Outcome Table
unfolding fill_parts
fill_row bw rows j i zero t = ok t
fill_row bw rows j i (suc n) t = do
  filled ← fill_parts bw rows j i 0 iov_cnt_max t
  fill_row bw rows j (suc i) n filled

unfoldable pub fill_rows : (ℕ → ℕ → ℕ → ℕ) → ℕ → ℕ → List ℕ → Table → Outcome Table
unfolding fill_row
fill_rows bw rows j [] t = ok t
fill_rows bw rows j (curr_size ∷ more) t = do
  filled ← fill_row bw rows j 0 (length window_array) t
  fill_rows bw rows (suc j) more filled

unfoldable pub bandwidth_results : (ℕ → ℕ → ℕ → ℕ) → ℕ → Table → Outcome Table
unfolding fill_rows log_val
bandwidth_results bw max t = fill_rows bw (log_val max) 0 (sizes max) t
