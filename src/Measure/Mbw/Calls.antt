-- ===== src/Measure/Mbw/Calls.antt =====
-- performance/multi-node/rdm_mbw_mr.c: the measurements of `main` fit its buffers.
use native.Mathlib.Nat.{mul-le-mul}
use cray_tests.Prelude.{
  ℕ, zero, suc, ◌+◌, ◌*◌, ◌<◌, ◌≤◌, ◌≡◌, ◌≢◌, refl, arith, Bool, true, false, List, [], ◌∷◌, ◌++◌,
}
use cray_tests.Fabric.Mbw.Bandwidth.{SendRecvType}
use cray_tests.Measure.Sizes.{sizes, AllAtMost, sizes-AllAtMost}
use cray_tests.Measure.Mbw.{
  Call, max_msg_size, iov_cnt_max, window_array, types, for_each, parts, calls_of_type, calls,
}

abbrev pub All {ℓ κ} : {A : Type ℓ} → (A → Type κ) → List A → Type κ
All P [] = Unit
All P (a ∷ list) = P a × All P list

All-append {ℓ κ} :
    {A : Type ℓ} (P : A → Type κ) (xs ys : List A) → All P xs → All P ys → All P (xs ++ ys)
All-append P [] ys p q = q
All-append P (x ∷ xs) ys (h, p) q = (h, All-append P xs ys p q)

All-for_each {ℓ κ ι} :
    {A : Type ℓ} {B : Type κ} (P : B → Type ι) (list : List A) (body : A → List B)
    → All (λ a. All P (body a)) list
    → All P (for_each list body)
unfolding for_each
All-for_each P [] body h = tt
All-for_each P (a ∷ list) body (p, h) =
    All-append P (body a) (for_each list body) p (All-for_each P list body h)

-- A call that measures something, with messages that fit the buffers.
pub record IsMeasured (c : Call) : Type 0 where
  pub window_pos : 0 < c.window_size
  pub kind : c.type ≢ SendRecvType.fin
  pub iov_fits : c.iov_len ≤ max_msg_size
  pub iovs_fit : c.iov_cnt ≤ iov_cnt_max
  pub buf_fits : c.buf_len ≤ max_msg_size * iov_cnt_max
  pub whole : c.buf_len ≡ c.iov_cnt * c.iov_len

product_le : (a b : ℕ) → a ≤ iov_cnt_max → b ≤ max_msg_size → a * b ≤ max_msg_size * iov_cnt_max
product_le a b h k = let p = mul-le-mul {n₁ = a} {m₁ = b} {n₂ = 8} {m₂ = 4194304} h k in omega arith

parts-IsMeasured :
    (type : SendRecvType) (window_size curr_size c n : ℕ)
    → 0 < window_size
    → type ≢ SendRecvType.fin
    → curr_size ≤ max_msg_size
    → c + n ≤ iov_cnt_max
    → All IsMeasured (parts type window_size curr_size c n)
unfolding parts
parts-IsMeasured type window_size curr_size c zero window kind le bound = tt
parts-IsMeasured type window_size curr_size c (suc n) window kind le bound = (
  record {
    window_pos = window;
    kind = kind;
    iov_fits = le;
    iovs_fit = omega arith;
    buf_fits = product_le (c + 1) curr_size (omega arith) le;
    whole = refl;
  },
  parts-IsMeasured type window_size curr_size (c + 1) n window kind le (omega arith),
)

-- The calls of one type, for sizes that fit.
sizes-IsMeasured :
    (list : List ℕ) (body : ℕ → List Call)
    → AllAtMost max_msg_size list
    → ((curr_size : ℕ) → curr_size ≤ max_msg_size → All IsMeasured (body curr_size))
    → All (λ curr_size. All IsMeasured (body curr_size)) list
sizes-IsMeasured [] body h each = tt
sizes-IsMeasured (x ∷ list) body (le, h) each = (each x le, sizes-IsMeasured list body h each)

sweep-IsMeasured :
    (body : ℕ → List Call)
    → ((curr_size : ℕ) → curr_size ≤ max_msg_size → All IsMeasured (body curr_size))
    → All IsMeasured (for_each (sizes max_msg_size) body)
sweep-IsMeasured body each =
    All-for_each IsMeasured (sizes max_msg_size) body
      (sizes-IsMeasured (sizes max_msg_size) body (sizes-AllAtMost max_msg_size) each)

windows-IsMeasured :
    (type : SendRecvType) (curr_size : ℕ)
    → type ≢ SendRecvType.fin
    → curr_size ≤ max_msg_size
    → All IsMeasured (for_each window_array (λ w. parts type w curr_size 0 iov_cnt_max))
windows-IsMeasured type curr_size kind le =
    let each = λ (w : ℕ) (window : 0 < w).
      parts-IsMeasured type w curr_size 0 8 window kind le (omega arith) in
    All-for_each IsMeasured window_array (λ w. parts type w curr_size 0 iov_cnt_max)
      (
        each 8 (omega arith),
        (
          each 16 (omega arith),
          (each 32 (omega arith), (each 64 (omega arith), (each 128 (omega arith), tt))),
        ),
      )

calls_of_type-IsMeasured :
    (window_varied : Bool) (window_size : ℕ) (type : SendRecvType)
    → 0 < window_size
    → type ≢ SendRecvType.fin
    → All IsMeasured (calls_of_type window_varied window_size type)
unfolding calls_of_type
calls_of_type-IsMeasured true window_size type window kind =
    sweep-IsMeasured
      (λ curr_size. for_each window_array (λ w. parts type w curr_size 0 iov_cnt_max))
      (λ curr_size le. windows-IsMeasured type curr_size kind le)
calls_of_type-IsMeasured false window_size type window kind =
    sweep-IsMeasured (λ curr_size. parts type window_size curr_size 0 iov_cnt_max)
      (λ curr_size le. parts-IsMeasured type window_size curr_size 0 8 window kind le (omega arith))

-- Every measurement, with the window sizes of the array or one that is not empty, has messages that
-- fit the vectors and the buffers of `main`, as long as their parts together, and a type that
-- `calc_bw` knows.
pub calls-IsMeasured :
    (window_varied : Bool) (window_size : ℕ)
    → 0 < window_size
    → All IsMeasured (calls window_varied window_size)
unfolding calls
calls-IsMeasured window_varied window_size window =
    let each = λ (type : SendRecvType) (kind : type ≢ SendRecvType.fin).
      calls_of_type-IsMeasured window_varied window_size type window kind in
    All-for_each IsMeasured types (calls_of_type window_varied window_size) (
      each SendRecvType.send_recv (λ e. cc),
      (
        each SendRecvType.sendv_recvv (λ e. cc),
        (each SendRecvType.send_recvv (λ e. cc), (each SendRecvType.sendv_recv (λ e. cc), tt)),
      ),
    )
