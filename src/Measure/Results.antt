-- ===== src/Measure/Results.antt =====
-- performance/multi-node/rdm_one_sided.c and rdm_pingpong.c: how `main` puts the results of the
-- threads together. The threads divide their times by the same number, so that a latency is given by
-- its dividend in microseconds; the rounding of the division and of the sum is left out.
use mathlib.Core.Path.{subst}
use cray_tests.Prelude.{
  ℕ, ◌+◌, ◌%◌, ◌^◌, ◌<◌, ◌≤◌, ◌≡◌, refl, arith, ◌⊎◌, Bool-cases, inl, inr, List, [], ◌∷◌, ltb,
  if◌then◌else◌,
}

-- What `thread_fn` leaves in `struct per_thread_data`.
pub record Result : Type 0 where
  pub latency : ℕ
  pub bytes_sent : ℕ
  pub time_start : ℕ
  pub time_end : ℕ

-- The variables of `main`.
pub record Summary : Type 0 where
  pub min_lat : ℕ
  pub max_lat : ℕ
  pub sum_lat : ℕ
  pub bytes_sent : ℕ
  pub time_start : ℕ
  pub time_end : ℕ

abbrev pub first : Result → Summary
first r = record {
  min_lat = r.latency;
  max_lat = r.latency;
  sum_lat = r.latency;
  bytes_sent = r.bytes_sent;
  time_start = r.time_start;
  time_end = r.time_end;
}

-- The body of the loop; a latency below the least one is not compared with the greatest.
unfoldable pub add_result : Summary → Result → Summary
add_result s r = record {
  min_lat = if ltb r.latency s.min_lat then r.latency else s.min_lat;
  max_lat =
      if ltb r.latency s.min_lat
      then s.max_lat
      else if ltb s.max_lat r.latency
      then r.latency
      else s.max_lat;
  sum_lat = s.sum_lat + r.latency;
  bytes_sent = (s.bytes_sent + r.bytes_sent) % 2 ^ 64;
  time_start = if ltb r.time_start s.time_start then r.time_start else s.time_start;
  time_end = if ltb s.time_end r.time_end then r.time_end else s.time_end;
}

unfoldable pub add_results : Summary → List Result → Summary
unfolding add_result
add_results s [] = s
add_results s (r ∷ results) = add_results (add_result s r) results

-- From thread 0 over the other threads.
unfoldable pub summary : Result → List Result → Summary
unfolding add_results
summary r results = add_results (first r) results

-- The sums of the results.
abbrev pub total : (Result → ℕ) → List Result → ℕ
total f [] = 0
total f (r ∷ results) = f r + total f results

-- All results, or one of them, satisfy a predicate.
abbrev pub AllResults : (Result → Type 0) → List Result → Type 0
AllResults P [] = Unit {0}
AllResults P (r ∷ results) = P r × AllResults P results

abbrev pub AnyResult : (Result → Type 0) → List Result → Type 0
AnyResult P [] = ⊥
AnyResult P (r ∷ results) = P r ⊎ AnyResult P results

-- A number is the least, or the greatest, of a field of the results.
abbrev pub IsLeast : (Result → ℕ) → ℕ → List Result → Type 0
IsLeast f n results = AllResults (λ r. n ≤ f r) results × AnyResult (λ r. n ≡ f r) results

abbrev pub IsGreatest : (Result → ℕ) → ℕ → List Result → Type 0
IsGreatest f n results = AllResults (λ r. f r ≤ n) results × AnyResult (λ r. n ≡ f r) results

-- The least of a number and a field of some results, as the loop leaves it.
abbrev LeastWith : (Result → ℕ) → ℕ → ℕ → List Result → Type 0
LeastWith f a n results =
    (n ≤ a) × AllResults (λ r. n ≤ f r) results × ((n ≡ a) ⊎ AnyResult (λ r. n ≡ f r) results)

abbrev GreatestWith : (Result → ℕ) → ℕ → ℕ → List Result → Type 0
GreatestWith f a n results =
    (a ≤ n) × AllResults (λ r. f r ≤ n) results × ((n ≡ a) ⊎ AnyResult (λ r. n ≡ f r) results)

LeastWith-cons :
    (f : Result → ℕ) (a n : ℕ) (r : Result) (results : List Result)
    → LeastWith f (if ltb (f r) a then f r else a) n results
    → LeastWith f a n (r ∷ results)
LeastWith-cons f a n r results (le, each, one) = elim (Bool-cases (ltb (f r) a)) [
  | inl lt ↦ (
    ground arith,
    (ground arith, each),
    elim one [ inl e ↦ inr (inl (ground arith)) | inr later ↦ inr (inr later) ],
  )
  | inr ge ↦ (
    ground arith,
    (ground arith, each),
    elim one [ inl e ↦ inl (ground arith) | inr later ↦ inr (inr later) ],
  )
]

GreatestWith-cons :
    (f : Result → ℕ) (a n : ℕ) (r : Result) (results : List Result)
    → GreatestWith f (if ltb a (f r) then f r else a) n results
    → GreatestWith f a n (r ∷ results)
GreatestWith-cons f a n r results (le, each, one) = elim (Bool-cases (ltb a (f r))) [
  | inl lt ↦ (
    ground arith,
    (ground arith, each),
    elim one [ inl e ↦ inr (inl (ground arith)) | inr later ↦ inr (inr later) ],
  )
  | inr ge ↦ (
    ground arith,
    (ground arith, each),
    elim one [ inl e ↦ inl (ground arith) | inr later ↦ inr (inr later) ],
  )
]

add_results-min_lat :
    (s : Summary) (results : List Result)
    → LeastWith (λ r. r.latency) s.min_lat (add_results s results).min_lat results
unfolding add_results
add_results-min_lat s [] = (omega arith, tt, inl refl)
add_results-min_lat s (r ∷ results) =
    LeastWith-cons (λ r. r.latency) s.min_lat _ r results
      (add_results-min_lat (add_result s r) results)

add_results-time_start :
    (s : Summary) (results : List Result)
    → LeastWith (λ r. r.time_start) s.time_start (add_results s results).time_start results
unfolding add_results
add_results-time_start s [] = (omega arith, tt, inl refl)
add_results-time_start s (r ∷ results) =
    LeastWith-cons (λ r. r.time_start) s.time_start _ r results
      (add_results-time_start (add_result s r) results)

add_results-time_end :
    (s : Summary) (results : List Result)
    → GreatestWith (λ r. r.time_end) s.time_end (add_results s results).time_end results
unfolding add_results
add_results-time_end s [] = (omega arith, tt, inl refl)
add_results-time_end s (r ∷ results) =
    GreatestWith-cons (λ r. r.time_end) s.time_end _ r results
      (add_results-time_end (add_result s r) results)

-- The greatest latency is right although it is compared only in the other branch, since it is never
-- below the least one.
greatest_compared :
    (s : Summary) (r : Result)
    → s.min_lat ≤ s.max_lat
    → (add_result s r).max_lat ≡ (if ltb s.max_lat r.latency then r.latency else s.max_lat)
unfolding add_result
greatest_compared s r le = ground arith

add_result-min-le-max :
    (s : Summary) (r : Result)
    → s.min_lat ≤ s.max_lat
    → (add_result s r).min_lat ≤ (add_result s r).max_lat
unfolding add_result
add_result-min-le-max s r le = ground arith

add_results-max_lat :
    (s : Summary) (results : List Result)
    → s.min_lat ≤ s.max_lat
    → GreatestWith (λ r. r.latency) s.max_lat (add_results s results).max_lat results
unfolding add_results
add_results-max_lat s [] le = (omega arith, tt, inl refl)
add_results-max_lat s (r ∷ results) le =
    GreatestWith-cons (λ r. r.latency) s.max_lat _ r results
      (subst (λ a. GreatestWith (λ r. r.latency) a (add_results s (r ∷ results)).max_lat results)
        (greatest_compared s r le)
        (add_results-max_lat (add_result s r) results (add_result-min-le-max s r le)))

add_results-sums :
    (s : Summary) (results : List Result)
    → s.bytes_sent < 2 ^ 64
    → ((add_results s results).sum_lat ≡ s.sum_lat + total (λ r. r.latency) results)
      × ((add_results s results).bytes_sent
          ≡ (s.bytes_sent + total (λ r. r.bytes_sent) results) % 2 ^ 64)
unfolding add_results
add_results-sums s [] lt = (omega arith, omega arith)
add_results-sums s (r ∷ results) lt =
    let rest = add_results-sums (add_result s r) results (omega arith) in (omega arith, omega arith)

-- What `main` prints is right for any results of the threads: the least and the greatest latency
-- and the sum of all, the bytes that were sent in all, as a `uint64_t`, the earliest start and the
-- latest end.
pub summary_lem :
    (r : Result) (results : List Result)
    → r.bytes_sent < 2 ^ 64
    → IsLeast (λ x. x.latency) (summary r results).min_lat (r ∷ results)
      × IsGreatest (λ x. x.latency) (summary r results).max_lat (r ∷ results)
      × ((summary r results).sum_lat ≡ total (λ x. x.latency) (r ∷ results))
      × ((summary r results).bytes_sent ≡ total (λ x. x.bytes_sent) (r ∷ results) % 2 ^ 64)
      × IsLeast (λ x. x.time_start) (summary r results).time_start (r ∷ results)
      × IsGreatest (λ x. x.time_end) (summary r results).time_end (r ∷ results)
unfolding summary
summary_lem r results lt =
    let (l0, l1, l2) = add_results-min_lat (first r) results in
    let (g0, g1, g2) = add_results-max_lat (first r) results (omega arith) in
    let (sum, bytes) = add_results-sums (first r) results lt in
    let (s0, s1, s2) = add_results-time_start (first r) results in
    let (e0, e1, e2) = add_results-time_end (first r) results in
    (((l0, l1), l2), ((g0, g1), g2), sum, bytes, ((s0, s1), s2), ((e0, e1), e2))
