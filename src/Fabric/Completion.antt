-- ===== src/Fabric/Completion.antt =====
-- performance/multi-node/random_access.c: `wait_for_comp`, which polls a completion queue; the
-- function of the same name in rdm_one_sided.c and rdm_pingpong.c is the same.
use cray_tests.Prelude.{
  ℕ, zero, suc, ◌<◌, ◌≡◌, refl, arith, Bool, true, false, Option, none, some, List, [], ◌∷◌, ◌++◌,
  ◌==◌, if◌then◌else◌,
}
use cray_tests.Fabric.Libfabric.{ℤ, pos, negsuc}

-- `-FI_EAGAIN` is -11.
abbrev pub is_eagain : ℕ → Bool
is_eagain n = n == 10

-- What the successive reads of the queue return is given; `none` while the loop still runs when
-- they are used up. The rest of them is returned with the code.
unfoldable pub wait_for_comp : ℕ → List ℤ → Option (ℤ × List ℤ)
wait_for_comp zero reads = some (pos 0, reads)
wait_for_comp (suc n) [] = none
wait_for_comp (suc n) (pos zero ∷ reads) = wait_for_comp (suc n) reads
wait_for_comp (suc n) (pos (suc k) ∷ reads) = wait_for_comp n reads
wait_for_comp (suc n) (negsuc e ∷ reads) =
    let again = wait_for_comp (suc n) reads in if is_eagain e then again else some (negsuc e, reads)

-- How many reads gave a completion.
unfoldable pub completions : List ℤ → ℕ
completions [] = 0
completions (pos zero ∷ reads) = completions reads
completions (pos (suc k) ∷ reads) = suc (completions reads)
completions (negsuc e ∷ reads) = completions reads

-- No read failed, except for want of a completion.
unfoldable pub AreReads : List ℤ → Type 0
AreReads [] = Unit {0}
AreReads (pos n ∷ reads) = AreReads reads
AreReads (negsuc e ∷ reads) = (is_eagain e ≡ true) × AreReads reads

-- A read that fails before enough completions came ends the wait with its code.
pub wait_for_comp-error :
    (n : ℕ) (used rest : List ℤ) (e : ℕ)
    → AreReads used
    → completions used < n
    → is_eagain e ≡ false
    → wait_for_comp n (used ++ negsuc e ∷ rest) ≡ some (negsuc e, rest)
unfolding wait_for_comp completions AreReads
wait_for_comp-error zero used rest e h lt f = absurd (omega arith)
wait_for_comp-error (suc n) [] rest e h lt f = rw f refl
wait_for_comp-error (suc n) (pos zero ∷ used) rest e h lt f =
    wait_for_comp-error (suc n) used rest e h lt f
wait_for_comp-error (suc n) (pos (suc k) ∷ used) rest e h lt f =
    wait_for_comp-error n used rest e h (omega arith) f
wait_for_comp-error (suc n) (negsuc d ∷ used) rest e h lt f =
    rw (h.0) (wait_for_comp-error (suc n) used rest e h.1 lt f)
