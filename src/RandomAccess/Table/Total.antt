-- ===== src/RandomAccess/Table/Total.antt =====
-- random_access.c: a run adds to each entry the sum of the values that were sent there, in
-- whatever order they arrive.
use native.Mathlib.Nat.{ℕ_set}
use mathlib.Core.List.{Perm, Permᴰ}
use mathlib.Core.Logic.{∥∥₁_elim}
use cray_tests.Prelude.{
  ℕ, bit_xor, ◌&&◌, List, [], ◌∷◌, ◌==◌, if◌then◌else◌, ◌≡◌, refl, sym, ap, ap₂, ◌∙◌, Bool-cases,
  inl, inr,
}
use cray_tests.Bits.{bit_xor-zero, bit_xor_comm, bit_xor_assoc}
use cray_tests.RandomAccess.Table.{Tables, Memory, Update, rem_addr, entry_at, lf_atomic_xor, run}

module _ (tables : Tables) (pe i : ℕ) where
  -- What an update adds to entry `i` of rank `pe`.
  sent : Update → ℕ
  sent u = if u.pe == pe && entry_at tables u.pe (rem_addr tables u) == i then u.val else 0

  pub total : List Update → ℕ
  total [] = 0
  total (u ∷ us) = bit_xor (sent u) (total us)

  lf_atomic_xor-eq-sent :
      (mem : Memory) (u : Update) → lf_atomic_xor tables mem u pe i ≡ bit_xor (mem pe i) (sent u)
  unfolding lf_atomic_xor sent
  lf_atomic_xor-eq-sent mem u =
      elim (Bool-cases (u.pe == pe && entry_at tables u.pe (rem_addr tables u) == i)) [
        | inl e ↦ rw e
        | inr e ↦ rw e (sym (bit_xor-zero (mem pe i)))
      ]

  pub run-eq-total :
      (us : List Update) (mem : Memory) → run tables us mem pe i ≡ bit_xor (mem pe i) (total us)
  unfolding run total
  run-eq-total [] mem = sym (bit_xor-zero (mem pe i))
  run-eq-total (u ∷ us) mem =
      run-eq-total us (lf_atomic_xor tables mem u)
      ∙ ap (λ t. bit_xor t (total us)) (lf_atomic_xor-eq-sent mem u)
      ∙ bit_xor_assoc (mem pe i) (sent u) (total us)

  swap_sent : (a b t : ℕ) → bit_xor a (bit_xor b t) ≡ bit_xor b (bit_xor a t)
  swap_sent a b t =
      sym (bit_xor_assoc a b t) ∙ ap (λ s. bit_xor s t) (bit_xor_comm a b) ∙ bit_xor_assoc b a t

  total-permᴰ : {us vs : List Update} → Permᴰ us vs → total us ≡ total vs
  unfolding total
  total-permᴰ Permᴰ.nil = refl
  total-permᴰ (Permᴰ.cons e p) = ap₂ bit_xor (ap sent e) (total-permᴰ p)
  total-permᴰ (Permᴰ.swap {a} {b} {a'} {b'} {l} e f) =
      swap_sent (sent a) (sent b) (total l)
      ∙ ap₂ (λ x y. bit_xor (sent x) (bit_xor (sent y) (total l))) f e
  total-permᴰ (Permᴰ.trans p q) = total-permᴰ p ∙ total-permᴰ q

  pub total-perm : {us vs : List Update} → Perm us vs → total us ≡ total vs
  total-perm p = ∥∥₁_elim p (ℕ_set _ _) total-permᴰ
