-- ===== src/Measure/Rounds.antt =====
-- performance/multi-node/rdm_one_sided.c and rdm_pingpong.c: the rounds of `main`, one for each size
-- of messages. The two programs differ in their settings and in what they change for large messages.
use cray_tests.Prelude.{
  ℕ, zero, suc, ◌*◌, ◌<◌, ◌≤◌, ◌≡◌, ◌⊎◌, inl, inr, refl, ap, ◌∙◌, arith, true, false, Bool-cases,
  List, [], ◌∷◌, map, ltb, if◌then◌else◌,
}
use cray_tests.Measure.Sizes.{sizes, Doubling, sizes-Doubling}

-- The settings of a program: the number of its threads, and those for large messages.
pub record Sweep : Type 1 where
  pub Settings : Type 0
  pub threads : Settings → ℕ
  pub large : Settings → Settings
  pub large-large : (s : Settings) → large (large s) ≡ large s
  pub threads-large : (s : Settings) → threads (large s) ≡ threads s

abbrev pub large_message_size : ℕ
large_message_size = 8192

module _ (sweep : Sweep) where
  open sweep use {Settings, threads, large, large-large, threads-large}

  -- The loop over the threads before a round, without the bytes that it writes.
  unfoldable pub reset : ℕ → ℕ → Settings → Settings
  reset zero size s = s
  reset (suc n) size s = reset n size (if ltb large_message_size size then large s else s)

  -- The size and the settings of each round.
  unfoldable pub rounds : Settings → List ℕ → List (ℕ × Settings)
  unfolding reset
  rounds s [] = []
  rounds s (size ∷ more) = let s' = reset (threads s) size s in (size, s') ∷ rounds s' more

  unfoldable pub main_rounds : ℕ → Settings → List (ℕ × Settings)
  unfolding rounds
  main_rounds max s = rounds s (sizes max)

  -- The settings that a size is meant to be measured with.
  abbrev pub settings_for : Settings → ℕ → Settings
  settings_for s size = if ltb large_message_size size then large s else s

  reset-small : (n size : ℕ) (s : Settings) → size ≤ large_message_size → reset n size s ≡ s
  unfolding reset
  reset-small zero size s le = refl
  reset-small (suc n) size s le =
      let small : ltb large_message_size size ≡ false = ground arith in
      rw small (reset-small n size s le)

  reset-large-large : (n size : ℕ) (s : Settings) → reset n size (large s) ≡ large s
  unfolding reset
  reset-large-large zero size s = refl
  reset-large-large (suc n) size s = elim (Bool-cases (ltb large_message_size size)) [
    | inl big ↦ rw big (ap (reset n size) (large-large s) ∙ reset-large-large n size s)
    | inr small ↦ rw small (reset-large-large n size s)
  ]

  reset-large :
      (n size : ℕ) (s : Settings) → large_message_size < size → 0 < n → reset n size s ≡ large s
  unfolding reset
  reset-large zero size s lt pos = absurd (omega arith)
  reset-large (suc n) size s lt pos =
      let big : ltb large_message_size size ≡ true = ground arith in
      rw big (reset-large-large n size s)

  -- The settings are still those of the options, or a larger size has come already.
  abbrev Current : Settings → ℕ → Settings → Type 0
  Current s size t = (t ≡ s) ⊎ ((t ≡ large s) × (large_message_size < size))

  Current-reset :
      (s : Settings) (size : ℕ) (t : Settings)
      → 0 < threads s
      → Current s size t
      → reset (threads t) size t ≡ settings_for s size
  Current-reset s size t pos (inr (e, lt)) =
      let big : ltb large_message_size size ≡ true = ground arith in
      rw big (ap (λ u. reset (threads u) size u) e ∙ reset-large-large (threads (large s)) size s)
  Current-reset s size t pos (inl e) = elim (Bool-cases (ltb large_message_size size)) [
    | inl big ↦
        rw big
          (ap (λ u. reset (threads u) size u) e ∙ reset-large (threads s) size s (ground arith) pos)
    | inr small ↦
        rw small
          (ap (λ u. reset (threads u) size u) e ∙ reset-small (threads s) size s (ground arith))
  ]

  Current-settings_for :
      (s : Settings) (size : ℕ) → 0 < size → Current s (size * 2) (settings_for s size)
  Current-settings_for s size pos = elim (Bool-cases (ltb large_message_size size)) [
    | inl big ↦ inr (rw big refl, ground arith)
    | inr small ↦ inl (rw small refl)
  ]

  rounds-map :
      (size : ℕ) (list : List ℕ) (s t : Settings)
      → Doubling size list
      → 0 < size
      → 0 < threads s
      → Current s size t
      → rounds t list ≡ map (λ n. (n, settings_for s n)) list
  unfolding rounds
  rounds-map size [] s t d spos pos c = refl
  rounds-map size (x ∷ list) s t (e, d) spos pos c =
      let here : reset (threads t) x t ≡ settings_for s x = rw e (Current-reset s size t pos c) in
      rw here (
        ap (λ r. (x, settings_for s x) ∷ r)
          (rounds-map (size * 2) list s (settings_for s x) d (omega arith) pos
            (rw e (Current-settings_for s size spos))))

  -- The rounds of `main` go through the sizes, each with the counts that are meant for it: those of
  -- the options up to `large_message_size`, and the large ones above, once there is a thread.
  pub main_rounds-map :
      (max : ℕ) (s : Settings)
      → 0 < threads s
      → main_rounds max s ≡ map (λ n. (n, settings_for s n)) (sizes max)
  unfolding main_rounds
  main_rounds-map max s pos =
      rounds-map 1 (sizes max) s s (sizes-Doubling max) (omega arith) pos (inl refl)
