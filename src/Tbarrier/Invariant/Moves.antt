-- ===== src/Tbarrier/Invariant/Moves.antt =====
-- ct_tbarrier.h: every access of a thread keeps the invariant.
use cray_tests.Prelude.{ℕ, ◌+◌, ◌-◌, ◌<◌, ◌≤◌, ◌≡◌, ◌≢◌, refl, arith}
use cray_tests.Tbarrier.{
  get, put, Shared, Local, Pc, toggle, spin, leaving, Thread, Move, join_last, join, clear, flip,
  again, go, leave, update,
}
use cray_tests.Tbarrier.Counting.{
  sum_to, sum_to-update, le-sum_to, sum_to-le, sum_to_full, sum_to-zero, update_elim,
}
use cray_tests.Tbarrier.Invariant.Defs.{arrived, resetting, toggling, Member, Counts, Inv}

module _ {n round : ℕ} {m : Shared} {f : ℕ → Thread} (inv : Inv n round m f) (i : ℕ) where
  abbrev l : Local
  l = (f i).local

  abbrev moved : Local → Pc → ℕ → Thread
  moved l' p' = update f i (record { local = l'; pc = p' })

  -- Thread `i` goes from `p` to `p'`. A match on `Move` needs the variable `p`.
  record Mover (p : Pc) (l' : Local) (p' : Pc) : Type 0 where
    here : (f i).pc ≡ p
    own : Member round l p
    joined :
        sum_to (arrived round) n (moved l' p') + arrived round (record { local = l; pc = p })
        ≡ sum_to (arrived round) n f + arrived round (record { local = l'; pc = p' })
    resets :
        sum_to resetting n (moved l' p') + resetting (record { local = l; pc = p })
        ≡ sum_to resetting n f + resetting (record { local = l'; pc = p' })
    toggles :
        sum_to toggling n (moved l' p') + toggling (record { local = l; pc = p })
        ≡ sum_to toggling n f + toggling (record { local = l'; pc = p' })
    bound : sum_to (arrived round) n (moved l' p') ≤ n

  arrived-le : (t : Thread) → arrived round t ≤ 1
  arrived-le t = ground arith

  mover : i < n → (l' : Local) (p' : Pc) → Mover (f i).pc l' p'
  mover lt l' p' = record {
    here = refl;
    own = inv.members i lt;
    joined = sum_to-update (arrived round) n i f _ lt;
    resets = sum_to-update resetting n i f _ lt;
    toggles = sum_to-update toggling n i f _ lt;
    bound = sum_to-le (arrived round) arrived-le n _;
  }

  Move-Counts :
      {p p' : Pc} {m' : Shared} {l' : Local}
      → Move n m l p m' l' p'
      → p ≢ toggle
      → Mover p l' p'
      → Counts n round m'
          (sum_to (arrived round) n (moved l' p'))
          (sum_to resetting n (moved l' p'))
          (sum_to toggling n (moved l' p'))
  Move-Counts (join_last e) no_flip v = let c = inv.counts in ground arith
  Move-Counts (join e) no_flip v = let c = inv.counts in ground arith
  Move-Counts clear no_flip v = let c = inv.counts in ground arith
  Move-Counts flip no_flip v = absurd (no_flip refl)
  Move-Counts (again e) no_flip v = let c = inv.counts in ground arith
  Move-Counts (go e) no_flip v = let c = inv.counts in ground arith
  Move-Counts leave no_flip v = let c = inv.counts in ground arith

  Move-Member :
      {p p' : Pc} {m' : Shared} {l' : Local}
      → Move n m l p m' l' p'
      → p ≢ toggle
      → Mover p l' p'
      → Member round l' p'
  Move-Member (join_last e) no_flip v = ground arith
  Move-Member (join e) no_flip v = ground arith
  Move-Member clear no_flip v = ground arith
  Move-Member flip no_flip v = absurd (no_flip refl)
  Move-Member (again e) no_flip v = ground arith
  Move-Member (go e) no_flip v = let c = inv.counts in ground arith
  Move-Member leave no_flip v = ground arith

  -- The other threads stand where they stood.
  others :
      {r : ℕ} {l' : Local} {p' : Pc}
      → Member r l' p'
      → ((j : ℕ) → j < n → i ≢ j → Member r (f j).local (f j).pc)
      → (j : ℕ) → j < n
      → Member r (moved l' p' j).local (moved l' p' j).pc
  others {r} {l'} {p'} own rest j lt =
      update_elim (λ t. Member r t.local t.pc) f i j (record { local = l'; pc = p' }) own
        (rest j lt)

  Move-Inv :
      {p p' : Pc} {m' : Shared} {l' : Local}
      → Move n m l p m' l' p'
      → p ≢ toggle
      → Mover p l' p'
      → Inv n round m' (moved l' p')
  Move-Inv mv no_flip v = record {
    counts = Move-Counts mv no_flip v;
    members = others (Move-Member mv no_flip v) (λ j lt _. inv.members j lt);
  }

  -- What the other threads are when the last one opens the barrier: each waits in the loop.
  module _ (lt : i < n) (v : Mover toggle l leaving) where
    all_joined : sum_to (arrived round) n f ≡ n
    all_joined = let c = inv.counts in ground (arith, le-sum_to toggling n i f lt)

    no_other_last :
        (sum_to resetting n (moved l leaving) ≡ 0) × (sum_to toggling n (moved l leaving) ≡ 0)
    no_other_last = let c = inv.counts in ground (arith, le-sum_to toggling n i f lt)

    waiting : (j : ℕ) → j < n → i ≢ j → ((f j).pc ≡ spin) × ((f j).local.left ≡ round)
    waiting j b ne = ground (
      arith,
      sum_to_full (arrived round) arrived-le n j f b all_joined,
      le-sum_to resetting n j (moved l leaving) b,
      le-sum_to toggling n j (moved l leaving) b,
      no_other_last,
    )

    opened_Member :
        (j : ℕ) → j < n → Member (round + 1) (moved l leaving j).local (moved l leaving j).pc
    opened_Member =
        others (ground arith)
          λ j b ne. let old = inv.members j b in let w = waiting j b ne in ground arith

    none_joined : sum_to (arrived (round + 1)) n (moved l leaving) ≡ 0
    none_joined = sum_to-zero (arrived (round + 1)) n _ λ j b.
        update_elim (λ t. arrived (round + 1) t ≡ 0) f i j (record { local = l; pc = leaving }) refl
          λ ne. let w = waiting j b ne in ground arith

    flip-Inv :
        Inv n
          (round + 1)
          (record m { signal = put m.signal l.slot (1 - get l.phase l.slot) })
          (moved l leaving)
    flip-Inv = record {
      counts =
          let c = inv.counts in
          ground (arith, none_joined, no_other_last, le-sum_to toggling n i f lt);
      members = opened_Member;
    }

  -- A round is added by the opening of the barrier, and by nothing else.
  move-Inv :
      {p p' : Pc} {m' : Shared} {l' : Local}
      → i < n
      → Move n m l p m' l' p'
      → Mover p l' p'
      → (r : ℕ) × (round ≤ r) × Inv n r m' (moved l' p')
  move-Inv lt flip v = (round + 1, omega arith, flip-Inv lt v)
  move-Inv lt (join_last e) v = (round, omega arith, Move-Inv (join_last e) (λ q. cc) v)
  move-Inv lt (join e) v = (round, omega arith, Move-Inv (join e) (λ q. cc) v)
  move-Inv lt clear v = (round, omega arith, Move-Inv clear (λ q. cc) v)
  move-Inv lt (again e) v = (round, omega arith, Move-Inv (again e) (λ q. cc) v)
  move-Inv lt (go e) v = (round, omega arith, Move-Inv (go e) (λ q. cc) v)
  move-Inv lt leave v = (round, omega arith, Move-Inv leave (λ q. cc) v)

  pub pick-Inv :
      {m' : Shared} {l' : Local} {p' : Pc}
      → i < n
      → Move n m l (f i).pc m' l' p'
      → (r : ℕ) × (round ≤ r) × Inv n r m' (moved l' p')
  pick-Inv {l'} {p'} lt mv = move-Inv lt mv (mover lt l' p')
