-- ===== src/Measure/Pingpong/Progress.antt =====
-- performance/multi-node/rdm_pingpong.c: the two ranks of the ping-pong go on until both have done
-- all their iterations.
use cray_tests.Prelude.{ℕ, zero, suc, ◌+◌, ◌*◌, ◌≤◌, ◌≡◌, ◌⊎◌, inl, inr, refl, arith, dec_lt}
use cray_tests.Measure.Pingpong.{Pc, State, Step, Reach}

-- The calls of the body that rank 0 and rank 1 have behind them.
abbrev done0 : Pc → ℕ
done0 Pc.send = 0
done0 Pc.wait_send = 1
done0 Pc.recv = 2
done0 Pc.wait_recv = 3

abbrev done1 : Pc → ℕ
done1 Pc.recv = 0
done1 Pc.wait_recv = 1
done1 Pc.send = 2
done1 Pc.wait_send = 3

-- The messages that a rank has sent, and those that it has received.
abbrev sent0 : Pc → ℕ
sent0 Pc.send = 0
sent0 _ = 1

abbrev sent1 : Pc → ℕ
sent1 Pc.wait_send = 1
sent1 _ = 0

abbrev received1 : Pc → ℕ
received1 Pc.send = 1
received1 Pc.wait_send = 1
received1 _ = 0

-- Whether rank 1 is inside an iteration.
abbrev begun1 : Pc → ℕ
begun1 Pc.recv = 0
begun1 _ = 1

record Inv (rounds k : ℕ) (s : State) : Type 0 where
  channel1 : s.to1 + s.rank1.i + received1 s.rank1.pc ≡ s.rank0.i + sent0 s.rank0.pc
  channel0 : s.to0 + s.rank0.i ≡ s.rank1.i + sent1 s.rank1.pc
  bound0 : s.rank0.i + sent0 s.rank0.pc ≤ rounds
  bound1 : s.rank1.i + begun1 s.rank1.pc ≤ rounds
  steps : k ≡ 4 * s.rank0.i + done0 s.rank0.pc + (4 * s.rank1.i + done1 s.rank1.pc)

Step-Inv : (rounds k : ℕ) (s t : State) → Step rounds s t → Inv rounds k s → Inv rounds (suc k) t
Step-Inv rounds k s t (Step.send0 p lt e) v = ground arith
Step-Inv rounds k s t (Step.wait_send0 p e) v = ground arith
Step-Inv rounds k s t (Step.recv0 p e) v = ground arith
Step-Inv rounds k s t (Step.wait_recv0 p lt e) v = ground arith
Step-Inv rounds k s t (Step.recv1 p lt e) v = ground arith
Step-Inv rounds k s t (Step.wait_recv1 p lt e) v = ground arith
Step-Inv rounds k s t (Step.send1 p e) v = ground arith
Step-Inv rounds k s t (Step.wait_send1 p e) v = ground arith

Reach-Inv : (rounds k : ℕ) (s : State) → Reach rounds k s → Inv rounds k s
Reach-Inv rounds zero s Reach.here = record {
  channel1 = omega arith;
  channel0 = omega arith;
  bound0 = omega arith;
  bound1 = omega arith;
  steps = omega arith;
}
Reach-Inv rounds (suc k) t (Reach.next {s = s} r st) =
    Step-Inv rounds k s t st (Reach-Inv rounds k s r)

abbrev Moves : ℕ → State → Type 0
Moves rounds s = (t : State) × Step rounds s t

-- Rank 0 can go on, or waits for a message that is not there, or has left its loop.
abbrev Blocked0 : ℕ → State → Type 0
Blocked0 rounds s =
    ((s.rank0.pc ≡ Pc.wait_recv) × (s.to0 ≡ 0)) ⊎ ((s.rank0.pc ≡ Pc.send) × (rounds ≤ s.rank0.i))

abbrev Blocked1 : ℕ → State → Type 0
Blocked1 rounds s =
    ((s.rank1.pc ≡ Pc.wait_recv) × (s.to1 ≡ 0)) ⊎ ((s.rank1.pc ≡ Pc.recv) × (rounds ≤ s.rank1.i))

advance0 : (rounds : ℕ) (s : State) (pc : Pc) → s.rank0.pc ≡ pc → Moves rounds s ⊎ Blocked0 rounds s
advance0 rounds s Pc.send e = elim (dec_lt s.rank0.i rounds) [
  | yes lt ↦ inl (_, Step.send0 e lt refl)
  | no ge ↦ inr (inr (e, omega arith))
]
advance0 rounds s Pc.wait_send e = inl (_, Step.wait_send0 e refl)
advance0 rounds s Pc.recv e = inl (_, Step.recv0 e refl)
advance0 rounds s Pc.wait_recv e = elim (dec_lt 0 s.to0) [
  | yes lt ↦ inl (_, Step.wait_recv0 e lt refl)
  | no ge ↦ inr (inl (e, omega arith))
]

advance1 : (rounds : ℕ) (s : State) (pc : Pc) → s.rank1.pc ≡ pc → Moves rounds s ⊎ Blocked1 rounds s
advance1 rounds s Pc.recv e = elim (dec_lt s.rank1.i rounds) [
  | yes lt ↦ inl (_, Step.recv1 e lt refl)
  | no ge ↦ inr (inr (e, omega arith))
]
advance1 rounds s Pc.wait_recv e = elim (dec_lt 0 s.to1) [
  | yes lt ↦ inl (_, Step.wait_recv1 e lt refl)
  | no ge ↦ inr (inl (e, omega arith))
]
advance1 rounds s Pc.send e = inl (_, Step.send1 e refl)
advance1 rounds s Pc.wait_send e = inl (_, Step.wait_send1 e refl)

-- Both ranks have left their loops, no message is on its way, and each iteration of a rank took its
-- four steps.
pub record Finished (rounds k : ℕ) (s : State) : Type 0 where
  pub all0 : s.rank0.i ≡ rounds
  pub all1 : s.rank1.i ≡ rounds
  pub none1 : s.to1 ≡ 0
  pub none0 : s.to0 ≡ 0
  pub steps : k ≡ 8 * rounds

both_blocked :
    (rounds k : ℕ) (s : State)
    → Inv rounds k s
    → Blocked0 rounds s
    → Blocked1 rounds s
    → Finished rounds k s
both_blocked rounds k s v b0 b1 = ground arith

-- In every reachable state a rank can go on, unless both have done all their iterations, no message
-- is left on its way, and exactly eight steps were taken for each iteration.
pub pingpong-Finished :
    (rounds k : ℕ) (s : State)
    → Reach rounds k s
    → ((t : State) × Step rounds s t) ⊎ Finished rounds k s
pingpong-Finished rounds k s r = elim (advance0 rounds s s.rank0.pc refl) [
  | inl m ↦ inl m
  | inr b0 ↦ elim (advance1 rounds s s.rank1.pc refl) [
    | inl m ↦ inl m
    | inr b1 ↦ inr (both_blocked rounds k s (Reach-Inv rounds k s r) b0 b1)
  ]
]

alternates :
    (rounds k : ℕ) (s : State)
    → Inv rounds k s
    → (s.to1 + s.to0 ≤ 1)
      × (s.rank0.i ≤ s.rank1.i + 1)
      × (s.rank1.i ≤ s.rank0.i + 1)
      × (k ≤ 8 * rounds)
alternates rounds k s v = go s.rank0.pc s.rank1.pc refl refl
  where
    go :
        (pc0 pc1 : Pc)
        → s.rank0.pc ≡ pc0
        → s.rank1.pc ≡ pc1
        → (s.to1 + s.to0 ≤ 1)
          × (s.rank0.i ≤ s.rank1.i + 1)
          × (s.rank1.i ≤ s.rank0.i + 1)
          × (k ≤ 8 * rounds)
    go Pc.send pc1 e0 e1 = ground arith
    go Pc.wait_send pc1 e0 e1 = ground arith
    go Pc.recv pc1 e0 e1 = ground arith
    go Pc.wait_recv pc1 e0 e1 = ground arith

-- At every moment at most one message is on its way, neither rank is more than one iteration ahead
-- of the other, and no run has more than eight steps for each iteration.
pub pingpong-alternates :
    (rounds k : ℕ) (s : State)
    → Reach rounds k s
    → (s.to1 + s.to0 ≤ 1)
      × (s.rank0.i ≤ s.rank1.i + 1)
      × (s.rank1.i ≤ s.rank0.i + 1)
      × (k ≤ 8 * rounds)
pingpong-alternates rounds k s r = alternates rounds k s (Reach-Inv rounds k s r)
