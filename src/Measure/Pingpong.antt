-- ===== src/Measure/Pingpong.antt =====
-- performance/multi-node/rdm_pingpong.c: `thread_fn` of the two ranks with the same thread number,
-- as a step relation. A rank is at one of the four calls of the body of its loop. `fi_tsend` and
-- `fi_trecv` succeed, and a wait for a send ends by itself.
pub mod Progress
pub mod Rounds
use cray_tests.Prelude.{ℕ, zero, suc, ◌+◌, ◌-◌, ◌<◌, ◌≤◌, ◌≡◌, arith}

-- The call that comes next in the body of the loop.
pub data Pc : Type 0 where
  send : Pc
  wait_send : Pc
  recv : Pc
  wait_recv : Pc

-- A rank's `i` and its place in the body.
pub record Rank : Type 0 where
  pub i : ℕ
  pub pc : Pc

-- The two ranks, and the messages on their way from 0 to 1 and from 1 to 0.
pub record State : Type 0 where
  pub rank0 : Rank
  pub rank1 : Rank
  pub to1 : ℕ
  pub to0 : ℕ

abbrev pub start : State
start = record {
  rank0 = record { i = 0; pc = Pc.send };
  rank1 = record { i = 0; pc = Pc.recv };
  to1 = 0;
  to0 = 0;
}

-- Rank 0 sends and then receives in each iteration, and rank 1 receives and then sends. `rounds` is
-- `loop + skip`.
pub data Step (rounds : ℕ) (s t : State) : Type 0 where
  send0 :
      s.rank0.pc ≡ Pc.send
      → s.rank0.i < rounds
      → t ≡ record s { rank0 = record { i = s.rank0.i; pc = Pc.wait_send }; to1 = s.to1 + 1 }
      → Step rounds s t
  wait_send0 :
      s.rank0.pc ≡ Pc.wait_send
      → t ≡ record s { rank0 = record { i = s.rank0.i; pc = Pc.recv } }
      → Step rounds s t
  recv0 :
      s.rank0.pc ≡ Pc.recv
      → t ≡ record s { rank0 = record { i = s.rank0.i; pc = Pc.wait_recv } }
      → Step rounds s t
  wait_recv0 :
      s.rank0.pc ≡ Pc.wait_recv
      → 0 < s.to0
      → t ≡ record s { rank0 = record { i = s.rank0.i + 1; pc = Pc.send }; to0 = s.to0 - 1 }
      → Step rounds s t
  recv1 :
      s.rank1.pc ≡ Pc.recv
      → s.rank1.i < rounds
      → t ≡ record s { rank1 = record { i = s.rank1.i; pc = Pc.wait_recv } }
      → Step rounds s t
  wait_recv1 :
      s.rank1.pc ≡ Pc.wait_recv
      → 0 < s.to1
      → t ≡ record s { rank1 = record { i = s.rank1.i; pc = Pc.send }; to1 = s.to1 - 1 }
      → Step rounds s t
  send1 :
      s.rank1.pc ≡ Pc.send
      → t ≡ record s { rank1 = record { i = s.rank1.i; pc = Pc.wait_send }; to0 = s.to0 + 1 }
      → Step rounds s t
  wait_send1 :
      s.rank1.pc ≡ Pc.wait_send
      → t ≡ record s { rank1 = record { i = s.rank1.i + 1; pc = Pc.recv } }
      → Step rounds s t

-- The states after a number of steps.
pub data Reach (rounds : ℕ) : ℕ → State → Type 0 where
  here : Reach rounds 0 start
  next : {k : ℕ} {s t : State} → Reach rounds k s → Step rounds s t → Reach rounds (suc k) t
