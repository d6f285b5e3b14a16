-- ===== src/Fabric/Libfabric.antt =====
-- performance/multi-node: libfabric as the programs use it. It is not part of the repository: what
-- its calls return is up to it, and the laws say what is open after them.
use cray_tests.Prelude.{
  ℕ, ◌-◌, ◌≡◌, refl, Bool, true, false, List, [], ◌∷◌, ◌==◌, if◌then◌else◌, arith,
}

-- What a program opens: for the whole process, or for the peer or the thread of a number.
pub data Handle : Type 0 where
  fab : Handle
  dom : Handle
  av : Handle
  ep : ℕ → Handle
  scq : ℕ → Handle
  rcq : ℕ → Handle
  thread_av : ℕ → Handle
  l_mr : ℕ → Handle
  r_mr : ℕ → Handle
  waitset : Handle
  scntr : Handle
  rcntr : Handle
  l_table_mr : Handle
  l_lock_mr : Handle
  l_scratch_mr : Handle
  l_auth_key_mr : Handle

abbrev pub same : Handle → Handle → Bool
same fab fab = true
same dom dom = true
same av av = true
same (ep i) (ep j) = i == j
same (scq i) (scq j) = i == j
same (rcq i) (rcq j) = i == j
same (thread_av i) (thread_av j) = i == j
same (l_mr i) (l_mr j) = i == j
same (r_mr i) (r_mr j) = i == j
same waitset waitset = true
same scntr scntr = true
same rcntr rcntr = true
same l_table_mr l_table_mr = true
same l_lock_mr l_lock_mr = true
same l_scratch_mr l_scratch_mr = true
same l_auth_key_mr l_auth_key_mr = true
same _ _ = false

-- The calls that return an `int`: those of `open` are `fi_fabric`, `fi_domain`, `fi_endpoint`,
-- `fi_av_open`, `fi_cq_open`, `fi_cntr_open`, `fi_wait_open` and `fi_mr_reg`.
pub data Call : Type 0 where
  getinfo : Call
  open' : Handle → Call
  close : Handle → Call
  ep_bind : Handle → Handle → ℕ → Call
  enable : Handle → Call
  getname : Handle → Call
  av_insert : Handle → ℕ → Call

abbrev pub keeps_open : Call → Bool
keeps_open (open' h) = false
keeps_open (close h) = false
keeps_open _ = true

-- Return codes: libfabric's errors are negative.
pub data ℤ : Type 0 where
  pos : ℕ → ℤ
  negsuc : ℕ → ℤ

-- `!ret`, and `ret == n`
abbrev pub is_value : ℕ → ℤ → Bool
is_value n (pos m) = m == n
is_value n (negsuc m) = false

abbrev pub succeeded : ℤ → Bool
succeeded = is_value 0

abbrev pub remove : Handle → List Handle → List Handle
remove h [] = []
remove h (g ∷ l) = if same h g then l else g ∷ remove h l

pub record Libfabric : Type 1 where
  pub World : Type 0
  pub call : Call → World → ℤ × World
  pub live : World → List Handle
  pub live-open :
      (h : Handle) (w : World)
      → live (call (open' h) w).1 ≡ (if succeeded (call (open' h) w).0 then h ∷ live w else live w)
  pub live-close :
      (h : Handle) (w : World)
      → live (call (close h) w).1
        ≡ (if succeeded (call (close h) w).0 then remove h (live w) else live w)
  pub live-keeps : (c : Call) (w : World) → keeps_open c ≡ true → live (call c w).1 ≡ live w

-- A libfabric whose calls succeed a given number of times; from then on all but `fi_close` fail.
module _ where
  abbrev pub answer : Call → ℕ → ℤ
  answer (close h) n = pos 0
  answer (av_insert h m) n = pos m
  answer c n = if n == 0 then negsuc 11 else pos 0

  abbrev pub after : Call → Bool → List Handle → List Handle
  after (open' h) b l = if b then h ∷ l else l
  after (close h) b l = if b then remove h l else l
  after _ b l = l

  pub after-keeps : (c : Call) (b : Bool) (l : List Handle) → keeps_open c ≡ true → after c b l ≡ l
  after-keeps getinfo b l h = refl
  after-keeps (open' g) b l h = absurd (ground arith)
  after-keeps (close g) b l h = absurd (ground arith)
  after-keeps (ep_bind e g n) b l h = refl
  after-keeps (enable e) b l h = refl
  after-keeps (getname e) b l h = refl
  after-keeps (av_insert e n) b l h = refl

  abbrev pub limited : Libfabric
  limited = record {
    World = ℕ × List Handle;
    call = λ c w. (answer c w.0, (w.0 - 1, after c (succeeded (answer c w.0)) w.1));
    live = λ w. w.1;
    live-open = λ h w. refl;
    live-close = λ h w. refl;
    live-keeps = λ c w h. after-keeps c (succeeded (answer c w.0)) w.1 h;
  }
