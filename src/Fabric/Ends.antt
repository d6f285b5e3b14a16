-- ===== src/Fabric/Ends.antt =====
-- performance/multi-node: code that makes calls of libfabric, jumps to a label when one returns an
-- error, and closes there what it has opened.
use cray_tests.Prelude.{
  ◌≡◌, ◌⊎◌, inl, inr, refl, ◌∙◌, true, false, List, ◌∷◌, if◌then◌else◌, Bool-cases, ==_iff,
}
use cray_tests.Fabric.Libfabric.{
  Libfabric, Handle, same, Call, ℤ, pos, succeeded, remove, keeps_open,
}

pub same_refl : (h : Handle) → same h h ≡ true
same_refl Handle.fab = refl
same_refl Handle.dom = refl
same_refl Handle.av = refl
same_refl (Handle.ep i) = (==_iff i i).1 refl
same_refl (Handle.scq i) = (==_iff i i).1 refl
same_refl (Handle.rcq i) = (==_iff i i).1 refl
same_refl (Handle.thread_av i) = (==_iff i i).1 refl
same_refl (Handle.l_mr i) = (==_iff i i).1 refl
same_refl (Handle.r_mr i) = (==_iff i i).1 refl
same_refl Handle.waitset = refl
same_refl Handle.scntr = refl
same_refl Handle.rcntr = refl
same_refl Handle.l_table_mr = refl
same_refl Handle.l_lock_mr = refl
same_refl Handle.l_scratch_mr = refl
same_refl Handle.l_auth_key_mr = refl

pub remove-head : (h : Handle) (l : List Handle) → remove h (h ∷ l) ≡ l
remove-head h l = rw (same_refl h) refl

module _ (lf : Libfabric) where
  open lf use {World, call, live, live-open, live-close, live-keeps}

  -- A piece of code that returns a code.
  abbrev pub Code : Type 0
  Code = World → ℤ × World

  abbrev pub return : ℤ → Code
  return ret w = (ret, w)

  -- `ret = code; if (ret) goto err; next`
  unfoldable pub attempt : Code → (ℤ → Code) → Code → Code
  attempt code err next w = let (ret, w') = code w in if succeeded ret then next w' else err ret w'

  -- A call of `fi_close` whose return code is not used.
  abbrev pub close_then : Handle → Code → Code
  close_then h next w = next (call (Call.close h) w).1

  -- `fi_close` succeeds.
  abbrev pub Closes : Type 0
  Closes = (h : Handle) (w : World) → succeeded (call (Call.close h) w).0 ≡ true

  -- The code succeeds and `good` is open, or fails and `bad` is.
  unfoldable pub Ends : List Handle → List Handle → ℤ × World → Type 0
  Ends good bad (ret, w) =
      ((succeeded ret ≡ true) × (live w ≡ good)) ⊎ ((succeeded ret ≡ false) × (live w ≡ bad))

  pub open-Ends :
      (h : Handle) (w : World) (l : List Handle)
      → live w ≡ l
      → Ends (h ∷ l) l (call (Call.open' h) w)
  unfolding Ends
  open-Ends h w l e = elim (Bool-cases (succeeded (call (Call.open' h) w).0)) [
    | inl s ↦ inl (s, live-open h w ∙ rw (s, e) refl)
    | inr s ↦ inr (s, live-open h w ∙ rw (s, e) refl)
  ]

  pub call-Ends :
      (c : Call) (w : World) (l : List Handle)
      → keeps_open c ≡ true
      → live w ≡ l
      → Ends l l (call c w)
  unfolding Ends
  call-Ends c w l k e = elim (Bool-cases (succeeded (call c w).0)) [
    | inl s ↦ inl (s, live-keeps c w k ∙ e)
    | inr s ↦ inr (s, live-keeps c w k ∙ e)
  ]

  pub attempt-Ends :
      (code : Code) (err : ℤ → Code) (next : Code) (w : World) (good bad good' bad' : List Handle)
      → Ends good' bad' (code w)
      → ((w' : World) → live w' ≡ good' → Ends good bad (next w'))
      → ((ret : ℤ) (w' : World)
          → succeeded ret ≡ false
          → live w' ≡ bad'
          → Ends good bad (err ret w'))
      → Ends good bad (attempt code err next w)
  unfolding Ends attempt
  attempt-Ends code err next w good bad good' bad' (inl (s, e)) n f = rw s (n (code w).1 e)
  attempt-Ends code err next w good bad good' bad' (inr (s, e)) n f =
      rw s (f (code w).0 (code w).1 s e)

  pub success-Ends : (good bad : List Handle) (w : World) → live w ≡ good → Ends good bad (pos 0, w)
  unfolding Ends
  success-Ends good bad w e = inl (refl, e)

  pub error-Ends :
      (good bad : List Handle) (ret : ℤ) (w : World)
      → succeeded ret ≡ false
      → live w ≡ bad
      → Ends good bad (ret, w)
  unfolding Ends
  error-Ends good bad ret w s e = inr (s, e)

  pub live-closed :
      (closes : Closes) (h : Handle) (w : World) (l : List Handle)
      → live w ≡ h ∷ l
      → live (call (Call.close h) w).1 ≡ l
  live-closed closes h w l e = live-close h w ∙ rw (closes h w, e) (remove-head h l)

  pub close-Ends :
      (closes : Closes) (good bad : List Handle) (h : Handle) (ret : ℤ) (w : World)
      → succeeded ret ≡ false
      → live w ≡ h ∷ bad
      → Ends good bad (ret, (call (Call.close h) w).1)
  unfolding Ends
  close-Ends closes good bad h ret w s e = inr (s, live-closed closes h w _ e)

  -- Code that ends with a given list open, if it succeeds.
  abbrev pub Opens : List Handle → ℤ × World → Type 0
  Opens l (ret, w) = succeeded ret ≡ true → live w ≡ l

  pub Opens-attempt :
      (code : Code) (err : ℤ → Code) (next : Code) (w : World) (good bad l : List Handle)
      → ((ret : ℤ) (w' : World) → succeeded ret ≡ false → live w' ≡ bad → Opens l (err ret w'))
      → Ends good bad (code w)
      → ((w' : World) → live w' ≡ good → Opens l (next w'))
      → Opens l (attempt code err next w)
  unfolding Ends attempt
  Opens-attempt code err next w good bad l f (inl (s, e)) n = rw s (n (code w).1 e)
  Opens-attempt code err next w good bad l f (inr (s, e)) n = rw s (f (code w).0 (code w).1 s e)

  -- Any property of how the code ends, by what is open when the first part has ended.
  pub attempt-cases :
      (P : ℤ × World → Type 0) (code : Code) (err : ℤ → Code) (next : Code) (w : World)
      (good bad : List Handle)
      → Ends good bad (code w)
      → ((w' : World) → live w' ≡ good → P (next w'))
      → ((ret : ℤ) (w' : World) → succeeded ret ≡ false → live w' ≡ bad → P (err ret w'))
      → P (attempt code err next w)
  unfolding Ends attempt
  attempt-cases P code err next w good bad (inl (s, e)) n f = rw s (n (code w).1 e)
  attempt-cases P code err next w good bad (inr (s, e)) n f = rw s (f (code w).0 (code w).1 s e)
