-- ===== src/Pmi/Store.antt =====
-- common/ct_utils.c: what the collectives use of PMI, which is not part of the repository: its
-- key-value store and its barrier. `published s j` is what a read of key `j` gives after the next
-- barrier, `settled s j` what it gives now to every rank.
use cray_tests.Prelude.{
  ℕ, ◌<◌, ◌≡◌, refl, arith, Bool, true, false, ◌&&◌, Option, none, some, List, [], ◌∷◌, length,
  ◌==◌, if◌then◌else◌,
}

abbrev pub Text : Type 0
Text = List ℕ

unfoldable pub text_eq : Text → Text → Bool
text_eq [] [] = true
text_eq (c ∷ s) (d ∷ t) = c == d && text_eq s t
text_eq _ _ = false

pub text_eq_refl : (s : Text) → text_eq s s ≡ true
unfolding text_eq
text_eq_refl [] = refl
text_eq_refl (c ∷ s) = ground (arith, text_eq_refl s)

pub eq_of_text_eq : (s t : Text) → text_eq s t ≡ true → s ≡ t
unfolding text_eq
eq_of_text_eq [] [] h = refl
eq_of_text_eq [] (d ∷ t) h = cc
eq_of_text_eq (c ∷ s) [] h = cc
eq_of_text_eq (c ∷ s) (d ∷ t) h = ground (arith, eq_of_text_eq s t)

-- A return code of 0 is `PMI_SUCCESS`.
pub record Pmi : Type 1 where
  pub Store : Type 0
  pub value_max : ℕ
  pub kvs_put : ℕ → Text → Text → Store → ℕ × Store
  pub kvs_commit : ℕ → Store → ℕ × Store
  pub kvs_get : Text → ℕ → Store → ℕ × Text
  pub barrier : Store → Store
  pub published : Store → Text → Option Text
  pub settled : Store → Text → Option Text
  -- A put of a key and a value that are not too long, and a commit, succeed.
  pub put_ok :
      (rank : ℕ) (key text : Text) (s : Store)
      → length key < 64
      → length text < value_max
      → (kvs_put rank key text s).0 ≡ 0
  pub commit_ok : (rank : ℕ) (s : Store) → (kvs_commit rank s).0 ≡ 0
  -- Put and committed, a value is published under its key, and no other key is touched.
  pub published-put :
      (rank : ℕ) (key text : Text) (s : Store) (j : Text)
      → length key < 64
      → length text < value_max
      → published (kvs_commit rank (kvs_put rank key text s).1).1 j
        ≡ (if text_eq key j then some text else published s j)
  pub settled-put :
      (rank : ℕ) (key text : Text) (s : Store) (j : Text)
      → text_eq key j ≡ false
      → settled (kvs_commit rank (kvs_put rank key text s).1).1 j ≡ settled s j
  -- A barrier settles what is published.
  pub settled-barrier : (s : Store) (j : Text) → settled (barrier s) j ≡ published s j
  -- A read of a settled value that fits the buffer gives it.
  pub get_settled :
      (key text : Text) (size : ℕ) (s : Store)
      → settled s key ≡ some text
      → length text < size
      → kvs_get key size s ≡ (0, text)

-- A store that shows each value at once.
module _ where
  abbrev pub find : Text → List (Text × Text) → Option Text
  find j [] = none
  find j ((key, text) ∷ s) = if text_eq key j then some text else find j s

  abbrev pub found : Option Text → ℕ × Text
  found none = (1, [])
  found (some text) = (0, text)

  pub find-put :
      (key text : Text) (s : List (Text × Text)) (j : Text)
      → text_eq key j ≡ false
      → find j ((key, text) ∷ s) ≡ find j s
  find-put key text s j h = rw h

  pub get_found :
      (key text : Text) (s : List (Text × Text))
      → find key s ≡ some text
      → found (find key s) ≡ (0, text)
  get_found key text s h = rw h

  abbrev pub immediate : Pmi
  immediate = record {
    Store = List (Text × Text);
    value_max = 1024;
    kvs_put = λ _ key text s. (0, (key, text) ∷ s);
    kvs_commit = λ _ s. (0, s);
    kvs_get = λ key _ s. found (find key s);
    barrier = λ s. s;
    published = λ s j. find j s;
    settled = λ s j. find j s;
    put_ok = λ _ _ _ _ _ _. refl;
    commit_ok = λ _ _. refl;
    published-put = λ _ _ _ _ _ _ _. refl;
    settled-put = λ _ key text s j h. find-put key text s j h;
    settled-barrier = λ _ _. refl;
    get_settled = λ key text _ s h _. get_found key text s h;
  }
