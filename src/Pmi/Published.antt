-- ===== src/Pmi/Published.antt =====
-- common/ct_utils.c: what the sends of the ranks leave in the store, and that sends of other calls
-- do not change it.
use mathlib.Core.List.Memᴰ
use mathlib.Core.List.{Memᴰ}
use cray_tests.Prelude.{
  ℕ, ◌*◌, ◌^◌, ◌<◌, ◌≡◌, ◌≢◌, ◌⊎◌, inl, inr, refl, sym, ◌∙◌, arith, false, Bool-cases, some, List,
  [], ◌∷◌, length, ok,
}
use cray_tests.Pmi.Encoding.{encode, IsBytes}
use cray_tests.Pmi.Key.{key, allg, idstr, length-key, key-injective}
use cray_tests.Pmi.Store.{Pmi, Text, text_eq, text_eq_refl, eq_of_text_eq}
use cray_tests.Pmi.Message.{c_text, length-c_text, stored, gni_pmi_send-stored}
use cray_tests.Pmi.Collective.{allgather_send, send_all, Send, run_ahead}

-- The buffers of the first `n` ranks are bytes, each `len` of them.
abbrev pub Buffers : (ℕ → List ℕ) → ℕ → ℕ → Type 0
Buffers src n len = (r : ℕ) → r < n → (length (src r) ≡ len) × IsBytes (src r)

-- The ranks of a list are below `n`.
abbrev pub Below : ℕ → List ℕ → Type 0
Below n [] = Unit {0}
Below n (r ∷ ranks) = (r < n) × Below n ranks

module _ (pmi : Pmi) where
  open pmi use {
    Store, value_max, barrier, published, settled, published-put, settled-put, settled-barrier,
  }

  -- Sends that fit the store and belong to another call than number `cnt` of `name`.
  abbrev pub AreOther : Text → ℕ → List Send → Type 0
  AreOther name cnt [] = Unit {0}
  AreOther name cnt ((name', cnt', rank, buf) ∷ sends) =
      (length name' ≡ 4)
      × (cnt' < 2 ^ 31)
      × (rank < 2 ^ 31)
      × (2 * length buf < value_max)
      × ((name ≢ name') ⊎ (cnt ≢ cnt'))
      × AreOther name cnt sends

  abbrev pub Published : ℕ → (ℕ → List ℕ) → Store → ℕ → Type 0
  Published cnt src s r = published s (key (idstr allg cnt) r) ≡ some (c_text (encode (src r)))

  pub published-own :
      (kvs : Text) (r : ℕ) (buf : List ℕ) (s : Store)
      → length (key kvs r) < 64
      → 2 * length buf < value_max
      → published (stored pmi r kvs buf s) (key kvs r) ≡ some (c_text (encode buf))
  published-own kvs r buf s h v =
      published-put r (key kvs r) (c_text (encode buf)) s (key kvs r) h
        (omega (arith, length-c_text buf))
      ∙ rw (text_eq_refl (key kvs r)) refl

  Published-kept :
      (cnt n r r' : ℕ) (src : ℕ → List ℕ) (s : Store)
      → cnt < 2 ^ 31
      → r < 2 ^ 31
      → r' < 2 ^ 31
      → 2 * length (src r) < value_max
      → Published cnt src s r'
      → Published cnt src (stored pmi r (idstr allg cnt) (src r) s) r'
  Published-kept cnt n r r' src s hc hr hr' v e =
      let put =
        published-put r (key (idstr allg cnt) r) (c_text (encode (src r))) s
          (key (idstr allg cnt) r') (length-key allg cnt r refl hc hr)
          (omega (arith, length-c_text (src r))) in
      elim (Bool-cases (text_eq (key (idstr allg cnt) r) (key (idstr allg cnt) r'))) [
        | inl same ↦
            let (_, _, rank) =
              key-injective allg allg cnt cnt r r' refl refl hc hc hr hr'
                (eq_of_text_eq _ _ same) in
            put ∙ rw (same, rank) refl
        | inr other ↦ put ∙ rw other e
      ]

  -- After all sends the buffer of each rank of the list is published.
  pub send_all-Published :
      (cnt nranks len : ℕ) (src : ℕ → List ℕ) (order : List ℕ) (s : Store)
      → cnt < 2 ^ 31
      → nranks < 2 ^ 31
      → 2 * len < value_max
      → Buffers src nranks len
      → Below nranks order
      → (s' : Store) × (send_all pmi cnt src order s ≡ ok s')
        × ((r : ℕ) → r < nranks → Memᴰ r order ⊎ Published cnt src s r → Published cnt src s' r)
  unfolding send_all allgather_send
  send_all-Published cnt nranks len src [] s hc hn v b h = (s, refl, λ r _ m. held r m)
    where
      held : (r : ℕ) → Memᴰ r [] ⊎ Published cnt src s r → Published cnt src s r
      held r (inl m) = absurd (Memᴰ.not-nil m)
      held r (inr e) = e
  send_all-Published cnt nranks len src (r ∷ order) s hc hn v b h =
      let (s', run, rest) =
        send_all-Published cnt nranks len src order (stored pmi r (idstr allg cnt) (src r) s) hc hn
          v b h.1 in
      let sent =
        gni_pmi_send-stored pmi r (idstr allg cnt) (src r) s
          (length-key allg cnt r refl hc (omega arith)) (omega (arith, (b r h.0).0)) in
      (s', rw sent run, λ r' lt m. rest r' lt (held r' lt m))
    where
      small : 2 * length (src r) < value_max
      small = omega (arith, (b r h.0).0)

      kept :
          (r' : ℕ)
          → r' < nranks
          → Published cnt src s r'
          → Published cnt src (stored pmi r (idstr allg cnt) (src r) s) r'
      kept r' lt e = Published-kept cnt nranks r r' src s hc (omega arith) (omega arith) small e

      own : (r' : ℕ) → r' ≡ r → Published cnt src (stored pmi r (idstr allg cnt) (src r) s) r'
      own r' e = rw e (
          published-own (idstr allg cnt) r (src r) s (length-key allg cnt r refl hc (omega arith))
            small)

      held :
          (r' : ℕ)
          → r' < nranks
          → Memᴰ r' (r ∷ order) ⊎ Published cnt src s r'
          → Memᴰ r' order ⊎ Published cnt src (stored pmi r (idstr allg cnt) (src r) s) r'
      held r' lt (inl m) = elim (Memᴰ.cases_cons m) [ inl e ↦ inr (own r' e) | inr m' ↦ inl m' ]
      held r' lt (inr e) = inr (kept r' lt e)

  abbrev pub Settled : Text → ℕ → (ℕ → List ℕ) → ℕ → Store → Type 0
  Settled name cnt src r s = settled s (key (idstr name cnt) r) ≡ some (c_text (encode (src r)))

  other_key :
      (name name' : Text) (cnt cnt' r rank : ℕ)
      → length name ≡ 4
      → length name' ≡ 4
      → cnt < 2 ^ 31
      → cnt' < 2 ^ 31
      → r < 2 ^ 31
      → rank < 2 ^ 31
      → (name ≢ name') ⊎ (cnt ≢ cnt')
      → text_eq (key (idstr name' cnt') rank) (key (idstr name cnt) r) ≡ false
  other_key name name' cnt cnt' r rank l l' hc hc' hr hr' ne =
      elim (Bool-cases (text_eq (key (idstr name' cnt') rank) (key (idstr name cnt) r))) [
        | inl same ↦
            let (names, cnts, _) =
              key-injective name name' cnt cnt' r rank l l' hc hc' hr hr'
                (sym (eq_of_text_eq _ _ same)) in
            elim ne [ inl n ↦ absurd (n names) | inr n ↦ absurd (n cnts) ]
        | inr other ↦ other
      ]

  -- Sends of other calls succeed and leave what is settled for a call as it is.
  pub run_ahead-settled :
      (name : Text) (cnt : ℕ) (sends : List Send) (s : Store)
      → length name ≡ 4
      → cnt < 2 ^ 31
      → AreOther name cnt sends
      → (s' : Store) × (run_ahead pmi sends s ≡ ok s')
        × ((r : ℕ)
            → r < 2 ^ 31
            → settled s' (key (idstr name cnt) r) ≡ settled s (key (idstr name cnt) r))
  unfolding run_ahead
  run_ahead-settled name cnt [] s l hc h = (s, refl, λ r _. refl)
  run_ahead-settled name cnt ((name', cnt', rank, buf) ∷ sends) s l hc h =
      let (l', hc', hr, small, ne, others) = h in
      let (s', run, same) =
        run_ahead-settled name cnt sends (stored pmi rank (idstr name' cnt') buf s) l hc others in
      let sent =
        gni_pmi_send-stored pmi rank (idstr name' cnt') buf s (length-key name' cnt' rank l' hc' hr)
          small in
      (
        s',
        rw sent run,
        λ r lt.
            same r lt
            ∙ settled-put rank (key (idstr name' cnt') rank) (c_text (encode buf)) s
                (key (idstr name cnt) r)
                (other_key name name' cnt cnt' r rank l l' hc hc' lt hr ne),
      )
