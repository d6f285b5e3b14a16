-- ===== src/Pmi/Message.antt =====
-- common/ct_utils.c: `gni_pmi_send` and `gni_pmi_receive`, which pass a buffer through the store.
use mathlib.Core.List.{append-nil}
use cray_tests.Prelude.{
  lt→ltb, take-length, drop-length, ℕ, zero, suc, ◌+◌, ◌-◌, ◌*◌, ◌<◌, ◌≤◌, ◌≡◌, refl, sym, ap, ◌∙◌,
  arith, false, Option, none, some, List, [], ◌∷◌, ◌++◌, length, take, drop, ◌==◌, ltb,
  if◌then◌else◌, Outcome, ok, fault, ◌>>=◌, assert,
}
use cray_tests.Pmi.Encoding.{encode, decode, decode-encode, IsBytes}
use cray_tests.Pmi.Key.{key}
use cray_tests.Pmi.Store.{Pmi, Text}

-- The text of a C string.
unfoldable pub c_text : List ℕ → Text
c_text [] = []
c_text (c ∷ s) = if c == 0 then [] else c ∷ c_text s

abbrev zeros : ℕ → List ℕ
zeros zero = []
zeros (suc n) = 0 ∷ zeros n

-- `memcpy(buffer, data, n)`: the read must stay inside `data`.
unfoldable pub memcpy : List ℕ → List ℕ → ℕ → Outcome (List ℕ)
memcpy buffer data' n = if ltb (length data') n then fault else ok (take n data' ++ drop n buffer)

receive_decoded : Option (List ℕ × ℕ) → List ℕ → ℕ → Outcome (List ℕ)
unfolding memcpy
receive_decoded none buffer len = fault
receive_decoded (some (data', outlen)) buffer len =
    memcpy buffer data' (if ltb outlen len then outlen else len)

module _ (pmi : Pmi) where
  open pmi use {Store, kvs_put, kvs_commit, kvs_get}

  unfoldable pub gni_pmi_send : ℕ → Text → List ℕ → Store → Outcome Store
  unfolding c_text
  gni_pmi_send my_rank kvs buffer s =
      let (rc, s') = kvs_put my_rank (key kvs my_rank) (c_text (encode buffer)) s in
      do
        put ← assert (rc == 0) s'
        let committed = kvs_commit my_rank put
        assert (committed.0 == 0) committed.1

  -- `keyval` is the text that was read, in a buffer of zeros.
  unfoldable pub gni_pmi_receive : Text → ℕ → List ℕ → ℕ → Store → Outcome (List ℕ)
  unfolding receive_decoded
  gni_pmi_receive kvs rank buffer len s =
      let (rc, text) = kvs_get (key kvs rank) (2 * len + 1) s in
      do
        keyval ← assert (rc == 0) (text ++ zeros (2 * len + 1 - length text))
        receive_decoded (decode keyval) buffer len

c_text-encode : (buf rest : List ℕ) → c_text (encode buf) ++ 0 ∷ rest ≡ encode buf ++ rest
unfolding c_text encode
c_text-encode [] rest = refl
c_text-encode (b ∷ buf) rest = ground (arith, c_text-encode buf rest)

pub length-c_text : (buf : List ℕ) → length (c_text (encode buf)) ≡ 2 * length buf
unfolding c_text encode
length-c_text [] = refl
length-c_text (b ∷ buf) = ground (arith, length-c_text buf)

memcpy-whole :
    (buffer buf : List ℕ) → length buffer ≡ length buf → memcpy buffer buf (length buf) ≡ ok buf
unfolding memcpy
memcpy-whole buffer buf e =
    let rest : drop (length buf) buffer ≡ [] =
      ap (λ n. drop n buffer) (sym e) ∙ drop-length {0} buffer in
    let same : ltb (length buf) (length buf) ≡ false = ground arith in
    rw (same, take-length {0} buf, rest) (ap ok (append-nil buf))

memcpy-over : (buffer buf : List ℕ) (n : ℕ) → length buf < n → memcpy buffer buf n ≡ fault
unfolding memcpy
memcpy-over buffer buf n h = rw (lt→ltb (length buf) n h) refl

-- What `gni_pmi_receive` makes of a read of an encoded buffer that is not longer than `len`.
module _ (pmi : Pmi) where
  open pmi use {Store, settled, kvs_get, get_settled}

  receive_encoded :
      (kvs : Text) (rank : ℕ) (buf buffer : List ℕ) (len : ℕ) (s : Store)
      → settled s (key kvs rank) ≡ some (c_text (encode buf))
      → IsBytes buf
      → length buf ≤ len
      → gni_pmi_receive pmi kvs rank buffer len s
        ≡ memcpy buffer buf (if ltb (2 * length buf) len then 2 * length buf else len)
  unfolding gni_pmi_receive receive_decoded
  receive_encoded kvs rank buf buffer len s e h le =
      let read =
        get_settled (key kvs rank) (c_text (encode buf)) (2 * len + 1) s e
          (omega (arith, length-c_text buf)) in
      let rest : 2 * len + 1 - length (c_text (encode buf)) ≡ suc (2 * (len - length buf)) =
        omega (arith, length-c_text buf) in
      rw (
        read,
        rest,
        c_text-encode buf (zeros (2 * (len - length buf))),
        decode-encode buf (zeros (2 * (len - length buf))) h,
      )

  -- A rank that receives as many bytes as were sent gets the bytes that were sent.
  pub gni_pmi_receive-settled :
      (kvs : Text) (rank : ℕ) (buf buffer : List ℕ) (len : ℕ) (s : Store)
      → settled s (key kvs rank) ≡ some (c_text (encode buf))
      → IsBytes buf
      → length buf ≡ len
      → length buffer ≡ len
      → gni_pmi_receive pmi kvs rank buffer len s ≡ ok buf
  gni_pmi_receive-settled kvs rank buf buffer len s e h l lb =
      let no : ltb (2 * length buf) len ≡ false = ground arith in
      receive_encoded kvs rank buf buffer len s e h (omega arith)
      ∙ rw (no, sym l) (memcpy-whole buffer buf (lb ∙ sym l))

  -- A rank that receives more bytes than were sent, when some were, reads past the end of the
  -- decoded bytes: the guard compares with the length of the encoded text.
  pub gni_pmi_receive-over_read :
      (kvs : Text) (rank : ℕ) (buf buffer : List ℕ) (len : ℕ) (s : Store)
      → settled s (key kvs rank) ≡ some (c_text (encode buf))
      → IsBytes buf
      → 0 < length buf
      → length buf < len
      → gni_pmi_receive pmi kvs rank buffer len s ≡ fault
  gni_pmi_receive-over_read kvs rank buf buffer len s e h pos lt =
      receive_encoded kvs rank buf buffer len s e h (omega arith)
      ∙ memcpy-over buffer buf _ (ground arith)

-- The store after a rank has put a buffer and committed it.
module _ (pmi : Pmi) where
  open pmi use {Store, value_max, kvs_put, kvs_commit, put_ok, commit_ok}

  abbrev pub stored : ℕ → Text → List ℕ → Store → Store
  stored my_rank kvs buffer s =
      (kvs_commit my_rank (kvs_put my_rank (key kvs my_rank) (c_text (encode buffer)) s).1).1

  pub gni_pmi_send-stored :
      (my_rank : ℕ) (kvs : Text) (buffer : List ℕ) (s : Store)
      → length (key kvs my_rank) < 64
      → 2 * length buffer < value_max
      → gni_pmi_send pmi my_rank kvs buffer s ≡ ok (stored my_rank kvs buffer s)
  unfolding gni_pmi_send
  gni_pmi_send-stored my_rank kvs buffer s hk hv =
      let put =
        put_ok my_rank (key kvs my_rank) (c_text (encode buffer)) s hk
          (omega (arith, length-c_text buffer)) in
      let committed =
        commit_ok my_rank (kvs_put my_rank (key kvs my_rank) (c_text (encode buffer)) s).1 in
      rw (put, committed) refl
