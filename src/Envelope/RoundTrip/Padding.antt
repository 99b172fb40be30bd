-- ===== src/Envelope/RoundTrip/Padding.antt =====
-- What `paddedPlaintext` gives (frontend/src/e2ee/scalar-codec.ts).
use elderflow.Shared.{
  some-injective, ℕ, zero, suc, ◌+◌, inl, inr, Bool-cases, ◌≡◌, refl, sym, ap, subst, ◌∙◌, arith,
  Bool, true, some, List, [], ◌∷◌, ◌==◌, ==_iff, ==_refl, leb, ltb, length, find,
}
use elderflow.Shared.Sets.{contains}
use elderflow.Shared.Options.{some-of-bind, true-of-assert}
use elderflow.Envelope.Values.{Bytes, number, bytes, Libraries, AreCorrect}
use elderflow.Envelope.ScalarCodec.{
  padding_buckets, scalar_value, zeros, pad_attempts, padded_plaintext,
}

pub length-zeros : (n : ℕ) → length (zeros n) ≡ n
unfolding zeros
length-zeros zero = refl
length-zeros (suc n) = ap suc (length-zeros n)

find-contains :
    (test : ℕ → Bool) (xs : List ℕ) (x : ℕ) → find test xs ≡ some x → contains x xs ≡ true
unfolding contains find
find-contains test [] x h = cc
find-contains test (y ∷ xs) x h = ground (arith, find-contains test xs x, ==_refl x)

-- A padded plaintext: the value with bytes that fill a bucket.
pub record IsPadded (lib : Libraries) (state : ℕ) (value plaintext : Bytes) : Type 0 where
  pub padding : Bytes
  pub plain : plaintext ≡ lib.encode (scalar_value state value padding)
  pub fills : contains (length plaintext) padding_buckets ≡ true

module _ (lib : Libraries) (correct : AreCorrect lib) (state : ℕ) (value : Bytes)
    (random_bytes : ℕ → Bytes) where
  same_length :
      (n : ℕ) (p : Bytes)
      → length p ≡ n
      → length (lib.encode (scalar_value state value p))
        ≡ length (lib.encode (scalar_value state value (zeros n)))
  same_length n p h =
      correct.length-encode (number 1 ∷ number state ∷ bytes value ∷ []) p (zeros n)
        (h ∙ sym (length-zeros n))

  abbrev candidate : ℕ → ℕ
  candidate n = length (lib.encode (scalar_value state value (zeros n)))

  pad_attempts-IsPadded :
      (attempts bucket padding_length : ℕ) (plaintext : Bytes)
      → contains bucket padding_buckets ≡ true
      → pad_attempts lib attempts state value random_bytes bucket padding_length ≡ some plaintext
      → IsPadded lib state value plaintext
  unfolding pad_attempts
  pad_attempts-IsPadded zero bucket padding_length plaintext known h = cc
  pad_attempts-IsPadded (suc attempts) bucket padding_length plaintext known h =
      elim (Bool-cases (candidate padding_length == bucket)) [
        | inl e ↦
            let (done, given, drawn) = some-of-bind _ _ (rw (pad_attempts, e) at h) in
            let enough = (==_iff _ _).0 (true-of-assert _ drawn) in
            record {
              padding = random_bytes padding_length;
              plain = sym (some-injective given);
              fills =
                  subst (λ n. contains n padding_buckets ≡ true)
                    (sym (
                      ap length (sym (some-injective given))
                      ∙ same_length padding_length _ enough
                      ∙ (==_iff _ _).0 e))
                    known;
            }
        | inr e ↦ elim (Bool-cases (ltb (padding_length + bucket) (candidate padding_length))) [
          | inl l ↦ let h' = rw (pad_attempts, e, l) at h in cc
          | inr l ↦
              pad_attempts-IsPadded attempts bucket _ plaintext known (rw (pad_attempts, e, l) at h)
        ]
      ]

  pub padded_plaintext-IsPadded :
      (plaintext : Bytes)
      → padded_plaintext lib state value random_bytes ≡ some plaintext
      → IsPadded lib state value plaintext
  unfolding padded_plaintext
  padded_plaintext-IsPadded plaintext h =
      let (bucket, attempt, found) =
        some-of-bind _
          (find (λ candidate. leb (length (lib.encode (scalar_value state value []))) candidate)
            padding_buckets)
          h in
      pad_attempts-IsPadded 8 bucket _ plaintext (find-contains _ padding_buckets bucket found)
        attempt
