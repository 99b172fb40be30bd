-- ===== src/Envelope/ScalarCodec.antt =====
-- `encryptScalar` (frontend/src/e2ee/scalar-codec.ts); `random_bytes` gives the padding. A function
-- that throws gives `none`.
use elderflow.Shared.{
  ℕ, zero, suc, ◌+◌, ◌-◌, Bool, true, false, ◌&&◌, Option, none, some, List, [], ◌∷◌, ◌++◌, ◌==◌,
  leb, ltb, length, find,
}
use elderflow.Shared.Options.{◌>>=◌, ◌>>◌, assert}
use elderflow.Envelope.Values.{
  Bytes, Text, Value, Items, number, bytes, text, array, items_of, arr, big_endian,
  max_safe_integer, Libraries, signature_domain,
}
use elderflow.Envelope.Scalar.{ScalarFieldContext, signed_value}

pub record ScalarContext : Type 0 where
  pub field : ScalarFieldContext
  pub organization_id : Bytes
  pub ock_id : Bytes

pub record EncryptScalarInput : Type 0 where
  pub context : ScalarContext
  pub client_epoch_id : Bytes
  pub write_counter : ℕ
  pub nonce_prefix : Bytes
  pub content_key : Bytes
  pub signing_private_key : Bytes
  pub value : Option Text
  pub random_bytes : ℕ → Bytes

pub record DecryptScalarInput : Type 0 where
  pub context : ScalarContext
  pub envelope : Bytes
  pub content_key : Bytes
  pub signing_public_key : Option Bytes

abbrev pub padding_buckets : List ℕ
padding_buckets = 256 ∷ 1024 ∷ 4096 ∷ 16384 ∷ 65536 ∷ 262144 ∷ 1048576 ∷ []

-- "ElderFlow key v1".
abbrev pub key_domain : Bytes
key_domain =
    69 ∷ 108 ∷ 100 ∷ 101 ∷ 114 ∷ 70 ∷ 108 ∷ 111 ∷ 119 ∷ 32 ∷ 107 ∷ 101 ∷ 121 ∷ 32 ∷ 118 ∷ 49 ∷ []

abbrev pub has_length : ℕ → Bytes → Bool
has_length n b = length b == n

unfoldable pub zeros : ℕ → Bytes
zeros zero = []
zeros (suc n) = 0 ∷ zeros n

abbrev pub assert_context : ScalarContext → Option (Unit {0})
assert_context c = do
  assert (has_length 16 c.organization_id)
  assert (has_length 16 c.field.record_id)
  assert (has_length 16 c.ock_id)
  assert (leb 256 c.field.aggregate_type && leb c.field.aggregate_type 65535)
  assert (leb 1 c.field.field_id && leb c.field.field_id 65535)

abbrev pub scalar_value : ℕ → Bytes → Bytes → Value
scalar_value state value padding = arr (number 1 ∷ number state ∷ bytes value ∷ bytes padding ∷ [])

module _ (lib : Libraries) where
  -- The attempts of `paddedPlaintext`; `paddingLength` below 0 breaks the loop.
  unfoldable pub pad_attempts :
      ℕ → (state : ℕ) → Bytes → (ℕ → Bytes) → (bucket padding_length : ℕ) → Option Bytes
  pad_attempts zero state value random_bytes bucket padding_length = none
  pad_attempts (suc attempts) state value random_bytes bucket padding_length =
      let candidate = length (lib.encode (scalar_value state value (zeros padding_length))) in
      elim (candidate == bucket) [
        | true ↦
            assert (has_length padding_length (random_bytes padding_length))
            >> some (lib.encode (scalar_value state value (random_bytes padding_length)))
        | false ↦ elim (ltb (padding_length + bucket) candidate) [
          | true ↦ none
          | false ↦
              pad_attempts attempts state value random_bytes bucket
                (padding_length + bucket - candidate)
        ]
      ]

  unfoldable pub padded_plaintext : (state : ℕ) → Bytes → (ℕ → Bytes) → Option Bytes
  unfolding pad_attempts zeros
  padded_plaintext state value random_bytes = do
    let empty_length = length (lib.encode (scalar_value state value []))
    bucket ← find (λ candidate. leb empty_length candidate) padding_buckets
    pad_attempts 8 state value random_bytes bucket (bucket - empty_length)

  abbrev pub scalar_key : Bytes → ScalarContext → Bytes
  scalar_key content_key c = lib.hkdf content_key c.organization_id (
      lib.encode (
        arr (
          text key_domain
          ∷ number 10
          ∷ number c.field.aggregate_type
          ∷ bytes (c.field.record_id ++ big_endian 2 c.field.field_id)
          ∷ [])))

abbrev pub state_of : Option Text → ℕ
state_of none = 0
state_of (some value) = 1

-- The UTF-8 of the text in normal form C.
abbrev pub utf8_of : Libraries → Option Text → Bytes
utf8_of lib none = []
utf8_of lib (some value) = lib.text_encode (lib.normalize value)

abbrev pub nonce_of : Bytes → ℕ → Bytes
nonce_of prefix counter = prefix ++ big_endian 8 counter

abbrev pub scalar_header : EncryptScalarInput → Items
scalar_header input = items_of (
    bytes input.context.organization_id
    ∷ number input.context.field.aggregate_type
    ∷ bytes input.context.field.record_id
    ∷ number input.context.field.field_id
    ∷ bytes input.context.ock_id
    ∷ bytes input.client_epoch_id
    ∷ number input.write_counter
    ∷ bytes (nonce_of input.nonce_prefix input.write_counter)
    ∷ [])

abbrev pub authenticated_value : Items → Value
authenticated_value header = arr (number 1 ∷ number 4 ∷ number 1 ∷ array header ∷ [])

module _ (lib : Libraries) where
  -- Encryption, signature and encoding of a padded plaintext.
  unfoldable pub sealed_scalar : EncryptScalarInput → Bytes → Bytes
  sealed_scalar input plaintext =
      let header = scalar_header input in
      let ciphertext =
        lib.seal plaintext (lib.encode (authenticated_value header))
          (nonce_of input.nonce_prefix input.write_counter)
          (scalar_key lib input.content_key input.context) in
      let signature =
        lib.sign (signature_domain ++ lib.encode (signed_value header ciphertext))
          input.signing_private_key in
      lib.encode (
        arr
          (number 1 ∷ number 4 ∷ number 1 ∷ array header ∷ bytes ciphertext ∷ bytes signature ∷ []))

  unfoldable pub encrypt_scalar : EncryptScalarInput → Option Bytes
  unfolding padded_plaintext sealed_scalar
  encrypt_scalar input = do
    assert_context input.context
    assert (has_length 32 input.content_key)
    assert (has_length 64 input.signing_private_key)
    assert (has_length 16 input.nonce_prefix)
    assert (leb 1 input.write_counter && leb input.write_counter max_safe_integer)
    plaintext ←
        padded_plaintext lib (state_of input.value) (utf8_of lib input.value) input.random_bytes
    assert (has_length 16 input.client_epoch_id)
    some (sealed_scalar input plaintext)
