-- ===== src/Envelope/Values.antt =====
-- The values that the CBOR decoder gives, bytes, and what the libraries provide. A UUID is the list
-- of its 16 bytes, which its text writes in lower-case hexadecimal digits.
use elderflow.Shared.{
  ℕ, zero, suc, ◌+◌, ◌*◌, ◌/◌, ◌%◌, ◌≡◌, Bool, true, false, ◌&&◌, Option, some, List, [], ◌∷◌, ◌++◌,
  ◌==◌, length,
}

abbrev pub Bytes : Type 0
Bytes = List ℕ

-- A text of JavaScript, as its UTF-16 code units.
abbrev pub Text : Type 0
Text = List ℕ

-- `number` is an integer that is not negative; `bytes` is a `Uint8Array`, `view` any other view of an
-- `ArrayBuffer` with its kind and its bytes, and `buffer` an `ArrayBuffer`; `text` has the bytes of its
-- UTF-8; `other` is any other value of JavaScript.
mutual
  pub data Value : Type 0 where
    number : ℕ → Value
    bytes : Bytes → Value
    view : (kind : ℕ) → Bytes → Value
    buffer : Bytes → Value
    text : Bytes → Value
    null : Value
    other : Value
    array : Items → Value

  pub data Items : Type 0 where
    nil : Items
    cons : Value → Items → Items

-- A value of numbers, byte strings, texts, null and arrays, which the encoder writes as what they are.
abbrev mutual
  pub is_plain : Value → Bool
  is_plain (number n) = true
  is_plain (bytes b) = true
  is_plain (text t) = true
  is_plain null = true
  is_plain (array items) = are_plain items
  is_plain _ = false

  pub are_plain : Items → Bool
  are_plain nil = true
  are_plain (cons v items) = is_plain v && are_plain items

abbrev pub size : Items → ℕ
size nil = 0
size (cons v items) = suc (size items)

-- `items[index]`; `undefined` out of range.
abbrev pub at : Items → ℕ → Value
at nil i = other
at (cons v items) zero = v
at (cons v items) (suc i) = at items i

-- `[…]`.
abbrev pub items_of : List Value → Items
items_of [] = nil
items_of (v ∷ values) = cons v (items_of values)

abbrev pub arr : List Value → Value
arr values = array (items_of values)

-- `sameBytes`: true of equal lengths and bytes that agree.
unfoldable pub same_bytes : Bytes → Bytes → Bool
same_bytes [] [] = true
same_bytes (a ∷ left) (b ∷ right) = a == b && same_bytes left right
same_bytes _ _ = false

-- `setBigUint64(…, false)` and its like: `k` bytes, the highest first.
unfoldable pub big_endian : ℕ → ℕ → Bytes
big_endian zero n = []
big_endian (suc k) n = big_endian k (n / 256) ++ (n % 256) ∷ []

-- `readBigUInt64BE`, with `acc` for the bytes before.
unfoldable pub read_from : ℕ → Bytes → ℕ
read_from acc [] = acc
read_from acc (b ∷ rest) = read_from (acc * 256 + b) rest

unfoldable pub drop : ℕ → Bytes → Bytes
drop zero b = b
drop (suc n) [] = []
drop (suc n) (x ∷ b) = drop n b

unfoldable pub take : ℕ → Bytes → Bytes
take zero b = []
take (suc n) [] = []
take (suc n) (x ∷ b) = x ∷ take n b

abbrev pub max_safe_integer : ℕ
max_safe_integer = 9007199254740991

-- A text that starts with the byte order mark, U+FEFF.
abbrev pub starts_with_bom : Text → Bool
starts_with_bom [] = false
starts_with_bom (unit ∷ rest) = unit == 65279

-- cbor-x, libsodium, SHA-256, HKDF and the texts of JavaScript: `normalize("NFC")`, `isWellFormed`,
-- `TextEncoder` and a fatal `TextDecoder`; `decode`, `open_sealed` and `text_decode` give `none` where
-- they throw.
pub record Libraries : Type 0 where
  pub encode : Value → Bytes
  pub decode : Bytes → Option Value
  pub sha256 : Bytes → Bytes
  pub sign : (message secret_key : Bytes) → Bytes
  pub verify : (signature message public_key : Bytes) → Bool
  pub seal : (plaintext header nonce key : Bytes) → Bytes
  pub open_sealed : (ciphertext header nonce key : Bytes) → Option Bytes
  pub hkdf : (key_material salt info : Bytes) → Bytes
  pub normalize : Text → Text
  pub is_well_formed : Text → Bool
  pub text_encode : Text → Bytes
  pub text_decode : Bytes → Option Text

-- What the libraries document.
pub record AreCorrect (lib : Libraries) : Type 0 where
  pub decode-encode : (v : Value) → is_plain v ≡ true → lib.decode (lib.encode v) ≡ some v
  pub text_decode-text_encode :
      (t : Text)
      → lib.is_well_formed t ≡ true
      → starts_with_bom t ≡ false
      → lib.text_decode (lib.text_encode t) ≡ some t
  pub length-sign : (message key : Bytes) → length (lib.sign message key) ≡ 64
  pub length-seal :
      (plaintext header nonce key : Bytes)
      → length (lib.seal plaintext header nonce key) ≡ length plaintext + 16
  pub length-encode :
      (before : List Value) (p q : Bytes)
      → length p ≡ length q
      → length (lib.encode (arr (before ++ bytes p ∷ [])))
        ≡ length (lib.encode (arr (before ++ bytes q ∷ [])))
  pub open-seal :
      (plaintext header nonce key : Bytes)
      → lib.open_sealed (lib.seal plaintext header nonce key) header nonce key ≡ some plaintext

-- "ElderFlow signed envelope v1\0".
abbrev pub signature_domain : Bytes
signature_domain =
    69 ∷ 108 ∷ 100 ∷ 101 ∷ 114 ∷ 70 ∷ 108 ∷ 111 ∷ 119 ∷ 32 ∷ 115 ∷ 105 ∷ 103 ∷ 110 ∷ 101 ∷ 100 ∷ 32
    ∷ 101 ∷ 110 ∷ 118 ∷ 101 ∷ 108 ∷ 111 ∷ 112 ∷ 101 ∷ 32 ∷ 118 ∷ 49 ∷ 0 ∷ []
