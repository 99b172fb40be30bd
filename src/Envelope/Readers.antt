-- ===== src/Envelope/Readers.antt =====
-- The checks that the validators share: `bytes`, `integer`, the shape of an array, and what a
-- reading that succeeds says of the value.
use elderflow.Shared.{
  ℕ, zero, suc, ◌+◌, ◌*◌, ◌/◌, ◌%◌, ◌^◌, ◌≤◌, ◌<◌, ◌≡◌, refl, ap, ◌∙◌, arith, Bool, true, false,
  ◌&&◌, [], ◌∷◌, ◌++◌, ◌==◌, ==_iff, leb, if◌then◌else◌, length, ◌⊎◌, inl, inr,
}
use native.Mathlib.Nat.{pow-suc}
use elderflow.Shared.Errors.{
  Result, ok, err, bad_request, e2ee_envelope_invalid, require, ok-injective,
}
use elderflow.Envelope.Values.{
  Bytes, Value, Items, number, bytes, view, buffer, text, null, other, array, nil, cons, size, at,
  items_of, same_bytes, big_endian, read_from,
}

abbrev pub invalid {ℓ} : {A : Type ℓ} → Result A
invalid = err bad_request e2ee_envelope_invalid

abbrev pub must : Bool → Result (Unit {0})
must test = require test bad_request e2ee_envelope_invalid

-- `bytes(value)` and `bytes(value, length)`, of any view of an `ArrayBuffer`.
unfoldable pub any_bytes : Value → Result Bytes
any_bytes (bytes b) = ok b
any_bytes (view kind b) = ok b
any_bytes _ = invalid

unfoldable pub exact_bytes : ℕ → Value → Result Bytes
exact_bytes n (bytes b) = if length b == n then ok b else invalid
exact_bytes n (view kind b) = if length b == n then ok b else invalid
exact_bytes n _ = invalid

-- `integer(value, minimum, maximum)`.
unfoldable pub integer_in : ℕ → ℕ → Value → Result ℕ
integer_in low high (number n) = if leb low n && leb n high then ok n else invalid
integer_in low high _ = invalid

-- `Array.isArray(value) && value.length === n`, and the elements.
unfoldable pub array_of : ℕ → Value → Result Items
array_of n (array items) = if size items == n then ok items else invalid
array_of n _ = invalid

-- `value === n`.
unfoldable pub is_number : ℕ → Value → Bool
is_number n (number k) = k == n
is_number n _ = false

unfoldable pub is_array : Value → Bool
is_array (array items) = true
is_array _ = false

-- A view of these bytes.
abbrev pub IsView : Value → Bytes → Type 0
IsView v b = (v ≡ bytes b) ⊎ ((kind : ℕ) × (v ≡ view kind b))

pub any_bytes-ok : (v : Value) (b : Bytes) → any_bytes v ≡ ok b → IsView v b
unfolding any_bytes
any_bytes-ok (bytes b') b e = inl (ap bytes (ok-injective e))
any_bytes-ok (view kind b') b e = inr (kind, ap (view kind) (ok-injective e))
any_bytes-ok (buffer b') b e = cc
any_bytes-ok (number n) b e = cc
any_bytes-ok (text t) b e = cc
any_bytes-ok null b e = cc
any_bytes-ok other b e = cc
any_bytes-ok (array items) b e = cc

pub exact_bytes-ok :
    (n : ℕ) (v : Value) (b : Bytes) → exact_bytes n v ≡ ok b → IsView v b × (length b ≡ n)
unfolding exact_bytes
exact_bytes-ok n (bytes b') b e =
    let read : (b' ≡ b) × (length b ≡ n) = ground arith in (inl (ap bytes read.0), read.1)
exact_bytes-ok n (view kind b') b e =
    let read : (b' ≡ b) × (length b ≡ n) = ground arith in
    (inr (kind, ap (view kind) read.0), read.1)
exact_bytes-ok n (buffer b') b e = cc
exact_bytes-ok n (number k) b e = cc
exact_bytes-ok n (text t) b e = cc
exact_bytes-ok n null b e = cc
exact_bytes-ok n other b e = cc
exact_bytes-ok n (array items) b e = cc

pub integer_in-ok :
    (low high : ℕ) (v : Value) (n : ℕ)
    → integer_in low high v ≡ ok n
    → (v ≡ number n) × (low ≤ n) × (n ≤ high)
unfolding integer_in
integer_in-ok low high (number k) n e = ground arith
integer_in-ok low high (bytes b) n e = cc
integer_in-ok low high (view kind b) n e = cc
integer_in-ok low high (buffer b) n e = cc
integer_in-ok low high (text t) n e = cc
integer_in-ok low high null n e = cc
integer_in-ok low high other n e = cc
integer_in-ok low high (array items) n e = cc

pub array_of-ok :
    (n : ℕ) (v : Value) (items : Items)
    → array_of n v ≡ ok items
    → (v ≡ array items) × (size items ≡ n)
unfolding array_of
array_of-ok n (array items') items e = ground arith
array_of-ok n (number k) items e = cc
array_of-ok n (bytes b) items e = cc
array_of-ok n (view kind b) items e = cc
array_of-ok n (buffer b) items e = cc
array_of-ok n (text t) items e = cc
array_of-ok n null items e = cc
array_of-ok n other items e = cc

pub is_number-true : (n : ℕ) (v : Value) → is_number n v ≡ true → v ≡ number n
unfolding is_number
is_number-true n (number k) e = ap number ((==_iff k n).0 e)
is_number-true n (bytes b) e = cc
is_number-true n (view kind b) e = cc
is_number-true n (buffer b) e = cc
is_number-true n (text t) e = cc
is_number-true n null e = cc
is_number-true n other e = cc
is_number-true n (array items) e = cc

-- An array of known size is its elements.
pub six_items :
    (items : Items)
    → size items ≡ 6
    → items
      ≡ items_of (at items 0 ∷ at items 1 ∷ at items 2 ∷ at items 3 ∷ at items 4 ∷ at items 5 ∷ [])
six_items nil h = absurd (omega arith)
six_items (cons a nil) h = absurd (omega arith)
six_items (cons a (cons b nil)) h = absurd (omega arith)
six_items (cons a (cons b (cons c nil))) h = absurd (omega arith)
six_items (cons a (cons b (cons c (cons d nil)))) h = absurd (omega arith)
six_items (cons a (cons b (cons c (cons d (cons e nil))))) h = absurd (omega arith)
six_items (cons a (cons b (cons c (cons d (cons e (cons f nil)))))) h = refl
six_items (cons a (cons b (cons c (cons d (cons e (cons f (cons g items))))))) h =
    absurd (omega arith)

tail_items : (v : Value) (items : Items) (n : ℕ) → size (cons v items) ≡ suc n → size items ≡ n
tail_items v items n h = omega arith

pub eight_items :
    (items : Items)
    → size items ≡ 8
    → items
      ≡ items_of (
          at items 0
          ∷ at items 1
          ∷ at items 2
          ∷ at items 3
          ∷ at items 4
          ∷ at items 5
          ∷ at items 6
          ∷ at items 7
          ∷ [])
eight_items nil h = absurd (omega arith)
eight_items (cons a nil) h = absurd (omega arith)
eight_items (cons a (cons b items)) h =
    ap (λ rest. cons a (cons b rest)) (six_items items (omega arith))

pub same_bytes-true : (a b : Bytes) → same_bytes a b ≡ true → a ≡ b
unfolding same_bytes
same_bytes-true [] [] h = refl
same_bytes-true [] (b ∷ right) h = cc
same_bytes-true (a ∷ left) [] h = cc
same_bytes-true (a ∷ left) (b ∷ right) h = ground (arith, same_bytes-true left right)

pub same_bytes_refl : (a : Bytes) → same_bytes a a ≡ true
unfolding same_bytes
same_bytes_refl [] = refl
same_bytes_refl (a ∷ left) = ground (arith, same_bytes_refl left)

read_from-append_one :
    (acc : ℕ) (xs : Bytes) (b : ℕ) → read_from acc (xs ++ b ∷ []) ≡ read_from acc xs * 256 + b
unfolding read_from
read_from-append_one acc [] b = refl
read_from-append_one acc (x ∷ xs) b = read_from-append_one (acc * 256 + x) xs b

fits : (k n : ℕ) → n < 256 ^ suc k → n / 256 < 256 ^ k
fits k n h = omega (arith, pow-suc 256 k)

-- Reading back the big-endian bytes of a number that fits in them.
pub read_from-big_endian : (k n : ℕ) → n < 256 ^ k → read_from 0 (big_endian k n) ≡ n
unfolding big_endian read_from
read_from-big_endian zero n h = omega arith
read_from-big_endian (suc k) n h =
    read_from-append_one 0 (big_endian k (n / 256)) (n % 256)
    ∙ omega (arith, read_from-big_endian k (n / 256) (fits k n h))
