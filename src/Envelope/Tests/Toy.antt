-- ===== src/Envelope/Tests/Toy.antt =====
-- Libraries for the examples: a format that a stack machine reads, and ciphers that hide nothing.
use elderflow.Shared.{
  ℕ, zero, suc, ◌+◌, ◌≡◌, refl, sym, ap, ◌∙◌, arith, Bool, true, false, Option, none, some, List,
  [], ◌∷◌, ◌++◌, length, true-of-and, ◌==◌, if◌then◌else◌,
}
use elderflow.Envelope.Values.{
  Bytes, Text, is_plain, are_plain, starts_with_bom, Value, Items, number, bytes, view, buffer,
  text, null, other, array, nil, cons, items_of, same_bytes, drop, Libraries, AreCorrect,
}

-- A byte is written as its successor, and 0 ends a string.
abbrev string : Bytes → Bytes
string [] = 0 ∷ []
string (b ∷ rest) = suc b ∷ string rest

abbrev mutual
  toy_encode : Value → Bytes
  toy_encode (number n) = 0 ∷ n ∷ []
  toy_encode (bytes b) = 1 ∷ string b
  toy_encode (view kind b) = 1 ∷ string b
  toy_encode (buffer b) = 1 ∷ string b
  toy_encode (text b) = 2 ∷ string b
  toy_encode null = 3 ∷ []
  toy_encode other = 4 ∷ []
  toy_encode (array items) = toy_items items

  toy_items : Items → Bytes
  toy_items nil = 5 ∷ []
  toy_items (cons v items) = toy_encode v ++ (toy_items items ++ 6 ∷ [])

-- What the machine waits for.
pub data Mode : Type 0 where
  operation argument : Mode
  in_string : (is_text : Bool) → Bytes → Mode

abbrev of_string : Bool → Bytes → Value
of_string true b = text b
of_string false b = bytes b

abbrev join_top : List Value → List Value
join_top (array items ∷ v ∷ stack) = array (cons v items) ∷ stack
join_top stack = stack

abbrev machine_step : ℕ → Mode → List Value → Mode × List Value
machine_step x argument stack = (operation, number x ∷ stack)
machine_step zero (in_string is_text b) stack = (operation, of_string is_text b ∷ stack)
machine_step (suc x) (in_string is_text b) stack = (in_string is_text (b ++ x ∷ []), stack)
machine_step zero operation stack = (argument, stack)
machine_step (suc zero) operation stack = (in_string false [], stack)
machine_step (suc (suc zero)) operation stack = (in_string true [], stack)
machine_step (suc (suc (suc zero))) operation stack = (operation, null ∷ stack)
machine_step (suc (suc (suc (suc zero)))) operation stack = (operation, other ∷ stack)
machine_step (suc (suc (suc (suc (suc zero))))) operation stack = (operation, array nil ∷ stack)
machine_step x operation stack = (operation, join_top stack)

abbrev run_machine : Bytes → Mode → List Value → Option Value
run_machine [] operation (v ∷ []) = some v
run_machine [] _ _ = none
run_machine (x ∷ rest) mode stack =
    let (next, grown) = machine_step x mode stack in run_machine rest next grown

++-assoc : (a b c : Bytes) → a ++ b ++ c ≡ a ++ (b ++ c)
++-assoc [] b c = refl
++-assoc (x ∷ a) b c = ap (λ rest. x ∷ rest) (++-assoc a b c)

++-nil : (a : Bytes) → a ++ [] ≡ a
++-nil [] = refl
++-nil (x ∷ a) = ap (λ rest. x ∷ rest) (++-nil a)

run_machine-string :
    (is_text : Bool) (b before rest : Bytes) (stack : List Value)
    → run_machine (string b ++ rest) (in_string is_text before) stack
      ≡ run_machine rest operation (of_string is_text (before ++ b) ∷ stack)
run_machine-string is_text [] before rest stack =
    ap (λ (b : Bytes). run_machine rest operation (of_string is_text b ∷ stack))
      (sym (++-nil before))
run_machine-string is_text (x ∷ b) before rest stack =
    run_machine-string is_text b (before ++ x ∷ []) rest stack
    ∙ ap (λ (b' : Bytes). run_machine rest operation (of_string is_text b' ∷ stack))
        (++-assoc before _ b)

mutual
  run_machine-toy_encode :
      (v : Value) (rest : Bytes) (stack : List Value)
      → is_plain v ≡ true
      → run_machine (toy_encode v ++ rest) operation stack ≡ run_machine rest operation (v ∷ stack)
  run_machine-toy_encode (number n) rest stack plain = refl
  run_machine-toy_encode (view kind b) rest stack plain = cc
  run_machine-toy_encode (buffer b) rest stack plain = cc
  run_machine-toy_encode (bytes b) rest stack plain = run_machine-string false b [] rest stack
  run_machine-toy_encode (text b) rest stack plain = run_machine-string true b [] rest stack
  run_machine-toy_encode null rest stack plain = refl
  run_machine-toy_encode other rest stack plain = cc
  run_machine-toy_encode (array items) rest stack plain =
      run_machine-toy_items items rest stack plain

  run_machine-toy_items :
      (items : Items) (rest : Bytes) (stack : List Value)
      → are_plain items ≡ true
      → run_machine (toy_items items ++ rest) operation stack
        ≡ run_machine rest operation (array items ∷ stack)
  run_machine-toy_items nil rest stack plain = refl
  run_machine-toy_items (cons v items) rest stack plain =
      let (first, others) = true-of-and (is_plain v) (are_plain items) plain in
      ap (λ (e : Bytes). run_machine e operation stack)
        (++-assoc (toy_encode v) _ rest
          ∙ ap (λ (e : Bytes). toy_encode v ++ e) (++-assoc (toy_items items) (6 ∷ []) rest))
      ∙ run_machine-toy_encode v _ stack first
      ∙ run_machine-toy_items items (6 ∷ rest) (v ∷ stack) others

length-append : (a b : Bytes) → length (a ++ b) ≡ length a + length b
length-append [] b = omega arith
length-append (x ∷ a) b = omega (arith, length-append a b)

length-string : (b : Bytes) → length (string b) ≡ suc (length b)
length-string [] = refl
length-string (x ∷ b) = ap suc (length-string b)

length-cons :
    (v : Value) (items : Items)
    → length (toy_items (cons v items)) ≡ length (toy_encode v) + length (toy_items items) + 1
length-cons v items = omega (
  arith,
  length-append (toy_encode v) (toy_items items ++ 6 ∷ []),
  length-append (toy_items items) (6 ∷ []),
)

length-toy_items :
    (before : List Value) (p q : Bytes)
    → length p ≡ length q
    → length (toy_items (items_of (before ++ bytes p ∷ [])))
      ≡ length (toy_items (items_of (before ++ bytes q ∷ [])))
length-toy_items [] p q h =
    omega (
      arith,
      length-cons (bytes p) nil,
      length-cons (bytes q) nil,
      length-string p,
      length-string q,
    )
length-toy_items (v ∷ before) p q h = omega (
  arith,
  length-cons v (items_of (before ++ bytes p ∷ [])),
  length-cons v (items_of (before ++ bytes q ∷ [])),
  length-toy_items before p q h,
)

abbrev pub copies : ℕ → ℕ → Bytes
copies zero b = []
copies (suc n) b = b ∷ copies n b

length-copies : (n b : ℕ) → length (copies n b) ≡ n
length-copies zero b = refl
length-copies (suc n) b = ap suc (length-copies n b)

-- It drops a byte order mark.
abbrev toy_text_decode : Bytes → Option Text
toy_text_decode [] = some []
toy_text_decode (unit ∷ rest) = if unit == 65279 then some rest else some (unit ∷ rest)

toy_text_decode_lem : (t : Text) → starts_with_bom t ≡ false → toy_text_decode t ≡ some t
toy_text_decode_lem [] h = refl
toy_text_decode_lem (unit ∷ rest) h = rw h

-- A signature is the length of the message, and a tag is 16 bytes in front of the text.
abbrev pub toy : Libraries
toy = record {
  encode = toy_encode;
  decode = λ e. run_machine e operation [];
  sha256 = λ b. copies 32 (length b);
  sign = λ message key. copies 64 (length message);
  verify = λ signature message key. same_bytes signature (copies 64 (length message));
  seal = λ plaintext header nonce key. copies 16 0 ++ plaintext;
  open_sealed = λ ciphertext header nonce key. some (drop 16 ciphertext);
  hkdf = λ key salt info. key;
  normalize = λ t. t;
  is_well_formed = λ t. true;
  text_encode = λ t. t;
  text_decode = toy_text_decode;
}

pub toy-AreCorrect : AreCorrect toy
unfolding drop
toy-AreCorrect = record {
  text_decode-text_encode = λ t formed unmarked. toy_text_decode_lem t unmarked;
  decode-encode = λ v plain.
      ap (λ (e : Bytes). run_machine e operation []) (sym (++-nil (toy_encode v)))
      ∙ run_machine-toy_encode v [] [] plain;
  length-sign = λ message key. refl;
  length-seal = λ plaintext header nonce key. length-append (copies 16 0) plaintext ∙ omega arith;
  length-encode = length-toy_items;
  open-seal = λ plaintext header nonce key. refl;
}
