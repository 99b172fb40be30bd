-- ===== src/Shared/Sets.antt =====
-- A JavaScript `Set` of identifiers as a list without repetitions, in the order of insertion.
use elderflow.Shared.Tests.{◌==◌, if◌then◌else◌, Bool-cases, ==_iff, ==_refl}
use elderflow.Shared.Lists.{length}
use Prim.Native.Nat.{ℕ, suc, ◌≤◌}
use mathlib.Core.Path.{◌≡◌, refl, ◌∙◌}
use mathlib.Core.Logic.{inl, inr}
use mathlib.Core.Bool.{Bool, true, false}
use mathlib.Core.List.{List, [], ◌∷◌, ◌++◌}
use native.Mathlib.Omega.{arith}

unfoldable pub contains : ℕ → List ℕ → Bool
contains a [] = false
contains a (x ∷ xs) = if a == x then true else contains a xs

unfoldable pub add : ℕ → List ℕ → List ℕ
unfolding contains
add a xs = if contains a xs then xs else xs ++ a ∷ []

unfoldable pub delete : ℕ → List ℕ → List ℕ
delete a [] = []
delete a (x ∷ xs) = if a == x then xs else x ∷ delete a xs

unfoldable pub of_list_onto : List ℕ → List ℕ → List ℕ
unfolding add
of_list_onto seen [] = seen
of_list_onto seen (x ∷ xs) = of_list_onto (add x seen) xs

-- `new Set(items)`.
unfoldable pub of_list : List ℕ → List ℕ
unfolding of_list_onto
of_list xs = of_list_onto [] xs

-- The invariants of the representation are tests, so that they compute with the code.
unfoldable pub distinct : List ℕ → Bool
unfolding contains
distinct [] = true
distinct (x ∷ xs) = if contains x xs then false else distinct xs

unfoldable pub subset : List ℕ → List ℕ → Bool
unfolding contains
subset [] ys = true
subset (x ∷ xs) ys = if contains x ys then subset xs ys else false

abbrev pub Subset : List ℕ → List ℕ → Type 0
Subset xs ys = (a : ℕ) → contains a xs ≡ true → contains a ys ≡ true

contains-append_one :
    (a b : ℕ) (xs : List ℕ) → contains a (xs ++ b ∷ []) ≡ (if a == b then true else contains a xs)
unfolding contains
contains-append_one a b [] = refl
contains-append_one a b (x ∷ xs) = ground (arith, contains-append_one a b xs)

pub contains-add :
    (a b : ℕ) (xs : List ℕ) → contains a (add b xs) ≡ (if a == b then true else contains a xs)
unfolding add
contains-add a b xs = ground (arith, contains-append_one a b xs)

distinct-append_one :
    (b : ℕ) (xs : List ℕ)
    → contains b xs ≡ false
    → distinct xs ≡ true
    → distinct (xs ++ b ∷ []) ≡ true
unfolding contains distinct
distinct-append_one b [] h d = refl
distinct-append_one b (x ∷ xs) h d =
    ground (arith, contains-append_one x b xs, distinct-append_one b xs)

pub distinct-add : (b : ℕ) (xs : List ℕ) → distinct xs ≡ true → distinct (add b xs) ≡ true
unfolding add
distinct-add b xs d = ground (arith, distinct-append_one b xs)

distinct-of_list_onto :
    (seen xs : List ℕ) → distinct seen ≡ true → distinct (of_list_onto seen xs) ≡ true
unfolding of_list_onto
distinct-of_list_onto seen [] d = d
distinct-of_list_onto seen (x ∷ xs) d =
    distinct-of_list_onto (add x seen) xs (distinct-add x seen d)

pub distinct-of_list : (xs : List ℕ) → distinct (of_list xs) ≡ true
unfolding of_list distinct
distinct-of_list xs = distinct-of_list_onto [] xs refl

pub contains_of_subset :
    (a : ℕ) (xs ys : List ℕ) → subset xs ys ≡ true → contains a xs ≡ true → contains a ys ≡ true
unfolding contains subset
contains_of_subset a [] ys s h = cc
contains_of_subset a (x ∷ xs) ys s h = ground (arith, ==_iff a x, contains_of_subset a xs ys)

pub subset_of_Subset : (xs ys : List ℕ) → Subset xs ys → subset xs ys ≡ true
unfolding contains subset
subset_of_Subset [] ys s = refl
subset_of_Subset (x ∷ xs) ys s =
    let ih = subset_of_Subset xs ys (λ a h. s a (ground arith)) in ground (arith, s x, ==_refl x)

pub subset-add_left :
    (a : ℕ) (xs ys : List ℕ)
    → subset xs ys ≡ true
    → contains a ys ≡ true
    → subset (add a xs) ys ≡ true
subset-add_left a xs ys s h =
    subset_of_Subset (add a xs) ys
      λ b hb. ground (arith, contains-add b a xs, contains_of_subset b xs ys, ==_iff b a)

pub subset-add_right : (a : ℕ) (xs ys : List ℕ) → subset xs ys ≡ true → subset xs (add a ys) ≡ true
subset-add_right a xs ys s =
    subset_of_Subset xs (add a ys)
      λ b hb. ground (arith, contains-add b a ys, contains_of_subset b xs ys)

contains-delete :
    (a b : ℕ) (xs : List ℕ) → (a == b) ≡ false → contains a (delete b xs) ≡ contains a xs
unfolding contains delete
contains-delete a b [] h = refl
contains-delete a b (x ∷ xs) h = ground (arith, contains-delete a b xs)

length-delete :
    (b : ℕ) (xs : List ℕ) → contains b xs ≡ true → length xs ≡ suc (length (delete b xs))
unfolding contains delete
length-delete b [] h = cc
length-delete b (x ∷ xs) h = ground (arith, length-delete b xs)

Subset-delete :
    (x : ℕ) (xs ys : List ℕ) → contains x xs ≡ false → Subset (x ∷ xs) ys → Subset xs (delete x ys)
unfolding contains
Subset-delete x xs ys new s a h = ground (arith, s a, ==_iff a x, contains-delete a x ys)

Subset_of_length :
    (xs ys : List ℕ) → distinct xs ≡ true → Subset xs ys → length ys ≤ length xs → Subset ys xs
unfolding contains distinct
Subset_of_length [] [] d s l a h = h
Subset_of_length [] (y ∷ ys) d s l a h = absurd (omega arith)
Subset_of_length (x ∷ xs) ys d s l a h = elim (Bool-cases (a == x)) [
  | inl e ↦ rw e refl
  | inr e ↦ rw e (
      Subset_of_length xs (delete x ys) (ground arith) (Subset-delete x xs ys (ground arith) s)
        (omega (arith, length-delete x ys (s x (ground arith)))) a (contains-delete a x ys e ∙ h))
]

-- A set that is as large as one that includes it has all its elements.
pub subset_of_length :
    (xs ys : List ℕ)
    → distinct xs ≡ true
    → subset xs ys ≡ true
    → (length xs == length ys) ≡ true
    → subset ys xs ≡ true
subset_of_length xs ys d s l =
    subset_of_Subset ys xs
      (Subset_of_length xs ys d (λ a. contains_of_subset a xs ys s) (ground arith))
