-- ===== src/Compaction/Store.antt =====
-- The map of barriers: what holds of every stored barrier, after each change of the map.
use elderflow.Shared.{
  ℕ, ◌≡◌, refl, Bool, true, false, none, some, List, [], ◌∷◌, arith, ◌==◌, if◌then◌else◌, find,
  filter, All, inl, inr, Bool-cases,
}
use elderflow.Compaction.State.{CompactionBarrier, put, drop, at_document}

module _ {ℓ} (P : CompactionBarrier → Type ℓ) where
  pub All-put :
      (b : CompactionBarrier) (bs : List CompactionBarrier) → P b → All P bs → All P (put b bs)
  unfolding put
  All-put b [] h hs = (h, tt)
  All-put b (c ∷ bs) h hs = elim (Bool-cases (c.document_id == b.document_id)) [
    | inl e ↦ rw e (h, hs.1)
    | inr e ↦ rw e (hs.0, All-put b bs h hs.1)
  ]

  pub All-filter :
      (keep : CompactionBarrier → Bool) (bs : List CompactionBarrier)
      → All P bs
      → All (λ b. P b × (keep b ≡ true)) (filter keep bs)
  unfolding filter
  All-filter keep [] hs = tt
  All-filter keep (c ∷ bs) hs = elim (Bool-cases (keep c)) [
    | inl e ↦ rw e ((hs.0, e), All-filter keep bs hs.1)
    | inr e ↦ rw e (All-filter keep bs hs.1)
  ]

  pub All-find :
      (test : CompactionBarrier → Bool) (bs : List CompactionBarrier) (b : CompactionBarrier)
      → find test bs ≡ some b
      → All P bs
      → P b × (test b ≡ true)
  unfolding find
  All-find test [] b e hs = cc
  All-find test (c ∷ bs) b e hs = elim (Bool-cases (test c)) [
    | inl hit ↦ let same : c ≡ b = ground arith in rw (← same) (hs.0, hit)
    | inr miss ↦ All-find test bs b (ground arith) hs.1
  ]

pub All-find-none :
    (test : CompactionBarrier → Bool) (bs : List CompactionBarrier)
    → find test bs ≡ none
    → All (λ b. test b ≡ false) bs
unfolding find
All-find-none test [] e = tt
All-find-none test (c ∷ bs) e =
    let rest = All-find-none test bs in
    elim (Bool-cases (test c)) [
      | inl hit ↦ absurd (ground arith)
      | inr miss ↦ (miss, rest (ground arith))
    ]

pub All-and {ℓ κ} :
    (P : CompactionBarrier → Type ℓ) (Q : CompactionBarrier → Type κ) (bs : List CompactionBarrier)
    → All P bs
    → All Q bs
    → All (λ b. P b × Q b) bs
All-and P Q [] hp hq = tt
All-and P Q (b ∷ bs) hp hq = ((hp.0, hq.0), All-and P Q bs hp.1 hq.1)

-- `get` after `set`.
pub at_document-put :
    (document : ℕ) (b : CompactionBarrier) (bs : List CompactionBarrier)
    → at_document document (put b bs)
      ≡ (if b.document_id == document then some b else at_document document bs)
unfolding put find
at_document-put document b [] = refl
at_document-put document b (c ∷ bs) = ground (arith, at_document-put document b bs)

-- `get` after `delete`.
pub at_document-drop :
    (document other : ℕ) (bs : List CompactionBarrier)
    → at_document document (drop other bs)
      ≡ (if other == document then none else at_document document bs)
unfolding filter find
at_document-drop document other [] = ground arith
at_document-drop document other (c ∷ bs) = ground (arith, at_document-drop document other bs)
