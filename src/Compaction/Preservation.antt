-- ===== src/Compaction/Preservation.antt =====
-- Each method of a barrier's life keeps the coordinator sound.
use elderflow.Shared.{
  ℕ, ◌≡◌, refl, ◌∙◌, ap, sym, Bool, true, false, Option, none, some, List, arith, ◌==◌,
  if◌then◌else◌, inl, inr, Option-cases, Bool-cases, ltb, String, find,
}
use elderflow.Shared.Sets
use elderflow.Shared.Sets.{
  distinct-of_list, distinct-add, subset-add_left, subset-add_right, subset_of_length,
}
use elderflow.Compaction.State.{
  BarrierPhase, Outcome, is_completion, phase_is, CompactionBarrier, Coordinator,
}
use elderflow.Compaction.Barriers.{
  release, open_barrier, join_round, connect, join, drain, acknowledge, make_ready, claim, complete,
  fail, settled_outcome, abort_of, id_matches, abort, abort_meeting, disconnect, disconnected,
}
use elderflow.Compaction.Rounds.{
  fresh_barrier-IsSoundBarrier, join_round-IsSoundBarrier, drain-IsSoundBarrier,
  ready-IsSoundBarrier, claim-IsSoundBarrier,
}
use elderflow.Compaction.Store.{All-find}
use elderflow.Compaction.Invariant.{
  IsSoundBarrier, IsStored, IsSound, store-IsSound, release-IsSound,
}

pub if_rule {ℓ κ} :
    {A : Type ℓ} (P : A → Type κ) (test : Bool) (x y : A)
    → (test ≡ true → P x)
    → (test ≡ false → P y)
    → P (if test then x else y)
if_rule P true x y f g = f refl
if_rule P false x y f g = g refl

module _ (document_of : ℕ → ℕ) where
  -- The rules by which a method that looks a barrier up keeps the invariant.
  pub find_rule {κ} :
      {B : Type 0} (P : B → Type κ) (test : CompactionBarrier → Bool) (s : Coordinator)
      (missing : B) (found : CompactionBarrier → B)
      → IsSound document_of s
      → P missing
      → ((b : CompactionBarrier)
          → find test s.barriers ≡ some b
          → IsStored document_of s.external_writers b
          → test b ≡ true
          → P (found b))
      → P (elim (find test s.barriers) [ none ↦ missing | some b ↦ found b ])
  find_rule P test s missing found v h k = elim (Option-cases (find test s.barriers)) [
    | inl e ↦ rw e h
    | inr (b, e) ↦
        let (stored, hit) =
          All-find (IsStored document_of s.external_writers) test s.barriers b e v in
        rw e (k b e stored hit)
  ]

  -- The state after a method that also returns a result.
  abbrev pub Keeps : {B : Type 0} → Coordinator × B → Type 0
  Keeps r = IsSound document_of r.0

  pub open_barrier-IsSound :
      (id meeting document : ℕ) (connection : Option ℕ) (user : ℕ) (participants : List ℕ)
      (s : Coordinator)
      → document ≡ document_of meeting
      → IsSound document_of s
      → IsSound document_of (open_barrier id meeting document connection user participants s).0
  unfolding open_barrier
  open_barrier-IsSound id meeting document connection user participants s e v =
      if_rule Keeps (ltb 0 (s.external_writers meeting)) _ _ (λ _. v)
        λ idle.
          find_rule Keeps _ s _ _ v
            (store-IsSound document_of _ s
              (record {
                sound =
                    fresh_barrier-IsSoundBarrier id meeting document connection user participants;
                placed = e;
                unwritten = ground arith;
              })
              v)
            (λ b _ _ _. v)

  -- A stored barrier that changes nothing but its round.
  pub IsStored-again :
      {w : ℕ → ℕ} {b : CompactionBarrier} (c : CompactionBarrier)
      → IsStored document_of w b
      → c.document_id ≡ b.document_id
      → c.meeting_id ≡ b.meeting_id
      → IsSoundBarrier c
      → IsStored document_of w c
  IsStored-again c h d m v = record {
    sound = v;
    placed = d ∙ h.placed ∙ ap document_of (sym m);
    unwritten = rw m h.unwritten;
  }

  pub join-IsSound :
      (document participant : ℕ) (s : Coordinator)
      → IsSound document_of s
      → IsSound document_of (join document participant s).0
  unfolding join
  join-IsSound document participant s v = find_rule Keeps _ s _ _ v v λ b _ stored _.
      if_rule Keeps _ _ _ (λ _. v)
        λ open_round.
          store-IsSound document_of (join_round participant b) (connect document participant s)
            (IsStored-again _ stored (ground arith) (ground arith)
              (join_round-IsSoundBarrier participant b open_round stored.sound))
            v

  pub acknowledge-IsSound :
      (document id participant : ℕ) (s : Coordinator)
      → IsSound document_of s
      → IsSound document_of (acknowledge document id participant s).0
  unfolding acknowledge
  acknowledge-IsSound document id participant s v = find_rule Keeps _ s _ _ v v λ b _ stored _.
      if_rule Keeps _ _ _
        (λ may.
          store-IsSound document_of (drain participant b) s
            (IsStored-again _ stored refl refl
              (drain-IsSoundBarrier id participant b may stored.sound))
            v)
        (λ _. v)

  pub make_ready-IsSound :
      (document id : ℕ) (sequence : String) (s : Coordinator)
      → IsSound document_of s
      → IsSound document_of (make_ready document id sequence s).0
  unfolding make_ready
  make_ready-IsSound document id sequence s v = find_rule Keeps _ s _ _ v v λ b _ stored _.
      if_rule Keeps _ _ _
        (λ may.
          store-IsSound document_of _ s
            (IsStored-again _ stored refl refl
              (ready-IsSoundBarrier sequence b (ground arith) stored.sound))
            v)
        (λ _. v)

  pub claim-IsSound :
      (meeting id user : ℕ) (s : Coordinator)
      → IsSound document_of s
      → IsSound document_of (claim meeting id user s).0
  unfolding claim
  claim-IsSound meeting id user s v = find_rule Keeps _ s _ _ v v λ b _ stored _.
      if_rule Keeps _ _ _
        (λ may.
          store-IsSound document_of _ s
            (IsStored-again _ stored refl refl
              (claim-IsSoundBarrier meeting user b may stored.sound))
            v)
        (λ _. v)

  released_or_same :
      (test : Bool) (b : CompactionBarrier) (outcome : Outcome) (s : Coordinator)
      → IsSound document_of s
      → IsSound document_of (if test then release b outcome s else s)
  released_or_same true b outcome s v = release-IsSound document_of b outcome s v
  released_or_same false b outcome s v = v

  pub complete-IsSound :
      (meeting id : ℕ) (s : Coordinator)
      → IsSound document_of s
      → IsSound document_of (complete meeting id s)
  unfolding complete
  complete-IsSound meeting id s v =
      find_rule (IsSound document_of) _ s _ _ v v
        λ b _ _ _. released_or_same (b.meeting_id == meeting) b (settled_outcome b.intention) s v

  pub fail-IsSound :
      (meeting id : ℕ) (s : Coordinator)
      → IsSound document_of s
      → IsSound document_of (fail meeting id s)
  unfolding fail
  fail-IsSound meeting id s v =
      find_rule (IsSound document_of) _ s _ _ v v
        λ b _ _ _. released_or_same (b.meeting_id == meeting) b Outcome.aborted s v

  abort_of-IsSound :
      (b : CompactionBarrier) (s : Coordinator)
      → IsStored document_of s.external_writers b
      → IsSound document_of s
      → IsSound document_of (abort_of b s)
  unfolding abort_of
  abort_of-IsSound b s stored v = elim (Bool-cases (phase_is b.phase BarrierPhase.committing)) [
    | inl e ↦ elim (Bool-cases (is_completion b.intention)) [
      | inl c ↦
          rw (e, c)
            (store-IsSound document_of (record b { cancelled = true }) s
              (IsStored-again (record b { cancelled = true }) stored refl refl
                (ground (arith, stored.sound)))
              v)
      | inr c ↦ rw (e, c) v
    ]
    | inr e ↦ rw e (release-IsSound document_of b Outcome.aborted s v)
  ]

  pub abort-IsSound :
      (document : ℕ) (id : Option ℕ) (s : Coordinator)
      → IsSound document_of s
      → IsSound document_of (abort document id s)
  unfolding abort
  abort-IsSound document id s v = find_rule (IsSound document_of) _ s _ _ v v λ b _ stored _.
      elim (Bool-cases (id_matches id b)) [
        | inl e ↦ rw e (abort_of-IsSound b s stored v)
        | inr e ↦ rw e v
      ]

  pub abort_meeting-IsSound :
      (meeting : ℕ) (s : Coordinator)
      → IsSound document_of s
      → IsSound document_of (abort_meeting meeting s)
  unfolding abort_meeting
  abort_meeting-IsSound meeting s v = find_rule (IsSound document_of) _ s _ _ v v λ b _ _ _.
      elim (Bool-cases (phase_is b.phase BarrierPhase.committing)) [
        | inl e ↦ rw e v
        | inr e ↦ rw e (release-IsSound document_of b Outcome.aborted s v)
      ]

  pub disconnected-IsSound :
      (document participant : ℕ) (s : Coordinator)
      → IsSound document_of s
      → IsSound document_of (disconnected document participant s)
  unfolding disconnected
  disconnected-IsSound document participant s v =
      find_rule (IsSound document_of) _ s _ _ v v λ b _ _ _.
        elim (Bool-cases (Sets.contains participant b.participants)) [
          | inl e ↦ rw e (abort-IsSound document (some b.id) (disconnect document participant s) v)
          | inr e ↦ rw e v
        ]
