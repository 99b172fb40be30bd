-- ===== src/Recurrence/Touched.antt =====
-- What a plan takes from the agendas: appearances that came from the recurrence and that nobody has
-- edited, on meetings that are still planned (backend/src/recurrence/recurrence.service.ts).
use mathlib.Core.List.{Mem, mem-cons_self, mem-cons_of_mem}
use elderflow.Shared.{
  All-map, ℕ, ◌≡◌, refl, subst, Bool-cases, true, false, not, ◌&&◌, ◌==◌, ==_iff, Option, none,
  some, List, [], ◌∷◌, ◌++◌, map, inl, inr, All, filter, find, true-of-and, false-of-not,
  some-injective, if◌then◌else◌,
}
use elderflow.Shared.Sets.{contains}
use elderflow.Shared.Errors.{
  ok, err, bad_request, not_found, topic_not_found, recurrence_configuration_invalid, require,
  or_throw, ok-of-bind, ok-injective, found-of-or_throw, ◌>>=◌,
}
use elderflow.Recurrence.Plan.{
  MeetingStatus, AgendaAppearanceSource, Meeting, MeetingTopic, Topic, Snapshot, SourceAppearance,
  RecurrenceReconciliationPlan, is_planned, from_recurrence, meeting_with, on_planned, is_movable,
  appears, appearances_of, movable_of, date_key,
}
use elderflow.Recurrence.Build.{
  source_of, target_on, stable_meeting_ids, relocate, place, place_in, desired_of, is_open,
  build_plan, plan,
}
use elderflow.Recurrence.Taken.{
  filter-All, sort_by-All, append-All, relocate-AllSources, map-source_of-All,
}
use elderflow.Recurrence.Conservation.{sources}

-- An appearance that a plan for a topic may take.
pub record IsReconcilable (db : Snapshot) (topic_id : ℕ) (item : MeetingTopic) : Type 0 where
  pub stored : Mem item db.meeting_topics
  pub of_topic : item.topic_id ≡ topic_id
  pub recurring : item.source ≡ AgendaAppearanceSource.recurrence
  pub unedited : item.content_edited ≡ false
  pub meeting : Meeting
  pub at_meeting : meeting_with item.meeting_id db.meetings ≡ some meeting
  pub still_planned : meeting.status ≡ MeetingStatus.planned

-- The identifiers of such an appearance.
abbrev pub IsTaken : Snapshot → ℕ → SourceAppearance → Type 0
IsTaken db topic_id s =
    (item : MeetingTopic) × (source_of item ≡ s) × IsReconcilable db topic_id item

recurring_of :
    (item : MeetingTopic)
    → from_recurrence item ≡ true
    → item.source ≡ AgendaAppearanceSource.recurrence
recurring_of item h = by_source item.source h
  where
    by_source :
        (source : AgendaAppearanceSource)
        → (elim source [
          | AgendaAppearanceSource.recurrence ↦ true
          | AgendaAppearanceSource.manual ↦ false
        ])
          ≡ true
        → source ≡ AgendaAppearanceSource.recurrence
    by_source AgendaAppearanceSource.recurrence h = refl
    by_source AgendaAppearanceSource.manual h = cc

planned_of : (m : Meeting) → is_planned m ≡ true → m.status ≡ MeetingStatus.planned
planned_of m h = by_status m.status h
  where
    by_status :
        (status : MeetingStatus)
        → (elim status [ MeetingStatus.planned ↦ true | _ ↦ false ]) ≡ true
        → status ≡ MeetingStatus.planned
    by_status MeetingStatus.planned h = refl
    by_status MeetingStatus.in_progress h = cc
    by_status MeetingStatus.completed h = cc

meeting_of :
    (found : Option Meeting)
    → on_planned found ≡ true
    → (m : Meeting) × (found ≡ some m) × (m.status ≡ MeetingStatus.planned)
meeting_of none h = cc
meeting_of (some m) h = (m, refl, planned_of m h)

movable-IsReconcilable :
    (db : Snapshot) (topic : Topic) (item : MeetingTopic)
    → Mem item db.meeting_topics
    → appears db.meetings topic item ≡ true
    → is_movable db.meetings item ≡ true
    → IsReconcilable db topic.id item
movable-IsReconcilable db topic item stored mine movable =
    let (same, known) = true-of-and (item.topic_id == topic.id) _ mine in
    let (first, planned) =
      true-of-and (from_recurrence item && not item.content_edited)
        (on_planned (meeting_with item.meeting_id db.meetings)) movable in
    let (recurring, unedited) =
      true-of-and (from_recurrence item) (not item.content_edited) first in
    let (m, found, status) = meeting_of (meeting_with item.meeting_id db.meetings) planned in
    record {
      stored = stored;
      of_topic = (==_iff _ _).0 same;
      recurring = recurring_of item recurring;
      unedited = false-of-not _ unedited;
      meeting = m;
      at_meeting = found;
      still_planned = status;
    }

members-All : (items : List MeetingTopic) → All (λ (item : MeetingTopic). Mem item items) items
members-All [] = tt
members-All (item ∷ items) = (
  mem-cons_self,
  All-map _ _ items (λ other there. mem-cons_of_mem item there) (members-All items),
)

movable-All :
    (db : Snapshot) (topic : Topic) (items : List MeetingTopic)
    → All (λ (item : MeetingTopic). Mem item db.meeting_topics) items
    → All
        (IsReconcilable db topic.id)
        (filter (is_movable db.meetings) (filter (appears db.meetings topic) items))
unfolding filter
movable-All db topic [] stored = tt
movable-All db topic (item ∷ items) stored =
    let ih = movable-All db topic items stored.1 in
    elim (Bool-cases (appears db.meetings topic item)) [
      | inr e ↦ rw e ih
      | inl mine ↦ elim (Bool-cases (is_movable db.meetings item)) [
        | inr e ↦ rw (mine, e) ih
        | inl movable ↦
            rw (mine, movable) (movable-IsReconcilable db topic item stored.0 mine movable, ih)
      ]
    ]

movable_of-All :
    (db : Snapshot) (topic : Topic) → All (IsReconcilable db topic.id) (movable_of db topic)
unfolding movable_of appearances_of
movable_of-All db topic =
    sort_by-All _ (date_key db.meetings)
      (filter (is_movable db.meetings) (filter (appears db.meetings topic) db.meeting_topics))
      (movable-All db topic db.meeting_topics (members-All db.meeting_topics))

-- All that a plan moves or removes.
abbrev pub touched : RecurrenceReconciliationPlan → List SourceAppearance
touched p = sources p.moves ++ p.removals

module _ (db : Snapshot) (topic : Topic) where
  removed-All : All (IsTaken db topic.id) (map source_of (movable_of db topic))
  removed-All =
      map-source_of-All (IsReconcilable db topic.id) (movable_of db topic) (movable_of-All db topic)

  place-All :
      (section_id : ℕ) (desired : List Meeting)
      → All
          (IsTaken db topic.id)
          (touched (place db topic (movable_of db topic) section_id desired))
  unfolding place
  place-All section_id desired =
      let movable = movable_of db topic in
      let targets = map (target_on db topic movable section_id) desired in
      let stays =
        λ (item : MeetingTopic). not (contains item.meeting_id (stable_meeting_ids targets)) in
      let reusable = filter stays movable in
      let used =
        relocate-AllSources (IsReconcilable db topic.id) section_id targets reusable
          (filter-All (IsReconcilable db topic.id) stays movable (movable_of-All db topic)) in
      append-All (IsTaken db topic.id) (sources (relocate section_id targets reusable).0)
        (map source_of (relocate section_id targets reusable).1) used.0
        (map-source_of-All (IsReconcilable db topic.id) (relocate section_id targets reusable).1
          used.1)

  place_in-All :
      (desired : List Meeting) (p : RecurrenceReconciliationPlan)
      → place_in db topic (movable_of db topic) desired ≡ ok p
      → All (IsTaken db topic.id) (touched p)
  place_in-All [] p h =
      subst (λ (q : RecurrenceReconciliationPlan). All (IsTaken db topic.id) (touched q))
        (ok-injective h) removed-All
  place_in-All (m ∷ desired) p h = in_section topic.default_section_id h
    where
      in_section :
          (o : Option ℕ)
          → (elim o [
            | none ↦ err bad_request recurrence_configuration_invalid
            | some section_id ↦
                if contains section_id db.sections
                then ok (place db topic (movable_of db topic) section_id (m ∷ desired))
                else err bad_request recurrence_configuration_invalid
          ])
            ≡ ok p
          → All (IsTaken db topic.id) (touched p)
      in_section none h = cc
      in_section (some section_id) h = elim (Bool-cases (contains section_id db.sections)) [
        | inl e ↦
            subst (λ (q : RecurrenceReconciliationPlan). All (IsTaken db topic.id) (touched q))
              (ok-injective (rw e at h)) (place-All section_id (m ∷ desired))
        | inr e ↦ let h' = rw e at h in cc
      ]

  build_plan-All :
      (p : RecurrenceReconciliationPlan)
      → build_plan db topic ≡ ok p
      → All (IsTaken db topic.id) (touched p)
  unfolding build_plan
  build_plan-All p h = on_meetings db.meetings h
    where
      on_meetings :
          (meetings : List Meeting)
          → (elim meetings [
            | [] ↦ ok (record { moves = []; removals = [] })
            | m ∷ later ↦
                if is_open topic
                then desired_of db topic >>= place_in db topic (movable_of db topic)
                else ok (record { moves = []; removals = map source_of (movable_of db topic) })
          ])
            ≡ ok p
          → All (IsTaken db topic.id) (touched p)
      on_meetings [] h =
          subst (λ (q : RecurrenceReconciliationPlan). All (IsTaken db topic.id) (touched q))
            (ok-injective h) tt
      on_meetings (m ∷ later) h = elim (Bool-cases (is_open topic)) [
        | inl e ↦
            let (desired, placed, picked) =
              ok-of-bind (place_in db topic (movable_of db topic)) (desired_of db topic)
                (rw e at h) in
            place_in-All desired p placed
        | inr e ↦
            subst (λ (q : RecurrenceReconciliationPlan). All (IsTaken db topic.id) (touched q))
              (ok-injective (rw e at h)) removed-All
      ]

find-id :
    (id : ℕ) (t : Topic) (topics : List Topic)
    → find (λ (t : Topic). t.id == id) topics ≡ some t
    → t.id ≡ id
unfolding find
find-id id t [] h = cc
find-id id t (x ∷ topics) h = elim (Bool-cases (x.id == id)) [
  | inl e ↦ subst (λ (u : Topic). u.id ≡ id) (some-injective (rw e at h)) ((==_iff _ _).0 e)
  | inr e ↦ find-id id t topics (rw e at h)
]

-- Whatever a plan for a topic moves or removes is a stored appearance of this topic that came from
-- the recurrence, whose content nobody has edited, and whose meeting is stored and still planned.
pub plan-IsTaken :
    (db : Snapshot) (topic_id : ℕ) (p : RecurrenceReconciliationPlan)
    → plan db topic_id ≡ ok p
    → All (IsTaken db topic_id) (touched p)
unfolding plan
plan-IsTaken db topic_id p h =
    let (topic, r0, found) =
      ok-of-bind _
        (or_throw (find (λ (t : Topic). t.id == topic_id) db.topics) not_found topic_not_found) h in
    let (done, r1, recurs) =
      ok-of-bind _ (require topic.is_recurring bad_request recurrence_configuration_invalid) r0 in
    subst (λ (id : ℕ). All (IsTaken db id) (touched p))
      (find-id topic_id topic db.topics (found-of-or_throw _ _ _ found))
      (build_plan-All db topic p r1)
