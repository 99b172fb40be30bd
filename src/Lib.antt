-- ===== src/Lib.antt =====
-- Elderflow: a verification library for the TypeScript program (backend/src and frontend/src).
--
-- The program keeps meetings, their agendas and their end-to-end encrypted documents. The parts
-- below are modelled here. The encrypted scalars go from the frontend's codec through the
-- backend's validator to the stored writes, under keys that the ceremonies replace. Three other
-- parts meet in `addTopic`: a request that adds a topic to an agenda asks the compaction
-- coordinator whether writers are admitted, and for a recurring topic it asks the recurrence
-- service for the plan that the addition has to be a step of.
--
-- Shared: names of the libraries, Boolean tests on numbers, lists, sets of identifiers as lists
-- without repetitions (Shared/Sets), and results of bodies that throw (Shared/Errors,
-- backend/src/errors/coded-http.exception.ts, and Shared/Options for the frontend).
--
-- Compaction (backend/src/meetings/meeting-compaction-coordinator.ts): the coordinator that stops
-- writers while a meeting's document is compacted or completed. Compaction/State has its state
-- and the events it emits; Barriers has `open`, `join`, `acknowledge`, `ready`, `claim`,
-- `assertClaim`, `complete`, `fail`, `abort`, `abortMeeting`, `disconnected`, `current` and
-- `release`; Writers has `prepareUpdate` and the begin and end of external and collaboration
-- updates; Completing has `beginCompletion` to `cancelCompletion`. `captureCompletionSequence` is
-- cut at its `await`: a pending read is part of the state, and its return or failure is a step. A
-- timer that runs out is a step, `randomUUID()` is an argument, and a completion's promise is
-- settled by an event. Run folds any sequence of calls, returning reads and timers over the
-- initial state; the calls are synchronous in the source, so such a sequence is what the event
-- loop can do. Invariant, Rounds, Preservation, Settling and Finishing are about the invariant of
-- these steps, and Guarantees and Rejoining about what follows from it.
--
-- Recurrence (backend/src/recurrence/recurrence.service.ts): on which agendas a recurring topic
-- should appear. Dates and Intervals model calendar dates and `addInterval`; Plan has the loop of
-- `buildPlan` that picks meetings, and Build the reuse, move and removal of appearances, `plan`
-- and `nextDueDate`. The queries are read from a snapshot, a record of the tables. Schedule,
-- Conservation, Planning, Taken and Touched are its theorems.
--
-- Agenda (backend/src/meetings/meetings.service.ts and meeting-mutation-boundary.ts): the
-- positions of an agenda's sections, and the requests that change them. Positions has
-- `normalizeSectionPositions` and the shift that makes room; Requests has `lockedMutableMeeting`
-- and the store; Adding has `addTopicWithinTransaction`, with the replay of a stored mutation;
-- Removing has `removeTopic`, `removeReconciledTopic` and `restoreRecurrence`. The meeting
-- documents are an interface, the record `Documents`, and the request's digest is an argument. A
-- transaction that throws leaves no store. Admission has `addTopic` and `addTopics`, which hold
-- an external writer of the coordinator while they run; what other code does with it meanwhile is
-- a function. Numbering, Consecutive, Apart, Rows, Removal, Addition, Mutations and Brackets are
-- its theorems. A request that fails on a constraint of the database is not a result of the
-- model.
--
-- Sections (backend/src/agenda-sections/agenda-sections.service.ts): the sections that every
-- agenda has. Requests has `create`, `update`, `reorder` and `remove` over the ordered table that
-- each reads under its lock; Order is their theorems.
--
-- Access (backend/src/auth/permissions.ts, backend/src/e2ee/e2ee-role-policy.ts and
-- backend/src/auth/development-identity.guard.ts): Policy has the permissions of each role, Guard
-- the guard that every request passes, with the session service as an argument, and Admitted and
-- Admission their theorems.
--
-- Envelope (backend/src/e2ee/scalar-envelope-validator.ts and frontend/src/e2ee/scalar-codec.ts):
-- encrypted texts. Values has the values that CBOR carries and the record `Libraries` of what
-- cbor-x, libsodium and the hashes provide, with what they document in `AreCorrect`; Readers and
-- Scalar have `validateScalarEnvelope`, ScalarCodec has `encryptScalar` with its padding,
-- ScalarDecrypt has `decryptScalar`. Update has `validateMeetingUpdateEnvelope`
-- (backend/src/e2ee/meeting-document-envelope-validator.ts), UpdateCodec has
-- `createEncryptedMeetingUpdate` and what `applyEncryptedMeetingUpdate` hands to Yjs
-- (frontend/src/e2ee/meeting-document-codec.ts). Scalar/Reading and RoundTrip are their theorems.
-- The eight attempts of `paddedPlaintext` are fuel as in the source: a text that does not fit
-- gives nothing. A text is its UTF-16 code units; its normal form, its UTF-8 and the decoding of
-- that, which drops a byte order mark, are in `Libraries`. What the frontend throws is not told
-- apart.
--
-- Ceremony (backend/src/e2ee/e2ee.service.ts): how two key operators replace the organization's
-- keys. State has the tables and transactions, a body that throws with what it has written;
-- Tables the reading and saving of rows; KeyEnvelope `validateKeyEnvelope`; Candidate
-- `validateCandidateState`; Start `startRecovery` and `startKeyCeremony`; Steps
-- `approveRecovery`, `confirmRecoveryPresence` and `abortRecovery`; Activate `activateRecovery`;
-- Clients `registerClientEpoch` and `revokeClientEpoch`; Requests puts them in one type. A
-- request sees one time of the clock, and a text in base64 is the bytes that it holds. Machine is
-- an abstract machine of ceremonies; Rows, Invariant and Generations are about its steps,
-- Inversions, Refinement, Starting, Eligible, Activating and Activated about the operations,
-- Guarantees and Prefixes about runs.
--
-- Writes (backend/src/e2ee/e2ee-scalar.service.ts): Service has `validateWrite`, which reads the
-- keys and epochs of the ceremonies and stores an accepted envelope under its counter; Checked,
-- Counters, Retried and Accepted are its theorems, the last from the frontend's `encryptScalar` to the
-- stored row.
--
-- Identifiers are only compared, so they are numbers, except those of keys and epochs, which
-- envelopes carry as bytes; a date is its year, month and day. But for the attempts of the
-- padding no definition runs on fuel: every other loop of these parts goes over a finite list.
--
-- Not modelled: the other requests of the meetings service (reordering, updates, completion), the
-- envelopes of snapshots and awareness, the queries of keys, sessions and external providers,
-- topics, tasks and mentions, and the rest of the frontend, all of which stand apart from these
-- parts; controllers, entities and migrations, which only carry data (but for the constraints on client
-- epochs, in Ceremony/Clients); and what lies outside the
-- repository: NestJS, TypeORM and its database, libsodium, Yjs.
pub mod Shared
pub mod Compaction
pub mod Recurrence
pub mod Agenda
pub mod Sections
pub mod Access
pub mod Envelope
pub mod Ceremony
pub mod Writes
