-- ===== src/Lib.antt =====
-- Sentriqora: a verification library of the platform's backend.
--
-- The platform is a NestJS API (apps/api) and a worker (apps/worker) over one PostgreSQL database
-- (prisma/schema.prisma), with shared rules in packages/domain and request schemas in
-- packages/contracts. The API and the worker's processors insert rows into `outbox_events` in the
-- transaction of the write that they report. The worker's dispatcher claims those rows, checks each
-- payload against the schema of its event type, and hands it to the queue of a processor.
--
-- Outbox (apps/worker/src/outbox-dispatcher.ts)
--   Outbox/Jobs: the schemas of payloads and `route`. A payload is a JSON value with numbers of a
--     type N. The validation library is the parameter `Zod`: how it reads a UUID and a number.
--   Outbox/Store: the table as the list of its rows, with `claim`, `updatePublished` and
--     `updateFailed`. `locked` says which rows SKIP LOCKED passes over.
--   Outbox/Dispatcher: `publish`, and `poll` with its `try` (dispatch), its loop and what follows in
--     `catch` and `finally` (release). `Answers` says which of the queue's and the database's answers
--     are errors. Timers (`start`, `close`) are left out.
--   Outbox/System: any number of dispatchers, interleaved statement by statement, as a step relation,
--     with its invariants (Keeps), what follows from them (Guarantees), how often an event is claimed (Claims),
--     and `poll` as a run (Polls).
--   Outbox/Producers: the rows that the API and the worker insert, in the files that it names.
--
-- Incidents (packages/domain/src/incidents, apps/api/src/incidents, apps/worker/src)
--   Incidents/Policy: incident-policy.ts. Dates are milliseconds.
--   Incidents/Store: the tables that the operations use, and the helpers that write to them.
--   Incidents/Repository and Incidents/Mutations: `transition`, `updateAnalysis` and `assign` of
--     prisma-incident.repository.ts, each one transaction: an error leaves the state as it was.
--   Incidents/UseCases: the same operations in incident.use-cases.ts, with the request schemas of
--     packages/contracts/src/incidents.ts.
--   Incidents/Sla: `evaluateSla` of incident.processor.ts.
--   Incidents/Alerts: `fromAlert` of incident.processor.ts, and what it does for one alert (Once,
--     Outcomes).
--   Incidents/Invariant, Versions, Histories, Concurrency, Writes: what is kept by each operation, and by
--     any sequence of them in which a transition reads and writes in two transactions; breaches that
--     are recorded once, and writes that name the same version.
--
-- Notifications (apps/worker/src/notification.processor.ts, apps/worker/src/database.ts)
--   Notifications/Delivery: `process` inside `withTenantTransaction`. `Answers` says which calls throw,
--     from BEGIN to COMMIT. A rollback undoes what was written; a message that was sent stays sent.
--   Notifications/Once and Notifications/Attempts: what one delivery does, and what histories leave.
--
-- Ingestion (apps/worker/src/event-ingestion.processor.ts)
--   Ingestion/Processor: `process` with its transactions. `Normalizer` stands for the decryption, the
--     parser and the normalization policy, `Answers` for the errors of the database, from BEGIN to COMMIT.
--   Ingestion/Rows, Histories and Again: what one job does on every branch, what any history of jobs
--     leaves, and a job that is repeated. Inserts, Normalizing and Causes have the lemmas on the rows
--     that are inserted, and on a transaction that returns or throws.
--
-- Authorization (packages/domain/src/identity/authorization-policy.ts and
-- apps/api/src/identity/presentation/guards/authorization.guards.ts)
--   Authorization: the permissions, the system roles, the policy and the guards, on what they read of a
--     request. Authorization/Laws: what they let through.
--
-- Knowledge (packages/domain/src/knowledge/rag-policy.ts)
--   Knowledge/Chunks: the loop of `chunk`, with the sizes that the worker calls it with, on the text that
--     is sanitized and trimmed. Its fuel is the length of the text: each round starts one character on
--     or more. Knowledge/Chunks/Laws: that this is enough, and what the chunks are.
--
-- Identity (apps/api/src/identity)
--   Identity/Store: the tables of prisma-identity.repository.ts, `principalFor` and `recordEvent`.
--   Identity/Sessions: `createSession` and `getActiveSessionPrincipal`; Refresh: `rotateRefreshToken`,
--     which reads the token in one state and writes in another, later one; Revocation: `listSessions`,
--     `revokeSession` and `revokeAllSessions`. Rows, Consistency, Cases, Keeping, Issuing and Ending
--     have the lemmas on the statements and on the branches; Histories, Invariant, Guarantees and
--     Reuse what follows for any interleaving of the operations.
--   Identity/Mfa: challenges, enrolment and activation of second factors; Rows, Operations, Factors,
--     Completing and Enrolling have the lemmas, Histories, Once and Guarantees what follows.
--   Identity/Values: email-address.ts, organization-slug.ts and password-policy.ts of
--     packages/domain/src/identity. `Unicode` stands for the runtime's normalization and lower case.
--   Identity/Security: `verifyTotp`, `hashFingerprint` and `generateRecoveryCodes` of
--     node-identity-security.adapter.ts. `Crypto` stands for the hashes, the cipher, the digits of a
--     TOTP and the access token.
--   Identity/Login: `login` of identity.use-cases.ts, with the repository's operations that only it
--     uses. `Limits` says what the calls of the login protection throw. Login/Tokens:
--     `completeMfaLogin`, `refresh` and `authenticateAccessToken`. Login/Refusals, Login/Lockout and
--     Login/Allowed: what is refused, and who may sign in.
--   Identity/Members: registration, organizations and their first roles; Invitations and Roles the
--     operations on these; Laws, Ownership and Replacing what they keep.
--   Identity/UseCases: the other operations of identity.use-cases.ts. UseCases/People, Registering,
--     Checks and FirstSignIn: the rows of a registration, its checks, and the sign-in after it.
--
-- Conventions. Base holds what the modules share: tables as lists with the statements that run on
-- them, results of code that throws, strings as lists of UTF-16 code units, JSON. A UUID is a number,
-- and new ones come from a counter: distinct from all before. SHA-256 is taken to be free of
-- collisions: a key that is a digest is the tuple that is hashed. A row-level policy of the database
-- is not modelled: the statements name the organization themselves. Numbers are natural numbers:
-- versions, counts, minutes and times, all far below the 2^53 up to which the code's numbers are exact.
-- Loops run over lists, and need no fuel but in Knowledge/Chunks.
--
-- Not modelled: the web application, controllers and data transfer objects, cryptography, object
-- storage, the AI providers, metrics and logs, which are views, glue or services; the counters of the
-- login protection, the resources, detection and the retrieval of knowledge. Of the incidents
-- what is left out is their creation by hand, comments, evidence and the administration of the SLA
-- policies, and of the table's CHECK constraints all but those on the analysis.
mod Base
pub mod Severity
pub mod Authorization
pub mod Outbox
pub mod Incidents
pub mod Notifications
pub mod Ingestion
pub mod Knowledge
mod Tests
pub mod Identity
