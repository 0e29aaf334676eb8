-- ===== src/Lib.antt =====
-- GlobalTracker resolves who a visitor of a launch is, remembers where the visitor came from and
-- how far the visitor has come, and passes conversions on to advertising platforms. This library
-- models that core, the functions under apps/edge/src/lib that own the tables, and proves what
-- keeps the tables right.
--
-- The parts, and the files that model them:
--
-- - Payload: dispatch-payload-sanitize.ts. `sanitize` is sanitizeDispatchPayload, over a JSON value
--   as a data type.
-- - Dispatch: dispatch.ts with the tables of packages/db/src/schema/dispatch_job.ts and
--   dispatch_attempt.ts. Keys has computeIdempotencyKey, Backoff computeBackoff, Create
--   createDispatchJobs and createSkippedJob, Process processDispatchJob (`lock` is its atomic UPDATE,
--   `settle` what follows the dispatcher's answer), DeadLetter markDeadLetter and requeueDeadLetter.
--   Every attempt's payloads go through Payload. Lifecycle says what a job's row is to become,
--   Processing that it does; Retries follows a job over many deliveries; Exclusion has consumers,
--   crashes and operators as steps of a relation, OnePerDelivery compares the rows with what was asked
--   for.
-- - Identity: lead-resolver.ts, and the two hashes of pii.ts, with the tables of
--   packages/db/src/schema/lead.ts, lead_alias.ts and lead_merge.ts. Normalize has normalizeEmail and
--   normalizePhone, Resolver resolveCanonical, createNewLead and updateExistingLead, Merging
--   mergeLeads and resolveLeadByAliases. Evolution is what a call may do to the tables, Safety that
--   no call does more; Ownership, Additions, Settling and Resolution follow the identifiers of a
--   request into the aliases of the lead that the call returns.
-- - Lifecycle: lifecycle-rules.ts (Rules) and lifecycle-promoter.ts (Promoter, in its two
--   statements). Order and Promotion hold the proofs.
-- - Attribution: attribution.ts with packages/db/src/schema/lead_attribution.ts. Touches has
--   recordTouches; Laws and History hold the proofs.
-- - Consent: consent.ts with packages/db/src/schema/lead_consent.ts. Records has createLeadConsent and
--   getLatestConsent; Effective holds the proofs. Of records of one time the last is read, where the
--   database promises no order.
-- - Audience: audience.ts and crons/audience-sync.ts of apps/edge/src, with the tables audience*.ts,
--   lead_stage.ts and lead_icp_score.ts of packages/db/src/schema. Schema is the check of a stored
--   query, Evaluate evaluateAudience (a Fragment is one of the SQL conditions it builds), Snapshots
--   generateSnapshot, Jobs createSyncJob and acquireSyncLock, Cron runAudienceSync. Satisfaction says
--   what a query asks of a lead without SQL, and Membership compares the two; Retention, Growth,
--   Currency and Runs follow the snapshots through a run, Losses a job that is refused, Planning what a
--   plan does to a platform. The evaluation reads the leads of Identity and the records of Consent.
-- - Sync: apps/edge/src/dispatchers/audience-sync, which takes the jobs of Audience. Client has
--   callUsersEndpoint, Batches batchMembers, Process processSyncJob and the two adapters. Every request is
--   put down with what it carries; Outcomes says what becomes of a job, Accepted which requests Meta has
--   answered with success, Sending whom those carry.
-- - Rates: apps/edge/src/lib/fx.ts and integrations/fx-rates/cache.ts of apps/edge/src. Cache has the
--   keys, getCachedRate, setCachedRate and getStaleCachedRate over the interface Kv, Lookup
--   getRateForPair, Answers the proofs.
-- - Guards: event-time-clamp.ts, replay-protection.ts and idempotency.ts of apps/edge/src/lib, and
--   apps/edge/src/middleware/rate-limit.ts. EventTime has the clamp of a client's time, Seen the two keys
--   that mark an event as seen, RateLimit the counter of a window, and Windows how many requests it lets
--   pass when the store shows it old counts. The store is the interface Prelude.Kv, and a request carries the hash of its address.
-- - Tokens: apps/edge/src/lib/lead-token.ts with packages/db/src/schema/lead_token.ts. Encoding has
--   base64url, Claims encodePayload and decodePayload, Signing generateLeadToken, parseLeadToken and
--   verifyLeadToken, Stored issueLeadToken and validateLeadToken, Validity the proofs on a token's life.
-- - Prelude: strings as lists of code units, tables as lists of rows with SELECT, UPDATE and INSERT,
--   and the lemmas on them.
--
-- How state is modelled. A table is the list of its rows, a function that writes returns the new
-- tables beside its result, and a unique index is a test on insertion. Outside of audiences the source
-- opens no transaction, so what was written before an error stays written: the monad of Identity keeps
-- the store through an error, and recordTouches and the functions of Consent take as a parameter
-- which statements the database refuses. A transaction of an audience that is refused leaves the tables
-- as they were. Times are milliseconds as natural numbers.
--
-- What is a parameter. SHA-256 in hexadecimal, toLowerCase, the clocks, the identifiers that the
-- database generates, the injected dispatcher, JSON.parse, the answers of Meta as a function of how
-- many requests were made, what the Google client ends with, the advisory locks that others hold, the
-- key-value store of the platform (an interface of its reads and writes without a law, as it is eventually consistent and forgets), the text of an
-- exchange rate, the provider's answers by attempt, HMAC, base64, UTF-8 and Number (with the laws that
-- a token needs of them), and the random draw. The draw is a fraction with the
-- denominator 2 ^ 53, and the backoff is computed exactly, without the rounding of a double. That
-- no two texts have one hash is a hypothesis of OnePerDelivery alone. Number is taken as exact, as it is
-- up to 2 ^ 53, beyond any time in seconds.
--
-- Bounds and fuel. resolveCanonical follows at most 20 redirections, as the source does, so its
-- recursion is on that number. Printing a number in decimals has fuel by the number itself, which
-- has no more digits than that.
--
-- What is not modelled. The trigger on dispatch_jobs that puts the time of a statement in updated_at,
-- where the model keeps the time that the code writes; a failed connection in the middle of dispatch.ts; foreign keys; the columns
-- of leads that the resolver neither reads nor writes; the constants in the rows of lead_merges; the
-- text of error messages; rows of one time, of which the later counts as the newer; the rounding of
-- doubles in normalizeSpendCents and the clients of the rate providers; a token's time that is no whole
-- number; the address of a request and the response headers that only report. The platforms' dispatchers
-- but for audiences, the webhooks, the routes, the raw event processors, the tracker and the control
-- plane are outside this library so far.
pub mod Prelude
pub mod Payload
pub mod Dispatch
pub mod Identity
pub mod Lifecycle
pub mod Attribution
pub mod Audience
pub mod Consent
pub mod Guards
pub mod Rates
pub mod Sync
pub mod Tokens
