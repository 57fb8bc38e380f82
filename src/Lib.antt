-- ===== src/Lib.antt =====
-- Verification of dsh-codex-workflow, the bridge through which a coding agent plans with Codex,
-- submits its work and waits for a review verdict.
--
-- The durable store is one SQLite database that every runtime and command-line process shares
-- (src/coordination.ts). A table is a list of rows without two of the same key, a SELECT is a
-- filter and a sort, an UPDATE rewrites the rows that its WHERE clause takes and answers how many
-- they were. A transaction runs alone, so it is a function from a table to an answer and a table;
-- one that throws is rolled back, so its answer is an error without a table. Concurrent processes
-- are lists of calls in any order.
--
-- Queue models src/infrastructure/queue-repository.ts and `requeueRequest`: Rows has the row, the
-- statuses and what each statement asks and writes; Operations the transactions
-- (`enqueue_command` is `enqueueCommand`, `claim_next` is `claimNext`, `ack_claim` is `ackClaim`
-- and so on). Transitions has the calls and the life of one row as the relation `Change`; the
-- call `prunes` there stands for the deletions of `pruneApply` of src/coordination.ts, by the ids
-- of the rows (Prune/Histories links the two); Refinement follows a row through every call; the
-- other modules use it. Clock readings are arguments.
--
-- Lease and Sessions model the two classes of src/infrastructure/coordination-repositories.ts.
-- `normalizeCwdKey` stands on `path.resolve` of Node and is a parameter.
--
-- Verdict models what a submission and its verdict store on a workflow record. Outcome has
-- `applyReviewConsistency`, `trackNoChange` and `computeReviewOutcome` of src/workflow.ts,
-- Application `applyExternalVerdictInternal`, Recovery
-- src/application/submission-recovery-policy.ts, Admission the transaction of `submitInternal`
-- and `submissionReviewIdentity`, Staging the guarded writes of
-- src/application/submission-execution.ts, and Delivery `assertVerdictStillValidInternal`,
-- `commitVerdictDeliveryInternal` and `decideInternal`. A call gets the record that it loads
-- first and the one that its transaction finds. The text of a stored error is a constructor for
-- each text that these functions write; SHA-256, Date.parse and trim are parameters.
--
-- Json has the JSON values and JavaScript's operations on objects; Schema models
-- src/state/workflow-schema.ts on them: Validation the checks, Schema the grouping
-- (`serialize_workflow_record`, `deserialize_workflow_record`, `migrate_workflow_record`). The
-- matching of process birth ids (a regular expression) and `String.trim` are parameters.
--
-- Workflows models src/infrastructure/workflow-repository.ts (`save_workflow`,
-- `insert_workflow_if_absent`, `compare_and_update_workflow`) and in Loop the loop of
-- `WorkflowStore.update` in src/store.ts, which is given as a list of rounds, each with the calls
-- that other writers make between its load and its transaction; a list with one round without
-- such calls is enough for it to answer. Cancellation adds the deletions of `pruneApply` to the
-- calls. `JSON.parse` is a parameter, and a mutation is any function of the parsed record.
--
-- Review has the result types of src/types.ts. Projection models src/review-events.ts: Live is
-- `appendLive`, on texts that are lists of UTF-16 code units, and Reviews is
-- `applyCodexWorkflowProjection` (`apply_codex_workflow_projection`). Relay models
-- src/application/live-relay.ts, whose timer is one more caller of `flush`.
--
-- Authority models src/review-authority.ts: Alignment is `parseAlignment` from the object on,
-- Multiset the counts, and Preservation `reconciliationPreservationViolation`, whose violation in
-- words is an error value here.
--
-- Retry models the backoff of src/transient-retry.ts: `retry_transient` is the loop, on the list
-- of what its turns meet; Termination counts the turns that it needs. The amounts of a policy are
-- in thousandths of a millisecond and its jitter ratio in thousandths; delays and the clock are
-- in whole milliseconds, and the rounded product with the random factor is any function.
--
-- Prune models `pruneCandidates` and `pruneApply` of src/coordination.ts on the tables of Queue
-- and Workflows; `Date.parse` is a parameter.
--
-- Bridge models src/bridge-protocol.ts: Protocol has the commands and their parsers, with `fail`
-- as an error value, and Encoding the value that `encodeBridgeCommand` prints.
--
-- Usage models the ledger of src/usage-accounting.ts (`record_usage` is its `record`), its map in
-- insertion order.
--
-- Bridge/Store models BridgeStore of src/bridge-store.ts over Queue: its calls take the store and
-- give back a store with an answer or an error, and Turns is the loop of `claimNext`, on the list
-- of what its turns meet (the calls of other processes and the readings of the clock).
--
-- Consumers models SubmissionReviewConsumers of src/application/submission-review-consumer.ts:
-- `prepare`, `adopt`, `cancel_wait`, `close` with `settle` for what follows its cleanup,
-- `capture_retirement` and `retire`. Objects have an identity (`token`); a refused call changes
-- nothing.
--
-- Evidence models src/evidence.ts. Bytes has the two bounded captures and `decodeUtf8Safely`
-- (`whole_characters`, the bytes that it decodes), Porcelain is `parsePorcelain`, Files is
-- `collectFileEvidence` over a platform that is a parameter, and Git is `collectGitEvidence` on
-- what the commands print; a text of git is its UTF-16 code units. Characters has UTF-8 itself.
--
-- Not under the repository, and so arguments of the definitions that use them: regular
-- expressions, Date.parse, the text of a JSON value, path resolution and the trimming of texts. A
-- property whose value is undefined counts as absent. A reading of the clock is an argument of
-- the call that reads it, and a random identity is given to the call that uses it. The statements
-- of SQLite are functions on lists of rows, and a transaction is one call.
--
-- Loops: those of src/store.ts and src/transient-retry.ts run on the list of what their turns
-- meet; the loop over the pieces in src/application/live-relay.ts runs on one step of fuel for
-- each code unit, and each turn takes at least one.
--
-- Not modelled: the child processes and streams of src/app-server.ts and its callbacks, the
-- timers and agent inboxes of src/bridge-runtime.ts, what the flows of src/workflow.ts and
-- src/application wait for, and the registration, command line and display of the plugin.
-- Concurrent processes appear as histories of calls in any order.
pub mod Common
pub mod Queue
pub mod Lease
pub mod Sessions
pub mod Json
pub mod Schema
pub mod Workflows
pub mod Review
pub mod Projection
pub mod Relay
pub mod Authority
pub mod Retry
pub mod Prune
pub mod Bridge
pub mod Usage
pub mod Consumers
pub mod Evidence
pub mod Verdict
