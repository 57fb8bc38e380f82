-- ===== src/Schema.antt =====
-- The stored form of a workflow record: src/state/workflow-schema.ts. A record in memory is its
-- properties; a property that is `undefined` is absent. `JSON.stringify` and `JSON.parse` stand
-- around these functions, so a stored record is a JSON value.
pub mod Validation
pub mod Flattening
pub mod RoundTrip
mod Tests
use dsh_codex_workflow.Common.{
  ℕ, String, Bool, true, false, not, Option, none, some, List, [], ◌∷◌, ◌==◌, if◌then◌else◌, str_eq,
}
use dsh_codex_workflow.Common.Result.{Result, ok, err, ◌>>=◌}
use dsh_codex_workflow.Json.{
  Json, Fields, null, whole, num, obj, empty, field, lookup, put, assign, object, object_of,
}
use dsh_codex_workflow.Schema.Validation.{
  Error, unsupported_version, member, validate_terminal_cleanup,
}

pub data Group : Type 0 where
  identity planning execution review submission bridge desktop extensions : Group

-- `GROUPS`.
abbrev pub keys_of : Group → List String
keys_of identity =
    "id" ∷ "revision" ∷ "dshSessionId" ∷ "cwd" ∷ "createdAt" ∷ "updatedAt" ∷ "mode" ∷ "origin" ∷ []
keys_of planning =
    "task" ∷ "plannerThreadId" ∷ "plannerTurnId" ∷ "plannerModel" ∷ "plannerEffort"
    ∷ "sourceThreadId" ∷ "planMarkdown" ∷ "assumptions" ∷ "questions" ∷ "pendingInput" ∷ []
keys_of execution =
    "phase" ∷ "processState" ∷ "retryState" ∷ "reviewFailureReason" ∷ "observedUsage"
    ∷ "reviewStartedAt" ∷ "lastProgressAt" ∷ "activeTurnId" ∷ "reviewAttempt" ∷ "reviewElapsedMs"
    ∷ "reviewPhaseTimings" ∷ "lastProgressMessage" ∷ "error" ∷ []
keys_of review =
    "reviewerThreadId" ∷ "reviewerThreadOrigin" ∷ "reviewerTurnId" ∷ "reviewerModel"
    ∷ "reviewerEffort" ∷ "reviewCycles" ∷ "reviewStep" ∷ "noChangeReviewRounds"
    ∷ "reviewContractFailures" ∷ "latestReviewConflict" ∷ "latestReview" ∷ "latestReviewEvidence"
    ∷ "previousReviewFingerprint" ∷ "reviewDecision" ∷ []
keys_of submission =
    "pendingReviewRequest" ∷ "submissionId" ∷ "submissionState" ∷ "submissionAttempts"
    ∷ "submissionReviewPending" ∷ "submissionError" ∷ "submissionCallbackReason"
    ∷ "submissionRetryAt" ∷ "appliedVerdictRequestId" ∷ "appliedVerdictSubmissionId"
    ∷ "appliedVerdictEvidenceFingerprint" ∷ "stagedVerdict" ∷ "submissionNotice"
    ∷ "submissionLeaseToken" ∷ "submissionLeaseEpoch" ∷ "submissionLeaseUntil" ∷ []
keys_of bridge =
    "codexThreadId" ∷ "bridgeRequestId" ∷ "bridgeDeliveryState" ∷ "callbackState"
    ∷ "callbackAttempts" ∷ "callbackError" ∷ []
keys_of desktop =
    "desktopOpenState" ∷ "desktopOpenSubmissionId" ∷ "desktopOpenAttempts" ∷ "desktopOpenNextAt"
    ∷ "desktopOpenError" ∷ []
keys_of extensions = []

abbrev pub name_of : Group → String
name_of identity = "identity"
name_of planning = "planning"
name_of execution = "execution"
name_of review = "review"
name_of submission = "submission"
name_of bridge = "bridge"
name_of desktop = "desktop"
name_of extensions = "extensions"

abbrev pub code : Group → ℕ
code identity = 0
code planning = 1
code execution = 2
code review = 3
code submission = 4
code bridge = 5
code desktop = 6
code extensions = 7

abbrev pub same_group : Group → Group → Bool
same_group a b = code a == code b

-- `groupByKey.get(key) ?? "extensions"`; no key is in two groups.
unfoldable pub group_of : String → Group
group_of k =
    if member k (keys_of identity)
    then identity
    else if member k (keys_of planning)
    then planning
    else if member k (keys_of execution)
    then execution
    else if member k (keys_of review)
    then review
    else if member k (keys_of submission)
    then submission
    else if member k (keys_of bridge)
    then bridge
    else if member k (keys_of desktop)
    then desktop
    else extensions

-- The eight objects that are filled.
abbrev pub Groups : Type 0
Groups = Group → Fields

abbrev pub no_fields : Groups
no_fields g = empty

-- `groups[group][key] = value`.
unfoldable pub add_field : Group → String → Json → Groups → Groups
add_field g k v gs h = if same_group g h then put k v (gs h) else gs h

unfoldable pub distribute : Fields → Groups → Groups
distribute empty gs = gs
distribute (field k v rest) gs =
    distribute rest (if str_eq k "schemaVersion" then gs else add_field (group_of k) k v gs)

unfoldable pub envelope : Groups → Fields
envelope gs = field "schemaVersion" (num (whole 2)) (
    field "identity" (obj (gs identity)) (
      field "planning" (obj (gs planning)) (
        field "execution" (obj (gs execution)) (
          field "review" (obj (gs review)) (
            field "submission" (obj (gs submission)) (
              field "bridge" (obj (gs bridge)) (
                field "desktop" (obj (gs desktop))
                  (field "extensions" (obj (gs extensions)) empty))))))))

-- `Object.assign(flat, object(value[group]))`.
abbrev pub merge : Fields → Group → Fields → Fields
merge value g flat = assign flat (object_of (lookup (name_of g) value))

unfoldable pub flatten : Fields → Fields
flatten value = merge value extensions (
    merge value desktop (
      merge value bridge (
        merge value submission (
          merge value review (
            merge value execution (
              merge value planning
                (merge value identity (field "schemaVersion" (num (whole 1)) empty))))))))

pub data Version : Type 0 where
  second first : Version
  unknown : Json → Version

abbrev pub version_of : Option Json → Version
version_of none = first
version_of (some (num (whole n))) =
    if n == 2 then second else if n == 1 then first else unknown (num (whole n))
version_of (some v) = unknown v

module _ (valid_birth trimmed : String → Bool) where
  unfoldable pub serialize_workflow_record : Fields → Result Error Fields
  serialize_workflow_record flat = validate_terminal_cleanup valid_birth trimmed flat >>= λ _.
      ok (envelope (distribute flat no_fields))

  -- The checked record.
  abbrev pub validated : Fields → Result Error Fields
  validated flat = validate_terminal_cleanup valid_birth trimmed flat >>= λ _. ok flat

  unfoldable pub deserialize_workflow_record : Json → Result Error Fields
  deserialize_workflow_record raw = elim (version_of (lookup "schemaVersion" (object raw))) [
    | second ↦ validated (flatten (object raw))
    | first ↦ validated (put "schemaVersion" (num (whole 1)) (object raw))
    | unknown v ↦ err (unsupported_version v)
  ]

  unfoldable pub migrate_workflow_record : Json → Result Error Fields
  migrate_workflow_record raw = elim (version_of (lookup "schemaVersion" (object raw))) [
    | second ↦ deserialize_workflow_record raw >>= λ _. ok (object raw)
    | _ ↦ deserialize_workflow_record raw >>= serialize_workflow_record
  ]
