-- ===== src/Schema/Validation.antt =====
-- The checks of src/state/workflow-schema.ts on the recovery markers of a record, and
-- `isCompleteProcessIdentityEvidence` of src/infrastructure/process-transport.ts.
use dsh_codex_workflow.Common.{
  ℕ, suc, String, Bool, true, false, not, ◌&&◌, ◌||◌, Option, none, some, List, [], ◌∷◌, ◌==◌,
  if◌then◌else◌, str_eq,
}
use dsh_codex_workflow.Common.Result.{Result, ok, err, ◌>>◌}
use dsh_codex_workflow.Json.{
  Json, Items, Fields, whole, num, str, arr, obj, nil, item, lookup, object, object_of, is_object,
  is_string, is_bool, is_positive_safe, optional, present,
}

pub data Error : Type 0 where
  invalid_retry_state invalid_retry_stage invalid_retry_reason invalid_retry_attempts : Error
  invalid_retry_marker : String → Error
  invalid_terminal_failure invalid_planner_checkpoint invalid_review_checkpoint : Error
  handles_must_remain_local invalid_cleanup_marker invalid_identity_evidence : Error
  unsupported_version : Json → Error

-- `if (!test) throw error`.
abbrev pub require : Bool → Error → Result Error (Unit {0})
require test error = if test then ok tt else err error

abbrev pub member : String → List String → Bool
member k [] = false
member k (n ∷ ns) = str_eq k n || member k ns

abbrev retry_stages : List String
retry_stages = "planning" ∷ "reviewing" ∷ []

abbrev planner_checkpoint_steps : List String
planner_checkpoint_steps =
    "visible" ∷ "conversion" ∷ "completion" ∷ "corrected_conversion" ∷ "finalizing" ∷ []

abbrev review_checkpoint_steps : List String
review_checkpoint_steps = "conversion" ∷ "alignment" ∷ "reconciliation" ∷ "finalizing" ∷ []

-- A text that is one of the names.
abbrev pub is_one_of : List String → Json → Bool
is_one_of names (str s) = member s names
is_one_of names _ = false

-- An object whose `nextStep` is one of the names.
abbrev is_checkpoint : List String → Json → Bool
is_checkpoint names (obj fs) = present (is_one_of names) (lookup "nextStep" fs)
is_checkpoint names _ = false

unfoldable pub check_retry : Fields → Result Error (Unit {0})
check_retry retry =
    require (optional (is_one_of retry_stages) (lookup "stage" retry)) invalid_retry_stage
    >> require (optional is_string (lookup "reason" retry)) invalid_retry_reason
    >> require (optional is_positive_safe (lookup "attempts" retry)) invalid_retry_attempts
    >> require (optional is_bool (lookup "awaitingContinuation" retry))
        (invalid_retry_marker "awaitingContinuation")
    >> require (optional is_bool (lookup "awaitingStartReceipt" retry))
        (invalid_retry_marker "awaitingStartReceipt")
    >> require (optional is_bool (lookup "awaitingCleanup" retry))
        (invalid_retry_marker "awaitingCleanup")
    >> require (optional is_string (lookup "terminalFailure" retry)) invalid_terminal_failure
    >> require
        (optional (is_checkpoint planner_checkpoint_steps) (lookup "plannerCheckpoint" retry))
        invalid_planner_checkpoint
    >> require (optional (is_checkpoint review_checkpoint_steps) (lookup "reviewCheckpoint" retry))
        invalid_review_checkpoint

unfoldable pub validate_retry_state : Fields → Result Error (Unit {0})
unfolding check_retry
validate_retry_state flat = elim (lookup "retryState" flat) [
  | none ↦ ok tt
  | some v ↦ require (is_object v) invalid_retry_state >> check_retry (object v)
]

-- `validPid` and the tests on lists of process ids.
abbrev valid_pid : Json → Bool
valid_pid v = is_positive_safe v

abbrev pub same_number : Json → Json → Bool
same_number (num (whole a)) (num (whole b)) = a == b
same_number _ _ = false

abbrev pub every : (Json → Bool) → Items → Bool
every test nil = true
every test (item v vs) = test v && every test vs

abbrev pub includes : Json → Items → Bool
includes v nil = false
includes v (item w ws) = same_number v w || includes v ws

abbrev pub count_items : Items → ℕ
count_items nil = 0
count_items (item _ vs) = suc (count_items vs)

-- `new Set(values).size === values.length`.
abbrev pub no_repeats : Items → Bool
no_repeats nil = true
no_repeats (item v vs) = not (includes v vs) && no_repeats vs

abbrev pub items_of : Option Json → Option Items
items_of (some (arr vs)) = some vs
items_of _ = none

abbrev is_nil : Items → Bool
is_nil nil = true
is_nil (item _ _) = false

-- `validBirth` matches a regular expression, and `trimmed` is `value.trim() === value`.
module _ (valid_birth trimmed : String → Bool) where
  abbrev is_birth : Json → Bool
  is_birth (str s) = valid_birth s
  is_birth _ = false

  -- The loop over the identities, with the set of the ids that it has seen.
  unfoldable pub identities_cover : Items → Items → Items → Bool
  identities_cover ids seen nil = true
  identities_cover ids seen (item v vs) =
      let pid = lookup "processId" (object v) in
      let rest : Json → Bool = λ p. identities_cover ids (item p seen) vs in
      is_object v
      && present valid_pid pid
      && present is_birth (lookup "birth" (object v))
      && elim pid [ none ↦ false | some p ↦ includes p ids && not (includes p seen) && rest p ]

  unfoldable pub is_complete_process_identity_evidence : Fields → Bool
  unfolding identities_cover
  is_complete_process_identity_evidence value = elim (items_of (lookup "processIds" value)) [
    | none ↦ false
    | some ids ↦
        present valid_pid (lookup "processId" value)
        && not (is_nil ids)
        && every valid_pid ids
        && present (λ p. includes p ids) (lookup "processId" value)
        && no_repeats ids
        && elim (items_of (lookup "processIdentities" value)) [
          | none ↦ false
          | some identities ↦
              count_items identities == count_items ids && identities_cover ids nil identities
        ]
  ]

  abbrev is_marker_text : Json → Bool
  is_marker_text (str s) = not (str_eq s "") && trimmed s
  is_marker_text _ = false

  unfoldable pub is_workflow_terminal_cleanup_marker : Json → Bool
  is_workflow_terminal_cleanup_marker v =
      present is_marker_text (lookup "token" (object v))
      && present is_marker_text (lookup "sessionId" (object v))
      && present is_positive_safe (lookup "epoch" (object v))

  abbrev has_none_of : List String → Fields → Bool
  has_none_of [] fs = true
  has_none_of (k ∷ ks) fs = elim (lookup k fs) [ none ↦ has_none_of ks fs | some _ ↦ false ]

  abbrev start_handles : List String
  start_handles =
      "pendingStart" ∷ "operation" ∷ "requestId" ∷ "requestToken" ∷ "sourceThreadId"
      ∷ "sourceThreadOwner" ∷ "threadId" ∷ "turnId" ∷ []

  -- What remains to be checked of `retryState` after `validateRetryState`.
  unfoldable pub check_cleanup : Fields → Result Error (Unit {0})
  unfolding is_workflow_terminal_cleanup_marker is_complete_process_identity_evidence
  check_cleanup retry =
      elim (lookup "awaitingStartReceipt" retry) [
        | none ↦ ok tt
        | some v ↦
            require (is_bool v) (invalid_retry_marker "awaitingStartReceipt")
            >> require (has_none_of start_handles retry) handles_must_remain_local
      ]
      >> require (optional is_workflow_terminal_cleanup_marker (lookup "terminalCleanup" retry))
          invalid_cleanup_marker
      >> (let interruption = object_of (lookup "interruption" retry) in
          elim (lookup "processIdentities" interruption) [
            | none ↦ ok tt
            | some _ ↦
                require (is_complete_process_identity_evidence interruption)
                  invalid_identity_evidence
          ])

  unfoldable pub validate_terminal_cleanup : Fields → Result Error (Unit {0})
  unfolding validate_retry_state check_cleanup
  validate_terminal_cleanup flat =
      validate_retry_state flat >> check_cleanup (object_of (lookup "retryState" flat))

  -- The checks read nothing of a record but its `retryState`.
  pub validate-retry :
      (a b : Fields)
      → Path (Option Json) (lookup "retryState" a) (lookup "retryState" b)
      → Path (Result Error (Unit {0})) (validate_terminal_cleanup a) (validate_terminal_cleanup b)
  unfolding validate_terminal_cleanup validate_retry_state
  validate-retry a b e = λ i.
      elim (e i) [
        | none ↦ ok tt
        | some v ↦ require (is_object v) invalid_retry_state >> check_retry (object v)
      ]
      >> check_cleanup (object_of (e i))
