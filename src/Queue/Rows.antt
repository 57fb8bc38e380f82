-- ===== src/Queue/Rows.antt =====
-- A row of the `queue` table of src/coordination.ts, its statuses, and what each statement of
-- src/infrastructure/queue-repository.ts asks of a row and writes to it.
use dsh_codex_workflow.Common.{
  ℕ, ◌+◌, String, Bool, true, false, not, ◌&&◌, ◌||◌, Option, none, some, List, [], ◌∷◌, leb, ◌==◌,
  str_eq,
}

pub data Status : Type 0 where
  inbox processing retry done dead_letter failed cancelled : Status

pub record Row : Type 0 where
  pub request_id : String
  pub command_hash : String
  pub command_json : String
  pub status : Status
  pub attempts : ℕ
  pub claim_epoch : ℕ
  pub claim_owner : String
  pub claim_until : ℕ
  pub created_at : ℕ
  pub last_error : Option String
  pub next_attempt_at : Option ℕ
  pub receipt_json : Option String
  pub dead_letter_at : Option ℕ

abbrev pub id_of : Row → String
id_of r = r.request_id

-- `status = 'processing'` and the other tests of a status.
abbrev pub is_processing : Status → Bool
is_processing processing = true
is_processing _ = false

abbrev pub is_inbox : Status → Bool
is_inbox inbox = true
is_inbox _ = false

abbrev pub is_retry : Status → Bool
is_retry retry = true
is_retry _ = false

abbrev pub is_done : Status → Bool
is_done done = true
is_done _ = false

abbrev pub is_waiting : Status → Bool
is_waiting inbox = true
is_waiting retry = true
is_waiting _ = false

abbrev pub is_dead : Status → Bool
is_dead dead_letter = true
is_dead failed = true
is_dead _ = false

abbrev pub status_code : Status → ℕ
status_code inbox = 0
status_code processing = 1
status_code retry = 2
status_code done = 3
status_code dead_letter = 4
status_code failed = 5
status_code cancelled = 6

-- `status = ?`.
abbrev pub status_eq : Status → Status → Bool
status_eq a b = status_code a == status_code b

-- A row as `INSERT INTO queue` makes it, with the defaults of the schema.
abbrev pub new_row : String → String → String → ℕ → Row
new_row id hash json created = record {
  request_id = id;
  command_hash = hash;
  command_json = json;
  status = inbox;
  attempts = 0;
  claim_epoch = 0;
  claim_owner = "";
  claim_until = 0;
  created_at = created;
  last_error = none;
  next_attempt_at = none;
  receipt_json = none;
  dead_letter_at = none;
}

-- A row imported from the file queue keeps its attempts, error and dates.
abbrev pub legacy_row :
    String → String → String → Status → ℕ → Option String → Option ℕ → Option ℕ → ℕ → Row
legacy_row id hash json status attempts error next dead created =
    record (new_row id hash json created) {
      status = status;
      attempts = attempts;
      last_error = error;
      next_attempt_at = next;
      dead_letter_at = dead;
    }

-- `next_attempt_at IS NOT NULL AND next_attempt_at <= now`.
abbrev pub due : ℕ → Option ℕ → Bool
due now none = false
due now (some t) = leb t now

abbrev pub or_zero : Option ℕ → ℕ
or_zero none = 0
or_zero (some n) = n

abbrev pub Router : Type 0
Router = Option (String → Bool)

abbrev pub retry_due : ℕ → Row → Bool
retry_due now r = is_retry r.status && due now r.next_attempt_at

abbrev pub expired : ℕ → Row → Bool
expired now r = is_processing r.status && leb r.claim_until now

-- The WHERE clause of the claiming UPDATE.
abbrev pub claimable : ℕ → Row → Bool
claimable now r = is_waiting r.status || expired now r

abbrev pub take_over : String → ℕ → Row → Row
take_over owner till r = record r {
  status = processing;
  claim_epoch = r.claim_epoch + 1;
  claim_owner = owner;
  claim_until = till;
}

-- Every mutation of a claim asks for the claim's epoch and owner.
abbrev pub owned_by : ℕ → String → Row → Bool
owned_by epoch owner r =
    is_processing r.status && r.claim_epoch == epoch && str_eq r.claim_owner owner

abbrev pub acked : String → Row → Row
acked receipt r = record r { status = done; receipt_json = some receipt; claim_until = 0 }

abbrev pub parked : String → ℕ → Row → Row
parked error next r = record r {
  status = retry;
  attempts = r.attempts + 1;
  last_error = some error;
  next_attempt_at = some next;
  claim_owner = "";
  claim_until = 0;
}

abbrev pub buried : String → ℕ → Row → Row
buried error now r = record r {
  status = dead_letter;
  attempts = r.attempts + 1;
  last_error = some error;
  dead_letter_at = some now;
  claim_owner = "";
  claim_until = 0;
}

abbrev pub renewed : ℕ → Row → Row
renewed till r = record r { claim_until = till }

abbrev pub orphaned : ℕ → Row → Row
orphaned now r = record r {
  status = retry;
  next_attempt_at = some now;
  claim_owner = "";
  claim_until = 0;
}

abbrev pub quarantined : String → ℕ → Row → Row
quarantined error now r = record r {
  status = dead_letter;
  last_error = some error;
  dead_letter_at = some now;
  claim_owner = "";
  claim_until = 0;
}

abbrev pub requeued : ℕ → Row → Row
requeued now r = record r {
  status = retry;
  next_attempt_at = some now;
  dead_letter_at = none;
  claim_owner = "";
  claim_until = 0;
}

abbrev pub is_final : Status → Bool
is_final done = true
is_final cancelled = true
is_final _ = false

-- A row that pruning may delete: final, with a receipt that is not empty.
abbrev pub prunable : Row → Bool
prunable r = is_final r.status && elim r.receipt_json [ none ↦ false | some t ↦ not (str_eq t "") ]

unfoldable pub has_id : String → List String → Bool
has_id k [] = false
has_id k (i ∷ is) = str_eq k i || has_id k is

abbrev pub lacks_receipt : Row → Bool
lacks_receipt r = elim r.receipt_json [ none ↦ true | some _ ↦ false ]

abbrev pub receipted : String → Row → Row
receipted receipt r = record r {
  status = done;
  receipt_json = some receipt;
  claim_owner = "";
  claim_until = 0;
  last_error = none;
  next_attempt_at = none;
  dead_letter_at = none;
}
