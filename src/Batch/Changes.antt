-- ===== src/Batch/Changes.antt =====
-- The assignments to the status that the handlers of the batch controller make between two calls.
use reposhift.Common.{ℕ, ◌+◌, ◌*◌, String, none, some, length}
use reposhift.Common.Int.{ℤ, sub_ℕ}
use reposhift.Batch.Types.{Phase, Spec, Status}

-- time.Second, in nanoseconds
abbrev pub second : ℕ
second = 1_000_000_000

abbrev worker_lease_duration : ℕ
worker_lease_duration = 600 * second

abbrev pub reconciled_at : ℕ → Status → Status
reconciled_at t b = record b { last_reconcile_time = some t }

abbrev pub initialised : Spec → Status → Status
initialised spec b = record b {
  phase = Phase.pending;
  progress = record {
    total = length spec.resources;
    completed = 0;
    failed = 0;
    processing = 0;
    percentage = 0;
    current_step = "";
  };
  retry_count = 0;
}

abbrev pub claim : String → ℕ → Status → Status
claim worker t b = record b {
  phase = Phase.claimed;
  claimed_by = worker;
  claimed_at = some t;
  lease_expires_at = some (t + worker_lease_duration);
}

abbrev pub renewed : ℕ → Status → Status
renewed t b = record b { lease_expires_at = some (t + worker_lease_duration) }

abbrev pub start_processing : ℕ → Status → Status
start_processing t b = record b {
  phase = Phase.processing;
  start_time = some t;
  progress = record b.progress { current_step = "Starting batch processing" };
}

abbrev pub back_to_pending : String → Status → Status
back_to_pending step b = record b {
  phase = Phase.pending;
  claimed_by = "";
  claimed_at = none;
  lease_expires_at = none;
  progress = record b.progress { current_step = step };
}

-- `completeBatch` before it decides: the completion time, and the duration if the start is known
abbrev pub completed_at : ℕ → Status → Status
completed_at t b = record b {
  completion_time = some t;
  statistics = elim b.start_time [ some start ↦ some (sub_ℕ t start) | none ↦ b.statistics ];
}

abbrev pub all_successful : Status → Status
all_successful b = record b {
  phase = Phase.completed;
  progress = record b.progress { current_step = "Batch completed successfully"; percentage = 100 };
}

abbrev pub begin_retry : ℤ → Status → Status
begin_retry next b = record b {
  phase = Phase.retrying;
  retry_count = b.retry_count + 1;
  next_retry_time = some next;
  claimed_by = "";
  claimed_at = none;
  lease_expires_at = none;
}

abbrev pub give_up : String → ℕ → Status → Status
give_up message t b = record b {
  phase = Phase.failed;
  error_message = message;
  progress = record b.progress { current_step = "Batch failed" };
  completion_time = some t;
}

abbrev pub become_stale : Status → Status
become_stale b = record b {
  phase = Phase.stale;
  progress = record b.progress { current_step = "Batch marked as stale, worker lease expired" };
}
