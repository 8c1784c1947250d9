-- ===== src/Health.antt =====
-- native/solstone-tmux/src/health.rs: the facts of synchronisation, the state that they show, and
-- the snapshot of it that `status` reads. Times are seconds since 1970, none before it: there
-- `saturating_sub` of `i64` compares as subtraction of natural numbers does.
pub mod Snapshot
mod Tests
use solstone_tmux.Base.{
  ℕ, ◌+◌, ◌-◌, ◌^◌, min, Bool, true, false, not, ◌&&◌, ◌||◌, Text, Option, none, some, length, all,
  ltb, leb, ◌==◌, text_eq, is_some, is_ascii_digit, if◌then◌else◌,
}

pub data DiagnosticCode : Type 0 where
  setup_input_invalid setup_unavailable pairing_failed private_state_invalid private_state_io :
      DiagnosticCode
  health_snapshot_io bridge_unavailable journal_unavailable journal_timeout : DiagnosticCode
  journal_response_too_large journal_contract_invalid configured_stream_mismatch : DiagnosticCode
  local_segment_invalid request_too_large journal_rejected journal_revoked : DiagnosticCode
  sync_task_exited sync_task_panicked sync_task_cancelled sync_task_timed_out : DiagnosticCode
  indicator_update_failed : DiagnosticCode

pub data HealthState : Type 0 where
  unpaired held connected syncing connecting offline update_needed revoked : HealthState

pub data StatusHealth : Type 0 where
  unknown stale : StatusHealth
  live : HealthState → StatusHealth

pub record SyncFacts : Type 0 where
  pub paired : Bool
  pub held : Bool
  pub sync_in_progress : Bool
  pub pending_segments : ℕ
  pub last_successful_contact : Option ℕ
  pub last_successful_sync : Option ℕ
  pub recent_error_count : ℕ
  pub last_error_code : Option DiagnosticCode
  pub episode_started : Option ℕ

pub record RunIdentity : Type 0 where
  pub run_id : Text
  pub lock_inode : ℕ

pub record HealthSnapshot : Type 0 where
  pub schema_version : ℕ
  pub run_id : Text
  pub lock_inode : ℕ
  pub updated_at : ℕ
  pub state : HealthState
  pub paired : Bool
  pub sync_in_progress : Bool
  pub pending_segments : ℕ
  pub last_successful_contact : Option ℕ
  pub last_successful_sync : Option ℕ
  pub recent_error_count : ℕ
  pub last_error_code : Option DiagnosticCode

-- What `inspect_existing` of instance_lock.rs answers.
pub data ExistingLock : Type 0 where
  locked unlocked : RunIdentity → ExistingLock
  missing_or_invalid : ExistingLock

abbrev pub health_schema_version : ℕ
health_schema_version = 1

abbrev pub health_stale_seconds : ℕ
health_stale_seconds = 180

abbrev pub health_future_tolerance_seconds : ℕ
health_future_tolerance_seconds = 60

-- The sweep's interval, the status check's timeout, and one second.
abbrev pub connected_lease_seconds : ℕ
connected_lease_seconds = 60 + 5 + 1

abbrev pub offline_after_seconds : ℕ
offline_after_seconds = 30

unfoldable pub successful_contact : ℕ → SyncFacts → SyncFacts
successful_contact now facts = record facts {
  last_successful_contact = some now;
  recent_error_count = 0;
  last_error_code = none;
}

unfoldable pub successful_sync : ℕ → SyncFacts → SyncFacts
unfolding successful_contact
successful_sync now facts = record (successful_contact now facts) {
  last_successful_sync = some now;
}

unfoldable pub record_failed : DiagnosticCode → SyncFacts → SyncFacts
record_failed code facts = record facts {
  recent_error_count = min (facts.recent_error_count + 1) (2 ^ 32 - 1);
  last_error_code = some code;
}

unfoldable pub within_lease : ℕ → ℕ → Bool
within_lease contact now = leb (now - contact) connected_lease_seconds

-- `contact.is_some_and(|contact| within_lease(contact, now))`
unfoldable pub heard_at : Option ℕ → ℕ → Bool
heard_at none now = false
heard_at (some contact) now = within_lease contact now

unfoldable pub is_passing : Option DiagnosticCode → Bool
is_passing none = true
is_passing (some journal_timeout) = true
is_passing (some _) = false

unfoldable pub needs_update : Option DiagnosticCode → Bool
needs_update (some journal_contract_invalid) = true
needs_update (some configured_stream_mismatch) = true
needs_update (some private_state_invalid) = true
needs_update (some private_state_io) = true
needs_update (some health_snapshot_io) = true
needs_update _ = false

unfoldable pub is_revoked : Option DiagnosticCode → Bool
is_revoked (some journal_revoked) = true
is_revoked _ = false

-- `Option::max`
unfoldable pub later : Option ℕ → Option ℕ → Option ℕ
later none b = b
later (some a) none = some a
later (some a) (some b) = if ltb b a then some a else some b

unfoldable pub reaching : Option ℕ → ℕ → HealthState
reaching none now = offline
reaching (some since) now = if ltb (now - since) offline_after_seconds then connecting else offline

unfoldable pub state_at : SyncFacts → ℕ → HealthState
state_at facts now =
    let link_up =
      facts.paired
      && heard_at facts.last_successful_contact now
      && is_passing facts.last_error_code in
    if link_up && facts.sync_in_progress
    then syncing
    else if needs_update facts.last_error_code
    then update_needed
    else if facts.held
    then held
    else if not facts.paired
    then unpaired
    else if is_revoked facts.last_error_code
    then revoked
    else if link_up
    then connected
    else reaching (later facts.last_successful_contact facts.episode_started) now

-- The state of a snapshot, its contact and its time, at a later time.
unfoldable pub state_later : HealthState → Option ℕ → ℕ → ℕ → HealthState
state_later connected contact updated_at now = if heard_at contact now then connected else offline
state_later syncing contact updated_at now = if heard_at contact now then syncing else offline
state_later connecting contact updated_at now =
    if leb offline_after_seconds (now - updated_at) then offline else connecting
state_later state contact updated_at now = state

unfoldable pub state_now : HealthSnapshot → ℕ → HealthState
state_now snapshot now =
    state_later snapshot.state snapshot.last_successful_contact snapshot.updated_at now

-- The snapshot that `HealthWriter::write` writes.
unfoldable pub snapshot_of : RunIdentity → SyncFacts → ℕ → HealthSnapshot
snapshot_of identity facts now = record {
  schema_version = health_schema_version;
  run_id = identity.run_id;
  lock_inode = identity.lock_inode;
  updated_at = now;
  state = state_at facts now;
  paired = facts.paired;
  sync_in_progress = facts.sync_in_progress;
  pending_segments = facts.pending_segments;
  last_successful_contact = facts.last_successful_contact;
  last_successful_sync = facts.last_successful_sync;
  recent_error_count = facts.recent_error_count;
  last_error_code = facts.last_error_code;
}

abbrev pub is_hex_digit : ℕ → Bool
is_hex_digit c = is_ascii_digit c || (leb 97 c && leb c 102)

-- The `match` of `valid_snapshot` on the state.
unfoldable pub valid_state : HealthState → Bool → Bool → Option ℕ → Option DiagnosticCode → Bool
valid_state unpaired paired sending contact code = not paired && not sending
valid_state held paired sending contact code = paired && not sending
valid_state syncing paired sending contact code = paired && sending && is_some contact
valid_state connected paired sending contact code =
    paired && not sending && is_some contact && is_passing code
valid_state update_needed paired sending contact code = true
valid_state _ paired sending contact code = paired

unfoldable pub valid_run_id : Text → Bool
valid_run_id run_id = (length run_id == 32) && all is_hex_digit run_id

unfoldable pub valid_snapshot : HealthSnapshot → Bool
valid_snapshot s =
    (s.schema_version == health_schema_version)
    && valid_run_id s.run_id
    && valid_state s.state s.paired s.sync_in_progress s.last_successful_contact s.last_error_code

-- The last test of `read_status_health`.
unfoldable pub is_current : HealthSnapshot → RunIdentity → ℕ → Bool
is_current s identity now =
    text_eq s.run_id identity.run_id
    && (s.lock_inode == identity.lock_inode)
    && leb s.updated_at (now + health_future_tolerance_seconds)
    && leb (now - s.updated_at) health_stale_seconds

unfoldable pub status_of : HealthSnapshot → ExistingLock → ℕ → StatusHealth
status_of s (locked identity) now =
    if is_current s identity now then live (state_now s now) else stale
status_of s (unlocked identity) now = stale
status_of s missing_or_invalid now = unknown

-- `read_status_health`, given whether the root is a directory, what `read_snapshot` read, and what
-- is known of the lock.
unfoldable pub read_status_health : Bool → Option HealthSnapshot → ExistingLock → ℕ → StatusHealth
read_status_health false snapshot lock now = unknown
read_status_health true none lock now = unknown
read_status_health true (some s) lock now =
    if valid_snapshot s then status_of s lock now else unknown
