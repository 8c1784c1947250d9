-- ===== src/Health/Tests.antt =====
-- A run's facts and what `status` reads of them.
use solstone_tmux.Base.{◌≡◌, refl, true, false, none, some, inl, replicate, text_eq, is_ascii_digit}
use solstone_tmux.Health.{
  SyncFacts, RunIdentity, HealthSnapshot, connected, locked, state_at, state_now, snapshot_of,
  read_status_health, valid_run_id, heard_at, is_current, is_passing, needs_update, is_revoked,
  within_lease, valid_snapshot, valid_state, status_of, state_later,
}
use solstone_tmux.Health.Snapshot.{IsFresh, read_status_health-IsUp}

abbrev facts : SyncFacts
facts = record {
  paired = true;
  held = false;
  sync_in_progress = false;
  pending_segments = 0;
  last_successful_contact = some 1000;
  last_successful_sync = none;
  recent_error_count = 0;
  last_error_code = none;
  episode_started = some 990;
}

abbrev identity : RunIdentity
identity = record { run_id = replicate 32 b'a'; lock_inode = 7 }

read_status_health-IsUp_example :
    (s : HealthSnapshot) × (other : RunIdentity) × (some (snapshot_of identity facts 1010) ≡ some s)
    × (locked identity ≡ locked other)
    × IsFresh s other 1020
unfolding valid_run_id is_ascii_digit read_status_health snapshot_of state_at state_now state_later
    heard_at within_lease is_passing needs_update is_revoked valid_snapshot valid_state status_of
    is_current text_eq
read_status_health-IsUp_example =
    read_status_health-IsUp true (some (snapshot_of identity facts 1010)) (locked identity) 1020
      connected (inl refl) refl
