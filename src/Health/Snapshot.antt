-- ===== src/Health/Snapshot.antt =====
-- What `status` says of a snapshot, at the time it was written and later.
use solstone_tmux.Base.{
  ℕ, ◌+◌, ◌≤◌, ◌≡◌, refl, sym, ◌⊎◌, inl, inr, Bool, true, false, Option, none, some, text_eq→≡,
  arith,
}
use solstone_tmux.Health.{
  DiagnosticCode, HealthState, SyncFacts, RunIdentity, HealthSnapshot, ExistingLock, unpaired, held,
  connected, syncing, connecting, offline, update_needed, revoked, locked, live, heard_at,
  within_lease, state_later, state_now, valid_state, valid_snapshot, is_current, status_of,
  read_status_health,
}

-- Facts as the code keeps them: nothing is held back, and nothing is sent before pairing.
pub record IsKept (facts : SyncFacts) : Type 0 where
  pub not_held : facts.held ≡ false
  pub idle : facts.paired ≡ false → facts.sync_in_progress ≡ false

-- A state that says that the link is up.
abbrev pub IsUp : HealthState → Type 0
IsUp s = (s ≡ connected) ⊎ (s ≡ syncing)

-- The journal answered at a known time, at most 66 seconds before: the sweep's interval of 60
-- seconds, the status check's timeout of 5, and one.
abbrev pub IsHeard : Option ℕ → ℕ → Type 0
IsHeard last now = (contact : ℕ) × (last ≡ some contact) × (now ≤ contact + 66)

heard_at-IsHeard : (last : Option ℕ) (now : ℕ) → heard_at last now ≡ true → IsHeard last now
unfolding heard_at within_lease
heard_at-IsHeard none now h = ground (arith, h)
heard_at-IsHeard (some c) now h = (c, refl, ground (arith, h))

state_later-IsUp :
    (state : HealthState) (contact : Option ℕ) (updated_at now : ℕ)
    → IsUp (state_later state contact updated_at now)
    → IsUp state × (heard_at contact now ≡ true)
unfolding state_later
state_later-IsUp connected contact u now h = (inl refl, ground (arith, h))
state_later-IsUp syncing contact u now h = (inr refl, ground (arith, h))
state_later-IsUp connecting contact u now h = ground (arith, h)
state_later-IsUp unpaired contact u now h = ground (arith, h)
state_later-IsUp held contact u now h = ground (arith, h)
state_later-IsUp offline contact u now h = ground (arith, h)
state_later-IsUp update_needed contact u now h = ground (arith, h)
state_later-IsUp revoked contact u now h = ground (arith, h)

valid_state-paired :
    (state : HealthState) (paired sending : Bool) (contact : Option ℕ)
    (code : Option DiagnosticCode)
    → IsUp state
    → valid_state state paired sending contact code ≡ true
    → paired ≡ true
unfolding valid_state
valid_state-paired connected paired sending contact code up v = ground (arith, v)
valid_state-paired syncing paired sending contact code up v = ground (arith, v)
valid_state-paired connecting paired sending contact code up v = ground (arith, up)
valid_state-paired unpaired paired sending contact code up v = ground (arith, up)
valid_state-paired held paired sending contact code up v = ground (arith, up)
valid_state-paired offline paired sending contact code up v = ground (arith, up)
valid_state-paired update_needed paired sending contact code up v = ground (arith, up)
valid_state-paired revoked paired sending contact code up v = ground (arith, up)

valid_snapshot-paired :
    (s : HealthSnapshot) → IsUp s.state → valid_snapshot s ≡ true → s.paired ≡ true
unfolding valid_snapshot
valid_snapshot-paired s up v =
    let by_state : valid_state s.state s.paired s.sync_in_progress s.last_successful_contact
          s.last_error_code
        ≡ true =
      ground (arith, v) in
    elim up [
      | inl e ↦
          valid_state-paired connected s.paired s.sync_in_progress s.last_successful_contact
            s.last_error_code (inl refl) (rw (sym e) by_state)
      | inr e ↦
          valid_state-paired syncing s.paired s.sync_in_progress s.last_successful_contact
            s.last_error_code (inr refl) (rw (sym e) by_state)
    ]

-- The snapshot is of the run that holds the lock, of a paired device, was written between 180
-- seconds before `now` and 60 after it, and its contact was at most 66 seconds before `now`.
pub record IsFresh (s : HealthSnapshot) (identity : RunIdentity) (now : ℕ) : Type 0 where
  pub same_run : s.run_id ≡ identity.run_id
  pub same_lock : s.lock_inode ≡ identity.lock_inode
  pub is_paired : s.paired ≡ true
  pub not_old : now ≤ s.updated_at + 180
  pub not_ahead : s.updated_at ≤ now + 60
  pub is_heard : IsHeard s.last_successful_contact now

-- Whatever snapshot and lock are found, `status` says connected or syncing only if this run's lock is
-- held, and the snapshot names this run and the inode of its lock, says that the device is paired,
-- was written at most 180 seconds before the time of reading and at most 60 after it, and has a
-- contact with the journal at most 66 seconds before the time of reading.
pub read_status_health-IsUp :
    (root : Bool) (found : Option HealthSnapshot) (lock : ExistingLock) (now : ℕ)
    (state : HealthState)
    → IsUp state
    → read_status_health root found lock now ≡ live state
    → (s : HealthSnapshot) × (identity : RunIdentity) × (found ≡ some s)
      × (lock ≡ locked identity)
      × IsFresh s identity now
unfolding read_status_health status_of state_now is_current
read_status_health-IsUp false found lock now state up h = ground (arith, h)
read_status_health-IsUp true none lock now state up h = ground (arith, h)
read_status_health-IsUp true (some s) (ExistingLock.unlocked identity) now state up h =
    ground (arith, h)
read_status_health-IsUp true (some s) ExistingLock.missing_or_invalid now state up h =
    ground (arith, h)
read_status_health-IsUp true (some s) (locked identity) now state up h =
    let same : state_later s.state s.last_successful_contact s.updated_at now ≡ state =
      ground (arith, h) in
    let (up_then, heard) =
      state_later-IsUp s.state s.last_successful_contact s.updated_at now (rw same up) in
    (
      s,
      identity,
      refl,
      refl,
      record {
        same_run = text_eq→≡ s.run_id identity.run_id (ground (arith, h));
        same_lock = ground (arith, h);
        is_paired = valid_snapshot-paired s up_then (ground (arith, h));
        not_old = ground (arith, h);
        not_ahead = ground (arith, h);
        is_heard = heard_at-IsHeard s.last_successful_contact now heard;
      },
    )
