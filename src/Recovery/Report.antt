-- ===== src/Recovery/Report.antt =====
-- `RecoveryAction`, `RecoveryRecord` and `record` of native/solstone-tmux/src/recovery.rs: what recovery
-- says that it did with a candidate, which the model names by its file name.
use solstone_tmux.Base.{Text}

pub data RecoveryAction : Type 0 where
  finalized repair_then_finalize retain quarantine remove failed : RecoveryAction

pub record RecoveryRecord : Type 0 where
  pub candidate : Text
  pub action : RecoveryAction
  pub detail : Text

-- `record(failed, RecoveryAction::Quarantine, detail)`
abbrev pub quarantined : Text → Text → RecoveryRecord
quarantined name detail = record { candidate = name; action = quarantine; detail = detail }
