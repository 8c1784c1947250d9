-- ===== src/Observer/Linger.antt =====
-- `ActivityLinger` of observer.rs. Instants are milliseconds.
use solstone_tmux.Base.{
  ℕ, ◌+◌, Bool, true, false, List, [], ◌∷◌, Option, none, some, leb, if◌then◌else◌,
}

pub data SyncActivity : Type 0 where
  idle working : SyncActivity

pub record ActivityLinger : Type 0 where
  pub shown : Option SyncActivity
  pub idle_at : Option ℕ

-- `SYNCING_LINGER`
abbrev pub syncing_linger : ℕ
syncing_linger = 1500

unfoldable pub shows : Option SyncActivity → SyncActivity → Bool
shows (some idle) idle = true
shows (some working) working = true
shows _ _ = false

unfoldable pub show : SyncActivity → ActivityLinger → Option SyncActivity × ActivityLinger
show activity st =
    if shows st.shown activity
    then (none, st)
    else (some activity, record st { shown = some activity })

-- `get_or_insert`
unfoldable pub get_or_insert : Option ℕ → ℕ → Option ℕ
get_or_insert none at = some at
get_or_insert (some at) _ = some at

unfoldable pub observe : SyncActivity → ℕ → ActivityLinger → Option SyncActivity × ActivityLinger
observe working now st = show working (record st { idle_at = none })
observe idle now st =
    if shows st.shown working
    then (none, record st { idle_at = get_or_insert st.idle_at (now + syncing_linger) })
    else show idle st

unfoldable pub expire_at : Option ℕ → ℕ → ActivityLinger → Option SyncActivity × ActivityLinger
expire_at none now st = (none, st)
expire_at (some at) now st =
    if leb at now then show idle (record st { idle_at = none }) else (none, st)

unfoldable pub expire : ℕ → ActivityLinger → Option SyncActivity × ActivityLinger
expire now st = expire_at st.idle_at now st

-- Idle is observed at each of these times in turn.
abbrev pub observe_idle : List ℕ → ActivityLinger → ActivityLinger
observe_idle [] st = st
observe_idle (t ∷ ts) st = observe_idle ts (observe idle t st).1

abbrev lingering : Option ℕ → ActivityLinger
lingering idle_at = record { shown = some working; idle_at = idle_at }
