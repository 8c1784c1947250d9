-- ===== src/Observer/Tests.antt =====
-- The status cell over a short run of work.
use solstone_tmux.Base.{none}
use solstone_tmux.Observer.Linger.{ActivityLinger}

abbrev blank : ActivityLinger
blank = record { shown = none; idle_at = none }
