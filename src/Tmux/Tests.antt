-- ===== src/Tmux/Tests.antt =====
-- Runs of native/solstone-tmux/src/tmux.rs, and the theorems about it at concrete inputs.
use solstone_tmux.Base.{
  ◌≡◌, refl, ◌↔◌, true, false, codes, split, strip_prefix, strip_suffix, find_after, ends_with,
  text_eq, bytes, encode, byte_length,
}
use solstone_tmux.Tmux.Pattern.{
  matches_session_pattern, match_split, match_rest, match_parts, closes,
}
use solstone_tmux.Tmux.Pattern.Glob.{Glob}
use solstone_tmux.Tmux.Pattern.Greedy.{matches_session_pattern-iff-Glob}

agent : matches_session_pattern (codes "agent-*") (codes "agent-7") ≡ true
unfolding matches_session_pattern match_split match_rest match_parts closes split strip_prefix
    strip_suffix find_after ends_with text_eq bytes encode byte_length
agent = refl

-- The last part must be found behind the middle ones.
overlap : matches_session_pattern (codes "a*ab*b") (codes "aab") ≡ false
unfolding matches_session_pattern match_split match_rest match_parts closes split strip_prefix
    strip_suffix find_after ends_with text_eq bytes encode byte_length
overlap = refl

matches_session_pattern-iff-Glob_example :
    (matches_session_pattern (codes "a*ab*b") (codes "aab") ≡ true)
    ↔ Glob (codes "a*ab*b") (codes "aab")
matches_session_pattern-iff-Glob_example =
    matches_session_pattern-iff-Glob (codes "a*ab*b") (codes "aab")
