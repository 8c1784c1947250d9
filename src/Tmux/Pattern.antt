-- ===== src/Tmux/Pattern.antt =====
-- `matches_session_pattern` of native/solstone-tmux/src/tmux.rs: which session names an
-- `output_sessions` entry of the configuration selects.
pub mod Glob
pub mod Greedy
use solstone_tmux.Base.{
  Bool, true, false, ◌&&◌, List, [], ◌∷◌, Option, none, some, Text, split, strip_prefix, find_after,
  ends_with, text_eq, leb, byte_length,
}

-- `rest.len() >= last.len() && rest.ends_with(last)`
unfoldable pub closes : Text → Text → Bool
closes last rest = leb (byte_length last) (byte_length rest) && ends_with last rest

-- The loop over the parts between the first and the last, and the test of the last: `parts` are
-- those after the first, never empty.
unfoldable pub match_parts : Text → List Text → Text → Bool
match_parts last [] rest = closes last rest
match_parts part (next ∷ more) rest = elim (find_after part rest) [
  | none ↦ false
  | some after ↦ match_parts next more after
]

-- With no star the whole rest has to be used up.
unfoldable pub match_rest : List Text → Text → Bool
match_rest [] rest = text_eq rest []
match_rest (part ∷ more) rest = match_parts part more rest

unfoldable pub match_split : List Text → Text → Bool
match_split [] session = false
match_split (first ∷ parts) session = elim (strip_prefix first session) [
  | none ↦ false
  | some rest ↦ match_rest parts rest
]

unfoldable pub matches_session_pattern : Text → Text → Bool
matches_session_pattern pattern session = match_split (split b'*' pattern) session
