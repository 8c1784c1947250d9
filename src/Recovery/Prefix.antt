-- ===== src/Recovery/Prefix.antt =====
-- `parse_recorded_prefix` of native/solstone-tmux/src/recovery.rs: how far the bytes of a JSONL file
-- are whole frames. `frame_id` is `value.get("frame_id")` as a `u64` of the line that serde parses,
-- and `none` where either fails.
pub mod Again
use solstone_tmux.Base.{
  ℕ, suc, ◌+◌, Bool, true, false, not, ◌&&◌, List, [], ◌∷◌, ◌++◌, Option, none, some, length, leb,
  ◌==◌, if◌then◌else◌,
}

abbrev pub cons_line : ℕ → List (List ℕ) → List (List ℕ)
cons_line b [] = (b ∷ []) ∷ []
cons_line b (line ∷ lines) = (b ∷ line) ∷ lines

-- `bytes.split_inclusive(|byte| *byte == b'\n')`
unfoldable pub split_inclusive : List ℕ → List (List ℕ)
split_inclusive [] = []
split_inclusive (b ∷ bytes) =
    let rest = split_inclusive bytes in if b == b'\n' then (b ∷ []) ∷ rest else cons_line b rest

-- `line.ends_with(b"\n")`
unfoldable pub ends_line : List ℕ → Bool
ends_line [] = false
ends_line (b ∷ []) = b == b'\n'
ends_line (b ∷ c ∷ line) = ends_line (c ∷ line)

-- `&line[..line.len() - 1]`
unfoldable pub without_last : List ℕ → List ℕ
without_last [] = []
without_last (b ∷ []) = []
without_last (b ∷ c ∷ line) = b ∷ without_last (c ∷ line)

unfoldable pub last_id : List ℕ → Option ℕ
last_id [] = none
last_id (id ∷ []) = some id
last_id (id ∷ next ∷ ids) = last_id (next ∷ ids)

-- `ids.last().is_some_and(|previous| *previous >= frame_id)`
unfoldable pub is_stale : Option ℕ → ℕ → Bool
is_stale none id = false
is_stale (some previous) id = leb id previous

pub record Prefix : Type 0 where
  pub offset : ℕ
  pub ids : List ℕ
  pub torn : Bool

abbrev pub stop_at : ℕ → List ℕ → Bool → Prefix
stop_at offset ids torn = record { offset = offset; ids = ids; torn = torn }

module _ (frame_id : List ℕ → Option ℕ) where
  -- One turn of the loop, given what the rest of the loop returns for the next offset and ids.
  unfoldable pub parse_line : ℕ → List ℕ → List ℕ → Option ℕ → (ℕ → List ℕ → Prefix) → Prefix
  parse_line offset ids line none rest = stop_at offset ids false
  parse_line offset ids line (some id) rest =
      if is_stale (last_id ids) id
      then stop_at offset ids false
      else rest (offset + length line) (ids ++ (id ∷ []))

  unfoldable pub parse_lines : ℕ → List ℕ → List (List ℕ) → Prefix
  parse_lines offset ids [] = stop_at offset ids false
  parse_lines offset ids (line ∷ lines) =
      if not (ends_line line)
      then stop_at offset ids true
      else parse_line offset ids line (frame_id (without_last line))
          (λ next more. parse_lines next more lines)

  unfoldable pub parse_recorded_prefix : List ℕ → Prefix
  parse_recorded_prefix bytes = parse_lines 0 [] (split_inclusive bytes)
