-- ===== src/Segment/Digest.antt =====
-- `capture_digest` of segment.rs: what decides whether a session's screen has changed.
use solstone_tmux.Base.{
  ℕ, Bool, true, false, List, [], ◌∷◌, ◌++◌, map, Text, bytes, ltb, ◌==◌, if◌then◌else◌,
}
use solstone_tmux.Model.{CaptureResult, PaneInfo}

-- `left.cmp(right)` is `Less` or `Equal`, byte by byte.
unfoldable pub bytes_le : List ℕ → List ℕ → Bool
bytes_le [] ys = true
bytes_le (x ∷ xs) [] = false
bytes_le (x ∷ xs) (y ∷ ys) = if ltb x y then true else if x == y then bytes_le xs ys else false

-- A pane goes in front of the first one that does not sort below it, which keeps equal ids in
-- order when the list is built from its end.
unfoldable pub insert_pane : PaneInfo → List PaneInfo → List PaneInfo
insert_pane pane [] = pane ∷ []
insert_pane pane (other ∷ rest) =
    if bytes_le (bytes pane.id) (bytes other.id)
    then pane ∷ other ∷ rest
    else other ∷ insert_pane pane rest

-- `panes.sort_by(|left, right| left.id.cmp(&right.id))`
unfoldable pub sort_panes : List PaneInfo → List PaneInfo
unfolding insert_pane bytes_le
sort_panes [] = []
sort_panes (pane ∷ rest) = insert_pane pane (sort_panes rest)

-- `parts.join("\n")`
unfoldable pub join_lines : List Text → Text
join_lines [] = []
join_lines (part ∷ []) = part
join_lines (part ∷ next ∷ rest) = part ++ (10 ∷ join_lines (next ∷ rest))

unfoldable pub digest_text : CaptureResult → Text
unfolding sort_panes join_lines
digest_text capture =
    join_lines (capture.window.id ∷ map (λ pane. pane.content) (sort_panes capture.panes))

unfoldable pub capture_digest : (Text → ℕ) → CaptureResult → ℕ
unfolding digest_text
capture_digest hash capture = hash (digest_text capture)
