-- ===== src/Recovery/Accepts.antt =====
-- Recovery accepts the metadata that a segment writes.
use solstone_tmux.Base.{
  ℕ, strip_suffix, strip_suffix-append, ◌≡◌, ◌≢◌, refl, ap, sym, ◌∙◌, Bool, true, false, List, [],
  ◌∷◌, ◌++◌, Text, codes, ok, none, some, Map, arith, All, any, get, text_eq, text_eq_iff,
  ≡→text_eq, ltb,
}
use solstone_tmux.Name.{DerivedName, session_filename}
use solstone_tmux.Name.Injective.{derive_component-injective}
use solstone_tmux.Storage.{
  SegmentMetadata, SessionMetadata, MetadataLifecycle, creating, opened, finalizing,
}
use solstone_tmux.Segment.Length.{finalized_name}
use solstone_tmux.Segment.Sound.{IsEntry, KeysDistinct, IsSound}
use solstone_tmux.Recovery.Names.{
  valid_time_name, incomplete-direct, finalized_name-direct, is_direct_name,
}
use solstone_tmux.Recovery.Consistent.{
  TimeRanges, is_creating, header_is_consistent, names_file, entry_is_consistent,
  sessions_are_consistent, metadata_is_consistent, same_flag,
}

same_flag_refl : (b : Bool) → same_flag b b ≡ true
unfolding same_flag
same_flag_refl true = refl
same_flag_refl false = refl

not_creating : (l : MetadataLifecycle) → l ≢ creating → is_creating l ≡ false
unfolding is_creating
not_creating creating h = absurd (h refl)
not_creating opened h = refl
not_creating finalizing h = refl

header-IsSound :
    (ranges : TimeRanges) (m : SegmentMetadata) (stem : Text)
    → valid_time_name stem ≡ true
    → ranges.valid_offset m.local_offset_seconds ≡ true
    → ranges.valid_timestamp m.start_wall_unix_nanos ≡ true
    → IsSound m stem
    → header_is_consistent ranges m stem ≡ true
unfolding header_is_consistent
header-IsSound ranges m stem time offset timestamp s =
    let incomplete = ≡→text_eq m.incomplete_dir (stem ++ codes ".incomplete") s.named.incomplete in
    let finalized =
      ≡→text_eq m.finalized_dir (finalized_name stem m.elapsed_nanos) s.named.finalized in
    let direct : is_direct_name m.incomplete_dir ≡ true =
      ap is_direct_name s.named.incomplete ∙ incomplete-direct stem time in
    let direct' : is_direct_name m.finalized_dir ≡ true =
      ap is_direct_name s.named.finalized ∙ finalized_name-direct stem m.elapsed_nanos time in
    let flag : same_flag m.has_durable_frames (ltb 0 m.durable_frame_count) ≡ true =
      ap (λ b. same_flag b (ltb 0 m.durable_frame_count)) s.has
      ∙ same_flag_refl (ltb 0 m.durable_frame_count) in
    let made = not_creating m.lifecycle s.created in
    rw (time, incomplete, finalized, direct, direct', offset, timestamp, flag, made)
      (ground (arith, s.version, s.counts))

entry-IsEntry :
    (last : ℕ) (entry : Text × SessionMetadata)
    → IsEntry last entry
    → entry_is_consistent last entry ≡ true
unfolding entry_is_consistent
entry-IsEntry last (identity, session) it =
    let same = ≡→text_eq identity session.session (sym it.session) in
    let file = ≡→text_eq (session_filename it.derived) session.filename (sym it.filename) in
    rw (it.derives, names_file, same, file) (ground (arith, it.nonempty, it.numbered, it.counted))

-- The names of the files seen are not names of files to come.
abbrev Fresh : List Text → Map SessionMetadata → Type 0
Fresh seen m = All (λ f. All (λ (e : Text × SessionMetadata). e.1.filename ≢ f) m) seen

not_seen :
    (entry : Text × SessionMetadata) (rest : Map SessionMetadata) (seen : List Text)
    → Fresh seen (entry ∷ rest)
    → (any (text_eq (entry.1.filename)) seen ≡ false) × Fresh seen rest
not_seen entry rest [] h = (refl, tt)
not_seen entry rest (f ∷ seen) h =
    let (later, clear) = not_seen entry rest seen h.1 in
    (ground (arith, later, h.0.0, text_eq_iff (entry.1.filename) f), (h.0.1, clear))

session_filename-injective : (a b : DerivedName) → session_filename a ≡ session_filename b → a ≡ b
unfolding session_filename
session_filename-injective a b e =
    let texts = strip_suffix_injective a.as_str b.as_str (codes "_screen.jsonl") (cc) in
    λ i. record { as_str = texts i }
  where
    strip_suffix_injective : (p q suffix : Text) → p ++ suffix ≡ q ++ suffix → p ≡ q
    strip_suffix_injective p q suffix e =
        let found : some p ≡ some q =
          sym (strip_suffix-append p suffix)
          ∙ (ap (strip_suffix suffix) e ∙ strip_suffix-append q suffix) in
        cc found

-- Different identities have different files.
filenames_differ :
    (last : ℕ) (a b : Text × SessionMetadata)
    → IsEntry last a
    → IsEntry last b
    → a.0 ≢ b.0
    → b.1.filename ≢ a.1.filename
filenames_differ last a b ia ib n e =
    let names =
      session_filename-injective ia.derived ib.derived (sym ia.filename ∙ (sym e ∙ ib.filename)) in
    n (
      derive_component-injective a.0 b.0 ib.derived ia.scalar ib.scalar (ia.derives ∙ ap ok names)
        ib.derives)

fresh_tail :
    (last : ℕ) (entry : Text × SessionMetadata) (rest : Map SessionMetadata)
    → IsEntry last entry
    → All (IsEntry last) rest
    → get entry.0 rest ≡ none
    → All (λ (e : Text × SessionMetadata). e.1.filename ≢ entry.1.filename) rest
unfolding get
fresh_tail last entry [] it h missing = tt
fresh_tail last entry ((k, v) ∷ rest) it h missing =
    let differs : entry.0 ≢ k = λ same. ground (arith, missing, text_eq_iff k entry.0) in
    (
      filenames_differ last entry (k, v) it h.0 differs,
      fresh_tail last entry rest it h.1 (ground (arith, missing)),
    )

sessions-IsSound :
    (last : ℕ) (seen : List Text) (m : Map SessionMetadata)
    → All (IsEntry last) m
    → KeysDistinct m
    → Fresh seen m
    → sessions_are_consistent last seen m ≡ true
unfolding sessions_are_consistent
sessions-IsSound last seen [] h d f = refl
sessions-IsSound last seen (entry ∷ rest) h d f =
    let (new, clear) = not_seen entry rest seen f in
    let tail = fresh_tail last entry rest h.0 h.1 d.0 in
    rw (entry-IsEntry last entry h.0, new)
      (sessions-IsSound last (entry.1.filename ∷ seen) rest h.1 d.1 (tail, clear))

-- Recovery never takes the metadata of a segment for torn or contradictory: the test accepts every
-- metadata that keeps the segment's invariant, under a well-formed time name and for a start and an
-- offset that the `time` crate can represent.
pub metadata_is_consistent-IsSound :
    (ranges : TimeRanges) (m : SegmentMetadata) (stem : Text)
    → valid_time_name stem ≡ true
    → ranges.valid_offset m.local_offset_seconds ≡ true
    → ranges.valid_timestamp m.start_wall_unix_nanos ≡ true
    → IsSound m stem
    → metadata_is_consistent ranges m stem ≡ true
unfolding metadata_is_consistent
metadata_is_consistent-IsSound ranges m stem time offset timestamp s =
    rw (header-IsSound ranges m stem time offset timestamp s)
      (sessions-IsSound m.last_durable_frame_id [] m.sessions s.entries s.distinct tt)
