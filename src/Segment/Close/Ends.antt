-- ===== src/Segment/Close/Ends.antt =====
-- How a segment ends: what `finalize` and `create` leave when they succeed.
use solstone_tmux.Base.{
  ℕ, ◌-◌, ◌<◌, ◌≡◌, refl, sym, ap, ◌∙◌, ◌⊎◌, inl, inr, true, false, not, ◌&&◌, none, some, Result,
  ok, err, Bool-cases, Option-cases, ◌==◌, arith,
}
use solstone_tmux.Storage.{SegmentMetadata, finalizing}
use solstone_tmux.Segment.{SegmentState, SegmentClose, Externals, Failure}
use solstone_tmux.Segment.Length.{record_length}
use solstone_tmux.Segment.Monad.{Method, continue}
use solstone_tmux.Segment.Steps.{◌>>=◌}
use solstone_tmux.Segment.Close.Effects.{
  Published, Removed, publish-Published, remove_directory-Removed,
}
use solstone_tmux.Segment.Close.{
  finish, has_content, remove_directory, remove_confirmed_empty, publish, close_full, finalize,
}

-- Where the method returns `a`, `Q a` holds of the state that it leaves.
pub record Ends {S A : Type 0} (m : Method S A) (st : SegmentState S)
    (Q : A → SegmentState S → Type 0) : Type 0 where
  pub at : (a : A) → (m st).0 ≡ ok a → Q a (m st).1

module _ {S A B : Type 0} where
  Ends-continue :
      (r : Result Failure A) (k : A → Method S B) (st : SegmentState S)
      (Q : B → SegmentState S → Type 0)
      → ((a : A) → Ends (k a) st Q)
      → (b : B) → (continue r k st).0 ≡ ok b
      → Q b (continue r k st).1
  Ends-continue (ok a) k st Q t b e = (t a).at b e
  Ends-continue (err x) k st Q t b e = ground arith

  -- A block ends as its last method does.
  Ends-last :
      (m : Method S A) (k : A → Method S B) (st : SegmentState S) (Q : B → SegmentState S → Type 0)
      → ((a : A) (st : SegmentState S) → Ends (k a) st Q)
      → Ends (m >>= k) st Q
  unfolding ◌>>=◌
  Ends-last m k st Q t = record { at = Ends-continue (m st).0 k (m st).1 Q λ a. t a (m st).1 }

module _ {S T : Type 0} (env : Externals S T) where
  abbrev Closed : SegmentClose → SegmentClose → SegmentState S → Type 0
  Closed expected close st = (close ≡ expected) × (st.close_result ≡ some close)

  finish-Closed :
      (close : SegmentClose) (st : SegmentState S) → Ends (finish env close) st (Closed close)
  unfolding finish
  finish-Closed close st = record { at = λ a e. ground (arith, e) }

  publish-Closed :
      (m : SegmentMetadata) (st : SegmentState S)
      → Ends (publish env m) st (Closed (SegmentClose.finalized m.finalized_dir))
  unfolding publish
  publish-Closed m st = Ends-last _ _ _ _ λ _ s1. Ends-last _ _ _ _ λ _ s2.
      Ends-last _ _ _ _ λ _ s3. Ends-last _ _ _ _ λ _ s4. Ends-last _ _ _ _ λ _ s5.
        Ends-last _ _ _ _ λ _ s6. Ends-last _ _ _ _ λ _ s7.
          Ends-last _ _ _ _ λ _ s8. finish-Closed (SegmentClose.finalized m.finalized_dir) s8

  remove_directory-Closed :
      (st : SegmentState S) → Ends (remove_directory env) st (Closed SegmentClose.removed_empty)
  unfolding remove_directory
  remove_directory-Closed st = Ends-last _ _ _ _ λ _ s1. Ends-last _ _ _ _ λ entries s2.
      Ends-last _ _ _ _ λ _ s3. Ends-last _ _ _ _ λ _ s4. Ends-last _ _ _ _ λ _ s5.
        Ends-last _ _ _ _
          λ _ s6. Ends-last _ _ _ _ λ _ s7. finish-Closed SegmentClose.removed_empty s7

-- How a segment that was open closes, and the disk that it then leaves: with its directory renamed, or
-- removed where nothing of it was durable.
abbrev pub IsClosing :
    {S T : Type 0} → Externals S T → SegmentState S → ℕ → SegmentClose → S → Type 0
IsClosing env st now close left =
    ((longer : SegmentMetadata) × (record_length st.metadata (now - st.start_monotonic)
          st.segment_interval
        ≡ some longer)
      × (close ≡ SegmentClose.finalized longer.finalized_dir)
      × ((st.metadata.has_durable_frames ≡ true) ⊎ (0 < st.metadata.activity_durable_offset))
      × Published env (record longer { lifecycle = finalizing }) st.disk left)
    ⊎ ((close ≡ SegmentClose.removed_empty)
        × (has_content st.metadata ≡ false)
        × Removed env st.disk left)

-- A `close` that is remembered.
abbrev pub IsRemembered : {S : Type 0} → SegmentClose → SegmentState S → Type 0
IsRemembered close st = st.close_result ≡ some close

module _ {S T : Type 0} (env : Externals S T) (now : ℕ) (st : SegmentState S)
    (o : st.close_result ≡ none) where
  abbrev IsEnd : SegmentClose → SegmentState S → Type 0
  IsEnd close st' = IsClosing env st now close st'.disk × IsRemembered close st'

  close_full-IsEnd :
      (st.metadata.has_durable_frames ≡ true) ⊎ (0 < st.metadata.activity_durable_offset)
      → Ends (close_full env now) st IsEnd
  unfolding close_full
  close_full-IsEnd full =
      elim (Option-cases
        (record_length st.metadata (now - st.start_monotonic) st.segment_interval)) [
          | inl e ↦ record { at = rw (e, close_full) (λ a x. ground (arith, x)) }
          | inr (longer, e) ↦
              let m = record longer { lifecycle = finalizing } in
              let open_st = record st { metadata = m } in
              record {
                at =
                    rw (e, close_full)
                      (λ a x.
                        let c = (publish-Closed env m open_st).at a x in
                        let p =
                          publish-Published env m open_st a (publish env m open_st).1
                            (ap (λ r. (r, (publish env m open_st).1)) x) in
                        (inl (longer, refl, c.0, full, p), c.1));
              }
        ]

  remove_confirmed_empty-IsEnd : Ends (remove_confirmed_empty env) st IsEnd
  unfolding remove_confirmed_empty
  remove_confirmed_empty-IsEnd = elim (Bool-cases (has_content st.metadata)) [
    | inl e ↦ record { at = simp (o, e, remove_confirmed_empty) (λ a x. ground (arith, x)) }
    | inr e ↦ record {
      at =
          simp (o, e, remove_confirmed_empty)
            (λ a x.
              let c = (remove_directory-Closed env st).at a x in
              let p =
                remove_directory-Removed env st a (remove_directory env st).1
                  (ap (λ r. (r, (remove_directory env st).1)) x) in
              (inr (c.0, refl, p), c.1));
    }
  ]

  finalize-IsEnd : Ends (finalize env now) st IsEnd
  unfolding finalize
  finalize-IsEnd = elim (Bool-cases st.is_poisoned) [
    | inl e ↦ record { at = simp (o, e, finalize) (λ a x. ground (arith, x)) }
    | inr e ↦
        elim (Bool-cases
          (not st.metadata.has_durable_frames && (st.metadata.activity_durable_offset == 0))) [
            | inl empty ↦ record {
              at = simp (o, e, empty, finalize) (remove_confirmed_empty-IsEnd.at);
            }
            | inr full ↦ record {
              at = simp (o, e, full, finalize) ((close_full-IsEnd (ground arith)).at);
            }
          ]
  ]

ok-injective : {a b : SegmentClose} → ◌≡◌ {A = Result Failure SegmentClose} (ok a) (ok b) → a ≡ b
ok-injective e = ground (arith, e)

finalize-again :
    {S T : Type 0} (env : Externals S T) (later : ℕ) (st : SegmentState S) (close : SegmentClose)
    → IsRemembered close st
    → finalize env later st ≡ (ok close, st)
unfolding finalize
finalize-again env later st close h = simp (h, finalize)

-- A segment that closes was closed before, and nothing changes; or it has durable frames or rows, and
-- the disk is left by these calls, all successful and in this order: the metadata with the recorded
-- length is stored, the storage closed, the directory renamed to the name that the length gives,
-- which was not taken, the stream's directory synced, the time of capture written, the metadata
-- file removed and the stream's directory synced again; or it has neither frames nor rows nor bytes
-- of a session, and the storage is closed, every entry that the directory then lists is a plain file
-- of length zero and is removed, and the directory and the metadata file are removed, each removal
-- synced. Closing it again, at any time, does nothing and gives the same answer.
pub finalize-IsClosing :
    {S T : Type 0} (env : Externals S T) (now later : ℕ) (st : SegmentState S)
    (close : SegmentClose)
    → (finalize env now st).0 ≡ ok close
    → ((IsRemembered close st × ((finalize env now st).1 ≡ st))
        ⊎ IsClosing env st now close (finalize env now st).1.disk)
      × (finalize env later (finalize env now st).1 ≡ (ok close, (finalize env now st).1))
finalize-IsClosing env now later st close e = elim (Option-cases st.close_result) [
  | inl o ↦
      let c = (finalize-IsEnd env now st o).at close e in
      (inr c.0, finalize-again env later (finalize env now st).1 close c.1)
  | inr (old, o) ↦
      let first = finalize-again env now st old o in
      let same : IsRemembered close st =
        o ∙ ap some (ok-injective (ap (λ r. r.0) (sym first) ∙ e)) in
      let unchanged : (finalize env now st).1 ≡ st = ap (λ r. r.1) first in
      (inl (same, unchanged), rw unchanged (finalize-again env later st close same))
]
