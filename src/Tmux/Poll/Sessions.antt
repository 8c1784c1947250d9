-- ===== src/Tmux/Poll/Sessions.antt =====
-- What a poll returns, whatever tmux answers, and that it does not panic.
use solstone_tmux.Base.{
  ℕ, ◌≡◌, refl, sym, subst, inl, inr, Bool, false, List, [], ◌∷◌, ◌++◌, Text, ℤ, Result, ok, err,
  any, All, All-snoc, Apart, Apart-snoc, Bool-cases, arith,
}
use solstone_tmux.Model.{PaneInfo, CaptureResult, PollOutcome}
use solstone_tmux.Name.{derive_component}
use solstone_tmux.Tmux.Rows.{TmuxError}
use solstone_tmux.Tmux.Act.{
  Runner, OrError, Always, pure-Always, attempt-Always, warn-Always, bind-Always,
}
use solstone_tmux.Tmux.Clients.{Decoding}
use solstone_tmux.Tmux.Poll.{
  WallNow, Adapter, Gathered, add_sessions, client_sessions, refused, capture_session, ask_context,
  add_contexts, add_capture, gather, poll_context,
}
use solstone_tmux.Tmux.Poll.Sound.{IsCapture, IsCaptureOf, Anything, capture_session-Always}
use solstone_tmux.Tmux.Poll.Plan.{
  same_client, same_planned, same_capture, Planned, client_sessions-Apart, add_sessions-Apart,
}
use solstone_tmux.Tmux.Poll.Asks.{
  list_active_clients-Always, list_output_sessions-Always, ask_field-Always, ask_executable-Always,
}

-- Every capture is sound, and no session is captured twice.
abbrev pub IsPoll : PollOutcome → Type 0
IsPoll outcome = All IsCapture outcome.captures × Apart same_capture outcome.captures

module _ {S : Type 0} (runner : Runner S) (d : Decoding) where
  module _ (adapter : Adapter) where
    ask_context-Always : (pane : PaneInfo) → Always Anything (ask_context runner d adapter pane)
    unfolding ask_context
    ask_context-Always pane =
        bind-Always Anything Anything _ _ (ask_field-Always runner d _ _ _ _) (λ title u.
          bind-Always Anything Anything _ _ (ask_field-Always runner d _ _ _ _) (λ cwd v.
            bind-Always Anything Anything _ _ (ask_executable-Always runner d _ _)
              (λ exe x. pure-Always Anything _ tt)))

    -- The rows of the panes leave the captures as they are.
    add_contexts-Always :
        (ts : ℤ) (capture : CaptureResult) (panes : List PaneInfo) (g : Gathered)
        → Always
            (λ (next : Gathered). next.captures ≡ g.captures)
            (add_contexts runner d adapter ts capture panes g)
    unfolding add_contexts
    add_contexts-Always ts capture [] g =
        pure-Always (λ (next : Gathered). next.captures ≡ g.captures) g refl
    add_contexts-Always ts capture (pane ∷ panes) g =
        bind-Always Anything (λ (next : Gathered). next.captures ≡ g.captures) _ _
          (ask_context-Always pane) (λ c u. add_contexts-Always ts capture panes _)

    -- The captures are sound, no session is captured twice, and none is planned again.
    pub record IsGathered (plan : List (Text × Bool)) (g : Gathered) : Type 0 where
      pub sound : All IsCapture g.captures
      pub once : Apart same_capture g.captures
      pub planned : Planned g.captures plan

    Planned-rest :
        (captures : List CaptureResult) (p : Text × Bool) (plan : List (Text × Bool))
        → Planned captures (p ∷ plan)
        → Planned captures plan
    Planned-rest [] p plan h = tt
    Planned-rest (c ∷ captures) p plan h = (h.0.1, Planned-rest captures p plan (h.1))

    Planned-first :
        (captures : List CaptureResult) (c : CaptureResult) (b : Bool) (plan : List (Text × Bool))
        → Planned captures ((c.session, b) ∷ plan)
        → any (λ x. same_capture x c) captures ≡ false
    Planned-first [] c b plan h = refl
    Planned-first (x ∷ captures) c b plan h =
        ground (arith, h.0.0, Planned-first captures c b plan (h.1))

    kept_IsGathered :
        (p : Text × Bool) (plan : List (Text × Bool)) (g : Gathered)
        → IsGathered (p ∷ plan) g
        → IsGathered plan g
    kept_IsGathered p plan g is = record {
      sound = is.sound;
      once = is.once;
      planned = Planned-rest g.captures p plan is.planned;
    }

    more_IsGathered :
        (s : Text) (b : Bool) (plan : List (Text × Bool)) (g next : Gathered) (c : CaptureResult)
        → Apart same_planned ((s, b) ∷ plan)
        → IsGathered ((s, b) ∷ plan) g
        → IsCaptureOf s c
        → next.captures ≡ g.captures
        → IsGathered plan (record next { captures = next.captures ++ (c ∷ []) })
    more_IsGathered s b plan g next c apart is (named, sound) same =
        let apart_from : All (λ p. same_planned (c.session, b) p ≡ false) plan =
          subst (λ x. All (λ p. same_planned (x, b) p ≡ false) plan) (sym named) (apart.0) in
        let new : any (λ x. same_capture x c) g.captures ≡ false =
          Planned-first g.captures c b plan
            (subst (λ x. Planned g.captures ((x, b) ∷ plan)) (sym named) is.planned) in
        let made : IsGathered plan (record next { captures = g.captures ++ (c ∷ []) }) = record {
          sound = All-snoc IsCapture g.captures c is.sound sound;
          once = Apart-snoc same_capture g.captures c is.once new;
          planned =
              All-snoc _ g.captures c (Planned-rest g.captures (s, b) plan is.planned) apart_from;
        } in
        subst (λ cs. IsGathered plan (record next { captures = cs ++ (c ∷ []) })) (sym same) made

    add_capture-Always :
        (ts : ℤ) (s : Text) (b : Bool) (plan : List (Text × Bool))
        (r : Result TmuxError CaptureResult) (g : Gathered)
        → Apart same_planned ((s, b) ∷ plan)
        → IsGathered ((s, b) ∷ plan) g
        → OrError (IsCaptureOf s) r
        → Always (IsGathered plan) (add_capture runner d adapter ts s b r g)
    add_capture-Always ts s b plan (err e) g apart is u =
        bind-Always Anything (IsGathered plan) _ _ (warn-Always _)
          (λ v x. pure-Always (IsGathered plan) g (kept_IsGathered (s, b) plan g is))
    add_capture-Always ts s b plan (ok found) g apart is (named, sound) =
        let capture : CaptureResult = record found { output_only = b } in
        let same : IsCapture capture = record {
          windows_are = sound.windows_are;
          window_is = sound.window_is;
          panes_are = sound.panes_are;
        } in
        bind-Always (λ (next : Gathered). next.captures ≡ g.captures) (IsGathered plan) _ _
          (add_contexts-Always ts capture _ g)
          (λ next e.
            pure-Always (IsGathered plan) _
              (more_IsGathered s b plan g next capture apart is (named, same) e))

    gather-Always :
        (ts : ℤ) (plan : List (Text × Bool)) (g : Gathered)
        → Apart same_planned plan
        → IsGathered plan g
        → Always (IsGathered []) (gather runner d adapter ts plan g)
    unfolding gather
    gather-Always ts [] g apart is = pure-Always (IsGathered []) g is
    gather-Always ts ((s, b) ∷ plan) g apart is = elim (Bool-cases (refused (derive_component s))) [
      | inl e ↦ rw e (
          bind-Always Anything (IsGathered []) _ _ (warn-Always _)
            (λ u v. gather-Always ts plan g (apart.1) (kept_IsGathered (s, b) plan g is)))
      | inr e ↦ rw e (
          bind-Always (OrError (IsCaptureOf s)) (IsGathered []) _ _
            (attempt-Always (IsCaptureOf s) (capture_session runner d s)
              (capture_session-Always runner d s))
            (λ r h.
              bind-Always (IsGathered plan) (IsGathered []) _ _
                (add_capture-Always ts s b plan r g apart is h)
                (λ next is'. gather-Always ts plan next (apart.1) is')))
    ]

    -- Whatever tmux and the lookup of executables answer, poll_context does not panic, and where it
    -- returns, no session is captured twice, and every capture has windows and panes with distinct
    -- IDs and indexes, numbers of 32 bits and one of each active, and its window is the active one.
    pub poll_context-Always :
        (now : WallNow) (interval : ℕ) → Always IsPoll (poll_context runner d adapter now interval)
    unfolding poll_context
    poll_context-Always now interval =
        bind-Always (Apart same_client) IsPoll _ _
          (list_active_clients-Always runner d now.unix_timestamp interval)
          (λ clients apart.
            bind-Always Anything IsPoll _ _
              (list_output_sessions-Always runner d adapter.output_sessions now.unix_timestamp
                interval)
              (λ outputs u.
                bind-Always (IsGathered []) IsPoll _ _
                  (gather-Always now.ts (add_sessions (client_sessions clients) outputs) _
                    (add_sessions-Apart outputs (client_sessions clients)
                      (client_sessions-Apart clients apart))
                    (record { sound = tt; once = tt; planned = tt }))
                  (λ g is. pure-Always IsPoll _ (is.sound, is.once))))
