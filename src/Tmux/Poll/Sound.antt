-- ===== src/Tmux/Poll/Sound.antt =====
-- What capture_session returns, whatever tmux answers, and that it does not panic.
use solstone_tmux.Base.{
  ◌≡◌, refl, sym, ap, ◌∙◌, subst, inl, inr, false, List, [], ◌∷◌, Text, Option, none, some, Result,
  All, Apart, Bool-cases, arith,
}
use solstone_tmux.Model.{WindowInfo, PaneInfo, CaptureResult}
use solstone_tmux.Tmux.Rows.{
  TmuxOperation, list_windows, list_panes, TmuxError, parse_windows, parse_panes, pane_clash,
  active_windows, active_panes,
}
use solstone_tmux.Tmux.Rows.Windows.{IsWindowSet, parse_windows-IsWindowSet}
use solstone_tmux.Tmux.Rows.Panes.{IsPane, IsPaneSet, parse_panes-IsPaneSet}
use solstone_tmux.Tmux.Act.{Runner, question, Always, pure-Always, question-Always, bind-Always}
use solstone_tmux.Tmux.Clients.{Decoding, decoded, run, ask, assess_output}
use solstone_tmux.Tmux.Poll.{
  find_active, read_windows, read_panes, read_pane, read_contents, expect, capture_session,
}

-- A capture of a session whose name can be derived, with the rows' guarantees.
pub record IsCapture (c : CaptureResult) : Type 0 where
  pub windows_are : IsWindowSet c.windows
  pub window_is : find_active c.windows ≡ some c.window
  pub panes_are : IsPaneSet c.panes

abbrev pub IsCaptureOf : Text → CaptureResult → Type 0
IsCaptureOf session c = (c.session ≡ session) × IsCapture c

abbrev pub Anything : {A : Type 0} → A → Type 0
Anything a = Unit {0}

-- The panes with some content.
abbrev Filled : List PaneInfo → List PaneInfo → Type 0
Filled [] [] = Unit {0}
Filled [] (q ∷ qs) = ⊥
Filled (p ∷ ps) [] = ⊥
Filled (p ∷ ps) (q ∷ qs) = ((text : Text) × (record p { content = text } ≡ q)) × Filled ps qs

Filled-All :
    (P : PaneInfo → Type 0) (ps qs : List PaneInfo)
    → ((p : PaneInfo) (text : Text) → P p → P (record p { content = text }))
    → Filled ps qs
    → All P ps
    → All P qs
Filled-All P [] [] h f a = tt
Filled-All P [] (q ∷ qs) h f a = absurd f
Filled-All P (p ∷ ps) [] h f a = absurd f
Filled-All P (p ∷ ps) (q ∷ qs) h ((text, e), f) a =
    (subst P e (h p text (a.0)), Filled-All P ps qs h f (a.1))

Filled-Apart : (ps qs : List PaneInfo) → Filled ps qs → Apart pane_clash ps → Apart pane_clash qs
Filled-Apart [] [] f a = tt
Filled-Apart [] (q ∷ qs) f a = absurd f
Filled-Apart (p ∷ ps) [] f a = absurd f
Filled-Apart (p ∷ ps) (q ∷ qs) ((text, e), f) a = (
  subst (λ x. All (λ y. pane_clash x y ≡ false) qs) e
      (Filled-All (λ y. pane_clash p y ≡ false) ps qs (λ x t h. h) f (a.0)),
  Filled-Apart ps qs f (a.1),
)

Filled-active : (ps qs : List PaneInfo) → Filled ps qs → active_panes ps ≡ active_panes qs
Filled-active [] [] f = refl
Filled-active [] (q ∷ qs) f = absurd f
Filled-active (p ∷ ps) [] f = absurd f
Filled-active (p ∷ ps) (q ∷ qs) ((text, e), f) =
    let same : p.active ≡ q.active = ap (λ (x : PaneInfo). x.active) e in
    rw (same, Filled-active ps qs f) refl

Filled-IsPaneSet : (ps qs : List PaneInfo) → Filled ps qs → IsPaneSet ps → IsPaneSet qs
Filled-IsPaneSet ps qs f is = record {
  each =
      Filled-All IsPane ps qs
        (λ p text i. record {
          has_id = i.has_id;
          index_fits = i.index_fits;
          left_fits = i.left_fits;
          top_fits = i.top_fits;
          width_fits = i.width_fits;
          height_fits = i.height_fits;
          cursor_x_fits = i.cursor_x_fits;
          cursor_y_fits = i.cursor_y_fits;
          is_wide = i.is_wide;
          is_high = i.is_high;
        })
        f is.each;
  separate = Filled-Apart ps qs f is.separate;
  one_active = sym (Filled-active ps qs f) ∙ is.one_active;
}

-- One active window is found.
find_active-some :
    (ws : List WindowInfo) → active_windows ws ≡ 1 → (w : WindowInfo) × (find_active ws ≡ some w)
unfolding find_active
find_active-some [] h = ground (arith, h)
find_active-some (w ∷ ws) h = elim (Bool-cases w.active) [
  | inl e ↦ let found : find_active (w ∷ ws) ≡ some w = rw e refl in (w, found)
  | inr e ↦
      let (v, f) = find_active-some ws (ground (arith, h, e)) in
      let found : find_active (w ∷ ws) ≡ some v = rw e f in (v, found)
]

module _ {S : Type 0} (runner : Runner S) (d : Decoding) where
  pub any-question : {A : Type 0} (r : Result TmuxError A) → Always Anything (question {S = S} r)
  any-question r = question-Always Anything r (λ a e. tt)

  pub ask-Always : (operation : TmuxOperation) → Always Anything (ask runner d operation)
  unfolding ask
  ask-Always operation w = tt

  pub run-Always : (operation : TmuxOperation) → Always Anything (run runner d operation)
  unfolding run
  run-Always operation =
      bind-Always Anything Anything (ask runner d operation) _ (ask-Always operation)
        (λ answer u. any-question (assess_output d operation answer))

  read_windows-Always : (session : Text) → Always IsWindowSet (read_windows runner d session)
  unfolding read_windows
  read_windows-Always session =
      bind-Always Anything IsWindowSet _ _ (run-Always (list_windows session)) (λ output u.
        bind-Always Anything IsWindowSet _ _
          (any-question (decoded d (list_windows session) output))
          (λ stdout v.
            question-Always IsWindowSet (parse_windows stdout (list_windows session))
              (λ ws e. parse_windows-IsWindowSet stdout (list_windows session) ws e)))

  read_panes-Always : (window : Text) → Always IsPaneSet (read_panes runner d window)
  unfolding read_panes
  read_panes-Always window =
      bind-Always Anything IsPaneSet _ _ (run-Always (list_panes window)) (λ output u.
        bind-Always Anything IsPaneSet _ _ (any-question (decoded d (list_panes window) output))
          (λ stdout v.
            question-Always IsPaneSet (parse_panes stdout (list_panes window))
              (λ ps e. parse_panes-IsPaneSet stdout (list_panes window) ps e)))

  read_pane-Always : (pane : Text) → Always Anything (read_pane runner d pane)
  unfolding read_pane
  read_pane-Always pane =
      bind-Always Anything Anything _ _ (run-Always _) (λ output u. any-question _)

  read_contents-Always : (ps : List PaneInfo) → Always (Filled ps) (read_contents runner d ps)
  unfolding read_contents
  read_contents-Always [] = pure-Always (Filled []) [] tt
  read_contents-Always (p ∷ ps) =
      bind-Always Anything (Filled (p ∷ ps)) _ _ (read_pane-Always p.id) (λ content u.
        bind-Always (Filled ps) (Filled (p ∷ ps)) _ _ (read_contents-Always ps) (λ rest f.
          pure-Always (Filled (p ∷ ps)) ((record p { content = content }) ∷ rest)
            ((content, refl), f)))

  expect-Always :
      {A : Type 0} (P : A → Type 0) (o : Option A) (a : A)
      → o ≡ some a
      → P a
      → Always P (expect runner d o)
  unfolding expect
  expect-Always P none a e p w = absurd (ground (arith, e))
  expect-Always P (some b) a e p w = subst P (ground (arith, e)) p

  pub capture_session-Always :
      (session : Text) → Always (IsCaptureOf session) (capture_session runner d session)
  unfolding capture_session
  capture_session-Always session =
      bind-Always IsWindowSet (IsCaptureOf session) _ _ (read_windows-Always session) (λ windows is.
        let (active, found) = find_active-some windows is.one_active in
        bind-Always (λ w. find_active windows ≡ some w) (IsCaptureOf session) _ _
          (expect-Always (λ w. find_active windows ≡ some w) (find_active windows) active found
            found)
          (λ window e.
            bind-Always IsPaneSet (IsCaptureOf session) _ _ (read_panes-Always window.id)
              (λ empty ps.
                bind-Always (Filled empty) (IsCaptureOf session) _ _ (read_contents-Always empty)
                  (λ panes f. pure-Always (IsCaptureOf session) _ (
                    refl,
                    record {
                      windows_are = is;
                      window_is = e;
                      panes_are = Filled-IsPaneSet empty panes f ps;
                    },
                  )))))
