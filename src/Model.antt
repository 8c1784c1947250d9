-- ===== src/Model.antt =====
-- native/solstone-tmux/src/model.rs: what is taken in from tmux. Texts are lists of code points.
use solstone_tmux.Base.{ℕ, Bool, List, Text, ℤ}

pub record ClientInfo : Type 0 where
  pub session : Text
  pub activity : ℤ

pub record WindowInfo : Type 0 where
  pub id : Text
  pub index : ℕ
  pub name : Text
  pub active : Bool

pub record PaneInfo : Type 0 where
  pub id : Text
  pub index : ℕ
  pub left : ℕ
  pub top : ℕ
  pub width : ℕ
  pub height : ℕ
  pub active : Bool
  pub cursor_x : ℕ
  pub cursor_y : ℕ
  pub cursor_visible : Bool
  pub alternate_on : Bool
  pub pane_in_mode : Bool
  pub content : Text

pub record CaptureResult : Type 0 where
  pub session : Text
  pub window : WindowInfo
  pub windows : List WindowInfo
  pub panes : List PaneInfo
  pub output_only : Bool

pub record PollOutcome : Type 0 where
  pub captures : List CaptureResult
  pub activity_jsonl : List ℕ
