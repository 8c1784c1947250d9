-- ===== src/Tmux/Rows.antt =====
-- `parse_windows` and `parse_panes` of native/solstone-tmux/src/tmux.rs: the rows that tmux prints of
-- the windows of a session and of the panes of a window.
pub mod Windows
pub mod Panes
use solstone_tmux.Base.{
  split_once, ℕ, zero, suc, ◌+◌, Bool, true, false, not, ◌&&◌, ◌||◌, List, [], ◌∷◌, ◌++◌, Text,
  codes, Option, none, some, ℤ, Result, ok, err, length, any, split, text_eq, ◌==◌, if◌then◌else◌,
  refuse_if,
}
use solstone_tmux.Base.Stepwise.{◌>>=◌, ◌>>◌}
use solstone_tmux.Model.{WindowInfo, PaneInfo}
use solstone_tmux.Tmux.Fields.{lines, read_u32}
use Prim.Native.String.{String}

pub data DisplayField : Type 0 where
  pane_title pane_current_path pane_pid : DisplayField

-- The operations of `TmuxOperation` that observation runs.
pub data TmuxOperation : Type 0 where
  list_clients list_sessions : TmuxOperation
  list_windows list_panes capture_pane : Text → TmuxOperation
  display_message : Text → DisplayField → TmuxOperation

pub data CommandError : Type 0 where
  spawn timeout : CommandError

pub data TmuxError : Type 0 where
  executable_must_be_absolute : Text → TmuxError
  command : CommandError → TmuxError
  no_server : TmuxOperation → TmuxError
  nonzero : TmuxOperation → ℤ → Text → TmuxError
  invalid_utf8 : TmuxOperation → TmuxError
  malformed : TmuxOperation → Text → TmuxError

abbrev pub refuse : {A : Type 0} → TmuxOperation → String → Result TmuxError A
refuse operation detail = err (malformed operation (codes detail))

-- `ok_or_else` of a field
abbrev pub field : {A : Type 0} → TmuxOperation → Option A → Result TmuxError A
field operation none = refuse operation "invalid row"
field operation (some a) = ok a

-- `splitn(n, ' ')`
unfoldable pub splitn : ℕ → Text → List Text
splitn zero s = []
splitn (suc zero) s = s ∷ []
splitn (suc (suc n)) s = elim (split_once b' ' s) [
  | none ↦ s ∷ []
  | some (a, b) ↦ a ∷ splitn (suc n) b
]

unfoldable pub parse_active : Text → Option Bool
parse_active value =
    if text_eq value (codes "0")
    then some false
    else if text_eq value (codes "1")
    then some true
    else none

unfoldable pub parse_u32 : TmuxOperation → Text → Result TmuxError ℕ
parse_u32 operation value = field operation (read_u32 value)

unfoldable pub parse_flag : TmuxOperation → Text → Result TmuxError Bool
parse_flag operation value = field operation (parse_active value)

abbrev pub is_nil : Text → Bool
is_nil [] = true
is_nil (c ∷ s) = false

-- Two windows that the sets of IDs and of indexes do not both hold.
abbrev pub clash : WindowInfo → WindowInfo → Bool
clash v w = text_eq v.id w.id || (v.index == w.index)

-- The row's four fields as a window.
unfoldable pub window_of : TmuxOperation → List Text → Result TmuxError WindowInfo
window_of operation (active ∷ id ∷ index ∷ name ∷ []) = do
  refuse_if (is_nil id || is_nil name) (malformed operation (codes "invalid row"))
  flag ← field operation (parse_active active)
  n ← field operation (read_u32 index)
  ok (record { id = id; index = n; name = name; active = flag })
window_of operation fields = refuse operation "invalid row"

-- The loop over the rows; the IDs and indexes seen are those of the windows so far.
unfoldable pub window_rows :
    TmuxOperation → List WindowInfo → List Text → Result TmuxError (List WindowInfo)
window_rows operation windows [] = ok windows
window_rows operation windows (row ∷ rows) = do
  window ← window_of operation (splitn 4 row)
  refuse_if (any (λ v. clash v window) windows)
      (malformed operation (codes "duplicate ID or index"))
  window_rows operation (windows ++ (window ∷ [])) rows

abbrev pub no_windows : List WindowInfo → Bool
no_windows [] = true
no_windows (w ∷ ws) = false

-- `windows.iter().filter(|window| window.active).count()`
abbrev pub active_windows : List WindowInfo → ℕ
active_windows [] = 0
active_windows (w ∷ ws) = (if w.active then 1 else 0) + active_windows ws

unfoldable pub parse_windows : Text → TmuxOperation → Result TmuxError (List WindowInfo)
parse_windows stdout operation = do
  refuse_if (is_nil stdout) (malformed operation (codes "empty successful output"))
  windows ← window_rows operation [] (lines stdout)
  refuse_if (no_windows windows) (malformed operation (codes "empty successful output"))
  refuse_if (not (active_windows windows == 1))
      (malformed operation (codes "expected exactly one active window"))
  ok windows

abbrev pub pane_clash : PaneInfo → PaneInfo → Bool
pane_clash v w = text_eq v.id w.id || (v.index == w.index)

-- A row of twelve fields.
pub record PaneRow : Type 0 where
  pub id : Text
  pub index : Text
  pub left : Text
  pub top : Text
  pub width : Text
  pub height : Text
  pub active : Text
  pub x : Text
  pub y : Text
  pub visible : Text
  pub alternate : Text
  pub mode : Text

-- `fields.len() == 12`
unfoldable pub pane_row : List Text → Option PaneRow
pane_row
      (id ∷ index ∷ left ∷ top ∷ width ∷ height ∷ active ∷ x ∷ y ∷ visible ∷ alternate ∷ mode
        ∷ []) =
    some (record {
      id = id;
      index = index;
      left = left;
      top = top;
      width = width;
      height = height;
      active = active;
      x = x;
      y = y;
      visible = visible;
      alternate = alternate;
      mode = mode;
    })
pane_row fields = none

-- The fields as a pane. The last five are read once the pane is known to be new.
unfoldable pub pane_of : TmuxOperation → List PaneInfo → Option PaneRow → Result TmuxError PaneInfo
pane_of operation panes none = refuse operation "invalid row"
pane_of operation panes (some row) = do
  refuse_if (is_nil row.id) (malformed operation (codes "invalid row"))
  index ← parse_u32 operation row.index
  left ← parse_u32 operation row.left
  top ← parse_u32 operation row.top
  width ← parse_u32 operation row.width
  height ← parse_u32 operation row.height
  refuse_if ((width == 0) || (height == 0)) (malformed operation (codes "nonpositive pane size"))
  active ← field operation (parse_active row.active)
  refuse_if (any (λ v. text_eq v.id row.id || (v.index == index)) panes)
      (malformed operation (codes "duplicate ID or index"))
  x ← parse_u32 operation row.x
  y ← parse_u32 operation row.y
  visible ← parse_flag operation row.visible
  alternate ← parse_flag operation row.alternate
  mode ← parse_u32 operation row.mode
  ok (record {
    id = row.id;
    index = index;
    left = left;
    top = top;
    width = width;
    height = height;
    active = active;
    cursor_x = x;
    cursor_y = y;
    cursor_visible = visible;
    alternate_on = alternate;
    pane_in_mode = not (mode == 0);
    content = [];
  })

unfoldable pub pane_rows :
    TmuxOperation → List PaneInfo → List Text → Result TmuxError (List PaneInfo)
pane_rows operation panes [] = ok panes
pane_rows operation panes (row ∷ rows) = do
  pane ← pane_of operation panes (pane_row (split b' ' row))
  pane_rows operation (panes ++ (pane ∷ [])) rows

abbrev pub no_panes : List PaneInfo → Bool
no_panes [] = true
no_panes (p ∷ ps) = false

abbrev pub active_panes : List PaneInfo → ℕ
active_panes [] = 0
active_panes (p ∷ ps) = (if p.active then 1 else 0) + active_panes ps

unfoldable pub parse_panes : Text → TmuxOperation → Result TmuxError (List PaneInfo)
parse_panes stdout operation = do
  refuse_if (is_nil stdout) (malformed operation (codes "empty successful output"))
  panes ← pane_rows operation [] (lines stdout)
  refuse_if (no_panes panes) (malformed operation (codes "empty successful output"))
  refuse_if (not (active_panes panes == 1))
      (malformed operation (codes "expected exactly one active pane"))
  ok panes
