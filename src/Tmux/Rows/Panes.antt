-- ===== src/Tmux/Rows/Panes.antt =====
-- Which lists of panes `parse_panes` returns.
use solstone_tmux.Base.{
  ℕ, ◌≤◌, ◌<◌, ◌≡◌, subst, false, not, ◌||◌, List, [], ◌∷◌, ◌++◌, Text, Option, none, some, ok, any,
  All, All-snoc, Apart, Apart-snoc, split, ◌==◌, arith,
}
use solstone_tmux.Base.Stepwise.{bind-ok, refuse_if-ok}
use solstone_tmux.Model.{PaneInfo}
use solstone_tmux.Tmux.Fields.{lines, read_u32, read_u32-bound}
use solstone_tmux.Tmux.Rows.{
  TmuxOperation, PaneRow, is_nil, pane_clash, parse_u32, pane_row, pane_of, pane_rows, active_panes,
  parse_panes,
}
use solstone_tmux.Tmux.Rows.Windows.{field-ok}

-- No two panes have the same ID or the same index.
abbrev pub PanesSeparate : List PaneInfo → Type 0
PanesSeparate ps = Apart pane_clash ps

-- The numbers are 32 bits wide and the pane has an area.
pub record IsPane (p : PaneInfo) : Type 0 where
  pub has_id : is_nil p.id ≡ false
  pub index_fits : p.index < 4_294_967_296
  pub left_fits : p.left < 4_294_967_296
  pub top_fits : p.top < 4_294_967_296
  pub width_fits : p.width < 4_294_967_296
  pub height_fits : p.height < 4_294_967_296
  pub cursor_x_fits : p.cursor_x < 4_294_967_296
  pub cursor_y_fits : p.cursor_y < 4_294_967_296
  pub is_wide : 1 ≤ p.width
  pub is_high : 1 ≤ p.height

pub record IsPaneSet (ps : List PaneInfo) : Type 0 where
  pub each : All IsPane ps
  pub separate : PanesSeparate ps
  pub one_active : active_panes ps ≡ 1

parse_u32-bound :
    (operation : TmuxOperation) (s : Text) (n : ℕ)
    → parse_u32 operation s ≡ ok n
    → n < 4_294_967_296
unfolding parse_u32
parse_u32-bound operation s n h = read_u32-bound s n (field-ok operation (read_u32 s) n h)

pane_of-IsPane :
    (operation : TmuxOperation) (panes : List PaneInfo) (row : Option PaneRow) (p : PaneInfo)
    → pane_of operation panes row ≡ ok p
    → IsPane p × (any (λ v. pane_clash v p) panes ≡ false)
unfolding pane_of
pane_of-IsPane operation panes none p h = ground (arith, h)
pane_of-IsPane operation panes (some row) p h =
    let (u, e0, h0) = bind-ok _ _ p h in
    let (index, e1, h1) = bind-ok _ _ p h0 in
    let (left, e2, h2) = bind-ok _ _ p h1 in
    let (top, e3, h3) = bind-ok _ _ p h2 in
    let (width, e4, h4) = bind-ok _ _ p h3 in
    let (height, e5, h5) = bind-ok _ _ p h4 in
    let (u6, e6, h6) = bind-ok _ _ p h5 in
    let (active, e7, h7) = bind-ok _ _ p h6 in
    let (u8, e8, h8) = bind-ok _ _ p h7 in
    let (x, e9, h9) = bind-ok _ _ p h8 in
    let (y, e10, h10) = bind-ok _ _ p h9 in
    let (visible, e11, h11) = bind-ok _ _ p h10 in
    let (alternate, e12, h12) = bind-ok _ _ p h11 in
    let (mode, e13, h13) = bind-ok _ _ p h12 in
    let made : PaneInfo = record {
      id = row.id;
      index = index;
      left = left;
      top = top;
      width = width;
      height = height;
      active = active;
      cursor_x = x;
      cursor_y = y;
      cursor_visible = visible;
      alternate_on = alternate;
      pane_in_mode = not (mode == 0);
      content = [];
    } in
    let same : made ≡ p = ground (arith, h13) in
    let sized = refuse_if-ok ((width == 0) || (height == 0)) _ u6 e6 in
    let is : IsPane made = record {
      has_id = refuse_if-ok (is_nil row.id) _ u e0;
      index_fits = parse_u32-bound operation row.index index e1;
      left_fits = parse_u32-bound operation row.left left e2;
      top_fits = parse_u32-bound operation row.top top e3;
      width_fits = parse_u32-bound operation row.width width e4;
      height_fits = parse_u32-bound operation row.height height e5;
      cursor_x_fits = parse_u32-bound operation row.x x e9;
      cursor_y_fits = parse_u32-bound operation row.y y e10;
      is_wide = ground (arith, sized);
      is_high = ground (arith, sized);
    } in
    (
      subst IsPane same is,
      subst (λ q. any (λ v. pane_clash v q) panes ≡ false) same (refuse_if-ok _ _ u8 e8),
    )

pane_rows-IsPane :
    (operation : TmuxOperation) (rows : List Text) (ps next : List PaneInfo)
    → All IsPane ps
    → PanesSeparate ps
    → pane_rows operation ps rows ≡ ok next
    → All IsPane next × PanesSeparate next
unfolding pane_rows
pane_rows-IsPane operation [] ps next a s h =
    let same : ps ≡ next = ground (arith, h) in
    (subst (λ xs. All IsPane xs) same a, subst PanesSeparate same s)
pane_rows-IsPane operation (row ∷ rows) ps next a s h =
    let (p, e1, h1) = bind-ok _ _ next h in
    let (is, fresh) = pane_of-IsPane operation ps (pane_row (split b' ' row)) p e1 in
    pane_rows-IsPane operation rows (ps ++ (p ∷ [])) next (All-snoc IsPane ps p a is)
      (Apart-snoc pane_clash ps p s fresh) h1

-- Whatever tmux prints, the panes that parse_panes returns have IDs, numbers below 2^32 and a width
-- and height of at least one, no two of them share an ID or an index, and exactly one is active.
pub parse_panes-IsPaneSet :
    (stdout : Text) (operation : TmuxOperation) (ps : List PaneInfo)
    → parse_panes stdout operation ≡ ok ps
    → IsPaneSet ps
unfolding parse_panes
parse_panes-IsPaneSet stdout operation ps h =
    let (u1, e1, h1) = bind-ok _ _ ps h in
    let (found, e2, h2) = bind-ok _ _ ps h1 in
    let (u3, e3, h3) = bind-ok _ _ ps h2 in
    let (u4, e4, h4) = bind-ok _ _ ps h3 in
    let (each, separate) = pane_rows-IsPane operation (lines stdout) [] found tt tt e2 in
    let one : active_panes found ≡ 1 =
      ground (arith, refuse_if-ok (not (active_panes found == 1)) _ u4 e4) in
    let is : IsPaneSet found = record { each = each; separate = separate; one_active = one } in
    let same : found ≡ ps = ground (arith, h4) in subst IsPaneSet same is
