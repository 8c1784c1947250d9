-- ===== src/Tmux/Rows/Windows.antt =====
-- Which lists of windows `parse_windows` returns, and that it returns each of them for what tmux
-- prints of it.
use solstone_tmux.Base.{
  split_once-first, ℕ, suc, ◌<◌, ◌≡◌, refl, sym, ap, ◌∙◌, subst, inl, inr, Bool, true, false, not,
  ◌||◌, List, [], ◌∷◌, ◌++◌, Text, Option, none, some, ok, any, All, All-snoc, Apart, Apart-snoc,
  Apart-middle, contains, split, text_eq, ◌==◌, decimal, append-nil, append_assoc, Bool-cases,
  arith, is_ascii_digit,
}
use solstone_tmux.Base.Stepwise.{◌>>=◌, bind-ok, bind-step, refuse_if-ok, refuse_if-passes}
use solstone_tmux.Model.{WindowInfo}
use solstone_tmux.Tmux.Fields.{
  lines, ended_lines, read_u32, read_u32-bound, read_u32-decimal, lines-cons, contains-append,
  contains-decimal,
}
use solstone_tmux.Tmux.Rows.{
  TmuxOperation, field, splitn, parse_active, is_nil, clash, window_of, window_rows, no_windows,
  active_windows, parse_windows,
}

-- No two windows have the same ID or the same index.
abbrev pub Separate : List WindowInfo → Type 0
Separate ws = Apart clash ws

-- A window as tmux may report it.
pub record IsWindow (w : WindowInfo) : Type 0 where
  pub has_id : is_nil w.id ≡ false
  pub has_name : is_nil w.name ≡ false
  pub index_fits : w.index < 4_294_967_296

pub record IsWindowSet (ws : List WindowInfo) : Type 0 where
  pub each : All IsWindow ws
  pub separate : Separate ws
  pub one_active : active_windows ws ≡ 1

no_lines : lines [] ≡ []
unfolding lines split ended_lines
no_lines = refl

pub field-ok :
    {A : Type 0} (operation : TmuxOperation) (o : Option A) (a : A)
    → field operation o ≡ ok a
    → o ≡ some a
field-ok operation none a h = ground (arith, h)
field-ok operation (some b) a h = ap some (ground (arith, h))

window_of-IsWindow :
    (operation : TmuxOperation) (fields : List Text) (w : WindowInfo)
    → window_of operation fields ≡ ok w
    → IsWindow w
unfolding window_of
window_of-IsWindow operation [] w h = ground (arith, h)
window_of-IsWindow operation (a ∷ []) w h = ground (arith, h)
window_of-IsWindow operation (a ∷ b ∷ []) w h = ground (arith, h)
window_of-IsWindow operation (a ∷ b ∷ c ∷ []) w h = ground (arith, h)
window_of-IsWindow operation (a ∷ b ∷ c ∷ d ∷ e ∷ rest) w h = ground (arith, h)
window_of-IsWindow operation (active ∷ id ∷ index ∷ name ∷ []) w h =
    let (u, e1, h1) = bind-ok _ _ w h in
    let (flag, e2, h2) = bind-ok _ _ w h1 in
    let (n, e3, h3) = bind-ok _ _ w h2 in
    let made : WindowInfo = record { id = id; index = n; name = name; active = flag } in
    let full = refuse_if-ok (is_nil id || is_nil name) _ u e1 in
    let is : IsWindow made = record {
      has_id = ground (arith, full);
      has_name = ground (arith, full);
      index_fits = read_u32-bound index n (field-ok operation (read_u32 index) n e3);
    } in
    let same : made ≡ w = ground (arith, h3) in subst IsWindow same is

window_rows-Separate :
    (operation : TmuxOperation) (rows : List Text) (ws next : List WindowInfo)
    → All IsWindow ws
    → Separate ws
    → window_rows operation ws rows ≡ ok next
    → All IsWindow next × Separate next
unfolding window_rows
window_rows-Separate operation [] ws next a s h =
    let same : ws ≡ next = ground (arith, h) in
    (subst (λ xs. All IsWindow xs) same a, subst Separate same s)
window_rows-Separate operation (row ∷ rows) ws next a s h =
    let (w, e1, h1) = bind-ok _ _ next h in
    let (u, e2, h2) = bind-ok _ _ next h1 in
    window_rows-Separate operation rows (ws ++ (w ∷ [])) next
      (All-snoc IsWindow ws w a (window_of-IsWindow operation (splitn 4 row) w e1))
      (Apart-snoc clash ws w s (refuse_if-ok (any (λ v. clash v w) ws) _ u e2)) h2

pub parse_windows-IsWindowSet :
    (stdout : Text) (operation : TmuxOperation) (ws : List WindowInfo)
    → parse_windows stdout operation ≡ ok ws
    → IsWindowSet ws
unfolding parse_windows
parse_windows-IsWindowSet stdout operation ws h =
    let (u1, e1, h1) = bind-ok _ _ ws h in
    let (found, e2, h2) = bind-ok _ _ ws h1 in
    let (u3, e3, h3) = bind-ok _ _ ws h2 in
    let (u4, e4, h4) = bind-ok _ _ ws h3 in
    let (each, separate) = window_rows-Separate operation (lines stdout) [] found tt tt e2 in
    let one : active_windows found ≡ 1 =
      ground (arith, refuse_if-ok (not (active_windows found == 1)) _ u4 e4) in
    let is : IsWindowSet found = record { each = each; separate = separate; one_active = one } in
    let same : found ≡ ws = ground (arith, h4) in subst IsWindowSet same is

-- The row that tmux prints of a window.
abbrev pub print_active : Bool → Text
print_active true = b'1' ∷ []
print_active false = b'0' ∷ []

unfoldable pub print_window : WindowInfo → Text
print_window w =
    print_active w.active ++ (b' ' ∷ (w.id ++ (b' ' ∷ (decimal w.index ++ (b' ' ∷ w.name)))))

unfoldable pub print_windows : List WindowInfo → Text
print_windows [] = []
print_windows (w ∷ ws) = print_window w ++ (b'\n' ∷ print_windows ws)

-- Neither the ID nor the name breaks a line, and the ID has no blank.
pub record IsPrintable (w : WindowInfo) : Type 0 where
  pub id_has_no_blank : contains b' ' w.id ≡ false
  pub id_has_no_break : contains b'\n' w.id ≡ false
  pub id_has_no_return : contains b'\r' w.id ≡ false
  pub name_has_no_break : contains b'\n' w.name ≡ false
  pub name_has_no_return : contains b'\r' w.name ≡ false

print_window-contains :
    (c : ℕ) (w : WindowInfo)
    → (b' ' == c) ≡ false
    → is_ascii_digit c ≡ false
    → contains c w.id ≡ false
    → contains c w.name ≡ false
    → contains c (print_window w) ≡ false
unfolding print_window contains is_ascii_digit
print_window-contains c w blank digit i n =
    let tail =
      contains-append c (decimal w.index) (b' ' ∷ w.name) (contains-decimal c w.index digit)
        (ground (arith, blank, n)) in
    let rest =
      contains-append c w.id (b' ' ∷ (decimal w.index ++ (b' ' ∷ w.name))) i
        (ground (arith, blank, tail)) in
    contains-append c (print_active w.active)
      (b' ' ∷ (w.id ++ (b' ' ∷ (decimal w.index ++ (b' ' ∷ w.name)))))
      (elim (Bool-cases w.active) [
        | inl e ↦ rw e (ground (arith, digit))
        | inr e ↦ rw e (ground (arith, digit))
      ])
      (ground (arith, blank, rest))

splitn-cons :
    (n : ℕ) (p rest : Text)
    → contains b' ' p ≡ false
    → splitn (suc (suc n)) (p ++ (b' ' ∷ rest)) ≡ p ∷ splitn (suc n) rest
unfolding splitn
splitn-cons n p rest h = rw (split_once-first b' ' p rest h, splitn) refl

active_blank : (active : Bool) → contains b' ' (print_active active) ≡ false
unfolding contains
active_blank true = refl
active_blank false = refl

parse_active-print : (active : Bool) → parse_active (print_active active) ≡ some active
unfolding parse_active text_eq
parse_active-print true = refl
parse_active-print false = refl

splitn-print_window :
    (w : WindowInfo)
    → IsPrintable w
    → splitn 4 (print_window w) ≡ print_active w.active ∷ w.id ∷ decimal w.index ∷ w.name ∷ []
unfolding print_window splitn is_ascii_digit
splitn-print_window w p =
    splitn-cons 2 (print_active w.active) (w.id ++ (b' ' ∷ (decimal w.index ++ (b' ' ∷ w.name))))
      (active_blank w.active)
    ∙ ap (λ r. print_active w.active ∷ r)
        (splitn-cons 1 w.id (decimal w.index ++ (b' ' ∷ w.name)) p.id_has_no_blank
          ∙ ap (λ r. w.id ∷ r)
              (splitn-cons 0 (decimal w.index) w.name (contains-decimal b' ' w.index refl)))

window_of-print_window :
    (operation : TmuxOperation) (w : WindowInfo)
    → IsWindow w
    → IsPrintable w
    → window_of operation (splitn 4 (print_window w)) ≡ ok w
unfolding window_of ◌>>=◌
window_of-print_window operation w i p =
    rw
      (
        splitn-print_window w p,
        i.has_id,
        i.has_name,
        parse_active-print w.active,
        read_u32-decimal w.index i.index_fits,
      )
      refl

window_rows-print :
    (operation : TmuxOperation) (ws seen : List WindowInfo)
    → All IsWindow ws
    → All IsPrintable ws
    → Separate (seen ++ ws)
    → window_rows operation seen (lines (print_windows ws)) ≡ ok (seen ++ ws)
unfolding window_rows print_windows is_ascii_digit
window_rows-print operation [] seen a p s =
    ap (window_rows operation seen) no_lines ∙ ap ok (sym (append-nil seen))
window_rows-print operation (w ∷ ws) seen a p s =
    let one = p.0 in
    let no_break =
      print_window-contains b'\n' w refl refl one.id_has_no_break one.name_has_no_break in
    let no_return =
      print_window-contains b'\r' w refl refl one.id_has_no_return one.name_has_no_return in
    let again : (seen ++ (w ∷ [])) ++ ws ≡ seen ++ (w ∷ ws) = append_assoc seen (w ∷ []) ws in
    ap (window_rows operation seen)
      (lines-cons (print_window w) (print_windows ws) no_break no_return)
    ∙ bind-step _ _ w _ (window_of-print_window operation w (a.0) one) (
        bind-step _ _ tt _ (refuse_if-passes _ _ (Apart-middle clash seen ws w s)) (
          window_rows-print operation ws (seen ++ (w ∷ [])) (a.1) (p.1)
            (subst Separate (sym again) s)
          ∙ ap ok again))

print_windows-full :
    (ws : List WindowInfo) → active_windows ws ≡ 1 → is_nil (print_windows ws) ≡ false
unfolding print_windows print_window
print_windows-full [] h = ground (arith, h)
print_windows-full (w ∷ ws) h = elim (Bool-cases w.active) [ inl e ↦ rw e refl | inr e ↦ rw e refl ]

no_windows-one : (ws : List WindowInfo) → active_windows ws ≡ 1 → no_windows ws ≡ false
no_windows-one [] h = ground (arith, h)
no_windows-one (w ∷ ws) h = refl

-- Every list of windows with IDs, names and indexes below 2^32, with no ID or index twice and one
-- active window, is what parse_windows returns for the rows that tmux prints of it, where no ID has
-- a blank and neither IDs nor names have a line break or a carriage return.
pub parse_windows-print_windows :
    (ws : List WindowInfo) (operation : TmuxOperation)
    → IsWindowSet ws
    → All IsPrintable ws
    → parse_windows (print_windows ws) operation ≡ ok ws
unfolding parse_windows
parse_windows-print_windows ws operation is p =
    let one : not (active_windows ws == 1) ≡ false = ground (arith, is.one_active) in
    bind-step _ _ tt _ (refuse_if-passes _ _ (print_windows-full ws is.one_active)) (
      bind-step _ _ ws _ (window_rows-print operation ws [] is.each p is.separate) (
        bind-step _ _ tt _ (refuse_if-passes _ _ (no_windows-one ws is.one_active))
          (bind-step _ _ tt _ (refuse_if-passes _ _ one) refl)))
