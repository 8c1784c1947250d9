-- ===== src/Tmux/Examples.antt =====
-- Rows of tmux and a poll of native/solstone-tmux/src/tmux.rs at concrete answers.
use solstone_tmux.Base.{
  ℕ, ◌≡◌, refl, true, false, List, [], ◌∷◌, ◌++◌, Text, codes, some, pos, ok, err, split,
  strip_suffix, contains, text_eq, digits_value, is_ascii_digit, leb_ℤ, arith,
}
use solstone_tmux.Base.Stepwise
use solstone_tmux.Model.{WindowInfo, PaneInfo}
use solstone_tmux.Tmux.Fields.{lines, ended_lines, strip_return, rsplit_once, read_u32, read_i64}
use solstone_tmux.Tmux.Rows.{
  TmuxOperation, list_windows, list_panes, parse_active, parse_u32, parse_flag, parse_windows,
  pane_row, pane_of, pane_rows, parse_panes,
}
use solstone_tmux.Tmux.Rows.Windows.{print_windows, parse_windows-print_windows}
use solstone_tmux.Tmux.Rows.Panes.{IsPaneSet, parse_panes-IsPaneSet}
use solstone_tmux.Tmux.Act.{unsupported, Runner, World, Gives}
use solstone_tmux.Tmux.Clients.{Decoding, read_client_row, note_client, client_rows}
use solstone_tmux.Tmux.Clients.Latest.{IsLatest, client_rows-IsLatest}
use solstone_tmux.Tmux.Poll.{WallNow, Adapter, poll_context}
use solstone_tmux.Tmux.Poll.Sessions.{IsPoll, poll_context-Always}

abbrev window_row : Text
window_row = codes "1 @1 0 my shell\n"

abbrev my_shell : WindowInfo
my_shell = record { id = codes "@1"; index = 0; name = codes "my shell"; active = true }

parse_windows-print_windows_example :
    parse_windows (print_windows (my_shell ∷ [])) (list_windows []) ≡ ok (my_shell ∷ [])
unfolding contains
parse_windows-print_windows_example =
    parse_windows-print_windows (my_shell ∷ []) (list_windows [])
      (record {
        each = (record { has_id = refl; has_name = refl; index_fits = omega arith }, tt);
        separate = (tt, tt);
        one_active = refl;
      })
      (
        record {
          id_has_no_blank = refl;
          id_has_no_break = refl;
          id_has_no_return = refl;
          name_has_no_break = refl;
          name_has_no_return = refl;
        },
        tt,
      )

abbrev pane_text : Text
pane_text = codes "%1 0 0 0 80 24 1 3 4 1 0 0\n"

abbrev pane : PaneInfo
pane = record {
  id = codes "%1";
  index = 0;
  left = 0;
  top = 0;
  width = 80;
  height = 24;
  active = true;
  cursor_x = 3;
  cursor_y = 4;
  cursor_visible = true;
  alternate_on = false;
  pane_in_mode = false;
  content = [];
}

one_pane : parse_panes pane_text (list_panes []) ≡ ok (pane ∷ [])
unfolding parse_panes pane_rows pane_row pane_of parse_u32 parse_flag lines ended_lines split
    strip_return strip_suffix parse_active read_u32 is_ascii_digit digits_value text_eq
    Stepwise.◌>>=◌
one_pane = refl

parse_panes-IsPaneSet_example : IsPaneSet (pane ∷ [])
parse_panes-IsPaneSet_example = parse_panes-IsPaneSet pane_text (list_panes []) (pane ∷ []) one_pane

abbrev two_rows : List Text
two_rows = codes "main 5" ∷ codes "main 7" ∷ []

latest : (client_rows [] two_rows).0 ≡ record { session = codes "main"; activity = pos 7 } ∷ []
unfolding client_rows read_client_row note_client rsplit_once read_i64 is_ascii_digit digits_value
    text_eq leb_ℤ
latest = refl

client_rows-IsLatest_example : IsLatest two_rows (client_rows [] two_rows).0
client_rows-IsLatest_example = client_rows-IsLatest two_rows

-- A tmux with one session, one window and one pane, which counts the calls.
abbrev answer : TmuxOperation → Text
answer TmuxOperation.list_clients = codes "main 5\n"
answer TmuxOperation.list_sessions = codes "main 5\n"
answer (TmuxOperation.list_windows session) = window_row
answer (TmuxOperation.list_panes window) = pane_text
answer (TmuxOperation.capture_pane id) = codes "hello\n"
answer (TmuxOperation.display_message target field) = codes "title\n"

abbrev tmux : Runner ℕ
tmux = record {
  run = λ operation n.
      (ok (record { stdout = answer operation; stderr = []; status = pos 0 }), ℕ.suc n);
  lookup = λ pid n. (err unsupported, n);
}

abbrev plain : Decoding
plain = record {
  from_utf8 = λ bytes. some bytes;
  from_utf8_lossy = λ bytes. bytes;
  trim_end = λ text. text;
}

abbrev titles : Adapter
titles = record {
  pane_title = true;
  working_directory = false;
  executable_enabled = false;
  output_sessions = [];
  serialize_terminal_activity = λ ts session window title cwd exe. session ++ window;
  serialize_availability_activity = λ ts status. status;
}

abbrev now : WallNow
now = record { unix_timestamp = pos 7; ts = pos 7000 }

abbrev quiet : World ℕ
quiet = record { server = 0; warnings = [] }

poll_context-Always_example : Gives IsPoll (poll_context tmux plain titles now 5 quiet).0
poll_context-Always_example = poll_context-Always tmux plain titles now 5 quiet
