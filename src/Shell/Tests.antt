-- ===== src/Shell/Tests.antt =====
-- The shell of one dock, and its removal.
use magicdesk_x.Prelude.{◌≡◌, refl, true, false, none, some, List, [], ◌∷◌, arith, length}
use magicdesk_x.Prelude.Int.{pos}
use magicdesk_x.Shell.{
  ShellState, ShellWindow, ShellTrees, tree, no_trees, more_trees, ShellEnv, publish,
}
use magicdesk_x.Shell.Laws.{view, IsTable}
use magicdesk_x.Shell.Host.{
  ShellEvent, configured, refreshed, geometry_moved, shell_run, shell_run-view,
}

abbrev test_env : ShellEnv
test_env = record {
  dock = 70;
  desktop = 71;
  atom_kind = 4;
  cardinal_kind = 6;
  width = 800;
  height = 600;
  external = false;
  memory = true;
}

abbrev panel : ShellWindow
panel = record {
  id = 9;
  input_output = true;
  override = false;
  realized = true;
  x = pos 0;
  y = pos 0;
  width = 800;
  height = 30;
  window_type = some (record { kind = 4; format = 32; items = 70 ∷ [] });
  strut_partial = none;
  strut = none;
  family_complete = true;
  family_paint = pos 0 ∷ pos 0 ∷ pos 800 ∷ pos 30 ∷ [];
  family_input = [];
}

abbrev one_panel : ShellTrees
one_panel = more_trees (tree panel no_trees) no_trees

abbrev no_shell : ShellState
no_shell = record { records = []; owner = 0; dirty = false }

abbrev panel_events : List (ShellEnv × ShellEvent)
panel_events =
    (test_env, configured 5 (pos 800) (pos 600))
    ∷ (test_env, refreshed one_panel)
    ∷ (test_env, geometry_moved)
    ∷ (test_env, refreshed no_trees)
    ∷ []

shell_run-view_example :
    IsTable (shell_run panel_events no_shell []).0
    × ((shell_run panel_events no_shell []).1 ≡ view (shell_run panel_events no_shell []).0.records)
shell_run-view_example =
    shell_run-view panel_events no_shell []
      (record { unique = tt; limited = omega arith; owned = λ e. refl }) refl

panel_told :
    length
      (shell_run
        ((test_env, configured 5 (pos 800) (pos 600)) ∷ (test_env, refreshed one_panel) ∷ [])
        no_shell
        []).1
    ≡ 1
unfolding shell_run publish
panel_told = refl

panel_gone : length (shell_run panel_events no_shell []).1 ≡ 0
unfolding shell_run publish
panel_gone = refl
