-- ===== src/Exchange/Export.antt =====
-- A drag out of an X client to the host: the window that catches its XDND messages, and the pointer
-- button that the host takes over.
use magicdesk_x.Prelude.{ℕ, Bool, false, not, ◌&&◌, ◌||◌, List, [], ◌∷◌, ◌++◌, ◌==◌, if◌then◌else◌}
use magicdesk_x.Exchange.{
  ExportState, DataState, xdnd_finished, DataEffect, free_window, configure_window, pointer_motion,
  release_button, change_words, DataOutcome, ◌|>◌, DataEnv, message,
}

abbrev pub with_export : DataState → ExportState → DataState
with_export s e = record s { export = e }

-- `releaseExportPointer`; None is no window.
unfoldable pub release_export_pointer : DataEnv → DataState → DataOutcome
release_export_pointer env s =
    let e = s.export in
    if e.output == 0 then (s, []) else (
      record s {
        pointer_down =
            s.pointer_down && not (s.pointer_output == e.output && s.pointer_window == e.window);
        export = record e { output = 0; window = 0 };
      },
      (if not (e.catcher == 0) && env.window_exists e.catcher
            then configure_window e.catcher ∷ pointer_motion ∷ []
            else [])
          ++ (release_button e.output e.window ∷ []),
    )

-- The messages at the end of `endExport`.
abbrev pub finished_told : DataEnv → ExportState → List DataEffect
finished_told env e =
    if e.source == 0
    then []
    else message env e.source e.source xdnd_finished e.catcher
        (if e.dropped && (e.completed && e.success) then 1 else 0) env.atoms.copy 0 0

-- `endExport`. The catcher is gone before the pointer is released.
unfoldable pub end_export : DataEnv → DataState → DataOutcome
unfolding release_export_pointer
end_export env s =
    let e = s.export in
    (
      with_export s (record e { timer = false; source = 0; catcher = 0 }),
      finished_told env e ++ (if e.catcher == 0 then [] else free_window e.catcher ∷ []),
    )
    |> release_export_pointer env

-- `exportExpired`.
unfoldable pub export_expired : DataEnv → DataState → DataOutcome
unfolding end_export
export_expired env s =
    end_export env (with_export s (record s.export { timer = false; success = false }))

-- Whether there is no drag of an X client to export.
abbrev pub cannot_export : DataState → Bool
cannot_export s =
    not (s.export.source == 0)
    || (s.drag_offer.local || (s.drag_offer.owner == 0 || not s.pointer_down))

abbrev pub export_begun : DataEnv → DataState → ExportState
export_begun env s = record s.export {
  catcher = env.new_window;
  source = s.drag_offer.owner;
  output = s.pointer_output;
  window = s.pointer_window;
  dropped = false;
  completed = false;
  success = false;
  timer = env.timer_set;
}

-- What is done with the catcher; its XdndAware is 5.
abbrev pub catcher_shown : DataEnv → ℕ → List DataEffect
catcher_shown env catcher =
    configure_window catcher
    ∷ change_words catcher env.atoms.aware env.atoms.atom_kind (5 ∷ [])
    ∷ pointer_motion
    ∷ []

-- `beginExport`.
unfoldable pub begin_export : DataEnv → DataState → DataOutcome
begin_export env s =
    if cannot_export s
    then (s, [])
    else if not (env.window_exists env.new_window)
    then (with_export s (record s.export { catcher = env.new_window }), [])
    else (with_export s (export_begun env s), catcher_shown env env.new_window)

-- `lorieDataPointer`.
unfoldable pub data_pointer : DataState → ℕ → ℕ → ℕ → Bool → DataState
data_pointer s output window button down =
    if not (button == 1)
      || (not down && (not (s.pointer_output == output) || not (s.pointer_window == window)))
    then s
    else record s { pointer_down = down; pointer_output = output; pointer_window = window }
