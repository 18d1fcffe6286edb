-- ===== src/Lib.antt =====
-- MagicDesk X11: a native X server engine that shows X11 windows on the outputs of an Android host.
--
-- The engine is the C code under lorie/src/main/cpp/lorie. A host connects over a socket, binds
-- outputs to windows, and sends commands: sizes, input, focus, confirmations of window states. The
-- engine turns them into X server events and sends back buffers, window records and the cursor.
--
-- The files, and the code that each is about (paths under lorie/src/main/cpp/lorie):
--   Prelude       shared names: Boolean tests, lists with an index, integers, bits of a byte
--   Transport     socket_io.h and gpu_completion.h (Socket), shared_lock.h (Lock), buffer_layout.h
--                 (Layout)
--   Window        window_placement.h (Placement), window_size.h (Size), fullscreen_state.h,
--                 maximized_state.h, window_interaction.h and window_role.h (State)
--   Cursor        cursor.c, and the pixels of cursor_image.h (Image, Publish)
--   Icon          window_icon.h: the choice of an image (Choice), its fitting (Pixels), and what is
--                 read and written (Memory)
--   Family        window_family.h: lorieWindowFamilyContains (Laws), and the windows that are raised
--                 with an owner (Activation)
--   DirectInput   direct_input.c: touch contacts (Contacts), tablet tools (Tools, ToolSteps),
--                 runs of both (Neutral, Runs) and releasing (Held, Release)
--   Resources     resource_channel.c: the messages, the channel of a client (Channel, Answers,
--                 Deadline), the admission of connections (Admission, Waiting), and what owns a
--                 descriptor (Taking, Ownership, Runs)
--   Exchange      data_exchange.c: the drag of the host over X windows (Drag), the export of a drag
--                 (Export), transfers and chunks (Transfers, Chunks), the requests of clients
--                 (Selections), the host's commands (Replies, Commands), the protocol of the drag
--                 (Protocol), what each part keeps (the files on Steps), and all events (Runs)
--   Shell         window_shell.c: docks and desktops, and the host's table of them (Laws, Steps, Host)
--   XServer       the value of a property, which Exchange and Shell and Model share
--   Model         window_model.c: the records (Records), the refresh (Publish), the host's confirmations
--                 (Confirms), client messages and callbacks (Messages), and the table that the host
--                 builds (Table to Shown; Requests for activation and the list of states); focus, the
--                 grabs of a family and new dialogs (Focus, Blur, Families)
--   Density       density_settings.h: the settings of toolkits, and a reader of them (Laws)
--   Inspection    window_inspection_walk.h: the walk over a family of windows (Laws)
--   Outputs       window_outputs.c: leases of keys and buttons (Leases and their laws), binding and
--                 releasing (Commands), lorieOutputCommand (Dispatch), callbacks (Callbacks,
--                 ResetLaws)
--
-- How state is modelled. The static variables of a file are a record, and an operation is a function
-- from the record to the record and the list of its effects, in order. An effect is a call of the X
-- server or of a part that is not modelled. What the X server answers is an argument: the record Env
-- of Outputs.Commands, DataEnv of Exchange and ModelEnv of Model, the bit order and the row padding in
-- Cursor. What the host makes of the messages is a table beside the state (Shell.Host, Model.Events).
-- The system calls of the loops in Transport are a script, the list of their results, and a loop takes
-- one result from it for each call. The loops are structural recursion on the script or on the
-- counter; the loop over the images of an icon property has fuel, as much as the property has words,
-- and the loop over transient links has 65, one more than the code's own bound on its steps, and the
-- loop of a reset the number of outputs. The trees of windows that the code walks by pointers are data
-- types, in the order of the walk. Where memory past an array would be read, the model reads an
-- argument `beyond`.
--
-- Numbers. Unsigned integers are natural numbers with their wrap-around written out. Signed integers
-- are ℤ of Prelude.Int; where the code relies on their range, the theorem has the range as a
-- hypothesis. A float of the wire is not a number, infinite, or m / 2 ^ k. The quotients and the
-- conversions of tilt that direct_input.c computes in double are kept as their operands.
--
-- Not modelled: of window_model.c, the taking of the manager's selection at the start
-- (lorieWindowManagerReady), which happens before the first event of a run, the nodes of an inspection,
-- and the registration of its callbacks; density.c with the selection of the settings, screen modes, the
-- publishing of outputs, the registration of selections in the X server, the renderer and the session
-- (C++ and OpenGL), the device and screen callbacks of the X server, memory mapping, and the copy of
-- libandroid-shmem.
pub mod Prelude
pub mod Window
pub mod Outputs
pub mod DirectInput
pub mod Family
pub mod Density
pub mod Inspection
pub mod Resources
pub mod Shell
pub mod Exchange
pub mod Icon
pub mod Cursor
pub mod Transport
pub mod XServer
pub mod Model
