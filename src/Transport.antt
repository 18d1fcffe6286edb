-- ===== src/Transport.antt =====
-- The blocking transport helpers: socket_io.h, gpu_completion.h, shared_lock.h and the layout test
-- of buffer_layout.h, all under lorie/src/main/cpp/lorie. A system call is not code of the program:
-- what its calls return, one after the other, is a list that the loops take as an argument, and a
-- loop that has used the list up is still waiting.
pub mod Socket
pub mod Lock
pub mod Layout
mod Tests
