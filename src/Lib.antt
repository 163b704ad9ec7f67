-- ===== src/Lib.antt =====
-- mtack, a terminal process manager: one server runs the configured processes, each in a terminal of
-- its own, and one client at a time attaches to it over a Unix socket.
--
-- The parts, with the files that model them:
--   Base        shared names, Boolean tests, lists over native numbers, panics as `Option`, results
--   Key         the events of crossterm that the program reads
--   Input       src/input.rs: `resolve` gives the action of a key in a mode
--   Protocol    src/protocol.rs: frames and messages; a writer is the bytes that it gives, a reader
--               takes bytes from the front of the stream
--   Vt100       the crate vt100 as an interface, with the laws of its scrollback
--   Terminal    src/terminal.rs: `Defs` the state, output and scrolling, `Search` the search;
--               `Scroll`, `Matches` and its children are about them
--   Config      src/config.rs: `Types` what a configuration is, `Find` the search for the file, `Fields`
--               and `Parse` the reading of a document, which the crate kdl (`Kdl`) has parsed;
--               `Distinct`, `Nodes`, `Env`, `Keys` and `Validity` are about them
--   Process     src/process.rs, src/event.rs: `Types` the lifecycle, `Ops` the operations,
--               `Writer` the task behind the input queue, `Watcher` the task that reads the
--               output; `Transitions`, `Exits`, `Writer.Order` and `InputQueue` are about them
--   Ui          src/ui/: the tab bar (`Tabs`, its row in `Tabs.Row`), the key hints (`Hints`), the
--               status bar (`Status`, its row in `Status.Line`), the help panel
--               (`Help`, what it draws in `Help.Panel`), the layout of a frame (`Frame`) and the matches in the view (`Viewport`);
--               `Width` is the display width of texts
--   Server      src/server.rs: the outbox of an attached client; `Connection` what a connection
--               comes to; `Socket` the lock and the socket file of a configuration;
--               `Listing` the directory of these files and the servers that are running
--   Client      src/client.rs: how an attachment and a start go; `Start` has what the server program
--               of src/main.rs writes
--   Main        src/main.rs: which configuration a command is about (`Choice` is about it), and what it
--               reports
--   App         src/app.rs: `State`, `Search`, `Actions` and `Loop`; `Total`, `Quit`, `Shutdown`,
--               `View` and `Navigate` are about them; `Finish` is what comes behind
--               the loop
--   Tests       concrete inputs
--
-- How they interact: the App owns the processes and at most one client. `App.Loop.step` is one turn
-- of the loop in `App::run`, with the event as its argument: a tick draws, a client message goes
-- through `Input.resolve` to `App.Actions.handle_action`, a process event to the process with its id,
-- a connection or a signal to the App. Any sequence of events is possible: the environment chooses.
-- What the outside answers is an argument (`Env`): the time in milliseconds, the outcome of a spawn and
-- the bytes of a rendered frame. Signals to processes and kill timers are kept as a list of effects.
-- What a client sends and is sent are bytes: `Client.send_input` writes those that
-- `Server.Connection.handle_connection` reads, and `Client.attach_output` reads what the outbox
-- delivers. Servers are numbers, and each system call of `Server.Socket.bind` and of the drop of its
-- guard is a step of its own, so that the steps of several servers interleave.
-- A function has its name in the source; a method of a struct stands in the module of the struct. An
-- index out of range is `none`, the panic.
--
-- Numbers are natural numbers. A u16 that a sum may leave wraps (`u16`), as in a release build; sums
-- that stay in range by their inputs are left alone. Subtraction is the saturating one where the code
-- says so. The loop of `visible_range` runs on fuel: one more than the number of tabs, which suffices
-- since each turn takes a tab. The loops over messages run on one more than the bytes of the stream,
-- which suffices since each message takes some, and a number is written on one more than itself.
-- Every other loop is over a list or over a number of rows.
--
-- Parameters: vt100, terminput (`Terminput`), kdl (`Kdl`), the case conversion and the display width of
-- texts (`World`, `WidthLaws`), the variables HOME and SHELL, the layout of ratatui (`Layout`), and which files there are. The laws of `Vt100.Laws` say that an offset is clamped to the history, that setting it
-- changes nothing else, and that a cell of the screen is the cell of a line.
--
-- Not modelled: the names of the server's files, which are a hash, the parsing of arguments and the
-- texts of errors in src/main.rs, the setup of the terminal in src/client.rs, the drawing of spans
-- into the buffer of ratatui, and the render interval. These are system calls, calls of
-- libraries, or not reached yet.
pub mod Base
pub mod Key
pub mod Input
pub mod Protocol
pub mod Vt100
pub mod Terminal
pub mod Config
pub mod Process
pub mod Main
pub mod Ui
pub mod Server
pub mod App
pub mod Tests
pub mod Client
