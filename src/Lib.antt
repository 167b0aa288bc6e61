-- ===== src/Lib.antt =====
-- fcpp_bridge: Python programs for swarms that a C++ library runs.
--
-- A program is a Python class. The package fcpp_bridge/python_dsl checks the class and infers C++
-- types from its annotations, fcpp_bridge/transpiler translates its method to C++, and
-- fcpp_bridge/compiler compiles that and caches the binary. fcpp_bridge/grammar reads programs in a
-- language of their own instead. fcpp_bridge/ipc talks to running swarms, and fcpp_bridge/metrics
-- collects measures from their snapshots. In the package ipc, a
-- `DeviceManager` holds devices under names: a `SwarmProcess` launches a binary that simulates a
-- swarm, a `PhysicalNode` connects to a robot that runs by itself. Both inherit from
-- `_IpcNodeBase`, which owns a backend (a Unix socket, HTTP or gRPC), the listeners for state
-- updates and a liveness strategy with a monitor thread.
--
--   Prelude            Boolean tests, lists, Python's dict (Dict) and set of ids (IdSet)
--   Ipc.Exec           methods that change an object and may raise: state and result together
--   Ipc.Wire           fcpp_bridge/ipc/node_state.py, swarm_snapshot.py, commands and replies
--   Ipc.Outside        the libraries that the package calls, as one record of functions
--   Ipc.Backend        fcpp_bridge/ipc/unix_socket_backend.py, http_backend.py, grpc_backend.py
--   Ipc.Listeners      fcpp_bridge/ipc/listener_proxy.py
--   Ipc.Liveness       fcpp_bridge/ipc/liveness_strategy.py
--   Ipc.Node           fcpp_bridge/ipc/_ipc_node_base.py
--   Ipc.Swarm          fcpp_bridge/ipc/swarm_process.py
--   Ipc.Physical       fcpp_bridge/ipc/physical_node.py
--   Ipc.Manager        fcpp_bridge/ipc/device_manager.py, and Ipc.Manager.Server for
--                      its registration server
--   Ipc.Channels       fcpp_bridge/ipc/proxy_output_channel.py, file_output_channel.py
--   Dsl                fcpp_bridge/python_dsl/types (CppTypes, Annotations, Infer) and
--                      fcpp_bridge/python_dsl/validators (Validators)
--   Transpiler         fcpp_bridge/transpiler/python_ast_visitor.py (Syntax, Visitor, Constants,
--                      Expressions, Statements), cpp_code_builder.py (Builder) and
--                      transpiler_core.py (Program); Effects and Expected describe by events
--                      what a translation leaves behind
--   Grammar            fcpp_bridge/grammar/aggregate_language_parser.py, ast_node.py
--   ExUtils            fcpp_bridge/examples/ex_utils/tiles.py, storage.py, position.py
--   Metrics            fcpp_bridge/metrics/state_history.py, metrics_collector.py
--   Compiler           fcpp_bridge/compiler/compiler_core.py, program_cache.py, and
--                      compilation_error_parser.py (Diagnostics)
--   Ipc.Examples       a concrete world, and the theorems at concrete inputs; so are the other
--                      modules named Examples
--
-- The modules below a component hold its theorems and are named for what they show.
--
-- A method is a function from the object and the state `W` of everything outside to a result, the
-- object and that state. What a method wrote before it raised stays written. A class keeps its
-- name; a method keeps its name without leading underscores, but for `close_proxy` (ListenerProxy
-- .close), `forget` (discard of the strategies), `step_round` (SwarmProcess.step),
-- `remove_node_id` (SwarmProcess.remove_node), `add_nodes_count` (SwarmProcess.add_nodes),
-- `notice_all` (the first loop of PhysicalNode._dispatch_update), `remove_device`
-- (DeviceManager.remove) and `exit` (DeviceManager.__exit__).
--
-- The clock, threads and events, sockets, HTTP, gRPC, subprocesses, JSON and the callbacks of the
-- user are fields of the record `Outside W`: a call returns or raises and changes `W` as it
-- likes. A callback does not reenter the object that calls it. Times are counted in ticks, node
-- ids and the numbers of nodes that are asked for are natural numbers, and callbacks and threads are
-- named by numbers.
--
-- Loops that wait for something outside run on fuel: `draw_ids` for at most so many draws,
-- `heartbeat_loop`, `reconnect_loop` and `serve` for so many rounds, with a value of its own for
-- a loop that is still running. A caller gives `draw_ids` at least as many draws as nodes, and one
-- more for each draw that repeats an id; the others end when their stop event is set and have no
-- bound of their own. All other loops are over lists.
--
-- The parser recurs on fuel: an expression gets three units for each token that is left and three
-- more, and a program one more than its tokens. Which texts go deeper than the interpreter's limit
-- on recursion is the field `is_too_deep` of `Lexer`. The visitor and the inference of types recur on
-- the syntax tree and on the annotation.
--
-- In Transpiler, Dsl and Grammar, text is the native text. A syntax tree, an annotation and a class
-- are given by what `isinstance`, `getattr` and `inspect` tell of them; numbers in a program are
-- kept as their text. Regular expressions, `ast.dump`, `str.strip` and the like are fields of the
-- records `Library`, `Lexer` and `Reading`, and floats an arbitrary type with operations.
--
-- Not modelled: the limit on recursion in the visitor and in the inference of types, negative numbers
-- of nodes, threads that interleave with calls of the same object, log messages, the texts of
-- exceptions, the pause after a launch, the bytes on a socket, the translation of gRPC messages and
-- the thread that reads the gRPC stream, liveness strategies of the user's own, the export of
-- measures to files, the CMake generator, the parser that ANTLR generates, the primitives and
-- decorators of the DSL, the logging and the callback channel, the lists of tiles in ex_utils, the
-- runtime, the drawing and the example programs.
pub mod Prelude
pub mod Compiler
pub mod Dsl
pub mod ExUtils
pub mod Grammar
pub mod Ipc
pub mod Metrics
pub mod Transpiler
