-- ===== src/Lib.antt =====
-- DrShadowStack: a model of the shadow stack, of both its modes and of what they are built on.
--
-- The program runs a target under DynamoRIO, notes each call's return address on a shadow stack, and
-- kills the whole process group when a return goes anywhere else. In internal mode the stack is in
-- the target's own process, one for each thread; in external mode a client in the target's process
-- sends each event over a socket to a server, which keeps the stack and answers each return.
--
-- The files, and the code that they model:
-- - Platform: what comes from outside, as a parameter: the kernel's answer to each call, given
--   the calls before it, and DynamoRIO's look-ups. Then the state of a process (World), the ways in
--   which code ends (Outcome) and the monad of code. Platform/Post has the postconditions.
-- - Text, Runtime: src/utilities.hpp, src/utilities.cpp and the termination half of src/group.cpp.
--   `kill_9_group` is the outcome `killed`: what runs after it does not matter.
--   Runtime/Termination is about any kernel, Runtime/Logging about one whose calls succeed,
--   Runtime/Failure about one whose writes fail.
-- - LogFile: the opening of the log in src/utilities.cpp. The models of both main functions begin
--   after it, with the descriptors of the logs in their state; Program puts it before main.
-- - ShadowStack: the abstract shadow stack, a specification. ShadowStack/Nesting tells the
--   histories that it accepts without a stack.
-- - Message: src/message.hpp and src/message.cpp. Message/Codec is about the bytes, Message/Receive
--   about recv_msg_and_body, Message/Events says which bytes spell which history, and Message/Unique
--   that they spell no other.
-- - Server: src/external_stack_server.cpp. Server/Handlers and Server/Loop are about any kernel,
--   Server/Answer and Server/Verdict about one whose calls succeed, Server/Bounds about the numbers on
--   the stack.
-- - Sym: src/dr_print_sym.cpp.
-- - Internal: src/dr_internal_ss_events.cpp. Internal/Handlers has each handler, Internal/Threads
--   interleavings of threads, Internal/Verdict a kernel whose calls succeed.
-- - Environment, Client: src/dr_external_ss_events.cpp with the variables of src/constants.hpp.
--   Client/Protocol has the messages, Client/Execve the change of envp, Client/Session a history.
--   Client/Setup has the socket that a client finds or makes, Client/Handover its way through an exec.
-- - Modes, Protection: both modes side by side, and the client with the server. Modes/Threads is about
--   several threads.
-- - Lockstep: the client and the server as two processes, each with its own time, and the bytes that
--   are on their way between them. Lockstep/Messages and Lockstep/Channel are about the bytes of one
--   step, Lockstep/Invariant and Lockstep/Safety about every order of the steps, Lockstep/Counting
--   about their number. Lockstep/Progress, Lockstep/Rounds, Lockstep/Liveness and Lockstep/Completion
--   are about a kernel whose calls succeed. Lockstep/Team has several processes of the target on one
--   socket, as after a fork.
-- - Group: the setup half of src/group.cpp, with Group/Setup about its calls.
-- - Mode: src/ss_mode.hpp and src/ss_mode.cpp; Mode/Flags has its static assertions.
-- - Sockets: src/quick_socket.cpp and src/temp_name.cpp; Sockets/Calls is about the calls made.
-- - Start: src/shadow_stack.cpp. Start/Target has the start of drrun, Start/Run main from its parsed
--   arguments on, Start/Overflow a socket's path that is too long.
-- - DrClient: src/dr_shadow_stack_client.cpp and InternalSS::setup. DrClient/Events has the
--   proofs about them, DrClient/Launch the client's main in both modes. DrClient/Instrumented goes from
--   executed instructions to the verdict, DrClient/Session does so from the client's main on,
--   and DrClient/Told goes to the bytes on the socket in external mode. DrClient/Ready is about a main
--   that returns, DrClient/Transfers about signals.
-- - Arguments: src/parse_args.cpp and the whole of main; Arguments/Main has its theorem,
--   Arguments/Options the options that are described to boost.
-- - Program: main with the initialisation of static variables and the opening of the log before it.
--   Program/Handoff goes on to the client's main, in the process that drrun has become.
-- - TestPrograms: the programs of test-files as histories. TestPrograms/Toy has what toy.c writes,
--   TestPrograms/Runs the programs in internal mode.
-- - Tests: concrete kernels and histories, and the theorems at them.
--
-- Names are those of the code, in snake_case; where two parts share a name (on_call, on_ret), the
-- module tells them apart. `add_wildcard` and `clear_stack` of the server are the constructors of
-- MessageHandler, their code is `on_add_wildcard` and `on_clear_stack`.
--
-- A kernel whose calls succeed is one on which writes are complete, recv hands over all that is asked
-- for, and gettid and the setting of thread fields succeed (Works in Runtime/Logging); where a theorem
-- needs more calls to succeed, it names them.
--
-- The envp that a new program gets is read as the C library reads it (environ_of in Client/Handover).
--
-- Bounds and fuel. Logging, error checks and termination call one another, on sixteen units of
-- fuel: a failure inside termination kills at once, so that no chain of calls is longer. The
-- server's loop has one unit more than bytes wait for it, since each of its rounds but the last reads
-- some. Addresses are natural numbers below 256 ^ pointer_size, where a theorem says so.
--
-- Bytes that arrive while a process runs are taken to wait from the start, but for Lockstep, where they
-- come as the other process writes them; recv hands over as many of them as the kernel says. A thread's
-- handlers run one after the other, and each of them whole.
--
-- The loops of main that delete a variable have two rounds, since one deletes every definition.
--
-- The test programs are taken as they are written: each call of theirs is a call instruction, and the
-- bytes that the hacked ones copy over the stack are main's return address.
--
-- Not modelled: test-files/test-files/exec.c, which only starts another program, the build and the
-- scripts, and the server's handlers for forks and threads, which are not compiled. Nor are the options
-- parser of boost, which is a parameter, DynamoRIO itself and the registration of handlers with it. The
-- numbers of signals and errors, and the size of a socket's address, are those of Linux. A stoi that
-- throws ends the process as an uncaught exception does, by SIGABRT.
pub mod Base
pub mod Text
pub mod Platform
pub mod Runtime
pub mod Group
pub mod LogFile
pub mod ShadowStack
pub mod Message
pub mod Server
pub mod Sym
pub mod Internal
pub mod Modes
pub mod Environment
pub mod Client
pub mod Protection
pub mod Lockstep
pub mod Mode
pub mod Sockets
pub mod Start
pub mod DrClient
pub mod Arguments
pub mod Program
pub mod TestPrograms
mod Tests
