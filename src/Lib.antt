-- ===== src/Lib.antt =====
-- Socks5Proxy: a SOCKS5 server in C, with its data structures and its management protocol.
--
-- A connection is driven by a state machine (src/shared/stm.c) on the events of a selector:
-- GREETING negotiates the method, AUTH checks a name and a password against the accounts, and
-- once the origin is connected COPY relays the bytes. The bytes of each direction stand in a
-- buffer.
--
--   Prelude    native numbers, tests, lists, memory and the Option monad, for all the others
--   CString    the C library's functions on NUL-terminated arrays that the accounts use
--   Buffer     src/shared/buffer.c. Buffer/View is its contents as a queue, Buffer/Rules what each
--              operation does to known contents; the states below are proved with these only
--   ListAdt    src/shared/list.c, the sorted list behind the accounts
--   Queue      src/shared/queue.c, the bounded queue behind the log
--   Parser     src/shared/parser.c, the engine, and src/shared/parser_utils.c in Parser/Utils
--   Stm        src/shared/stm.c, over an arbitrary state that the hooks and the handlers change; Stm/Driver is for
--              handlers that may fail an assert
--   Selector   src/shared/selector.c and its header. Selector/Table is the table of descriptors and the two
--              sets for select, Selector/Table/Invariant what every call keeps. Selector/Events is
--              selector_select, with the finished jobs, and Selector/Events/Calls which handlers it calls
--   Metrics    src/server/metrics.c
--   Users      src/server/users.c. Users/Accounts is the table as a map from names to accounts
--   Socket     the outcomes of recv and send, which are inputs of the handlers
--   Socks5     src/server/include/socks5nio.h. Socks5/Greeting is src/server/states/greeting.c and
--              Socks5/Auth is src/server/states/auth.c. Socks5/Session is the part of a connection that
--              the next states use: Socks5/Session/Request is src/server/states/request.c, and Connection,
--              Connect and Reply beside it are connection_utils.c, connect.c and reply.c. Socks5/Nio is
--              src/server/socks5nio.c: its table of states is an instance of Stm over all of these
--   Copy       src/server/states/copy.c
--   Pam        src/server/include/pam.h. Pam/Auth is src/server/pam/pamAuth.c, Pam/Request is
--              src/server/pam/pamRequest.c, Pam/Methods the methods of src/server/pam/pamMethods.c that
--              change the accounts, and Pam/Dispatch the others and the choice of the method. Pam/Machine is
--              src/server/pam/pam.c: its table of states, accepting, and closing
--   Client     src/client/. Client/Messages and Client/Response are client_utils.c, with the parts of main.c
--              that send; Client/Args is client_args.c. Client/Messages/Served and Client/Login join the
--              client's messages with the server's handlers
--   Server     the rest of src/server: Server/Args is args.c, Server/Accounts the users that main creates from
--              it, and Server/Logger is logger.c
--
-- A function of the source is the definition with its name; what it reads and changes is passed
-- and returned. A failed assert, a step through a null pointer, and a byte stored behind an
-- array of the management protocol is `none`. A pointer into a buffer is an offset, a pointer to
-- a list node the number of nodes before it. malloc answers by a Boolean, or by the memory that it gives. The blocks of a
-- handler, each of which returns or falls through, are definitions of their own, composed by
-- Socks5/Flow. The loop of user_get_if_exists has as fuel one more than the number of nodes, and
-- the loop that counts bits for the table the number itself; both are shown to end within it.
-- The loop of write_logs_deferred has one more than the length of the queue, and socksv5_done, which the
-- selector calls again for each descriptor, two levels; the theorems on both show that this is enough.
-- size_t wraps at 2^64. totalAdmins, an int, counts accounts and stays far from its bound. A char is signed.
-- The outcome of an attempt to connect is a function of the address.
--
-- What the code asks of the system is an input: the outcomes of recv and send, the texts of addresses,
-- the result of each attempt to connect, accept, pselect, getopt_long, strtol, atoi and snprintf.
--
-- Not modelled: socksv5_passive_accept, whose successful path is that of pam_passive_accept with the metrics,
-- and the part of main in server.c that sets up sockets and signals.
-- Left out: sockets, signals, the text of log lines, and the release of memory, which are input and output or
-- do not change what is stated here. src/client/args.c is a copy of the server's that nothing calls.
pub mod Prelude
pub mod Buffer
pub mod Client
pub mod Selector
pub mod Socket
pub mod CString
pub mod ListAdt
pub mod Pam
pub mod Users
pub mod Socks5
pub mod Stm
pub mod Queue
pub mod Metrics
pub mod Copy
pub mod Parser
pub mod Server
