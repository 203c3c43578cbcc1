-- ===== src/Lib.antt =====
-- A verification library of the client and server of a small file service written in C. A client
-- reads command lines, cuts them into words and sends commands as JSON text, framed by boundaries,
-- over FIFOs or sockets; a server process for each client parses them, asks an SQLite process over a
-- pair of pipes, and answers.
--
-- The files and the code that they model:
--   Base: shared names; C strings and runs of bytes are lists of numbers, terminators are left out.
--   FileUtils: lib/file_utils/file_utils.c (encode_raw_data, decode_to_raw_data, the writers, the
--     reading and writing of files).
--   Arguments: utils.c (split_arguments, add, count_elements).
--   Channel: utils.c (getrnd, gen_boundary) and lib/communication (comm_send_data,
--     comm_receive_data; the loops are the same text over FIFOs and sockets).
--   Json: the JSON library that the program calls, as a record of functions and of the behaviour that is
--     documented for them; Json/Instance is a concrete one, for the tests.
--   Serialization: lib/serialization/serialization.c (stringify_..., send_..., parse_encoded, receive);
--     Serialization/Async: comm_send_data_async and data_listener of lib/communication.
--   Sql: lib/sqlite (the query builders, run_sqlite_query, the loop of init_sqlite_server) and
--     server/sql_helpers.c. `exec` stands for sqlite3_exec.
--   Server: server/responder.c and server_responder of server/main.c, over the worker's user, files, pipes
--     and sent messages, and the array of threads in listen_connections.
--   Address: address_from_url of lib/communication/fifo/comm.addr.fifo.c and of
--     lib/communication/socket/comm.addr.socket.c.
--   Client: client/commands.c (the table, cmd_parse and every command) and the loop of client/main.c.
--     The other side is a record of functions, `Peer`; Client/Link fills it with a worker of Server,
--     which ends when it has no place for one more thread or a message does not fit its block;
--     Client/Session states what a client asks of it. Client/Shell is the block that a line is typed
--     into.
--   Handshake: connection_open, connection_close, comm_listen and comm_accept of lib/communication/fifo, for
--     one client and the server as two processes that take steps in any order.
--   Server/Loop: the loop of a worker in listen_connections of server/main.c and the threads that it
--     starts, as moves of one process that come in any order. The lock is part of the state; what a
--     thread does with it is one load and one store of all that the threads share.
--   Monitor: monitor/main.c and post_status of server/monitor_helper.c: the message in the shared memory,
--     whose fields are written and read one by one, the table of workers and threads, and the rows of
--     the screen.
--   Config: server/server_config.c, client/client_config.c, read_config of monitor/main.c, and the URLs
--     that server/main.c and client/main.c make of a configuration and of an option.
--   Sockets: connection_open, connection_close, comm_listen and comm_accept of lib/communication/socket,
--     where what the calls of the system give is an argument.
--   Logging: server/logging_helpers.c and logging/main.c. The message queue of the system is a record of
--     functions and of the behaviour that is documented for them; Logging/Queues is a concrete one. What
--     waits in the queue that is opened, and whether the log file can be opened, is left open.
--
-- Fuel: the loop of the client is run for a number of turns, one for each line that is typed. The
-- SQLite process is run for as many rounds as there are bytes on its pipe, and each round takes a byte
-- at least. The other loops are recursions on what they read.
--
-- Blocks of memory and their terminators are modelled where their size limits what the code can do; a
-- block that is a byte or two too short for every input is taken as long enough in Sql; what the
-- terminator falls on that decode_to_raw_data writes behind its block is a parameter, `spares`, of Server. Processes and
-- threads are run to the point where they wait, since each pipe keeps its order; only in Handshake and
-- in Server/Loop their steps are taken apart. An uninitialised `comm_error_t` is an argument of the responder.
--
-- Not modelled: what the system does with sockets between its calls (in Client, making a connection is
-- the parameter `connect` of a `Peer`), two clients that open connections at once, the loop of the server
-- that accepts connections and forks a worker for each, the mapping of the shared memory, its semaphore
-- and the signal handlers, the start of the logging process, the texts that are logged, and the calls of
-- the system: fork, pthread, mkdir, sqlite3, ncurses.
pub mod Base
pub mod FileUtils
pub mod Arguments
pub mod Channel
pub mod Json
pub mod Serialization
pub mod Sql
pub mod Server
pub mod Address
pub mod Client
pub mod Handshake
pub mod Monitor
pub mod Config
pub mod Logging
pub mod Sockets
