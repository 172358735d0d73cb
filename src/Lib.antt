-- ===== src/Lib.antt =====
-- Liso is a web server in C: one process, one loop over `select`, static files and one CGI program.
-- The parts and their files:
--
--   CString      the functions of the C library on strings that the source uses, on bytes
--   Utils        utils.c. Utils/Affix and Utils/Strip have its tests of affixes and strstrip
--   Buffer       buffer.c, buffer.h: an allocation, the size of its content, `data_p` as an offset.
--                Buffer/Laws has the lemmas on copies
--   Header       header.c, header.h: the list of headers without its guard node
--   Heap         which blocks of memory the constructors, resets and destructors of buffer.c, header.c,
--                request.c, response.c, cgi.c and conn.c take and give back, with a heap that fails on a
--                block that is not live. Heap/Owns has the rules for its commands, Heap/Blocks and
--                Heap/Makes the blocks of each structure, Heap/Pool pool.c and `liso_accept_conn` on
--                blocks, Heap/Stages what a stage does to those of its connection, Heap/Conns the blocks of
--                all connections, Heap/Life the whole from `pl_new` to `pl_free`
--   Request      request.h, and `req_new`, `req_reset` of request.c. Request/Scan has the macros by
--                which the parser moves, Request/Parse `req_parse`, Request/Pack `req_pack`;
--                Request/StartLine, Request/Headers and Request/RoundTrip are about the two together
--   Response     response.h, and the texts and the reset of response.c. Response/Build has
--                `resp_build`, Response/Serial `resp_hdr`, Response/Bounds the lengths of the texts.
--                Response/Framing is no code but the reading of a response by a client
--   Cgi          cgi.h, and the state of an exchange and its start in cgi.c. Cgi/Env has `envp_new`,
--                Cgi/Child the child of `cgi_init` up to its `execve`
--   Logging      logging.c, and `cgi_logerr` of cgi.c
--   Daemon       daemon.c
--   Client       client.c, the echo client
--   Conn         conn.h, and the making of a connection in conn.c. Conn/Recv has `cn_recv` and
--                `cn_parse_req`, Conn/Static the static files and error pages, Conn/Dynamic the CGI,
--                Conn/Safe the invariant of a connection that all of them keep
--   Pool         pool.c, pool.h: the array of connections and the sets of descriptors
--   Lisod        lisod.c: the callbacks and `liso_accept_conn`. Lisod/Serve has the body of the loop
--                over the connections, Lisod/Loop that loop, its rounds and a turn of `main`, Lisod/Turn the
--                states that turns reach. Lisod/Serve/Safe and Lisod/Memory are about the invariant of
--                Conn/Safe in a round and over turns. Lisod/Clients is the server without the order and the slots
--                of the array, a bag of sockets, Lisod/Start `main` up to its loop, `teardown` and
--                `signal_handler`
--   Base         helpers that all parts share
--   Tests        concrete inputs; Tests/Driver has the assertions of test_driver.c
--
-- How they interact. A turn of `main` (`main_turn`) copies the sets of the pool, takes the answer of
-- `select`, accepts on both listeners and serves each connection. Serving a connection
-- (`serve_conn`) is three stages, which call the functions of Conn; those take the success, error
-- and fatality callbacks as arguments, as the source does, and Lisod passes in the ones that reach
-- the pool. The state that a function can change is `Ctx`: the connection, the pool, and the world
-- outside as three lists that grow (descriptors closed, bytes sent to the client, bytes written to
-- the CGI). A connection is in one slot of the array, so that the array is a list of connections, and
-- the connection that is being served is written back when its round is over.
--
-- What the system answers is a parameter: `Net` for `recv`, `send` and their counterparts of
-- OpenSSL, `Files` for `stat`, `open`, `mmap` and `strftime`, `Spawn` for `pipe` and `fork`, `Turn`
-- for `select` and `accept`, `StartSys` and `DaemonSys` for the calls of a start,
-- `ClientSys` for the client. The hypotheses on them
-- are that a `send` or `write` takes no more than it is given, that a `recv` gives no more than it is
-- asked for, that an allocation has BUFSZ bytes, that `strftime` fills less than DATESZ bytes and a file
-- size is not negative and, where preparing is said to succeed, no multiple of 2^32, that `open` gives the
-- lowest free descriptor, that stdin and stdout are open where the daemon starts, and stderr too where a CGI
-- program does, that `pipe` gives descriptors that were free, and, where a response is said to end, that the socket
-- takes something in each call. What `malloc` gives is a parameter also (`Alloc`, `Raw`).
--
-- Integers. A buffer's size is the 64-bit pattern of its `ssize_t`; `clen` and `rsize` of a request
-- are integers with a sign; `atoi` reads any string, and wraps to an `int`. A descriptor that may be -1 is an option.
--
-- Memory. A write past an allocation is cut, and a copy that passes the end of the array `host` sets
-- the flag `overrun` of the model's request. Behind that the state is not that of the program, and the
-- theorems on the parser and on the memory of the connections speak of runs without it; a formatted text
-- that goes past the arrays of logging.c has such a flag too, and the theorem on the log asks for
-- texts that fit. Which blocks are allocated is the matter of Heap alone: its
-- structures are the addresses of the blocks without what they hold, the allocator is any function of
-- the live blocks, and a history of the pool says which connection goes through which stage.
--
-- Loops. The loop over header lines (`parse_lines`) has as many rounds as there are bytes left,
-- which is enough since each line moves `data_p`. The loop over the connections (`serve_from`) has
-- as many rounds as there are connections at its start: a round moves the index or shortens the
-- array. The loop that writes to the CGI (`write_all`) has as many rounds as bytes, since a write that takes
-- nothing ends it. Printing a number (`digits_fuel`) has more rounds than its digits.
--
-- Not modelled: what the server prints to stdout and stderr; the locks of logging.c, since one
-- process writes; the log lines of a child of `cgi_init`, and `envp_free`, which only the child calls;
-- the code under `DEBUG`; when a signal comes, that is, at which point of a turn its handler runs.
pub mod Base
pub mod CString
pub mod Utils
pub mod Buffer
pub mod Header
pub mod Heap
pub mod Request
pub mod Response
pub mod Cgi
pub mod Logging
pub mod Daemon
pub mod Client
pub mod Conn
pub mod Pool
pub mod Lisod
pub mod Tests
