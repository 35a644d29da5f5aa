-- ===== src/Lib.antt =====
-- Network programs: the samples of a book on network programming in C, modelled and verified.
--
-- The parts and their files. Each function of the source is a function here, under the source's name;
-- what a system call gives is an argument (a list of rounds, events or results), and a list that ends
-- before the program does leaves it blocked. Memory is a list of bytes, and a write outside of an array
-- is the outcome `fault` (Prelude/Outcome).
--
-- - Integer: the C type `int`, what a number becomes that is stored in 32 bits.
-- - CString: `mystrlcat` of chapter06/timeout.c and the cut of a line at CR or LF. CString/Strlcat
--   has its specification. Echo: `send_recv_loop` of chapter06/timeout.c, which uses both; the array
--   that outlives a pass is part of the state. Echo/Reply compares it with the replies one expects.
-- - OneLine: `recv_one_line_1` and `recv_one_line_2` of chapter06/oneline.c. OneLine/Fixed has the fixed
--   array, OneLine/Stored, OneLine/Whole and OneLine/Grown the growing one, which calls the former. The
--   fuel of `recv_one_line_2` is one more than the receives given, and each round takes at least one.
--   OneLine/Dialogue is `send_recv_loop_1`, and OneLine/Replies what a client gets from it; one more fuel
--   than bytes sent is enough. OneLine/Variable and OneLine/Lines are the same for
--   `send_recv_loop_2`, on one more fuel than lines sent.
-- - Timeout: the six loops of chapter06/timeout.c that receive with a timeout, and in Timeout/Mode the
--   choice of one by `main`. Receive: the calls around the loops and `recv_with_timeout`, with the
--   settings of the socket that they change. Receive/Spec compares the six with one specification,
--   Receive/Restores has the settings afterwards.
-- - Sender: the request queues of chapter05/server9.c, a ring between the accept thread (`receive`) and
--   a sender thread (`pick` under the lock, `reply` outside of it). Sender/Fifo has the histories, every
--   interleaving of the three. A slot's content is one datum: the mutex and the condition variable are
--   taken to do what POSIX says, and a slot is not written while its reply is made unless the ring has
--   overflowed.
-- - Server: the accept thread of chapter05/server9.c, `server_socket` and `accept_loop`, which calls
--   `receive` of Sender. Server/Socket has what `server_socket` leaves behind, Server/Children the
--   connections that are open.
-- - RawUdp: `checksum`, `send_udp_raw` and `check_packet` of chapter10/raw-u-client.c, on a little-endian
--   host. The loop that folds the sum runs at most 3 times on 32 bits, which is its fuel.
--   RawUdp/Session is the client's loop over the keyboard and the socket, RawUdp/Safe when it stays
--   inside its arrays.
-- - Pdump: chapter10/pdump.c, the arguments, the port filter and the rows of `print_data`; Pdump/Analyze
--   has what `analyze_packet` prints, Pdump/Print and Pdump/Headers the texts of the headers, on 8 digits
--   of fuel for a number of 32 bits in hexadecimal, Pdump/Capture the loop, Pdump/Device the interface.
--   Pdump/Rows has the rows, on one more fuel than bytes in memory, Pdump/Pieces and Pdump/Tcp a TCP packet
--   over IPv4, Pdump/Filter the filter, Pdump/Printed and Pdump/Arp that the texts are printed without
--   reading past an array.
-- - Http: httpd/httpd2.c. Http/Number has `atol`, `atoi` and the printing of a number, Http/Read the reading of a
--   request (Http/Read/Header where its header ends), Http/Respond the responses (Status, Head and File what holds of them), Http/Start the
--   options, `setup_environment` and `listen_socket`. The loop over the header lines has one more fuel than bytes to read.
-- - Multiplex: `accept_loop` and `send_recv` of chapter05/server2.c (select) and chapter05/server3.c (poll),
--   which answer as Echo does. Multiplex/Serve has the loop over the ready connections, View, Kept and
--   Passes the table as a set of connections, Targets and Polling compare the two servers, Mask has the
--   width given to `select`.
-- - Telnet: `recv_data` and the loops of chapter05/telnet1.c, telnet3.c and telnet5.c. Telnet/Items has the
--   server's text and commands, on one more fuel than these, Waits the keyboard beside the socket,
--   Nonblocking the socket that does not block.
-- - Prefork: the threads of chapter05/server8.c that take turns in `accept`, as steps under a schedule;
--   Prefork/Exclusion has the lock, Prefork/Progress that it is handed on. Spawn: how the sender threads of
--   chapter05/server9.c and server9bug.c get their number. Sender/Drain: the sender thread's loop once
--   nothing more is received.
-- - Connect: `client_socket_with_timeout` of chapter04/client-timeout.c, and in Connect/Leaves what it
--   leaves behind.
-- - Certificate: `like_check_ignorecase` and `post_connection_check` of chapter11/ssl-server.c, on what OpenSSL
--   finds in the certificate. Certificate/Matching has the strings that a pattern matches, StarLoop and Like
--   compare the check with them, Accepts has the certificates let through.
-- - Udp: the sockets and the loop of chapter09/u-server.c and u-server-m.c, and `send_recv_loop` of
--   chapter09/u-client.c (`answer_loop` and `client_loop` here). Udp/Replies has the answers, Udp/Target the host
--   and the port of a line, Udp/Arrays and Udp/Played what the client shows and sends for the lines as
--   it reads them, Udp/Typed the same for what is typed.
-- - Ssl: `server_ctx` and `send_recv_loop` of chapter11/ssl-server.c, over Certificate and Echo, and in
--   Ssl/Guard whom the server answers.
-- - Chat: `send_recv_loop` of chapter04/client-timeout.c (`talk_loop` here), and Chat/Talk what it shows and
--   sends. Ssl/Client: `client_ctx` and `send_recv_loop` of chapter11/ssl-client.c over it.
-- - Load: `send_recv_loop` of the load client chapter05/testclient.c (`load_loop` here), and in Load/Served that
--   it accepts what the dialogue of Echo sends.
--
-- Not modelled: what the programs but pdump print for a person to read, the name of the peer, signal
-- handlers but for the flag `g_end` of telnet1.c, `fork` and threads beyond the steps above, a failed
-- `malloc` of httpd2.c (it ends the process), the calls of OpenSSL and libevent, the generated lexer
-- and parser, and the programs that repeat the text of another one around other system calls: the
-- remaining echo servers of chapters 01, 03, 05 and 06, the broadcast, multicast and IPv6 variants of
-- the UDP programs, and those of chapters 08 and 12.
pub mod Prelude
pub mod Integer
pub mod CString
pub mod OneLine
pub mod Timeout
pub mod Receive
pub mod Echo
pub mod Sender
pub mod Server
pub mod RawUdp
pub mod Pdump
pub mod Http
pub mod Multiplex
pub mod Telnet
pub mod Prefork
pub mod Spawn
pub mod Connect
pub mod Certificate
pub mod Udp
pub mod Load
pub mod Chat
pub mod Ssl
pub mod Tests
