-- ===== src/Lib.antt =====
-- sockspp is a SOCKS5 proxy server for TCP and UDP: a core library (src/core) and a server
-- (src/server).
--
-- The program. `Server::serve` (src/server/src/sockspp/server/server.cxx) polls the listening
-- socket and the sockets of all sessions and hands each event to the session that owns the
-- socket. A `Session` (session.cxx) is a state machine: handshake, request, connection, relaying.
-- It owns a client socket, a remote socket, for UDP an association's socket, and sockets of DNS
-- queries; the messages are views of memory from the core library (src/core/src/sockspp/core). A
-- handler that returns false ends its session.
--
-- How it is modelled. An event handler is a function on a `World`: the session, and the log of
-- all the system calls made so far, newest first. Whatever the operating system answers is a
-- function of the log (`Os` in System.antt), so that every behaviour of the system, call by call,
-- is an instance. A handler returns a Boolean and the new world, or a `Fault`: an exception that
-- nothing catches or an access that C++ leaves undefined, a memcpy of a negative size or between
-- overlapping regions included. Memory is a function from indices to bytes; a pointer into it is
-- an array and an index. Uninitialised memory is what `Os.garbage` says.
--
-- Base.antt: native numbers, Boolean tests (Base/Tests), lists (Base/Lists) and memory with
-- memcpy and htons (Base/Memory).
-- Core/Enums.antt: s5_enums.hpp. Core/S5.antt: s5.cxx; Core/S5/Layout: where the setters leave
-- each byte; Core/S5/Fields: the getters after them. Core/MemoryBuffer.antt,
-- Core/SocketInfo.antt, Core/IpAddress.antt, Core/Event.antt: memory_buffer.hpp, SocketInfo of
-- socket.cxx, ip_address.cxx, poller/event.hpp. Core/SocketInfo/Text: SocketInfo::str.
-- Core/Exceptions.antt: exceptions.hpp. Core/Poller.antt: poller/epoll_poller.hpp over the
-- system's epoll, a parameter; Core/Poller/Watched: what it watches. Core/Socket.antt: buffer.cxx
-- and the operations of Socket on a MemoryBuffer; Core/Socket/Buffers: what passes through them.
-- Core/Socket/Ownership: the objects of class Socket of socket.hpp, which descriptor each holds
-- and which were closed; Core/Socket/Ownership/Account: the account of them. Core/Regex.antt:
-- std::regex_match, by continuations; Core/Regex/Language: the language that it decides.
-- Core/Utils.antt: the two patterns of core/utils.cxx; Core/Utils/Octets, Core/Utils/Dotted and
-- Core/Utils/Groups: what they accept.
-- System.antt: the system calls and their answers, and the libraries that the code calls.
-- Session.antt: the data of session.hpp and of the socket classes, and the monad of the handlers.
-- Session/Calls: session_socket.hpp and the wrappers of socket.cxx. Session/Client:
-- client_socket.cxx. Session/Auth: the handshake. Session/Request: commands and addresses.
-- Session/Execute: _do_command, _connect_remote, _associate; Session/Execute/Resolved: what
-- follows a DNS answer. Session/Remote: remote_socket.cxx. Session/Udp: udp_socket.cxx.
-- Session/Dns: dns_socket.cxx. Session/Relay: _session_socket_send. Session/Events: the event
-- handlers. Session/Run: sequences of events; Session/Run/Tunnel with its children Opened and
-- Whole: a CONNECT session from the greeting to the relayed bytes; its children Credentials and
-- LogIn: the same with a log-in; Session/Run/Datagrams with its child Exchange: a datagram of an
-- association and the answer to it. Session/Teardown: constructor, shutdown, destructor.
-- Session/Valid: the invariant of a session, with a module for each group of handlers that keep
-- it. Session/Phases: the protocol of a session as a step relation, with a module for each group
-- of handlers; Session/Phases/Received: the datagrams that an association takes;
-- Session/Phases/Runs: sequences of events as paths of steps; Session/Phases/Begins: those of a
-- session from its first state; Session/Phases/Stable: the sockets that the other events of a
-- poll find. Their child modules hold the proofs and are named for what they prove.
-- Server/Params.antt: server_params.hpp, get_auth_method, authenticate; Server/Auth: their law.
-- Server/Loop.antt: the event loop; Server/Loop/Startup: what serve does before the loop;
-- Server/Loop/Polls: what a poll may report; Server/Loop/Live, Server/Loop/Valid with its
-- children Serving and Whole, Server/Loop/Ends, Server/Loop/Fuel and Server/Loop/Startup/Opening:
-- the proofs. Server/Setup.antt: the constructor and get_dns_nameservers of server/utils.cxx;
-- Server/Setup/Nameservers and Server/Setup/Disabled: what they mean for a file and for requests.
-- Cli.antt: parse_params of src/server_cli/src/cli.cxx; Cli/Main: sockspp_main; Cli/Main/Exits:
-- how a run ends.
-- Examples.antt and its children: concrete systems and sessions at which the theorems are
-- applied.
--
-- Bounds and fuel. The loop over a batch of events runs once for each event: the fuel of
-- `process_rounds` is the length of the batch, since clearing events keeps its length. The loop
-- over the polls is recursion on the list of what the polls return. `size_t` arithmetic is modulo
-- 2^64 where the code can wrap (`sub_size`, `_connecting_idx`). The host is little-endian. A
-- receive buffer has 8192 bytes.
--
-- Not modelled: the writing of the log, with the reading of a table of texts at the RCODE of a
-- failed DNS answer (dns_socket.cxx), which passes its end for an RCODE above 5; the handler of
-- SIGINT, which may close the listening socket at any time, also inside a batch, while a poll
-- that a signal interrupts is modelled; hooks that a user overrides; Windows; the release of heap
-- memory; the ends of arrays of bytes: what is read behind the bytes that were received is what
-- `Os.garbage` says, also where it lies behind the array; dnslib and argparse, which are copies
-- of other projects' libraries: the two calls of dnslib (`DnsLib`) and what argparse finds on the
-- command line (`ArgumentParser`) are parameters, as inet_pton, inet_ntop, malloc and the content
-- of /etc/resolv.conf are.
pub mod Base
pub mod Core
pub mod System
pub mod Session
pub mod Server
pub mod Cli
pub mod Examples
