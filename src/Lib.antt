-- ===== src/Lib.antt =====
-- A model of the web server, and what holds of it.
--
-- The server reads a configuration file, makes a request handler for each location in it, parses
-- the requests that its sessions read, and dispatches the responses of the handlers. A byte is a
-- number below 256, a string a list of bytes, and `std::map` a list of pairs in the order of the keys
-- (Base/Bytes, Base/Map). An `int` is an integer that is in range, and `unsigned long long` a number
-- below 2 ^ 64 whose operations wrap around.
--
-- RequestParser, for include/request.h, include/request_parser.h and src/request_parser.cc: the state
-- of the parser (State), the request (Request), `NextCharHandler` with one function per case of its
-- switch (Step), the path that is inferred from the URI (Path), `Parse`, `getMethod` and
-- `getHeaderMap` (Parse), `SetUri` on the text that is kept (Raw), and `std::stoull` and the read of
-- two hexadecimal digits as the standard documents them (Numbers). `none` stands for undefined
-- behaviour. `Parse` recurs on its input.
--
-- Config, for include/config_parser.h and src/config_parser.cc: the tree of statements and `ToString`
-- (Syntax), `ParseToken` and `getToken` (Lexer), and `Parse` (Parser), whose stack of pointers into
-- the tree is the list of the open blocks. Its loop has fuel for one round more than there are bytes,
-- which is enough since each token but the last takes a byte.
--
-- Http, for include/response.h and src/utils.cc: status codes, responses, decimal numbers, and the
-- functions of `Utils` but those that apply regular expressions of boost, which Session has.
--
-- Handlers, for src/status_handler.cc, src/echo_handler.cc, src/error_handler.cc and
-- src/health_handler.cc: the log that all handlers write to is passed as state.
--
-- Dispatcher, for src/dispatcher.cc: the writes that `dispatch` asks the socket for, in order. How many
-- bytes `write_some` takes is a parameter, of which it is assumed that it is positive where bytes are
-- offered. The loop has fuel for as many rounds as there are bytes. When the socket gets to a write, and
-- whether one is overtaken by another, is not modelled.
--
-- Cache, for src/cached_page.cc and the cache of src/proxy_handler.cc: pages (Page), the decision on
-- the directives of a request (Control), and the map of pages (Store). Time is an argument, in seconds.
--
-- Proxy, for src/proxy_handler.cc and src/cache_handler.cc: the links of a page (Html), the
-- directives of a request (Directives), the callbacks of curl (Transfer), and `handleRequest`,
-- `setLocation` and `Init` (Handler). What curl makes of a destination is a parameter, and so are the
-- trims of boost; `none` is an exception or an access out of bounds. The loop over the directives has
-- fuel for one round more than there are bytes, which is enough since a round takes a comma.
--
-- Static, for src/static_file_handler.cc: the type of a file by the regular expressions of the
-- standard library (Types, on Base/Regex, which matches by derivatives), `Init` and `replace_path` on
-- the roots that all static handlers share (Paths), and the responses (Files). What stands under a path
-- is a parameter. The search for a root has fuel for one round more than the directory has bytes, since
-- a round takes a slash from it. Patterns and Names say which texts the regular expressions find, with
-- the language of an expression in Base/Language; Roots and Locations are about the search and about
-- `Init`, Sent and Kinds about what a file is sent as.
--
-- Port, for src/port.cc: `checkPortNum` on the text of the file, with `isValid` and `isNumeric`
-- (Number), `setConfigBlocks` (Blocks) and `checkFilePath` (Paths). The loop over the tokens of
-- `checkPortNum` has fuel for one round more than there are bytes, as above; the fuel of the other two
-- is an argument, since their loops need not end.
--
-- Server, for src/server.cc and src/main.cc: `createHandler` and the constructor (Handlers), which
-- makes the map of handlers of the blocks that Port reads, and what these handlers do to the state that
-- they share (Serve), which is the parameter of Session. Files, transfers and the clock are given for
-- each request by its number. `main` goes from the text of the configuration file to the server (Start).
-- Makes says of which blocks handlers are made, Promises what the services without files answer, and
-- Answers, Files and Delivered what comes of a request.
-- Sessions has `start_accept`, `handle_accept` and the loop of the io_service: the state of the server
-- with all its sessions, the operations that each has started on its socket, and a step for each one
-- that completes, with an error or without (State has a session and its events). Which one completes
-- next, the bytes that it brings and the memory of a new session come from outside. The handlers of the
-- io_service run one at a time, as `main` runs it in one thread.
--
-- Session, for src/session.cc and the tests on texts of src/utils.cc: which texts are requests, lines
-- and headers (Checks), where boost's match of a pattern is a parameter; `handle_read`,
-- `long_string_handler`, `handle_write` and `bad_request` (Reading); the array that the socket reads
-- into, and the text that is found in it (Buffer); the search for the handler of a
-- URI (Routing); and `handler_task` and `good_request` (Tasks), whose handlers are a parameter: what
-- each does to the log and to the rest of the state that they share. The search has fuel for one round
-- more than the URI has bytes, since each round takes a slash from it.
--
-- Logging, for include/logging.h and the format of src/logging.cc: the attributes that the lines share.
--
-- Tests: runs, and the theorems at concrete inputs.
--
-- Not modelled: the threads that run a handler or send a bad request back, which are one step with what
-- starts them; an error that `write_some` throws; the signals of src/main.cc; the lines of the log, and
-- the sinks of src/logging.cc, which are input and output. src/response.cc is not part of the build.
pub mod Base
pub mod Cache
pub mod Config
pub mod Dispatcher
pub mod Handlers
pub mod Http
pub mod Logging
pub mod Port
pub mod Proxy
pub mod RequestParser
pub mod Server
pub mod Session
pub mod Static
pub mod Tests
