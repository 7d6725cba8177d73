-- ===== src/Lib.antt =====
-- xbdm_gdb_bridge: the bridge between GDB and the debug monitor of an Xbox. GDB's packets come in
-- over one TCP connection, the replies of the monitor over another, and a shell takes commands
-- from the user. This library models the parts of the bridge that compute on bytes and text, and
-- proves what makes them correct.
--
-- Prelude (with Prelude/Tests and Prelude/Lists) holds the shared names: Boolean tests on native
-- numbers, lists measured by them, byte strings. Cstd holds what the program uses of the C
-- library: character classes, memchr, strtol, strtoul, %02x; Cstd/Laws has its lemmas.
--
-- Gdb: src/gdb. Gdb/Packet is gdb_packet.h and gdb_packet.cpp (EscapeBuffer is escape_buffer,
-- Mod256Checksum mod256_checksum, Parse parse, Serialize serialize, UnescapeBuffer
-- unescape_buffer); Packet/Escape and Packet/Parse hold its lemmas. Gdb/Transport is
-- gdb_transport.cpp on top of the buffers of Net/Connection: Send is send, OnBytesRead
-- on_bytes_read, ProcessUnescapedReadBuffer process_unescaped_read_buffer, and receive puts what
-- recv returned in front of it. The state is the record GdbTransport; the calls of the packet
-- handler are the list delivered. Transport/Process, Transport/Receive and Transport/Acks hold
-- what is proved.
--
-- Expr: src/xbox/debugger/debugger_expression_parser.h and .cpp. Expr/Token has the tokens,
-- precedences, errors and the result type; Expr/Lexer is Tokenize, Expr/Registers
-- ResolveRegisterValue, Expr/Parser the Pratt parser (ParseExpression, ParsePrefix, ParseInfix)
-- and Parse. Parser/Grammar is an independent description: expression trees, their tokens and
-- their values. The reader of the debugged machine's memory is a parameter; where a theorem needs
-- it, IsEnvironment says that it returns bytes and that registers fit 32 bits. Types/ThreadContext
-- is src/rdcp/types/thread_context.h, Types/MemoryRegion memory_region.h and memory_region.cpp.
--
-- Args: src/util/parsing.h and parsing.cpp. Args/Integers is ParseInt32 and its relatives,
-- Args/Data the fields of ArgParser, Args/Tokenizer Tokenize, Args/Flatten Flatten and
-- FlattenArgs, Args/Parser the constructors, tests, conversions and SplitAt, Args/Commands
-- SplitCommands. The ExpressionParser that a conversion may call is a parameter.
--
-- Net: src/net. Net/Connection is tcp_connection.cpp with the Close of tcp_socket_base.cpp: Send
-- is send_bytes, Process process, FlushAndClose flush_and_close; what select, send and recv report
-- are arguments. Connection/Order and Connection/Flush hold what is proved.
--
-- Rdcp: src/rdcp. Rdcp/Response is RDCPResponse::Parse of rdcp_response.cpp; the function that
-- finds the size of a binary body is a parameter, and a range whose ends are out of order is the
-- outcome out_of_bounds. Rdcp/Request is the text of a request (rdcp_request.h and .cpp).
-- Rdcp/Requests has the constructors of xbdm_requests.h and xbdm_requests.cpp, one function each,
-- that returns nothing where an assertion fails: Requests/Breakpoints, Execution, Files, Memory,
-- Settings, Devices and Profiling; Requests/Sizes and Numbers hold what is proved.
-- Rdcp/MapResponse is RDCPMapResponse of rdcp_response_processors.h and .cpp, with the tokens that
-- boost makes of the text as a parameter, and MapResponse/Fields what is proved of it.
-- Rdcp/Transport is xbdm_transport.cpp on a TcpConnection: the queue of requests, Send,
-- OnBytesRead (on_bytes_read, with receive in front of it for DoReceive), Connect and Close; the
-- calls of Complete and Abandon are the list endings. Transport/Queue has the runs of calls, and
-- an abstract service of requests, Serves and Reach, which Transport/Refinement shows the
-- transport to implement; Transport/Order follows from it. Transport/Answers, Sending and Faults
-- are about the replies.
--
-- Notification: src/notification. Notification/Parse is ParseXBDMNotification of
-- xbdm_notification.cpp, as far as it chooses the type of a message, with the registry of
-- constructors; Notification/Transport is xbdm_notification_transport.cpp, with the messages that
-- it passes on as a list. HandleNotification is a function of one of them and of the bytes behind
-- it, which strchr can read.
--
-- Bridge: src/xbox/bridge. Bridge/Registers is GetRegister and the two SetRegister of
-- gdb_registers.cpp, Bridge/Serialize is SerializeRegisters; the 64-bit byte swap that the build
-- selects is a parameter. The rest is gdb_bridge.cpp: Bridge/Interface is the record Debugger of
-- the operations of XBDMDebugger that the bridge calls, on a state of their own, and the record
-- Boost of the four functions of boost, of which IsBoost says what boost documents (ConcreteBoost
-- has functions that do); Bridge/State is the record GdbBridge, its replies and
-- SendThreadStopPacket, Bridge/Numbers the round trip of hexadecimal numbers; Bridge/Commands has
-- a module for each group of handlers, Commands/Dispatch is HandlePacket and
-- Commands/Notifications is OnNotification. The modules below them hold what is proved. The bridge
-- sends through the GdbTransport of Gdb/Transport.
--
-- Tracer: src/tracer/image_util.cpp. Tracer/Image has the conversions of pixel formats
-- (RGB565ToRGB88 is rgb565_to_rgb88, BGRAToRGBA bgra_to_rgba and so on); what they leave unwritten
-- in their buffers is not modelled, nor the DDS and PNG encoders.
--
-- Numbers are native; a 32-bit or 64-bit integer is its bit pattern, with the wrap-around written
-- out. Loops are structural recursion but for five on fuel: process_loop has one unit more than
-- there are bytes, and each round takes a byte; message_loop too, and each round takes two;
-- tokenize_loop has one unit more than there are characters; the parser has three units for each
-- token and four more. read_document, GDB's side of reading the description of the target, has one
-- unit more than the document has bytes. That each is enough is part of the theorems.
--
-- Not modelled: the system calls on sockets, threads and locks, logging, files, characters above
-- 127 in an expression, the text of the expression parser's errors (an error is a constructor with
-- the values of its text), what the requests of the monitor make of their responses, the contents
-- of notifications, the debugger behind its interface, the DXT loader, the tracer's files and the
-- shell's commands.
pub mod Prelude
pub mod Cstd
pub mod Types
pub mod Net
pub mod Gdb
pub mod Expr
pub mod Args
pub mod Rdcp
pub mod Notification
pub mod Bridge
pub mod Tracer
