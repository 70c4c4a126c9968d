-- ===== src/Lib.antt =====
-- Conpot, a honeypot for industrial control systems: models of its core and of seven protocols.
--
-- The program's parts. A databus (conpot/core/databus.py) holds the values of the pretended plant by
-- key; protocol servers read and write it, and observers are called when a key changes. A session
-- manager (conpot/core/session_manager.py) gives each protocol and peer address one attack session
-- (conpot/core/attack_session.py), which keeps the events of the peer and puts them into a queue for the
-- loggers. Each protocol server turns the bytes of a connection into requests, asks the databus and
-- answers.
--
-- Files and code.
-- Core/Databus: databus.py; `set_value`, `get_value`, `notify_observers` (as `notify_begin` and
-- `notify_wake`, before and after its sleep), `observe_value`, `reset`. The template that `initialize`
-- reads is not modelled.
-- Core/Session: session_manager.py and attack_session.py. Identities and times are arguments. Queues
-- stand in a list, and a reference to a queue is an index.
-- Kamstrup: conpot/protocols/kamstrup/meter_protocol. Frame has the constants, the escaping and the
-- checksum test, Messages requests and responses, RequestParser request_parser.py, CommandResponder
-- command_responder.py, Decoder decoder_382.py and Server the loops of kamstrup_server.py, over what each
-- round of the outer one meets; where nothing arrives any more it waits. The function `crc16xmodem` is a
-- parameter.
-- Kamstrup/Management: conpot/protocols/kamstrup/management_protocol. Addresses has `parse_ip`, `parse_port`
-- and `try_parse_uint`, Commands and its children the commands of commands.py, Responder
-- command_responder.py and Server the connection. The commands run on the databus of Core/Databus;
-- Effects states what each may write.
-- Guardian: conpot/protocols/guardian_ast. Tanks has the values that are set up for a connection, Reports the
-- five reports, Server the loop; times, random numbers and the printing of floats are parameters.
-- S7comm: conpot/protocols/s7comm. Tpkt, Cotp and S7 are the three packets; S7/Diagnostics answers requests
-- for system status lists, and Server is `handle` of s7_server.py: the handshake and the loop over
-- requests. Its timeouts are not modelled. `struct.pack` of an identification goes field by field.
-- Ipmi: conpot/protocols/ipmi. State has the attributes of the server and of a session, Payload the checksum,
-- the padding and the packets of fakesession.py, Session sending and closing, Handshake the messages that open
-- a session, Users and Commands `handle_client_request`, and Server the way of a datagram from `handle` down;
-- its children prove what a datagram keeps, and which one opens a session. HMAC, AES, the random bytes, `_initsession`, `ServerSession` and
-- `Bmc.handle_raw_request` are parameters. Only the keys of `sessions` are modelled, since its values are
-- never read; timers and retransmission are not modelled.
-- Modbus: conpot/protocols/modbus. Memory has the blocks and `add_block`, Slave `handle_request` and
-- `_device_info`, SlaveDb the routing to slaves, Server `handle` of
-- modbus_server.py. What the package modbus_tk implements is a parameter.
-- Http: conpot/protocols/http/command_responder.py. State has the configuration, a request and a connection,
-- Config the constructor of `SubHTTPServer`, the look-up of nodes and the delays, Wire the status line, the
-- headers and the chunks, Template `TemplateParser`, Load `load_status` and `load_entity`, and Handlers the
-- methods (`do_GET` is `do_get`) and `send_error`. A node holds the texts of its elements, and a path is ASCII text. What lxml,
-- HTMLParser, the file system, remote systems and `eval` give is a record of functions, `World`; the
-- headers of a request stand in the order in which Python gives them. `load_status` calls itself for a
-- remote system that fails; its fuel is the depth of calls that Python allows, and two is enough.
-- Prelude has bytes, exceptions as values, the formats of `struct`, lists and dictionaries; Tests has the
-- theorems at concrete inputs.
--
-- Choices. An exception that leaves a function is a value, `err e`, beside the state that the code leaves.
-- Bytes are native numbers, and a theorem that needs them below 256 says so. `x >> 8` is `x / 256` and
-- `x & 0xff` is `x % 256`. A `while` loop is a recursion on the bytes that are left where each round takes
-- some; otherwise it takes fuel: the loop of `dissect` the length of its chunk (each round takes three
-- bytes), the loop of a connection one more than the bytes in its parser (each request takes one), the
-- loop of `add_event` one more than the largest key, the loops of the S7comm server one for each packet,
-- those of the Modbus server one more than the bytes and the pieces that are left, the loops over
-- registers and diagnostics the length of what they read. Logging, sockets, time and the reading of the
-- XML templates are left out.
--
-- Not modelled. The usage simulator, and `initialize` of the databus, which evaluates Python text of the
-- template. SNMP, BACnet and OPC UA: subclasses and callbacks whose course is
-- that of pysnmp, bacpypes and opcua. The emulators and the loggers: input and output with devices,
-- databases and services.
pub mod Prelude
pub mod Core
pub mod Guardian
pub mod Kamstrup
pub mod S7comm
pub mod Modbus
pub mod Http
pub mod Ipmi
pub mod Tests
