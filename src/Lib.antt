-- ===== src/Lib.antt =====
-- ioproxy forwards data between IOs (sockets, servers, serial ports, the
-- console). An engine holds one handler per IO and links between handlers; data
-- that an IO emits is written to the IOs its handler is linked to. A command
-- line, or any client of the library, names the IOs and their parameters;
-- factories turn these into IOs.
--
-- Files, and the code they are about (src/ioproxy is the library,
-- src/ioproxy-cli the command line program):
--   Params            src/ioproxy/io/IOFactoryBase.hpp and .cpp: parameter
--                     definitions, the check of required ones, the reading of one
--   Factory/X         the factory part of src/ioproxy/io/X: its definitions,
--                     its options and create; UdpRemotes has the proofs on the
--                     loop of the UDP factory over its remote addresses
--   Factory/Builtin   the factories the engine registers, as one type of kinds
--   Io                src/ioproxy/io/IOBase.hpp: data packs, signals, calls
--   Handler           src/ioproxy/Handler.hpp and the setters of Handler.cpp
--   Engine            src/ioproxy/Engine.hpp and .cpp, with Handler::start and
--                     stop; Engine/Lookup (getIOHandler), Engine/Registry (the
--                     factories), Engine/Signals (the signals of an IO, through
--                     the slots of Handler.cpp to the IOs it is linked to)
--   CmdLine           src/ioproxy-cli/src/CmdLineConfig.cpp; CmdLine/Text has its
--                     string functions, CmdLine/Reading the recursion on the
--                     arguments that it is compared with
--   Device/X          src/ioproxy/io/X: the IO itself, as a state with its calls
--                     and slots: TcpServer, TcpSocket, WebSocket, WebSocketServer,
--                     Udp (with src/ioproxy/util/Util.cpp), SerialPort,
--                     ByteGenerator, FileReader, FileWriter (both over Files, the
--                     QFile of Qt), StdOut (with src/echo-plugin/EchoIO.cpp)
--   Application       src/ioproxy-cli/src/IOProxyConsoleApplication.cpp and
--                     Main.cpp: the start from the arguments to the running engine,
--                     the plugins (src/ioproxy/include/ioproxy/PluginAPI.hpp,
--                     src/echo-plugin/EchoPlugin.cpp), signals and the exit code;
--                     Application/Result has the results of its steps
--   Util              FileSize (src/ioproxy/util/HumanReadableFormatter.cpp),
--                     OsSignal (src/ioproxy/os) and Status
--                     (src/ioproxy-cli/src/ConsoleStatusPrinter.cpp)
--   Station           the virtual calls of src/ioproxy/io/IOBase.hpp, for an engine with
--                     IOs of two classes; Station/Recording has the proofs on an engine
--                     that records the data of an IO in a file, Station/Copying those
--                     on one that copies a file
--   Legacy/App        legacy/App.hpp: an older application, its start and stop
--   Legacy/Context    legacy/AppContext.hpp, IOHandler.hpp and IOHandler.cpp: its
--                     handlers and where they pass data on
--   Legacy/CommandLine  legacy/CommandLineInitializer.hpp: the walk of its command
--                     line and the connections
--   Legacy/Options    legacy/CommandLineInitializer.hpp: the options of IOs, as an
--                     older command line reads them
--   Legacy/Factory    legacy/Factory.cpp: the same in an older factory
--   Legacy/WebSocketServer  legacy/WebSocketServerIO.hpp: an older server of web sockets
--   Legacy/TextIo     legacy/TextIO.hpp: an older IO that makes text
--   Legacy/DataGenerator  legacy/DataGeneratorIO.hpp and .cpp: an older IO that makes data
--   Legacy/License    legacy/license/License.hpp and .cpp: the reading of a license
--   Relay             src/ioproxy/Engine.cpp, Handler.cpp and the IOs together: what IOs
--                     promise to an engine that writes to them (Relay/Flow), what can happen
--                     at them (Relay/Events), and engines of two IOs that are connected in
--                     both directions (Relay/Pair): a server and a client socket
--                     (Relay/Proxy, Relay/Failing), a server and a serial port
--                     (Relay/Bridge). Relay/Told, Relay/Heard, Relay/Said and Relay/Words
--                     see to what was read, and Relay/Broadcast to what a server sends
--                     on. Relay/Server, Relay/Client, Relay/Uncalled and
--                     Relay/Serial see to the devices
--   Base              what these share: errors, strings, maps, integers, variants
-- Child modules named Spec, Ending, Routing, Rule, Kept, Steps, Restart, Total,
-- Connecting, Names, Ids, Turns, Walk, RoundTrip, Counts, Reconnect, Traffic, Writes,
-- Startup, Same, Totals, Order, Recording, Copying, Glue, Lines, Connections, Delivery,
-- Starting, Launching, Wiring, Meaning, Complete, Written, Positions, Reports, Flows,
-- Stations, Slots, Rate, Emitted, Loop, UdpRemotes and Circle hold
-- proofs; Tests holds runs.
--
-- Correspondence: an engine is a record whose handlers are a list; a Qt
-- connection between two handlers is a pair of positions in that list, kept in
-- the order of the connects, and a handler keeps how often each signal of its IO
-- is connected to it, since a second start connects them once more. Object
-- pointers are positions; names are compared through the key of a name, which is
-- a parameter, as QString without case is not part of the code.
--
-- An IO is a parameter: a state and, for each call, the next state and the
-- signals that the call emits, handled as in Qt before the call returns.
-- QVariant conversions, QHostAddress and the folding of case are parameters.
--
-- The devices stand on Qt's sockets, ports and files, which are records of
-- functions on a state of the network or the disk; errors are composed by a
-- formatting function. What files do is taken from the documentation of QFile: a
-- read gives the next bytes up to its size, a complete write is in the file once
-- it is flushed, and no one else changes the file. Byte counts are natural
-- numbers, or integers where the code may add -1; their overflow at 2^63 is not
-- modelled. Divisions of doubles are parameters, exact below 2^53 where a theorem
-- says so. What was written to a connection in full is a function of the state of its
-- network, a parameter with the laws of Qt's calls; where a theorem is about a connection
-- that stays, a write does not end it. An engine takes any IO. The file writer is put into one in Station, beside an
-- IO that is a parameter or a file reader; the server and the client socket of TCP and the serial
-- port in Relay, where an event at a device is one of its slots, whose signals are handled
-- when it has ended; the other devices are not.
--
-- Fuel: the handling of signals takes a call depth, since links may form a
-- circle, in which case the code does not return; the theorems on ending give the
-- depth that is enough. The loop of the UDP factory takes a number of rounds; one
-- more than the number of given parameters is enough wherever it ends. The walk
-- over the command line takes the number of arguments and one. The start of the
-- application takes all three.
--
-- Not modelled: the loading of a plugin's file, which is a parameter that gives
-- plugins with factories of the repository's kinds, the usage text of the console
-- application, the registration of handlers of operating system signals, the
-- desktop program, which only wires its views, the small tools and the empty classes
-- beside it, third-party code, and logging.

pub mod Base
pub mod Io
pub mod Handler
pub mod Params
pub mod Factory
pub mod Engine
pub mod CmdLine
pub mod Device
pub mod Util
pub mod Station
pub mod Relay
pub mod Legacy
pub mod Application
mod Tests
