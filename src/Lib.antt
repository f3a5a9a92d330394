-- ===== src/Lib.antt =====
-- libivy: a library for agents that exchange text messages over a bus. Each agent announces itself
-- by a broadcast, opens a socket to every other one, and sends them the regexps of the messages
-- that it wants; a message goes to the agents whose regexps match it, as the texts of the groups.
--
-- The parts, and the files that model them:
--   Base       the names that all share; Base/Lists has the macros of src/list.h, on the values of
--              a list, and Base/Memory the `memcpy` of a block into an array.
--   Fifo       src/ivyfifo.c, the circular buffer of a congested socket. A pointer is an offset, an
--              array a list of bytes. Fifo/Contents is the abstract view, the queue of the bytes
--              held; Fifo/Loops has the loops of reading and writing, Fifo/Growth the
--              larger array, Fifo/Refine the operation `write`, Fifo/Draining the loop that sends.
--   Socket     src/ivysocket.c, `BufferizedSocketSendRaw` with its callers and
--              `HandleCongestionWrite`. A client is its fifo, its two flags and the bytes that the
--              system has taken; Socket/Stream states what the peer gets. Socket/Receive has
--              `HandleSocket`, Socket/Cutting its loop over the lines, and Socket/Lines what it
--              makes of a stream in pieces; Socket/Reply has `SocketWaitForReply`. Socket/Sockets
--              has the lists of clients and servers, `HandleServer`, `SocketServer`,
--              `SocketConnectAddr`, `SocketBroadcastCreate`, `DeleteSocket` and
--              `DeleteServerSocket`; Socket/Descriptors is about their descriptors.
--   Timer      src/timer.c, the timers of the select loop: Timer/Timeout has the time that select is
--              given, Timer/Scan the calls of the callbacks, which are an argument.
--   Filter     src/ivybind.c, the list of message classes; Filter/Classes has what it lets through.
--              Filter/Binding has `IvyBindingCompile`, `IvyBindingExec` and `IvyBindingMatch` over
--              PCRE2, Filter/Slices where the groups of a match lie.
--   Interval   src/intervalRegexp.c, the regexp of an interval of integers: Interval/Generator has
--              `regexpGen` itself, Interval/Substitute `substituteInterval` of src/ivy.c.
--              Interval/Faults is about intervals with two ends, Interval/Written and Substitution
--              about a text with intervals; Interval/Engine is what is taken from a regexp engine,
--              Interval/Groups and AtRank are about the regexp of a group of numbers.
--   Discovery  src/ivydiscovery.h, the parser of a broadcast, and the line that `IvyStart` of
--              src/ivy.c sends. Discovery/Numbers and Discovery/Fields are about its parts.
--   Registry   src/ivy.c, `allClients` and the dictionary of regexps. Registry/Clients has the
--              functions that keep the two in step; Registry/Views the abstract view, the list of
--              the subscribers of a regexp; Registry/Dictionary, Departure, Keeping, Leaving and
--              Change what the functions do to it. Registry/Cache has the array of entries that
--              OPENMP runs over, Registry/Mirror its relation to the dictionary.
--   Dispatch   src/ivy.c, `IvySendMsg` and `RegexpCall`: the frames of a message for the subscribers
--              in the dictionary of Registry; Dispatch/Delivery has who gets it.
--   Message    src/ivy.c, the arguments of a message as they are written and read.
--   Wire       src/ivy.c, the lines of the protocol as they are printed and scanned.
--   Bus        src/ivy.c, an agent: its static variables, what it does, and what it is told by the
--              outside. Bus/Receive has `Receive` with `CheckConnected` and `IvyCleanup`,
--              Bus/Session `SendService`, `ClientCreate`, `ClientDelete`, `BroadcastReceive` and the
--              functions of the application. Bus/Connected, Heard and Sending have lemmas; Bus/Safe
--              and Bus/Lines are about any line, Bus/Delivered about messages on their way from one
--              agent to another, Bus/Additions and Bus/Subscribed about regexps on theirs,
--              Bus/Meeting and Bus/Ready about agents that meet, Bus/Ping about a ping,
--              Bus/Asking about what an application asks for.
--   Address    src/ivy.c, how `IvyStart` takes the address of a bus apart: Address/Elements has the
--              numbers of a network, Address/Networks the loop over the networks, Address/Start
--              the whole.
--   Buffer     src/ivybuffer.c, `make_message`, with `SocketSend` and `SocketBroadcast` of
--              src/ivysocket.c; Buffer/Growth has its loop.
--   Loop       src/ivyloop.c, the channels of the select loop: Loop/Deletion has their deferred
--              deletion, Loop/Exceptions what an exceptional condition does. Loop/Main has
--              `IvyMainLoop` with its hooks and the timers of Timer, Loop/Requests what handlers ask for, and
--              Loop/Rounds what the rounds make of it.
--   Probe      tools/ivyprobe.c, the probe: Probe/Commands has `HandleStdin`, what a user types at
--              an agent of Bus, and Probe/Files `BindMsgOfFile` and `BuildFilterRegexp`.
--              Probe/DieAll is about the command that ends all agents, Probe/Regexps about a file
--              of regexps. Bus/Applications has what the probe asks of the agents that are there,
--              Bus/Names how their names are put into an array.
--
-- A fifo is what a client of Socket keeps, and the clients of the registry are the users of its
-- sockets: the registry names them by the socket's number.
--
-- Fuel: a loop of the fifo takes a byte in each round, so that it runs once more than there are
-- bytes at most; the loop over the arguments of a message consumes a byte in each round; the loop
-- of `delOneClient` over a client's regexps takes one or more of them in each round, and the loop
-- over the messages in a receive buffer a byte or more; a round of `make_message` that does not
-- print makes the buffer larger; the loops of `nextMax` have more rounds than the array of 32 bytes
-- has cells; `regexpGen` calls itself one level deep; each round of `substituteInterval` takes a
-- mark from the text; a round over a file or over names takes a byte from it. Each loop is given
-- that much. The loop that sends takes an answer of the system in each round, and is unfinished
-- where the answers listed are over.
--
-- Words: an `unsigned int` wraps at 2^32, written out where the code computes a size or a number.
-- The bytes that are written at once are fewer than 2^31, an `int` of the callers.
--
-- Not modelled: memory that runs out (the code ends the program, or goes on with a NULL pointer),
-- the locks of OPENMP, the branches for WIN32 and for regex.h, traces. uthash and the regexp
-- compiler are the fields of a record, with what is documented of the first as a hypothesis; what
-- vsnprintf answers is an argument. Times are numbers of microseconds, and the clock of the timers
-- does not go back; that of a ping may. Of `IvyStart` the address is modelled, in the mode of IPv4;
-- opening sockets is input and output. A handler of the select loop, a hook round select and a
-- callback of a timer ask for changes of the channels and of the timers, and for the end of the
-- loop. A callback of the application is noted as an action and does not call back into the
-- library. The main loops of other toolkits, the Tcl binding and the other tools have no file here;
-- of the probe, what only prints and the options of main are left out.
pub mod Base
pub mod Fifo
pub mod Discovery
pub mod Registry
pub mod Message
pub mod Socket
pub mod Timer
pub mod Filter
pub mod Dispatch
pub mod Wire
pub mod Bus
pub mod Address
pub mod Buffer
pub mod Loop
pub mod Interval
pub mod Probe
