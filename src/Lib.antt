-- ===== src/Lib.antt =====
-- The content delivery network of this repository: hosts offer contents and announce them, routers learn
-- from announcements where a content is, send requests towards it and responses back.
--
-- Base holds what all parts share: Boolean tests on the native numbers, lists, the integers that
-- model `int`, and `Exec`, the result of code that may run past a buffer, throw
-- `std::out_of_range`, or finish.
--
-- Wire models the packets of Simplified Version/Code/common.h, common.cpp and CommonProject.cpp:
--   Wire.Header, Wire.Integers  class PacketHdr: setOctet is set_octet, getIntegerInfo is
--                               get_integer_info, and so on
--   Wire.Packet                 class Packet, and the buffers of SendingPort and ReceivingPort
--   Wire.Make                   MakeRequestPacket, MakeResponsePacket, MakeAnnouncementPacket
--   Wire.Address                class Address: setHWAddrFromColonFormat, convertHWAddrToColonFormat
--   Wire.Received, Wire.RoundTrip  what a port receives of what another sends
-- An access past an allocation is a fault. What `new` returns is a parameter, the Allocator.
--
-- Router models Simplified Version/Code/router.cpp:
--   Router.Tables    RtRecord, PrtRecord, the searches and the updates of the lists, timer_function
--   Router.State     the memory that the threads share; `forward` and `send_on` are the sendPacket calls
--   Router.Handlers  the cases REQUEST, RESPONSE and ANNOUNCEMENT of `main`, up to the lock
--   Router.Loop      the rest of the loop, the timer thread's locked halves, the receiving threads
--   Router.Steps     a step for each stretch of code that a lock or the queue makes atomic, and the
--                    states that any order of steps reaches
--   Router.Configuration  the loop that reads the configuration file
-- The other files of Router are proofs. `decide` runs the switch and leaves the update for `commit`,
-- because another thread may take the lock between them. `round` is one pass of the loop with no other
-- thread in between. The reads and the sends of one pass are one step: a receiving thread does not
-- overwrite the message while it is handled. The only count is the one of the code in timer_pass: the
-- length of the table. A Receiver holds a thread's one packet and the one Message that it queues again
-- and again; the queue holds the numbers of threads.
--
-- Host models Simplified Version/Code/host.cpp with the port and timer of common.h and common.cpp:
--   Host.State    what the threads share; FNgenerator, sendPacket, startTimer, stopTimer, timerHandler
--   Host.Threads  PUT, DEL and GET of `main` (GET is `get`, which sends, and then `arm`, which keeps the
--                 packet and starts the timer), `rx` for a packet that rxthread receives, `bcast`
-- Host.Quiet and Host.Retrying are about the timer under every order of steps (HostStep), the other
-- files about single operations. The file system is a function from names to contents. What stands at
-- the end of list1, which PUT reads, is a parameter. A file is opened by PUT and read by rx in one step.
--
-- Network puts hosts and the router of Simplified Version together: Network.Exchange is one hop, with
-- `host_receives` for one round of rxthread, Network.Hops the four stages of an exchange, and
-- Network.Delivery the whole of it. In Network.Chain `hop` is a pass of a router from one interface to
-- another, and travel and travel_back take a datagram through a list of routers; a datagram that a
-- router sends to its neighbour arrives, and unchanged.
--
-- Ambitious models the router of Ambitious Version, Router.h and Router.cpp:
--   Ambitious.Pending, Ambitious.Routing  the two tables, whose records are marked invalid and used again
--   Ambitious.Main                        the handlers and the switch, on one message at a time
--   Ambitious.Loop                        RxThreadFunc, the queue and the loop of `main`, and the states
--                                         that any order of steps of the threads reaches
--   Ambitious.Setup                       `main` before its threads start
-- Its packets are those of Wire: both versions have the same common.cpp. Ambitious.PendingLaws and
-- Ambitious.RoutingLaws compare the tables with maps, Ambitious.Timers counts the timer threads of the
-- pending records, Ambitious.Answers, Ambitious.Spreading and Ambitious.Serving are about the loop.
-- Ambitious.Pending takes a timer thread to find the record that it was started for. Ambitious.Memory models the same table with the block of memory of its vector and
-- the address that a thread keeps; an empty vector has room for nothing, and the capacity of a block
-- that replaces a full one is a parameter.
-- Ambitious.Dangling, Ambitious.Placement and Ambitious.Addresses are about those addresses.
--
-- Sender models Ambitious Version/sender.cpp, an earlier program for hosts: Sender.Threads is its
-- rxthread, bcast and the commands of `main`, on the state of a Host; Sender.Announcing and
-- Sender.Misfiled are about the headers that it sends. It includes newport.h, which the repository does
-- not have; its ports and timer are taken to be those of common.h.
--
-- Locking models Router1.h of Ambitious Version, the tables of Router.h with a mutex in each record:
-- Locking.Pending and Locking.Routing are its operations; Locking.Alike, Locking.Lifetimes and
-- Locking.Histories compare them with those of Router.h and count the timers. Ambitious.Store is the
-- interface of a pending table, operations with their laws, and the quotient of its tables by what they
-- answer; Locking.Orders fills it with both tables. A loop body that holds a mutex is one step.
--
-- Earlier models Ambitious Version/simple_router.cpp, where the receiving threads handle the packets:
--   Earlier.Tables, Earlier.State  the two lists and the loops over them; what threads share and own
--   Earlier.Handlers  rx_function: the copies, the cases of the switch, the change under a lock
--   Earlier.Steps     what one thread does up to its next lock, and the states that any order of these
--                     steps of all threads reaches
-- The other files of Earlier are proofs. `pass` is one round with no other thread in between. A read of
-- an uninitialised record gives a parameter. A send is one step.
--
-- Ports models the addresses and sockets of common.h and common.cpp and the start of router.cpp:
--   Ports.Addresses  class Address without the text of hardware addresses, which Wire.Address has
--   Ports.Sockets    Port, SendingPort, ReceivingPort: setSockAddress, setAddress, init, sendPacket
--   Ports.Opening    the loops of `main` that open the ports of the configuration
-- What the system answers is a parameter: Resolver for inet_aton, gethostbyname and inet_ntoa,
-- SystemCalls for socket, bind and setsockopt, and the result of sendto.
--
-- Ambitious.Hosts models host.cpp of Ambitious Version; it shares the port, the timer and the file names
-- with Host. Ambitious.Misaddressed follows a request through the router, that host and back.
--
-- Not modelled: terminal output, the syntax of numbers in the configuration file, sleeping, what
-- pthread_cancel does with the handle of a routing record's timer, which Router.h never sets (it is taken
-- to do nothing), the
-- capacity of the message queue, the terminal of the host, the copy of
-- simple_router.cpp in Simplified Version, which does not compile, and receiver.cpp.
pub mod Ambitious
pub mod Base
pub mod Earlier
pub mod Host
pub mod Locking
pub mod Network
pub mod Ports
pub mod Router
pub mod Sender
pub mod Tests
pub mod Wire
