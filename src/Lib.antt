-- ===== src/Lib.antt =====
-- RIOT_playground: small programs for the RIOT operating system, in C. Each directory of the
-- repository is a program of its own; what they share is RIOT, which is not part of the repository.
--
-- The programs that are modelled, and how their parts interact:
--
-- wand (wand/main.c): a clock in a magic wand. Two buttons, nine LEDs, a timer, a real time clock
--   and an ADC. Interrupts of the buttons run the callback that was registered last, and the
--   callbacks register each other: this is its state machine.
--     Wand/Hardware, Wand/Board    pins, handlers and driver calls; the levels and callbacks that
--                                  RIOT's GPIO driver keeps, as a record of operations and laws
--     Wand/State, Display, Power,  the static variables, and one function per C function, named as
--     Clock, Modes                 there without the leading underscore; a handler returns the state
--                                  with its driver calls recorded, the latest first
--     Wand/Invariant, Reach        what holds after any interrupts
--     Wand/Levels, Encode, Readout, Battery, Light, Setting    what the wand shows and how it is set
-- lndw18_luke: a game over CoAP. A button (controller) posts its presses to its target, such as
--   the display; the display adds them to its points, drops points with time, and posts to its own
--   target when the strip is full often enough; the dinosaur moves when points come in. A request
--   sets the target of each.
--     Endpoint, Json               make_sock_ep, and the tokens of the JSON parser
--     Luke/Payload, Coap           the payloads that are printed and read; requests and responses
--     Luke/Target                  lndw18_luke/common/common.c
--     Luke/Controller              lndw18_luke/controller/main.c, as steps that interleave
--     Luke/Display                 lndw18_luke/display/main.c; Luke/Display/Colors has the map of its
--                                  colours
--     Luke/Dino                    lndw18_luke/dino/main.c
--     Luke/Game                    controller, target, display and dinosaur together; the display's main
--                                  loop makes any number of rounds between the messages
--     Boot                         what the mains of this game and of jugend-hackt-2018-10 do before
--                                  their loops
-- lndw22_doc/client/main.c: the shell commands of a DNS-over-CoAP client.
--     Client/Hex, Client/Mock      the hexadecimal parser and the mock response
--     Client/Context, Creds        the commands userctx and creds
--     Client/Commands              uri, server, proxy, query and dns
--     Client/Shell                 the table of all commands, the switch, and main
-- jugend-hackt-2018-10/button/main.c: an earlier button, whose target a request sets.
--     JugendHackt/Button           the interrupt, the target, the posts and the loop
--     JugendHackt/Dino             the toy that jugend-hackt-2018-10/dino/main.c moves
-- stack_comparison/time_rx/gnrc/exp.c: a measurement that feeds fragments to the network stack.
--     TimeRx                       how a datagram is cut into fragments, and its compressed ports;
--                                  TimeRx/Lwip has the branches for lwIP
--     TimeRx/Headers               the bytes of the headers, and the UDP checksum
--     TimeRx/Experiment            the loops of exp_run over sizes and runs
--     TimeRx/Buffers               the bytes of the frames in their buffers, written in place, and the
--                                  loops of exp_run on them; TimeRx/Buffers/Receiver is a receiver of
--                                  RFC 4944 that puts the frames together
--     TimeRx/Setup                 the addresses and routes that exp_run sets up, and the lines of
--                                  EXP_STACKTEST
--     TimeRx/Delivery              how two threads hand the frames over, by signals and a semaphore; the
--                                  stack answers each signal with a call or lets the frame go
-- stack_comparison/time_tx/gnrc: the same for sending.
--     TimeTx                       exp.c: the set-up, the payloads, and the callback that times them
--     Netdev                       netdev.c: the test devices of both measurements
--     Stacks                       stack.c and ../emb6/stack.c: how interfaces are set up
--     LwipStack                    ../lwip/stack.c: lwIP's neighbours and the interfaces' identifiers
-- stack_comparison/power_tx and power_rx (gnrc/main.c): packets between two boards whose LEDs show
--   when the power is to be measured.
--     Power                        both boards
-- udp_test/udp.c: a shell command that sends UDP packets and runs a server that counts them.
--     UdpTest                      the command, the loop of send, and the server's thread
-- gnrc_host/udp.c: an earlier form of the same command.
--     GnrcHost                     the command, the loop of send, and the server
--     UdpServer                    the server as an interface that both programs fill
-- gcoap_obs_test/gcoap_cli.c: a thread that notifies observers, and may be paused.
--     GcoapObs                     the thread, the command and the handler, as steps that interleave
-- msg_send_receive/main.c: two threads that count behind each other's pointers.
--     MsgSendReceive               both threads, as steps that interleave
-- bitfield_test: the fields of a table entry, as a bit field and in a word by masks and shifts.
--     Nib                          bitfield/main.c and macro/main.c
-- sixlowpan_sender/main.c: shell commands that send packets and set the compression of headers.
--     SixlowpanSender              the commands
-- Common holds numbers, bits, decimals, lists and C strings; the modules named Tests hold runs of the
-- functions and the theorems at concrete inputs.
--
-- State is a record of the static variables, passed on explicitly. Numbers are natural numbers; the
-- casts and the arithmetic of fixed width are written out (u8, u16, u32). A string is the list of its
-- bytes before the NUL, a buffer the list of all its bytes; a write past the end of a list has no
-- effect, and theorems or a flag say where the code does not do that. Handlers and interrupts run
-- undivided, but for the controller, where an interrupt may come between any two accesses of the
-- client to what they share, and for the programs with threads: those of GcoapObs and MsgSendReceive
-- interleave at each access to what they share; in TimeRx/Delivery the main thread may go on as soon as
-- a call has posted the semaphore, so what the call does after that is a step of its own.
--
-- Loops are recursion on what is left to do. Fuel is used for the digits of a number
-- (one more than the number, which has fewer digits), for the loops over the JSON tokens (their
-- number, since each turn takes two), and for the loops of time_rx and time_tx over the payload sizes
-- (155 turns for 154 sizes and the end). The controller's runs are finite by a rank that every step
-- lowers.
--
-- Not in the repository, and so parameters: RIOT's drivers, its network stack with gcoap and sock,
-- jsmn, and the build's constants (LPD8808_PARAM_LED_CNT, CONFIG_DNS_MSG_LEN, OSCORE_KEYID_MAXLEN,
-- GCOAP_PORT), the constants of 6LoWPAN, the MAC headers of IEEE 802.15.4 and the sums of the Internet
-- checksum. The functions of the C library that the code calls (sprintf and sscanf of %u, strcmp,
-- strcpy, strncpy, atoi, strtoll) are defined.
--
-- Not modelled: most of what is printed, and the on-board LEDs of the controller and the display; the
-- conversion of hues, which RIOT's color module does in floating point numbers; for lwIP, the bytes of
-- the headers of the fragments; the web front end and the Python tools; the programs that only
-- initialise a network stack or print a measurement.
pub mod Common
pub mod Boot
pub mod Client
pub mod Endpoint
pub mod GcoapObs
pub mod GnrcHost
pub mod Json
pub mod JugendHackt
pub mod Luke
pub mod LwipStack
pub mod MsgSendReceive
pub mod Netdev
pub mod Nib
pub mod Power
pub mod SixlowpanSender
pub mod Stacks
pub mod TimeRx
pub mod TimeTx
pub mod UdpServer
pub mod UdpTest
pub mod Wand
