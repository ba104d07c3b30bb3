-- ===== src/Lib.antt =====
-- Orcashi, a peer-to-peer chat program in C: a model of its state manager, its event loop, its
-- peer-to-peer manager, its daemon and its commands, its connections through a relay and
-- through a TURN server, its simultaneous opening of connections, its mixed ids, its choice of
-- connection strategies, its guesses of ports, and the parts of its cryptography that do not call
-- OpenSSL.
--
-- The event loop's thread takes events from a ring buffer and runs a handler for each. The
-- handlers call the state manager, which keeps the peers and the messages that wait for them in
-- arrays behind one lock, and which puts an event into the ring for each message that it delivers.
-- Other threads call the state manager and put events into the ring at the same time. The P2P
-- manager has a table of peers of its own behind a mutex; its listener passes each datagram to a
-- handler, which calls the state manager and puts events into the ring. The
-- daemon takes commands from the program over a socket and carries them out on the P2P manager and
-- the state manager. Mixed ids are the texts that a user types to reach a peer; the strategy
-- selector chooses how to reach it.
--
-- Files, with the code that each is about:
-- - Prelude: shared names, lists and numbers, and the return codes (0 is ok, -1 is err).
-- - CString: C strings as lists of bytes, arrays (Memory), and the functions of the C library that
--   the code calls on them (strcmp, atoi, sscanf with %d, inet_pton and inet_ntop).
-- - State (state_manager.c, state_manager.h): Types, Ids (normalize_id), Peers, Fields (the
--   setters), Queries and Ghosts hold the operations under their C names. The arrays and counters
--   are the fields of `Store`. Table, Live, Valid and View read the table of peers as a finite
--   map; Change, Setters, Delivery, Counts, Tracked, Waiting, Sending, Effect and Stale are about
--   the operations.
-- - Events (event_loop.c, event_loop.h): Types, Queue (the ring), World (the calls of the state
--   manager as data), Handlers (each handler as the calls that it makes, event_process and
--   event_loop_run); Ring, Pop, Keeps, Effects, Outcome and Threads are about them.
-- - MixedId (mixed_id.c, mixed_id.h): Codec and Detect hold the operations; Scan, RoundTrip and
--   Ambiguous are about them.
-- - Strategy (strategy_selector.c, and the types of nat_classifier.c): Types, Nat, Select and Sort
--   hold the operations; Fit is about the filter.
-- - Crypto (orca_crypto.c and aes_gcm.c): Hex, Nonce and Message.
-- - Ports (port_prediction.c): Predictor holds the observations and the tests for a pattern that
--   need no floating point, and Progression is about them.
-- - P2p (p2p_manager.c, p2p_manager.h): Types, Message (the bytes of a message), Table (the peers
--   and the mutex), Channel (sending, the handshake's text, the keys), Handlers (process_message
--   and what it calls), Listener (a datagram, and a round of the keepalives), Capability and
--   Connect (p2p_init, p2p_connect, p2p_accept, p2p_send and so on) hold the operations; Keeps,
--   Steps, Calls, Histories, Endings, Sending, Entries, Silence, Requests, Calling, Secrecy and
--   Lost are about them.
-- - SimOpen (simultaneous_open.c, simultaneous_open.h): Types, Packet, Session (the operations)
--   and Connect (the rounds of connecting and accepting, and the punching of a hole) hold the
--   code; Cases, Holds, Waiting, Agreement, Texts, Forged, Outcome and Attempt are about it. What recv()
--   gives in each round is an argument, so that a loop of at most five rounds is recursion on
--   their number.
-- - Relay (friend_relay.c, friend_relay.h): Types, Table (the sessions), Packet, Calls (connecting
--   in two parts, accepting, sending, receiving) and Listener hold the code; Keeps, Histories, Lost,
--   Greeting and Joining are about it.
-- - Turn (turn_client.c, turn_client.h): Types, Table, Request (the bytes that are sent), Response
--   (the attributes of what is received) and Calls hold the code; Walking and Overlap are about it.
--   What a loop over attributes meets is a list that ends, or that leaves the buffer.
-- - Daemon (daemon.c and commands.c): Types, Friends and Talk (the daemon's commands under their C
--   names), Dispatch (a request on the socket) and Client (the names of the commands and the texts
--   that the program sends) hold the code; Keeps, Words, Asked, Answers and Listing are about it.
-- - Tests: runs at concrete inputs.
--
-- Correspondence. The program starts as state_init leaves it where there is no state file. A function that changes the store takes it last and returns the code and the new
-- store. Each function that holds a lock is one atomic step, at one reading of the clock, which is
-- an argument; so is what rand() returns, and whether malloc returns memory. The calls of a
-- handler are separate steps, so that other threads come between them. A wait of event_queue_pop
-- ends in a way that is given as a list, with what the other threads made of the queue. The
-- capacities are those of the code: 256 peers, 1024 ghost messages, 4096 messages, 1024 events.
-- Loops are recursion on the number of their rounds or on the list they pass over; `digits` is
-- given one more round than the number, which has no more digits than that.
--
-- The P2P manager's operations end as a `Run`: with a result, waiting for ever for the mutex
-- (which is not recursive) or for the end of a thread, or with a read or write outside of an array. What they get from
-- outside is the record `Host`: the clock, malloc, whether sendto takes a message, what the DHT
-- and the file of the identity give, the punching of a hole, whether the threads end that
-- p2p_cleanup waits for, and the functions that call OpenSSL,
-- with their documented results. They are modelled one after the other; a socket is its number, or
-- none for -1.
--
-- Not modelled: the P2P manager's creation of sockets, its threads' start and end, and its
-- detection of the NAT type, of IPv6 and of UPnP; the regression in floating point of
-- port_analyze_pattern; NULL arguments, printing and logging; what happens after a strcpy that
-- does not fit; state_save, and what state_load
-- reads where there is a state file; the window in a setter between finding the peer and
-- writing to it. Where C leaves the value of atoi and %d open on numbers that are out of range,
-- the model follows glibc. The sockets, the threads' start and stop, and
-- all that calls OpenSSL, miniupnpc or the DHT library are left out.
pub mod Prelude
pub mod CString
pub mod Events
pub mod State
pub mod MixedId
pub mod Strategy
pub mod Crypto
pub mod Ports
pub mod P2p
pub mod SimOpen
pub mod Relay
pub mod Turn
pub mod Daemon
pub mod Tests
