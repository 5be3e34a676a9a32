-- ===== src/Lib.antt =====
-- The TCP/IP stack of src/sponge/libsponge: a TCP endpoint built from parts, the formats of its
-- packets, a network interface with ARP, a router, and a socket whose event loop drives the endpoint.
--
-- How the parts interact. A TCPConnection owns a TCPReceiver and a TCPSender. The receiver turns the
-- sequence number of a segment into an index of the stream (unwrap) and hands the payload to a
-- StreamReassembler, which writes bytes in order to a ByteStream. The sender cuts the bytes of
-- another ByteStream into segments, keeps them until they are acknowledged, and sends the oldest one
-- again when its timer runs out. A NetworkInterface puts datagrams into Ethernet frames for the
-- hardware address that ARP finds; a Router owns interfaces and forwards between them.
--
-- Which file models which part; a definition bears the name of the function that it models, in
-- lower case with underscores, and a step of a long function is a definition of its own:
--   Base          shared names, lists, words of 8 to 64 bits, tests on numbers, faults
--   Wrap          libsponge/wrapping_integers: wrap, unwrap
--   Buffer        libsponge/util/buffer: Buffer, BufferList, BufferViewList (Buffer/Views)
--   Stream        libsponge/byte_stream: ByteStream; Stream/Fifo has the abstract queue
--   Reassembler   libsponge/stream_reassembler: push_substring as set_end, clip_right, clip_left,
--                 merge_all (merge_succ, merge_prev), flush, end_if, composed by assemble
--   Wire          libsponge/util/parser, InternetChecksum of libsponge/util/util, and the formats of
--                 libsponge/tcp_helpers: tcp_header, tcp_segment, ipv4_header, ipv4_datagram,
--                 ethernet_header, ethernet_frame, arp_message
--   Receiver      libsponge/tcp_receiver: segment_received, ackno, window_size
--   Sender        libsponge/tcp_sender: fill_window (send_fin, send_loop), ack_received (acknowledge,
--                 reset_timer), tick (retransmit), send_empty_segment, segment_handler
--   Connection    libsponge/tcp_connection: segment_received, write, tick, connect, the shutdowns
--   State         libsponge/tcp_helpers/tcp_state: the summaries and the official states
--   Interface     libsponge/network_interface: send_datagram, recv_frame, tick
--   Router        libsponge/router: add_route, route_one_datagram, route
--   Adapter       libsponge/tcp_helpers: fd_adapter (Udp), tcp_over_ip (TcpOverIp), tuntap_adapter
--                 (Tun, Tap), lossy_fd_adapter, tcp_config, and libsponge/util/address
--   Descriptor    libsponge/util/file_descriptor: read, write, close; shutdown of libsponge/util/socket
--   Loop          libsponge/util/eventloop: wait_next_event as set_up, answer, serve_all, serve
--   Socket        libsponge/tcp_helpers/tcp_sponge_socket: the four rules; Socket/Running has _tcp_loop
--                 as tcp_loop, connect and listen_and_accept up to their loops, and _tcp_main
--   Transfer      a sender and a receiver with a network between them: not code, but the setting in
--                 which the parts have to work together
--
-- How the code is modelled. Every class is a record, every operation a function on it. An operation
-- that can throw, or that reads the front of an empty queue or a position out of range, returns an
-- Option, and `none` is that fault. Unsigned integers are natural numbers with their wrap-around
-- written out; uint64_t and size_t have 64 bits. A std::set ordered by index is a list in that
-- order, a std::map an association list, a std::queue a list with the front first. A Buffer that
-- is only read is given by the bytes it views. The random initial sequence number is an argument.
--
-- Bounds and fuel. The sending loop runs on one round more than the stream holds bytes, and each
-- round takes a byte at least. The merging loops run on the number of stored nodes, of which each
-- round removes one. The loop that folds the checksum runs on two rounds, which are enough for
-- every 32-bit sum. Theorems on indices of a stream ask that they stay below 2 ^ 62 or 2 ^ 63, and
-- those on sequence numbers that they are within 2 GiB of the checkpoint, which is what 32 bits can tell.
--
-- What a device or a socket gives to an adapter is an argument, what it gets is a result, and so are
-- the draws of the random generator. An address of the C library, made from a number and a port, is
-- a parameter of the adapters that listen.
--
-- The answers of the system calls are arguments too: what poll reports, the bytes that a read gives
-- and how many of them a write takes. A loop of the socket runs for the rounds that are given to it.
-- The loop of a write runs on one round more than there are bytes, and each round takes a byte at
-- least or throws.
--
-- Not modelled: the threads of the socket and its printing for debugging, the remaining wrappers of
-- system calls in libsponge/util, all other printing, and the programs of apps, tests and doctests.
pub mod Base
pub mod Wrap
pub mod Buffer
pub mod Stream
pub mod Reassembler
pub mod Wire
pub mod Receiver
pub mod Sender
pub mod Connection
pub mod State
pub mod Interface
pub mod Router
pub mod Transfer
pub mod Adapter
pub mod Descriptor
pub mod Loop
pub mod Socket
