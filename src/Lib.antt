-- ===== src/Lib.antt =====
-- The daemon's services of adb, under adb/ in the repository: a model of their code and of the
-- sockets, packets and transports that join them to their clients, with what the host does to
-- choose a device, and proofs about it.
--
-- The daemon adbd runs on one event loop. Its services run in threads of their own, each with a
-- descriptor to the client on the other end; the loop's clients register a descriptor and a
-- callback with fdevent, and are called when select() finds it ready.
--
-- Files:
-- - Base: the Boolean tests of the code, lists over the native numbers, functions updated at a
--   point, the integers.
-- - Fdevent: adb/fdevent.c and fdevent.h. Events has the FDE_ bits, Plist the ring list_pending
--   with fdevent_plist_enqueue, _remove and _dequeue, State the variables of the file as one
--   record Loop, Select the select() backend (fdevent_connect, fdevent_disconnect, fdevent_update,
--   fdevent_process, fdevent_fd_check), Table fd_table (fdevent_register, fdevent_unregister), Api
--   the calls of clients (fdevent_install, _create, _destroy, _remove, _set, _add, _del), and
--   Dispatch the callbacks (fdevent_call_fdfunc, fdevent_subproc_event_func, the inner loop of
--   fdevent_loop).
-- - Fdevent/Plist/Ring: the ring as a queue. Fdevent/Invariant: what holds of the loop between the
--   calls, kept by each.
-- - Sync: adb/file_sync_service.c and .h. Wire has the messages, World the calls of the system
--   with readx, writex, fail_message and fail_errno, Mkdirs is mkdirs, Send is handle_send_file,
--   Recv has do_stat and do_recv, Listing do_list, Push handle_send_link and do_send, and Service
--   the loop over the requests. Ledger, Recv/Files and Service/Files keep the account of open
--   files; Kept has what every call and read keeps, and Ends and Service/Ends use it to show that
--   the loops end; Upload and Recv/Download follow a whole transfer; Service/Refusals has the
--   requests that are refused.
-- - Framebuffer: adb/framebuffer_service.c, with the description of the pixels and the loop that
--   copies them; its proofs are in Framebuffer/Copy and Framebuffer/Ends.
-- - Jdwp: adb/jdwp_service.c, over the Loop of Fdevent. Text has the printed lists, State the
--   processes and trackers, Process jdwp_process_alloc, _free and _event, Connect
--   create_jdwp_connection_fd and the control socket, Sockets the sockets of the two services.
--   Connect/Queue and Connect/Passing follow the descriptors that wait for a process, Process/Free
--   what is closed with it, Process/Reads the reading of its pid, Text/Lines the lists.
-- - Sockets: adb/sockets.cpp and the asocket of adb/adb.h, over the Loop of Fdevent: the local
--   sockets. State has the sockets and their list (find_local_socket, install_local_socket,
--   remove_socket), Create create_local_socket and create_local_service_socket, Remote the remote
--   sockets and connect_to_remote, Pieces the loops around adb_write, Close local_socket_destroy,
--   local_socket_close_locked and close_all_sockets, Local local_socket_enqueue,
--   local_socket_ready and the writing part of local_socket_event_func, Receive the reading part,
--   Smart how the smart socket reads a request (unhex, smart_socket_enqueue) and where a serial
--   number in it ends (skip_host_serial). State/Install has what is found after
--   install_local_socket, Close/All the end of close_all_sockets, Local/Stream, Local/Flow and
--   Local/Ready what becomes of the bytes of the packets, Receive/Relay what the peer gets of what
--   is read, Smart/Unhex what unhex reads, Smart/Feed what becomes of a request in several
--   packets, Smart/Ends the kinds of serial numbers.
-- - Transport: adb/transport.cpp and adb/transport_local.cpp. Packet has amessage, apacket, the
--   stamping by send_packet, check_header and check_data; Rwx readx and writex over partial and
--   interrupted calls; Link remote_read, remote_write, output_thread and input_thread; Choice
--   qual_match and acquire_one_transport. Rwx/Chunks has what the loops do with the bytes,
--   Link/RoundTrip one packet, Link/Tunnel the way from one side to the other, Link/Checked what
--   is let through, Choice/Match the texts that a transport goes by, Choice/Only which transport
--   is taken.
-- - Daemon: adb/adb.cpp and adb/adb_auth_client.c, over Sockets and Transport. State has the
--   transports, going on and off line, send_connect and run_transport_disconnects; Auth the
--   tokens, keys and the framework; Packets handle_packet; Banner fill_connect_data and the
--   qualifiers of parse_banner. Packets/Online follows the events that bring a transport online,
--   Packets/Acks a WRTE packet to its OKAY, Banner/RoundTrip what a device says of itself to the
--   host.
--
-- Correspondence. A C function f is the definition f; a part of a long function has a name of its
-- own and a comment. An fdevent is an address, a number, and Loop.fde is the memory of the
-- fdevents; a null pointer in fd_table is none. The links of the ring are two functions from
-- addresses, so that each assignment is a step. FATAL, exit and a null dereference are the outcome
-- abort. In Sync, World is the client's bytes still to come, the trace of the calls made and
-- errno; true as a result stands for the error return. Words of the protocol have 32 bits, read
-- and written on a little-endian machine.
--
-- Bounds and fuel. The doubling of fd_table has the fuel fd + 1, and each round at least adds 1.
-- The inner loop of fdevent_loop needs more fuel than fdevents wait, since a callback may only
-- shorten the queue. The loop over the messages of an upload needs more fuel than the client has
-- bytes left, since each message takes eight of them. The loop of do_recv has a round for each
-- read, and a fuel above their number; it is the system that ends it. file_sync_service has one
-- fuel for its requests, of eight bytes at least, and one for the loops of its commands. The
-- copying of pixels needs more fuel than bytes left. The scans run over select_n entries.
-- close_all_sockets has a fuel above the number of sockets on the list, since each closing takes
-- one off. The loop of output_thread needs more fuel than packets come. The loops of Sockets run
-- over what adb_write and adb_read give, with EAGAIN after the last. The loops of Jdwp run over
-- what recv and accept give; the printing of a number n has the fuel n + 1.
--
-- Parameters and assumptions. Select's result, the failure of fcntl, the memory that realloc
-- leaves and whether it is available, and the callbacks of clients are arguments. The system
-- behind the services is a function from the calls so far and a call to its result; strerror,
-- fs_config and strtoul are functions too. FD_SET is taken to work on every descriptor, as it does
-- below FD_SETSIZE only. The descriptor of a directory is that of the answer to opendir. A call of
-- readx or writex is one step: it takes all of its bytes or fails. The system's calls on a file
-- are not given a meaning beyond their results. Behind the bytes read into it the buffer of the
-- sync service holds what an argument says. The client's acceptance of writes in Framebuffer is an
-- argument. The product of ints that is the size of its screen is taken to wrap around where C
-- leaves it undefined. In Jdwp what recv, accept, fcntl and sendmsg give and sscanf are arguments;
-- a peer's enqueue is recorded and does not call back. In Sockets what adb_write and adb_read give
-- is an argument, and both retry EINTR by themselves; a socket that is freed keeps its last
-- contents; a peer that is neither a local nor a remote socket is an id and a transport, whose
-- calls are recorded and do not call back; a remote socket is an id and a transport, and what it
-- sends is recorded, its writes to the socket pair succeeding. In Transport what adb_read and
-- adb_write give is an argument, and so are the transports on the list each time that
-- acquire_one_transport looks. In Daemon service_to_fd, property_get, base64 decoding, RSA_verify,
-- the lines of the key files, the token drawn and the answers of the framework are arguments; HOST
-- is 0.
--
-- Not modelled: the debug prints, fcntl(O_NONBLOCK), the epoll backend that is never compiled,
-- fdevent_subproc_setup and the outer loop of fdevent_loop. What the smart socket of
-- adb/sockets.cpp does with the request that it has read. The listeners of adb/adb.cpp, the
-- registration of transports, and the USB transport. The other services in C, the host program,
-- the USB code, and the vendored headers.
pub mod Base
pub mod Fdevent
pub mod Sync
pub mod Framebuffer
pub mod Jdwp
pub mod Transport
pub mod Sockets
pub mod Daemon
