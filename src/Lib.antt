-- ===== src/Lib.antt =====
-- NativePipe shows Linux applications on a macOS desktop. Its guest side is C: a Wayland compositor
-- (guest/compositor) that sends window state to the host, small session programs (guest/session),
-- and a file service (common/file_rpc) whose one connection to the host carries many streams. This
-- library models the logic of these parts and leaves the operating system, Wayland and the GPU
-- outside.
--
-- Base holds what the parts share: tests on native numbers, lists cut by native numbers, integers,
-- and byte strings with little-endian words. Machine integers are numbers with their wrap-around
-- written out.
--
-- FileSession models common/file_rpc/np_file_session.c. FileSession.State has the session and its
-- streams (struct np_file2_session, struct np_file2_stream); Frame the wire form
-- (write_frame_unlocked, read_frame); Dispatch the handler of each frame (dispatch); Calls what
-- holders of streams call (np_file2_request, np_file2_respond, np_file2_send, np_file2_receive,
-- np_file2_cancel, np_file2_stream_release) and the control writer; Close closing and the release of
-- memory; Reader the reader thread; Transfer a body sent by one side and received by the other;
-- System any sequence of these steps, with Closed what they leave of a closed session. The reader
-- recurses on the bytes left on the socket, of which each frame takes at least its header, and the
-- sender on the bytes left to send, so that no fuel can run out.
--
-- Region models guest/compositor/region.c, the rectangle sets of wl_region: Bounds the sizes and
-- ranges, Cover and Exact the points that a region contains. 32 doublings of a capacity of at least
-- one pass every uint32_t.
--
-- Outbox models guest/compositor/notification_outbox.h, the queue of optional notifications: Valid
-- its counts and byte total, Pinned a record once it is begun.
--
-- Wire models guest/compositor/windowwire.c, the messages to and from the host: Writer what each put
-- function appends, Layout the bytes of a window frame, Reader each read, Fields sequences of values
-- with RoundTrip from the put functions to the reads, Bounds the reads on any bytes. 64 doublings of
-- a capacity of at least one pass every length that a message may have. Null pointers for a message,
-- a reader or an array are left out: the callers give none.
--
-- Clock models guest/compositor/presentation_clock.h, the estimate of the host's clock, with its
-- accuracy.
--
-- OpenWire models guest/session/np-open-wire.h, the request to open a URL or a file: Request the
-- frame and Url the conversion of a file URL. The functions of the C library are parameters.
--
-- Damage models guest/compositor/damage.h, the box around the damage of a surface.
--
-- Events models guest/compositor/window_events.c, the messages about windows, on the writer of Wire.
--
-- HostOpen models guest/compositor/host_open.c, which forwards open requests of local programs to
-- the host: State the clients, Request the tokens and answers, Io the callbacks of the event loop
-- with the answers of the system as lists, Tokens the search for a token, Valid, Reads, Handlers,
-- Answers and Accepting what each handler keeps, Reachable all sequences of them, Routing where an
-- answer goes. The search for a token has 18 rounds, two more than there can be clients.
-- g_utf8_validate is a parameter, as is whether the host takes a message. The directory and the
-- socket of np_host_open_init are left out.
--
-- Flow models guest/compositor/backends/remote/flow.h, the bytes in flight to a remote host: Ring
-- the array of chunks, Acked an acknowledgement on a list of chunks, Queue the operations on that
-- list. The loop of np_flow_ack has one round more than the array has places, since each round
-- empties a chunk or is the last.
--
-- DropFs models common/file_rpc/np_drop_fs.c, dropped files of the host as a FUSE file system: State
-- the nodes and attributes, Names and Paths tokens, names and paths, Table the changes under the
-- lock, Host the calls of the host and the replies, Lookup, Change, Attributes, OpenFiles and
-- Listing the handlers, Dispatch np_drop_fs_handle; Valid, Kept, Inside, Handlers, Making, Reading,
-- Listed and Handled the table after each, Renames, Removal and Stable what later lookups find, Attr
-- and Sizes the wire. What a stream of the host gives is a value, for a listing a list of them, one
-- for each page; a page has a round for each of its bytes, of which an entry takes 42. Requests are
-- handled one after the other. The lock, the threads, the users of a session and the list of waiting
-- streams are left out: whether a wait was interrupted is a parameter.
--
-- Files models np_read_full and np_write_full of guest/common/np.c, with the answers of the system
-- as a list.
--
-- Blocking calls are split where the code gives up its lock, so that a run of several threads is a
-- sequence of such steps; a thread's return from a wait is its next step. Everything outside the
-- code, that is the allocator, the socket and the floating-point numbers, is a parameter with its
-- documented behaviour as hypotheses.
--
-- Not modelled: the Swift host, generated protocol code, vendored headers, test programs, and code
-- whose work is calls of the operating system, the GPU, D-Bus or Wayland.
pub mod Base
pub mod FileSession
pub mod Region
pub mod Outbox
pub mod Wire
pub mod Clock
pub mod OpenWire
pub mod Damage
pub mod Events
pub mod HostOpen
pub mod Flow
pub mod DropFs
pub mod Files
