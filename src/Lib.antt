-- ===== src/Lib.antt =====
-- A chat server and client in C. This library models the parts under src/ that carry its data: the
-- pool of memory blocks (src/io/cache.c), the byte queues built from those blocks
-- (src/io/buffer.c), what is kept of one connection (src/entity/client_info.c), the messages
-- (src/entity/message.c), and the server's list of clients (src/IMServer.c). The server's threads
-- read from a socket into a client's reading buffer, take lines from it, write messages into the
-- writing buffers of other clients, and flush these to the sockets; every node of a buffer holds a
-- block of the pool.
--
-- Which file models what:
--   Base: Boolean tests, lists over the native numbers, machine words and outcomes of C code.
--   Cache: cache.c and include/io/common_io.h. `Pool` is the static state, `get_new_cache` and
--     `recycle_cache` are the functions of that name. Cache/Classes: the lists of free blocks.
--     Cache/Invariant: the pool's invariant
--     and `get_new_cache`. Cache/Recycle: `recycle_cache`. Cache/Ownership: who holds which block;
--     every allocated one is free or held exactly once, and those that the code loses count as held.
--   Buffer: buffer.c. Buffer/Node: the structs. Buffer/Fill: `read_into_buffer` and
--     `write_into_buffer`. Buffer/Drain: `read_from_buffer`, `write_from_buffer`, `buffer_size`,
--     `create_new_buffer`, `destroy_buffer`. Buffer/Find: `find_in_buffer` and the index functions.
--     Buffer/Ownership: the blocks of the nodes.
--   ClientInfo: client_info.c and include/entity/client_info.h, one function per function, but for
--     `is_client_connected`, which stands in Net with what it asks.
--   Message: message.c and include/entity/message.h, one function per function.
--   Server: of src/IMServer.c, the list of clients (`add_client` is what handle_listen does under its
--     lock, `remove_client` what user_logout does) and `deliver_msg_to_all_clients`.
--     Server/Login: `user_login` and `user_logout`. Server/Handle: `try_to_handle_msg`, where
--     `parse_line` makes a message of a line and `handle_line` delivers it. Server/Handle/Commands:
--     the well-formed lines. Server/Handle/Room: the server as a list of members with waiting texts.
--     Server/Writing: a round of `write_sockets`; its loops are `flush_each` and `logout_each`.
--     Server/Reading: `get_polling_and_client_list` and a round of `read_sockets`;
--     Server/Reading/Several: such a round for all clients that have sent something.
--     Server/Listening: `init_server_info` and the loop of `handle_listen`. Server/Relay: a round
--     of the reading thread and the round of the writing thread after it; Server/Relay/Exchanges:
--     any number of them. Server/Threads: the three threads as a step relation over the clients'
--     addresses, one access at a time in any order; its child modules have the lists, the
--     invariant, the steps and what is accessed. Server/Main: main and `release_server_info`.
--   Client: src/IMClient.c. `login_line`, `line_to_send` and `client_loop` are parts of its main,
--     which Client/Main puts together. Client/Typed: what is sent of a typed line. Client/Rounds:
--     the loop, and the server behind it.
--   Net: src/net_util.c, one function per function.
--   Tests: concrete runs.
--
-- How the code is modelled: an `int` is its 32-bit pattern, a `size_t` its 64-bit value, and all
-- arithmetic wraps as in C, conversions between the two included (Base/Words). A list of
-- include/collections/list.h, a copy of the Linux list, is the sequence of its entries. A function
-- ends in `done`, in `fault` (an access outside of an object, but for the bytes behind a line that
-- `parse_line` reads, which the environment's field `behind` gives) or, if its loop is counted, in
-- `out_of_fuel`; the fuel of a loop is one more than its number of bytes and nodes, and the
-- theorems with `Returns` show that this is enough. The loop of `handle_listen` has no bound:
-- `listen_loop` is `out_of_fuel` as long as the given rounds do not leave it. `read`, `write`, `ioctl`, `poll`, the
-- functions on addresses, and the answers of `malloc` where the code tests them are arguments.
-- What a theorem relies on of a descriptor is `IsSource`, `IsExact` and `IsSink`. The one
-- assumption on the allocator, `IsValid.keeps`, is that a node keeps its field when it is freed,
-- since `get_new_cache` reads it afterwards. In the functions locks make each operation atomic, so
-- they do not show, and neither do the `close` at the end of `user_logout` and the joins of
-- `handle_listen`; in Server/Threads that `close` is a step, and what is under the lock of the server is one step.
--
-- Not modelled: the contents of the clients when threads change the same client within a round
-- (where the contents matter a round runs alone, and Server/Threads keeps of a client only its
-- socket, its mark and whether it is allocated); the messages on the terminal and the logging macros;
-- and include/collections/list.h, which is a copy.
pub mod Base
pub mod Cache
pub mod Buffer
pub mod ClientInfo
pub mod Message
pub mod Server
pub mod Client
pub mod Net
pub mod Tests
