-- ===== src/Lib.antt =====
-- MCoroRpc: a coroutine runtime over epoll and an RPC framework on top of it, in C++.
--
-- The program has a runtime (include/coro, include/selector, src/event_loop.cc, src/epoll.cc), a
-- network layer (include/net, src/tcpstream.cc, src/tcp_buffer.cc), the TinyPB packet format
-- (include/coder, src/tinypb_coder.cc) and the RPC layer (include/rpc, src/rpc_provider.cc).
-- Bytes that a stream reads go into a TcpBuffer; the coder cuts them into messages; the
-- dispatcher calls the protobuf service that a message names; the answer is encoded into a buffer
-- of its own and written back. On the client's side an RpcClient keeps a channel for each
-- instance of a service, and a channel writes a request to its stream and reads the response. All
-- of it runs in coroutines that the event loop resumes, and that hand values to each other
-- through channels.
--
-- Files:
--  Common   shared helpers: tests, lists, byte strings, 32-bit integers, memory, dictionaries.
--  Buffer   src/tcp_buffer.cc. A vector with a read and a write index; an access outside the
--           vector is `none`. Holds: the bytes between the indices as a queue. Fifo: what each
--           operation does to it. Calls: sequences of reads and writes.
--  Stream   src/tcpstream.cc. readToBuffer and write over an interface of the kernel's socket;
--           Stream.Tcp is the stream as an object, Stream.Message its readProtocolMessage.
--  WaitFor  include/coro/wait_for.hpp, as a machine on the events of the task and the timer.
--  Wire     getInt32FromNetByte of include/utils/utils.hpp, and htonl.
--  Codec    src/tinypb_coder.cc and include/coder/tinypb_protocol.hpp. encoderTinyPB and encode;
--           Codec.Decode is the decoder: `find_frame` is the search loop, `parse_message` the
--           fields in the order of the code, `decode` the outer loop.
--  Channel  include/coro/channel.hpp. Each call under the mutex is one step that gives the
--           channel, the coroutines that it wakes and its answer.
--  Loop     src/event_loop.cc and include/coro/event_loop.hpp, one function per method;
--           Loop.Selector is src/epoll.cc, Loop.Pool include/coro/event_loop_pool.hpp.
--  Handle   src/handle.cc and src/timer.cc, with their headers; Handle.Sleep is
--           include/coro/sleep.hpp.
--  Task     include/coro/task.hpp and taskresult.hpp over the loop: a table of frames, where the
--           body of a coroutine is data and each suspension a point at which its frame rests.
--  Net      include/net/tcpconnector.hpp, include/net/tcpservice.hpp and include/net/tcpserver.hpp,
--           over what the kernel answers, with the list of the descriptors opened and closed;
--           Net.Address is src/net_addr.cc, and Loop.Awaiters include/net/ioawaiter.hpp.
--  Rpc      Rpc.Context is include/rpc/rpc_context.h, Rpc.Pool include/utils/object_pool.hpp,
--           Rpc.Dispatcher and Rpc.Provider the classes of src/rpc_provider.cc, Rpc.Discovery
--           the list of instances there and in src/zkclient.cc. Rpc.Provider.Serving is the loop
--           of handleClient over a connection, with the reads and writes, Rpc.Registration its
--           registerToZk over an interface of ZooKeeper's nodes, Rpc.Provider.Life its start and
--           stop, with each round of the accept loop and of a worker as a step, and Rpc.Server
--           src/rpc_server_impl.cc on top of it. Rpc.Controller and Rpc.Caller are the classes
--           of include/rpc/rpc_channel.hpp: Rpc.Caller has CallMethod, Rpc.Caller.Async
--           CallMethodAsync, Rpc.Caller.Worker a round of workerLoop, Rpc.Caller.Connection
--           connect, reconnect and close. Rpc.Client is src/rpc_client_impl.cc over an interface
--           of the channels, with callMethodAsync in Rpc.Client.Calls and connectWithDiscovery
--           in Rpc.Client.Discovering; Rpc.Client.Store fills the interface with the channels of
--           Rpc.Caller. Rpc.EndToEnd puts the client's call and the provider's round together;
--           Rpc.EndToEnd.Clients begins at the RpcClient.
--  ZkClient src/zkclient.cc. The ZooKeeper library's answers are arguments of the operations, and
--           its completions and events are steps.
--  Tests    uses of the theorems at concrete inputs.
--
-- Numbers: an index is a natural number and an `int` or `int64_t` that may be negative an
-- integer. The decoder faults where an `int` would overflow, and the coder refuses packets from 2
-- ^ 31 bytes on. The counter of waits wraps at 2 ^ 64.
--
-- Bounds: the search of the decoder is given the number of bytes up to the write index, which is
-- the most it looks at. The outer loop of `decode` is given a number of rounds: one more than
-- there are packets is enough. The loops over the ready queue and over a socket are given a
-- number of rounds; the first needs no more than the queue is long where callbacks add nothing
-- to it, and the second may block as often as the kernel likes: where it blocks a bounded number
-- of times, a write needs a round for each byte and each time. The loop of reconnect is given
-- one round more than it may make attempts. The loop of handleClient is given how often it goes
-- round.
--
-- Outside the repository, and so parameters: the kernel's sockets, `epoll_ctl` and `epoll_wait`,
-- the clock, the ZooKeeper library, the protobuf services and their messages, and the callbacks
-- that a program registers. Memory that `resize` makes is zero.
--
-- Not modelled: the machine code of coroutines, for which bodies as data stand; what the
-- destructors of channels and streams do; a random choice of an instance. The channels of an
-- RpcClient are an interface with one law, of which Rpc.Client.Store gives an instance. What
-- other coroutines do to the client while a call waits for a connection is a parameter of the
-- call; while it waits for an answer they do nothing. A
-- request in a queue owns its controller and response.
pub mod Common
pub mod Buffer
pub mod Stream
pub mod WaitFor
pub mod ZkClient
pub mod Task
pub mod Net
pub mod Wire
pub mod Codec
pub mod Channel
pub mod Loop
pub mod Handle
pub mod Rpc
pub mod Tests
