-- ===== src/Lib.antt =====
-- NetworkDemo: the utilities under utils/ and the client and server programs of src/. A thread gang
-- runs parallel loops with work stealing, `GangUtil` builds reductions, scans and counts on these
-- loops, `PODArray` is a growable array over libnuma, stop watches measure time, and `string_split`
-- cuts strings. The programs talk over Thrift or over bRPC and print what a stop watch shows.
--
-- The parts and their files:
-- - Split (utils/Split.h): `string_split` by its loop over `find_first_of` and `substr`. The
--   exception `std::out_of_range` and the end of the fuel are outcomes of their own.
-- - Gang/Atomic (utils/Gang.h, `writeCond` to `fetchAdd`): the retry loops of several threads on
--   one cell, where a step is a load or a `CAS`.
-- - Gang/Barrier (utils/Gang.h, `ab_barrier_init` to `ab_barrier_wait`): threads that wait at a barrier
--   again and again, where a step is an access of a field of the barrier. A thread counts the waits
--   that it has entered and left.
-- - Gang/Partition (utils/Gang.h, both `Gang::submit`): the ranges of the workers, and what a
--   `submit` does with them.
-- - Gang/PerCpu (utils/Gang.h, `Gang::submitPerCpu`): a copy of the ranges for every processor.
-- - Gang/Steal (utils/Gang.h, `TasksImpl::run`): a worker is a program counter with its locals, a
--   step is one fetch-and-add on `ranges[t].b` or one call of the function, and a schedule is the
--   list of the workers in the order of their steps, so every interleaving is a list.
-- - Gang/Submit: the ranges of a plan as the shared counters of Gang/Steal.
-- - Gang/Blocks, Gang/Reduce, Gang/Scan, Gang/Count (utils/Gang.h, `GangUtil`): blocks of
--   `BLOCK_SIZE`, `reduce`, `scan` and `count` with their serial forms. The scan has types of its own
--   for input, output and first value; Gang/Scan/Plain and its laws are about one type, to which the
--   proof reduces it. A parallel loop is the list of its calls in the order in which they are made.
-- - Gang/Dedup (utils/Gang.h, `GangUtil::dedup`): the two loops. The calls of the first race for a flag
--   by `CAS`, and their steps interleave in the order of a list.
-- - PodArray/Sizes, PodArray/Storage, PodArray/Elements (utils/PODArray.h): sizes and rounding, the
--   operations that move the three pointers, and those on the elements, over a byte memory. libnuma is
--   a parameter.
-- - Hash (utils/Hash.h): `hashUpdate` with its table.
-- - Simd (utils/SIMD.h): vectors and matrices in units of eight numbers. The graph is not in the
--   repository, and the arithmetic of the processor is a record of operations.
-- - StopWatch (utils/StopWatch.h): `Stopwatch`, `StopwatchRUsage` and `StopwatchGuard`. What a clock
--   shows is an argument of each operation that reads it.
-- - StopWatch/Shared (utils/StopWatch.h, `AtomicStopwatch`): threads on one watch, where a step is an
--   access of `start_ns` or a look at the clock, and the `Lock` is a program counter.
-- - System (utils/MapFile.h, utils/SysCmd.h, utils/Monitor.h, utils/Numa.h): the wrappers of system
--   calls, with what is opened and closed as a log.
-- - Rpc/Connect (src/Example-ThriftRPC/IRPC.h, `IRPCClient`): the retry loop of the constructor.
-- - Rpc/Session (src/Example-ThriftRPC/TestRPC.h): the calls of `TestProtoRPCClient` with their error
--   path, and the answers of `TestProtoHandler`. Transport and generated client are a record of
--   operations on a state of their own.
-- - Proto (src/Example-ThriftRPC/gen-cpp): the code that Thrift has made of the service. Proto/Wire is
--   the protocol of the library, a record of operations on bytes and a record of its laws,
--   Proto/Structs the readers and writers of arguments and results, Proto/Client `TestProtoClient`,
--   Proto/Processor `TestProtoProcessor` with what an event handler is told, Proto/Call a call from
--   the one to the other, with the handler of TestRPC.h in Proto/Call/Handler, Proto/Concurrent
--   `TestProtoConcurrentClient`, where a turn is what a caller does while it may read, and
--   Proto/Handlers `TestProtoNull` and `TestProtoMultiface`.
-- - Rpc/Server (src/Example-ThriftRPC/IRPC.h, `IRPCServer`): the two pointers, the calls of the
--   library in their order, and the fault of a call through an empty pointer.
-- - Rpc/Echo, Rpc/Echo/Client (src/Example-bRPC/TestRPC.h): the service, `startBRPCServer`, the loop
--   of `sender` and `bRPCClient`. What bRPC answers is an argument.
-- - Programs (src/Client.cpp, src/Server.cpp, src/Common.h): the options and their defaults, the choice
--   of the protocol, and the exchange over Thrift. The client uses Rpc/Connect, Rpc/Session,
--   StopWatch and Rpc/Echo/Client, the server Rpc/Server and Rpc/Echo.
-- - Base: shared names, lists, sums over workers, machine words, bits, byte memories and texts.
--
-- Bounds and fuel: `size_t` has 64 bits and wraps. `string_split` has one round more than the
-- string has bytes. `reduce` and `scan` call themselves on the sums of the blocks, and a depth
-- above the length of the array is enough, as the results on them say. A run of the gang has no
-- fuel: Gang/Steal/Fair gives a number of rounds after which all workers have finished. The
-- constructor of `IRPCClient` opens 1000 times at most, which is its fuel; `sender` has one round more
-- than it sends requests, which are less than 2^31, as their number is an `int`, and the loop of
-- `bRPCClient` one more than the seconds it sleeps. The loops over the fields of a struct have one round more than there are
-- bytes, since a field takes at least one.
--
-- Not modelled: the sleep in the futex, the life of the threads of a gang (its constructors, `run`,
-- `reinit` and the destructor), `pack` and `filter` of `GangUtil`, `countSerial` of a signed type, `clone` of `PODArray`, the count of
-- bytes that the readers and writers of the generated code return and its factories, the classes that
-- start the profiler, the headers that only pass calls on to libraries, the test programs, and
-- seconds as `double`. contrib/jemalloc is a copy of another project. The memory model is sequential
-- consistency: only atomic accesses and calls of the function are steps.
pub mod Base
pub mod Split
pub mod Gang
pub mod PodArray
pub mod Hash
pub mod StopWatch
pub mod Simd
pub mod System
pub mod Rpc
pub mod Proto
pub mod Programs
