-- ===== src/Lib.antt =====
-- StudStuff: a model of the C++ exercises of the repository, and the theorems that make them
-- correct.
--
-- Parts, by directory of the repository, and the files that model them:
--
--   m1-net-log-filtering-system, in NetLog: the program reads a log line by line and prints the
--   lines whose address a filter admits.
--     NetLog/Address.antt    include/details/ip_v4_address.h: `from_string` is
--                            `IPv4Address::FromString`, its loop over four octets and its cursor
--                            written out; `from_bytes`, `from_octets`, `to_uint32`.
--     NetLog/Subnet.antt     include/details/filter.h: `SubnetFilter`, with the mask.
--     NetLog/Range.antt      the same file: `RangeFilter`.
--     NetLog/Composite.antt  the same file: `CompositeFilter`, at most twenty filters.
--     NetLog/Config.antt     include/net_logger/net_logger.h: `FilterConfig`, `CreateFilter`.
--     NetLog/Stream.antt     include/details/stream_processor.h: `StreamProcessor`, its buffer and
--                            its batches.
--     NetLog/Main.antt       src/main.cc.
--   `main` builds a filter by `CreateFilter`, which parses each text into a subnet or a range by
--   means of the addresses, and hands it to the stream processor, which asks it of the address of
--   each line.
--
--   m3-algorithms-and-data-structures/4-hash-table-chaining, in HashTable: hash_table.h, the class
--   `HashTable` with chains, which grows past a load of three quarters. HashTable.antt has the
--   operations; its children say what each does to the map that the table stands for.
--
--   m3-algorithms-and-data-structures/3-red-black-tree-impl, in RedBlackTree: red_black_tree.h.
--   RedBlackTree.antt has the tree and the rotations; Insert.antt `Insert` with `InsertFixup`;
--   Search.antt `FindNode` and the bounds; Iterate.antt the iterators, `Print`, `Find` and
--   `EqualRange`; Erase.antt `RemoveOne` with `RemoveFixup`, `Erase`, `Remove` and `Clear`. The
--   nodes lie on a heap that has a function for each field of `RBNode`. The proofs read the heap as
--   a shape: a subtree in focus, and the way from it up to the root (Shape). A rotation, a
--   recolouring or a new leaf then changes the shape at the focus (Rotate, Moves, Insert,
--   Erase/Turns, Erase/Transplants). A tree that lacks one black node below a place is
--   Erase/Lacking. Copy.antt has the copies and the assignments, of two objects on one heap.
--
--   m1-shared-ptr, in Pointers: the control blocks of include/control_block.h in Pointers.antt,
--   with the counts and the flag of a block; `SharedPtr` and `WeakPtr` of
--   include/smart_shared_ptr.h in Pointers/Shared.antt and Pointers/Weak.antt. A managed object is
--   its smart pointer members. A release that destroys an object runs the releases of its members
--   before it goes on: the calls still to run are a list of tasks, which `settle` runs.
--
--   m5-mt-async, in Accumulate.antt: include/parallel_accumulate.h, the sum in blocks. A future
--   of the thread pool gives the result of its task; `std::advance` past the end is undefined.
--   In ThreadPool: include/thread_pool.h and thread_pool.cc. ThreadPool.antt has what the
--   constructor, `Enqueue`, `Shutdown` and a worker do to the pool, ThreadPool/Runs.antt the
--   steps of the threads in any order. What is done under the mutex is one step; the
--   notification after an unlock is one of its own. The client is one thread, as the code
--   assumes.
--
--   m6-network, in Sender: src/common/helpers.cc, and src/sender, the program that filters a log by
--   means of NetLog and sends the lines in chunks. The stub of gRPC is an argument.
--
--   m7-dbms/cpp-app, in UnitOfWork: src/infrastructure/db/PostgresUnitOfWork.cc and its header, a
--   transaction with its repositories; what the database does with a call is an argument.
--   In Blog: src/core/entities in Blog/Entities.antt, what the repositories of
--   src/infrastructure/db make of the rows of a query in Blog/Repositories.antt, and
--   src/core/use_cases in Blog/UseCases.antt. A use case runs on a pair, the unit of work and the
--   database, by a small monad with exceptions; the database is a record of what the code calls of
--   it.
--
-- Numbers and bounds. Texts are lists of bytes. 32-bit words are natural numbers with the wrap
-- written out as a remainder. Sizes and counts of the standard containers are natural numbers
-- without a bound: the memory ends first. The load factor of the hash table is computed by the
-- code in doubles, which are exact for the numbers below 2 ^ 51 and are a comparison of products
-- here. The loop of `Process` runs on fuel, one more than the length of the input: each round
-- takes a line. The loop of `SplitByLines` does the same. The tasks of the
-- pointers run on fuel too: their measure counts the tasks and the members of the live objects.
-- The counts of a control block wrap at 2 ^ 64. The walks and the balancing loops of the red-black
-- tree run on fuel, one more than the number of keys: a walk goes down, or up, one level a round,
-- and the balancing goes up at least one level a round.
--
-- Faults. An exception is a value of a result type. Undefined behaviour is `none`: a remainder by
-- zero, a bucket that is not there, or a block or an object that was freed.
--
-- Code outside the repository: the database is an argument, and of its transactions a theorem
-- asks that only a commit changes what is held for good. How the server writes an element of an
-- array is an argument, of which `ArrayOut` in Blog/Quotes.antt asks what the manual of
-- PostgreSQL says. `std::from_chars`, `std::getline`, `std::list`, `std::set` and `std::vector`
-- are modelled as their documentation says. The order of the keys of the red-black tree is a
-- parameter, `Compare`, a strict weak order; the comparison of keys that the iterators call is
-- another, `Equality`, which is only asked to imply equality. The equality and the hash of the
-- keys of the hash table are a parameter, `Key`: the equality tells keys apart, and nothing is
-- asked of the hash.
--
-- Not modelled: what is printed on the error stream beyond which message it is; the formatting
-- of statistics; custom deleters, the elements of arrays and the three-way comparison of the
-- pointers; reads of freed nodes of red-black trees other than in `Clear`, and allocation that
-- fails; tasks that throw, threads that cannot be started; the list of students, an exercise on the
-- formatted streams of the library; the receiver of log messages, the SQL of the repositories and
-- the printing of the programs; the tests and benchmarks.
pub mod Base
pub mod NetLog
pub mod HashTable
pub mod Pointers
pub mod Accumulate
pub mod RedBlackTree
pub mod ThreadPool
pub mod UnitOfWork
pub mod Blog
pub mod Sender
