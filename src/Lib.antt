-- ===== src/Lib.antt =====
-- The concurrent in-memory hash tables of hash_bench, index/linear_probing.h, index/cuckoo_hash.h
-- and index/extendible_hash.h, on the pairs of util/pair.h.
--
-- Parts and files
--   Common     names and lemmas that the other files share: Boolean tests, lists indexed by native
--              numbers, integers
--   Key        what the tables use of a key type: `memcmp` of keys, `INVALID`, `hash_funcs` of
--              util/hash.h. A key of 8 bytes and an array of characters are both instances, so the
--              two branches of each `if constexpr(sizeof(Key_t) > 8)` are one definition.
--              Key/Bytes makes the interface of bytes and the functions of util/hash.h
--   Word       machine words: casts, the exclusive or, powers modulo a number
--   HashFuncs  jenkins, murmur2 and xxhash of util/hash.h and the array `hash_funcs`, over lists of
--              bytes; HashFuncs/Mix their final mixing and bounds, HashFuncs/Tail the loop over
--              stripes beside each lane by itself
--   DiscreteLog
--              `discrete_log` of bench/utils.h; DiscreteLog/Masks its mask, DiscreteLog/Rounds a
--              round, DiscreteLog/Loop the loop, DiscreteLog/Correct what it computes
--   KeyGenerator
--              `key_generator_t` of bench/key_generator.h and the hashes of bench/utils.h, with
--              the static members in the state; KeyGenerator/Bytes the bytes of an identifier,
--              KeyGenerator/RoundTrip a key and what is read back from it
--   GenericKey the strings in arrays of util/config.h; GenericKey/Compare their comparison
--   Dict       `Pair`, arrays of pairs, and what an array holds for a key
--   Probe      the loops that stop at the first slot with a given key
--   Float      the float arithmetic of the thresholds and of the growth factors, as an interface
--   Interface  `Hash` of index/interface.h as operations with their promises; Interface/Client
--              `microbench` and the loop of `exec_func` of bench/benchmark.hpp and the program of
--              test/hashtable_test.cpp, over any such table; Interface/Loops, Interface/Passes and
--              Interface/Refinement what they do, Interface/Tables the three tables as instances
--              and `getInstance` of util/config.h, Interface/Input `gen_input` of util/pair.h,
--              Interface/Load runs of `Insert` of linear probing
--   Linear     `LinearProbingHash`: all its operations; Linear/View the invariant, `Get`,
--              `Update`, `Delete` and `FindAnyway`, Linear/Resize `resize`, Linear/Insert `Insert`,
--              Linear/Returns the calls of `Insert` that return, at any capacity.
--              Linear/Threads runs `Insert`, `Update`, `Delete` and `Get` by many threads, in any
--              interleaving; its Stripes are the locks, Slots what a thread knows of its slot,
--              Invariant what holds in each state, Balance and Load what the threads leave, Marks
--              and Reads what `Get` sees, Sizes and Progress whether they can go on
--   Cuckoo     `CuckooHash`: `Get`, `Update`, `Delete`, `find_path` and the two `execute_path`;
--              Cuckoo/Growth `insert4resize`, `resize` and `Insert`; Cuckoo/View the invariant,
--              Cuckoo/Walks the paths, Cuckoo/Push their execution, Cuckoo/Insert one pass of
--              `Insert`, Cuckoo/Reinsert `insert4resize`, Cuckoo/Resize the growth.
--              Cuckoo/Text the variants for keys of more than 8 bytes, whose paths keep strings:
--              its Paths beside those with keys, its Growth `resize`, its Insert `Insert`
--   Extendible `Segment`, `Directory` and `ExtendibleHash`; Extendible/Bits the leading bits of a
--              hash, Extendible/Entries the loops over the directory, Extendible/Routing its
--              update, Extendible/Split a split, Extendible/View the invariant and `Get`,
--              Extendible/Change `Update` and `Delete`, Extendible/Resplit a split in the whole
--              table, Extendible/Insert one pass of `Insert`, Extendible/Retry all its
--              passes, Extendible/Start the constructors, Extendible/Capacity `Utilization`
--              and `Capacity`
--   Semaphore  `suspend`, `lock` and `unlock` of `Directory`, for any number of threads;
--              Semaphore/Safety the invariant of all reachable states
--   Bench      `latency` and `mixed` of bench/benchmark.hpp as the calls of their threads;
--              Bench/Parts the parts of the array that these work on, Bench/Latency the threads of
--              `latency` over a table of linear probing, Bench/Input those of
--              test/hashtable_test.cpp that insert
--   Examples   instances of the interfaces for the tests
--
-- State and operations. A table is a record with the fields of the source's class, its arrays are
-- lists, and an operation of the class is a function of the same name from the table to the
-- result and the new table. `none` is a call that faults, exits or does not return. `Insert` goes
-- back to `RETRY`: one pass from there is `insert_round`, and `insert` repeats it on fuel. Two
-- passes are enough for linear probing. How many are needed for the other two depends on the
-- hashes of the keys, and for keys whose hashes coincide the source does not return either.
-- `resize` of the cuckoo table grows at most `kMaxGrows` times, and a walk of `find_path` has at
-- most `kCuckooThreshold` steps, as in the source.
--
-- Clients. The clients see a table by the record `Hash`, so what is shown of them holds for each of
-- the three tables. An assertion that fails is a result of its own. The threads of a client run one
-- after the other in Interface, and as in Linear/Threads in Bench.
-- A table of linear probing has at most 2 ^ 60 slots there, since `new` cannot make a larger array
-- of pairs; the number of pairs that `microbench` loads, an `int`, is taken to be below 2 ^ 31, and
-- Interface/Load bounds it by 2 ^ 28, so that the table keeps to 2 ^ 30 slots. The promises of the
-- extendible table are for directories of depth below 64, which is what "has not outgrown its
-- promises" says of it, and for the others it says nothing.
--
-- Bounds. `size_t` sums wrap at 2 ^ 64 where they can reach it; capacities of the linear table
-- are powers of two, since it grows by doubling. The `int` counters of its `Insert` and `resize`
-- are bounded in the definitions: a count past 2 ^ 31 - 1 is a fault, so an array of 2 ^ 31 slots or
-- more is not moved. The `int` counters of its `Get`, `Update`, `Delete` and `FindAnyway` and of the
-- cuckoo table are taken to hold the capacity, below 2 ^ 31. Depths of the directory are from 1 to
-- 64, where the source's shifts are by less than 64. Its doubling, which counts with `unsigned i`,
-- ends below depth 32 only, and `int stride` holds differences of depth below 31: the update of the
-- directory gives `none` past these.
--
-- The loop over stripes of `xxhash` has fuel for one round for each byte, and that of
-- `discrete_log` for one round for each bit and one more.
--
-- Threads. A thread of Linear/Threads is a place in the code of its call, with the locals that
-- matter there, and the calls it has still to make; a lock is granted when the threads that hold
-- the stripe allow it, as std::shared_mutex does. A thread that wins the CAS on `resizing_lock`
-- goes no further. In the source its next steps race with those of threads that have passed the
-- test of `resizing_lock` before: `resize` deletes the locks that they wait for.
--
-- Not modelled: the interleavings of the operations of the other two tables, and those of `resize`
-- (the semaphore of the directory is modelled with all its interleavings); the builds with
-- S_HASH, INPLACE or BREAKDOWN; `standard` of util/hash.h, which is `std::_Hash_bytes`, a
-- parameter; the divisions of `Utilization`; the random engines and the distributions
-- of bench/selfsimilar_distribution.h and bench/zipfian_distribution.h, whose draws are an
-- argument; bench/value_generator.h, the other functions of bench/benchmark.hpp and the other
-- drivers under test, which read input and clocks; the order of GenericKey and the pinning of
-- threads in util/config.h; util/timer.h; pcm, a copy of another project.
pub mod Common
pub mod Key
pub mod Word
pub mod HashFuncs
pub mod DiscreteLog
pub mod KeyGenerator
pub mod GenericKey
pub mod Dict
pub mod Probe
pub mod Float
pub mod Interface
pub mod Linear
pub mod Cuckoo
pub mod Extendible
pub mod Semaphore
pub mod Bench
mod Examples
