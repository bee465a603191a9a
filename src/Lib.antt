-- ===== src/Lib.antt =====
-- Verification of RedisDB, a C++ library of in-memory data structures after Redis.
--
-- The program. src/hash.h is a hash with incremental rehashing: `HashMap` and `HashSet` derive from
-- `Hash`, which holds an active table and, while a rehash is going on, a backup table (`HashTable`,
-- an array of linked lists of `HashNode`). Every operation on a key first carries the rehash on by a
-- step, or begins one when the load calls for it, and then looks in one table or in both.
-- `HtValueTraits` gives the key of a stored value, `HashFunction` the hash of a key.
-- src/threadPool.h has a queue between threads, src/Util.h the reversal of binary digits that `scan`
-- needs, and src/SkipList.h a skip list: sorted nodes, each linked on some of the lowest levels, whose
-- spans tell how far a link leads. src/redisIterator.h has the iterators that walk over its nodes.
--
-- The files.
--   Prelude        numbers as 64-bit words, Boolean tests, runs of code that may have undefined
--                  behaviour or not end (`Run`), counts of the elements of a list
--   Traits         `HtValueTraits` for a set and for a map, and the index of a key (`slot`)
--   Table          `HashNode` and `HashTable` with every operation; Table/Chains and Table/Bags see
--                  a table as a bag of nodes
--   HashFunction   the hash functions; HashFunction/Times33 on the hash of strings
--   Hash           the state of `Hash` and the rehash (`rehash`, `startReHashing`,
--                  `compeleteReHashing`, `getNextPower2`, `calculateReHashStep`)
--   Hash/Operations, Hash/Map   `insert`, `get`, `erase` and `isExist` of `Hash`, `HashMap` and
--                  `HashSet`
--   Hash/Valid     the states that a hash keeps to: resting (one table) or moving (two tables, the
--                  first buckets of the active one already empty)
--   Hash/Move, Rounds, Rehash, Begins, Advance, Finish   proofs on the rehash
--   Hash/Lookup, Reads, Insert, Erase, Laws      proofs on the operations
--   Hash/Destroyed   the destructors of `HashTable` and `Hash`
--   Hash/Map/Refines, Reaches   the hash as a finite map: one call, and all that a `HashMap` comes to
--   Hash/Iterator  `begin`, `end`, `cbegin`, `cend` and `next`; Hash/Iterator/Operators has
--                  `RedisHashIterator`; Settle, Walk, Visits, Unique and Loop hold the
--                  proofs
--   BitsOp         `BitsOp::rev` of src/Util.h; BitsOp/Digits and BitsOp/Reverses see a number as its
--                  binary digits
--   Hash/Scan      `scan`; Hash/Scan/Cursor, Expansions and Stretches on the numbers that a cursor
--                  goes through, Emits, Blocks and Loop on the values of a bucket and of the loop
--                  over its expansions, Covers, Both and Calls on one call, and Guarantee, Once and
--                  Whole on repeated calls
--   Hash/Stale     the call that begins a rehash works with the index of the old table: what `get` and
--                  `insert` then do (Get, Insert), and what `get` still promises (Sound)
--   Queue          `ConcurrentQueueWithLock`, each function one critical section; Queue/System is the
--                  interleaving of producers and consumers as a step relation, and Queue/Fifo,
--                  Queue/Wakeups and Queue/Capacity hold the proofs; Queue/Waits has `waitPush` with
--                  its loop, against a schedule of what other threads do between its tries
--   SkipList       the operations of `SkipList` of src/SkipList.h, SkipList/Loops their loops, and
--                  SkipList/Memory the memory of the nodes; SkipList/Iterator the iterators of
--                  src/redisIterator.h
--   SkipList/Towers, Layout   the list of nodes that a skip list stands for, and what its pointers and
--                  spans then have to be (`IsSkipList`)
--   SkipList/Search, Ends, Split, Reads, Rank, Bounds   proofs on the walk down the levels and on
--                  `getRank`, `lower_bound` and `upper_bound`
--   SkipList/Frame, Splice, Between, Backward   lemmas that `insert` and `erase` share
--   SkipList/Link, Raise, Insert   proofs on `insert`; SkipList/Unlink, Erase those on `erase`
--   SkipList/Laws, Created, Destroyed, Levels, Walks   `erase` after `insert`; proofs on the
--                  constructor and the destructor, the drawn levels, and the walks of the iterators
--   Hash/Tests, HashFunction/Tests, SkipList/Tests, BitsOp/Tests, Queue/Tests   runs at concrete
--                  inputs, and the theorems applied to them
--
-- How code is modelled. A node is its address and its value, a chain is the list of its nodes, and
-- the array of buckets is the list of chains; an address is what the allocator returned and only
-- names a node. A table knows its size and its number of buckets as the fields of the source do. The
-- pointers `mActive` and `mBackup` are a table and an optional table. A member function takes the
-- state and returns the new one next to its result, in `Run`: `undefined` stands for a read out of
-- bounds, a null pointer or a division by zero, `diverges` for fuel that runs out. `size_t` is a
-- natural number below 2 ^ 64 with the wrap written out; -1 as `size_t` is `npos`. The arguments of
-- `rehash` and its counters are `int`, so that the conversions to `size_t` are written out, too.
--
-- The nodes of a skip list share pointers, so they lie on a `Heap`: the fields of a node by its
-- address, where 0 is the null pointer. `new` is a parameter, the address that it returns, at which no
-- node may be; `std::rand` is one, too, or the level that was drawn. A read of a vector outside its
-- size, or of a node that is not there, is `undefined`. `int` is its 32 bits, with the wrap written
-- out; the theorems assume less than 2 ^ 31 nodes where a sum of spans could wrap. The four walks of the
-- source differ in their test and in what they keep, and are one function, `search`.
--
-- Bounds and fuel. The walk down a skip list has as much fuel as levels and nodes together, its
-- destructor and the walks of the iterators as much as nodes. The loop of `getNextPower2` runs on
-- fuel 64, which is enough up to 2 ^ 63; that of `scan` over the expansions of a bucket on as much
-- as the larger table has buckets; that of `rev` on 7 rounds, for a shift that halves from 64 to 0.
-- The loop of `begin` has 2 ^ 31 rounds before its `int` counter overflows. The loop of
-- `generateRandomLevel` ends with the first draw that is high enough, and its fuel is an argument.
-- The other loops recurse on a list or on the count of the loop, that of `waitPush` on the schedule
-- of the other threads. `isNeedReHash` and `isNeedShrink` compare with a `float`: `to_float` rounds
-- to 24 significant bits. That a hash has at most 2 ^ 30 nodes is assumed where a new table is
-- chosen, since a table with 2 ^ 31 buckets or more does not fit the `int` that counts its buckets.
--
-- Keys and their hash. The type of keys, its equality and the hash function are parameters; the
-- equality decides equal keys, and the hash is any function to the natural numbers.
--
-- Not modelled. Output (`printHash`, `printHashTable`, the text of `printNode`, src/Util.h's
-- logger); the move operations of `Hash`, which do not compile when they are instantiated;
-- `operator=` of the iterators, which lacks its return statement; walks by `cbegin`, whose
-- `ConstIterator` has an `operator++` that does not compile; exceptions of the allocator; the
-- programs src/client.cpp and src/server.cpp, which pass on to libraries; and 3rd/asio_http,
-- another project's library.
pub mod Prelude
pub mod Traits
pub mod Table
pub mod HashFunction
pub mod BitsOp
pub mod Hash
pub mod Queue
pub mod SkipList
