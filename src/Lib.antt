-- ===== src/Lib.antt =====
-- A model of the core of the applications that the repository builds: the MapReduce library Metis
-- (hermit/apps/metis/lib), and the item table and the object cache of memcached
-- (hermit/apps/memcached/src).
--
-- Metis. The input is cut into splits (defsplitter.c, presplitter.c); map workers take the splits
-- and emit pairs; a bucket manager (arraybktmgr.c, appendbktmgr.c) puts each pair into the bucket
-- of the worker's row and of the column of the key's hash, and tells estimation.c whether the key
-- was new; a sampling run ends with an estimate of the keys, from which kvstore.c takes the number
-- of reduce tasks; reduce.c groups the pairs of a column by key and emits the results into the
-- buckets of rbktsmgr.c, which mergesort.c or psrs.c merge.
--   Metis/Order        the application's comparison function, an interface with its laws
--   Metis/Types        mr-types.h: pairs, arrays of pairs, the application's argument
--   Metis/Bsearch      bsearch.c
--   Metis/Values       value_helper.c; Values/Model is the interface between the values of a key
--                      and a collection of keys, with its two implementations
--   Metis/Arr          the growing array that three handlers write out for their own pairs
--   Metis/KeyvalsArray, Metis/KeyvalArray, Metis/KeyvalsLenArray
--                      the handlers hkvsarr, hkvarr and hkvslenarr
--   Metis/Estimation   estimation.c, one record for each row of mstate
--   Metis/Splitter     defsplitter.c and presplitter.c; concurrent calls are sequences of calls,
--                      since each is one atomic step
--   Metis/Mapper       arraybktmgr.c and appendbktmgr.c
--   Metis/Reduce       reduce.c; its result is the list of the calls into rbktsmgr.c
--   Metis/Mergesort, Metis/Psrs
--                      mergesort.c, and the local steps of psrs.c
--   Metis/Rbktsmgr     rbktsmgr.c and apphelper.c, as far as they are modelled
--   Metis/Kvstore      the end of the sampling in kvstore.c
--   Metis/Tests        runs at small inputs
--
-- memcached. Items hang in the buckets of a hash table that doubles while it is in use: a
-- maintenance thread moves bucket after bucket from the old table to the new one, and every call
-- decides by expand_bucket which table holds its key. The memory of an item is a chunk of a slab
-- class; items of a class age in a queue, and a reference count says when a chunk is free again.
--   Memcached/Assoc    assoc.c: the file's static variables are one record, a bucket is the list of
--                      its items; Table is one table as a map, Holds the invariant of both tables
--                      and the map that they stand for, Find what a search finds, Updates,
--                      Expansion and BulkMove the operations, Events and Runs all of them in any
--                      order
--   Memcached/Cache    cache.c, with the red zones of a build with NDEBUG unset
--   Memcached/Heap     memcached.h: an item as it lies in memory at its address, with 0 for NULL;
--                      Segments and Writes are doubly linked lists in it and writes to their links
--   Memcached/Lru      items.c: the queues of the slab classes and the walk of a crawler through
--                      them; Queue is a queue as a list, and Link, Unlink, Crawl, Ends and Start say
--                      what each operation does to it, with Cut and Swap for their links
--   Memcached/Slabs    slabs.c: classes of chunks, free lists and pages; Classes, Freelist, Pages,
--                      Alloc and Agree are their theorems, Rebalance is the move of a page
--   Memcached/Items    items.c and the counts of thread.c: linking, unlinking, lookup, touch, flush
--                      and release of items over the table, the queues and the free lists; Alloc is
--                      do_item_alloc, Crawler the crawler thread, Move the clearing of a page;
--                      Invariant says how the parts fit together, and Unlinked, Unlink, Linked,
--                      Link, Free, Get, Lookup, Roundtrip and Crawler/Visit are about the operations
--   Memcached/Util     util.c: the checks around strtoull and its kin
--   Memcached/Commands memcached.c: do_store_item; Delta is do_add_delta, and Absent and Mismatch are
--                      about do_store_item
--   Memcached/Tokens   memcached.c: tokenize_command
--   Memcached/Conns    thread.c: the queue of new connections; Fifo compares it with a list
--   Memcached/Tests    runs at small inputs
--
-- A function that may fault (a failed assertion, a read or write out of range, a division by 0)
-- returns an Option, and none is the fault. Memory is there when it is asked for, except in
-- assoc_expand and in the slabs, which go on without it. The counters and lengths of 32 and 64 bits
-- that the code keeps wrap around. What has no meaning for an int is a fault: the sum for the
-- midpoint of a search that is over int, a bucket of a bulk move that is negative as an int, an
-- index or an offset of sublists in psrs.c that is over int. So is an offset into an array that
-- wraps at 32 bits in mergesort.c. The loop counters, and the positions in psrs.c outside of
-- sublists, are numbers without a bound. A loop without a bound in the source runs on fuel: the
-- binary searches on the length of their array, the doubling of an array on 33 rounds for 32 bits,
-- the loop of presplitter_init on one round for each byte of the input and one more, and that this
-- is enough is part of the theorems. The fuel of reduce_or_groupkvs is the number of groups in the
-- column and one more, and that of sublists one more than the pivots; that these are enough is not
-- shown. That of the search for a prime is an argument, enough where it reaches the next prime. The
-- fuel of do_item_alloc, of do_item_flush_expired and of the crawler thread is an argument; that
-- some is enough is not shown. A page of n chunks is cut by recursion on n, and the loops over
-- classes on their number.
--
-- The comparison, hash, combiner, reducer, value modifier and key copy of an application, qsort,
-- strtoull and the length of snprintf of the C library, the answers of malloc and realloc to the
-- slabs, of the trylocks, and the arithmetic on the growth factor are parameters. Chunks are told
-- apart by their addresses; that a page does not overlap an item that is in use is not modelled
-- beyond what a theorem says. Left out are the preallocation of slabs, thread start and affinity,
-- profiling, the statistics, the sockets, and of the protocol of memcached all but the words of a
-- line, and the benchmarks; the B+ tree, the scheduler and the barrier of psrs.c are not modelled.
pub mod Common
pub mod Metis
pub mod Memcached
