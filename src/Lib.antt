-- ===== src/Lib.antt =====
-- cam-alias-checker traces the memory accesses and the control flow of a loop, compresses the
-- traces while the program runs, and finds the data dependences between iterations offline.
--
-- The parts and their files:
--   * ControlFlow models libcam/src/ControlFlowCompressor.{h,cpp}. ControlFlow/Pattern.antt is the
--     class TracerCompressionPattern (operator==, incRepetitions, patternMatchesSymbols,
--     decompress), ControlFlow/Compressor.antt the class ControlFlowCompressor (match, merge,
--     isRepeatedSequence, insertSymbol, decompress, clear, isEmpty). The window is a list with the
--     youngest pattern first, as in the deque. A field that a constructor leaves uninitialised holds
--     an arbitrary number, the argument `uninit`. The patterns own their parts, so they are values;
--     the memory allocator leaves no trace in the model.
--   * Libcam/MemoryTracer.antt models libcam/src/MemoryTracer.cpp and TimeoutCounter.h: CAM_mem, the
--     recording of accesses in strided entries, and the trace files, as the lists of numbers in them.
--     The time, the memory in use and its limit are arguments of each call; the start and the timeout
--     are `int`s of 32 bits, whose sum wraps where it overflows. The map from instructions
--     to records is a function. Libcam/MemoryParser.antt is libcam/src/memory_trace_parser.lex, the
--     scanner that reads such a file into a MemSet, as a machine over the numbers, and
--     Libcam/RoundTrip.antt puts the tracer, the files and the scanner together, by way of the runs of
--     Libcam/Runs.antt.
--   * Libcam/MemSet.antt models MemSetEntry and MemSet of libcam/src/static_inst_rec.{h,cpp}. What
--     entries stand for is the list of accesses, addresses with lengths, of Libcam/Accesses.antt.
--     Fields that a constructor does not set hold what the argument of type `Uninit` says.
--   * Libcam/Streamer.antt models MemoryTraceStreamer of libcam/src/MemoryTraceStreamer.{h,cpp} and the
--     calls of the scanner in libcam/src/BZ2ParserState.cpp. The blocks of numbers that libbz2 reads
--     are an argument, the last of them the one after which doLexing returns 0. Streamer/Parse.antt is
--     about the parsing of blocks, Streamer/Split.antt about the cut behind the last instance,
--     Streamer/Pending.antt about what is still to come,
--     Streamer/Chunks.antt about one chunk and Streamer/Streams.antt about several, up to the traces
--     that the tracer leaves.
--   * Libcam/Repetition.antt models RepetitionPattern and RepetitionPatternSortedLookup of
--     libcam/src/RepetitionPattern.{h,cpp}: Repetition/Instances.antt the instances of a pattern,
--     Repetition/Lookup.antt the data at an instance. Repetition/Built.antt models
--     RepetitionPatternLookup, which is built from patterns at once: Built/Lookup.antt what it looks
--     up, Built/Walk.antt a loop over it.
--   * Libcam/CompressionPattern.antt models libcam/src/CompressionPattern.{h,cpp}, the patterns that a
--     reader builds: CompressionPattern/Count.antt and Ordered.antt are about the map of the numbers of
--     instances, a list in the order of the symbols.
--   * Libcam/CallTrace.antt models CallTraceInstanceGroup and CallTraceCall of
--     libcam/src/CallTrace.{h,cpp}, by those two: a lookup has the place of a group in the vector of
--     the call. CallTrace/Numbers.antt is about the lookups, Ends.antt,
--     Flow.antt, Holders.antt, Extremes.antt, Join.antt, Choice.antt, Taken.antt, Once.antt and
--     Merge.antt about two calls of which one goes on in the other.
--   * Libcam/StaticLoop.antt models IterationGroupCfc and InvocationGroupCfc of
--     libcam/src/StaticLoopRec.{h,cpp}, the iterations of a loop. StaticLoop/Laps.antt is about
--     iterations with as many instances each, Entries.antt, Lookup.antt, Ranges.antt and
--     Instances.antt about the table that leads from an instance of an instruction to its iteration,
--     Iterations.antt and Precompute.antt about that table against the iterations one by one, Sums.antt
--     and Totals.antt about the number of instances, and Merge.antt about two invocations of which one
--     goes on in the other.
--   * Libcam/Dependence.antt models isAlias, isAliasBruteForce, doBruteForceAliasAnalysis and
--     buildInstrPairMenu of libcam/src/dependence_analysis.cpp.
--   * Libcam/DynamicGcd.antt models libcam/src/dynamic_gcd.cpp (euclid_gcd, euclid_lcm,
--     extended_euclid, dynamic_gcd): where two strided ranges of addresses meet, on 64-bit words, a
--     signed word as its two's complement. Division by 0 has no result.
--   * Xanlib/Bitset models xanlib/src/xanbitset.c. Bitset/Word.antt is a `size_t` as its 64 binary
--     digits with the digitwise operators of C, Bitset/Words.antt the loops over `set->data`,
--     Bitset/Ops.antt the functions that change a set, Bitset/Queries.antt those that read one.
--   * Xanlib/LinkedList models xanlib/src/xanlist.c. LinkedList/Memory.antt is the memory: a function
--     from addresses to items and the supply of addresses that the allocation function will return.
--     A function of the library is a command on it, and a failed assertion, an access to an address
--     with no item and an end of the supply have no result. LinkedList/Items.antt has the list's
--     header, which a command returns changed, and the allocation of items, with the buffer of free
--     items as a list of addresses, the last freed first, whose array is allocated when the first item is
--     freed. A new item holds arbitrary contents, the
--     argument `uninit`. LinkedList/Queries.antt has the functions that search, Insert.antt, Move.antt
--     and Remove.antt those that change one list, Whole.antt those on whole lists. Shape.antt says when
--     a header and a memory are a list of given items. Pointers to data are numbers.
--   * Xanlib/Stack.antt models xanlib/src/xanstack.c, a stack as such a list with its top in front;
--     Stack/Sync.antt has the functions that hold its mutex, which is a parameter.
--   * Xanlib/Pipe.antt models xanlib/src/xanpipe.c, a pipe as such a list that is put to at its end and
--     taken from in front, and Pipe/Sync.antt the functions that hold its mutex. Pipe/Fifo.antt has
--     its order.
--   * Xanlib/HashTable models xanlib/src/xantable.c. HashTable/Ops.antt has the functions on one key,
--     Walk.antt those on the whole table, Sync.antt those that hold the mutex. A bucket is the list of
--     its items, the first of which stands in the table, and a pointer to an item is the number of the
--     bucket and the place in it. The hash and the comparison of keys, the arithmetic of the load factor,
--     which is a `float`, and the mutex are parameters. Placed.antt says what a table is, Store.antt
--     and Expand.antt are about storing an item and growing, Insert.antt, Lookup.antt and Remove.antt
--     about the operations on a key, Whole.antt about new, listed and emptied tables.
--   * Xanlib/Queue.antt models xanlib/src/xanqueue.c, a queue by priority as a heap in an array. Its
--     items are values that have their address and position, and the comparison of priorities is a
--     parameter. Queue/Sync.antt has the functions that hold the mutex, Order.antt the order of a
--     heap, Array.antt exchanges in the array, Greatest.antt the child that goes up, Shift.antt the
--     two loops, Ends.antt and Extract.antt the array with an item more or less, Heap.antt put and
--     get, Handle.antt the operations on an item that a handle names.
--
-- Fuel and bounds. The loop of insertSymbol runs on fuel, the number of patterns in the window; each
-- successful match or merge makes the window shorter. Repetitions are counted in 64 bits, and
-- `decompress` counts them in 32: from 2 ^ 32 repetitions on it has no result. Lengths of bitsets are
-- below 2 ^ 60, where no `size_t` wraps; a failed assertion is `none`, and memory is always given.
--
-- Euclid's loops run on fuel, one round more than the divisor, which falls in each round. The loops
-- over the items of a list run on fuel, one round more than the list has items. The loop of
-- getNextChunk has one round more than there are blocks and numbers left, and each round takes one.
--
-- The loop up a heap has a round for each position up to that of the item, and the loop down one more than
-- the queue has items; the position falls or grows in each round. A loop over the instances of a
-- lookup has one round more than there are instances. The loops over the iterations of an invocation
-- run over lists; the numbers of its iterations and of the instances of an instruction are below
-- 2 ^ 64 where the table is proved right.
--
-- A bitset is sound when its block has the words that its length needs and no bit behind the length
-- is set.
--
-- The functions of lists that hold a mutex round another function are not modelled, and no two threads
-- run at once. A caller that waits for an item of an empty queue or pipe has no result. The functions that
-- free a table with its keys or elements, or a queue, are not modelled.
--
-- The formatting and scanning of digits, the compression of the files and the blocks in which they are
-- read are those of libc, flex and libbz2. The interval tree is another project's.
--
-- Not modelled: output operators and printing, the release of memory, the files of the loop and call
-- traces and their parsers, the command line, and the parts listed as not modelled in the manifest.
pub mod Prelude
pub mod ControlFlow
pub mod Libcam
pub mod Xanlib
