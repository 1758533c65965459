-- ===== src/Lib.antt =====
-- A verification library for bsl45-misc.tools, a collection of small C programs and of the
-- components that they share. Each part is a module of its own, over the shared `Prelude`; `Relay`
-- and `Follow` call `FdIo`, and the other parts do not call each other.
--
-- * `Crc32` is crc32.intel/crc32.c. `Crc32.Tables` holds the ten tables of the source, digit for
--   digit; `Crc32.Code` its functions (crc32, singletable_crc32c, crc32c_sb8_64_bit,
--   multitable_crc32c, crc32c) under their names. A buffer is a list of bytes from the pointer
--   on; a read past its end is a fault. The byte order, which the source takes from a macro, and
--   the address of the buffer modulo four are arguments. `Crc32.Spec` is the independent
--   description: division of the message by the polynomial, one bit at a time.
--   `Crc32.Hardware` is crc32.intel/ucrc32hw.c, with the processor's crc32 instruction as a
--   parameter.
-- * `Queue` is queue/queue.c and the casts of queue/queue.h: the struct with its array of
--   pointers, ssize_t indexes as integers, every access checked, every assert a possible abort.
--   `Queue.Fifo` relates a queue to the list of its elements, `Queue.Session` runs sequences of
--   calls against a bounded FIFO. calloc is a pair of flags.
-- * `Base64` is base64/b64.c: the two static tables as a state, the encoder with its buffer
--   limit, the decoder, and the two functions that allocate (malloc is a flag). `Base64.Spec` is the
--   encoding of RFC 4648, described by digits of numbers of 24 bits.
-- * `DebugSync` is debugsync/debugsync.c with the flags of debugsync.h. `DebugSync.Points` holds
--   the struct `ds` and the helpers that run under the mutex, `DebugSync.Calls` the interface
--   functions, each cut at the places where the mutex is released: a section ends with a return, a
--   failed assert, or a sleep in pthread_cond_wait. `DebugSync.Threads` is the step relation of any
--   number of threads that call in any order; a broadcast makes all sleepers ready, and a sleeper
--   may also wake up by itself. The pthread calls succeed, as documented of a mutex and a condition
--   that were initialised. `DebugSync.Blocked`, `.Effects` and `.Sections` carry the invariant,
--   `.Runs` follows it along the steps, `.Names` is about how points are found.
-- * `DynSync` is debugsync/debugsync_dyn.c, an earlier variant of the facility with an array that
--   grows. `DynSync.Points` holds the struct `ds`, ds_add and ds_lookup; a pointer to a point is its
--   place among all that were allocated. `DynSync.Calls` has the interface, `DynSync.Threads` its
--   step relation: a signal wakes one sleeper, whichever, and others may wake up by themselves.
--   bsearch is a parameter. `DynSync.Names` and `.Insert` are about the order that
--   `DynSync.Acquire` shows the insertion of ds_add to keep, `.Lookup` about ds_set, whose allocation
--   is too small for a point, `.Keeps`, `.Runs` and `.Waits`
--   about the threads.
-- * `XvDat` is fdwatch/xvdat.c and fdwatch/xvdat.h: an array that grows by blocks, and on top of it
--   a list of slots with a mark each. `XvDat.Marks` is about the first free mark, `XvDat.Grow` about
--   xvec_reserve and xvlst_reserve and says what a well-formed list is, `XvDat.Take` and `XvDat.Add`
--   are about xvlst_add, `XvDat.Del` about xvlst_del. realloc is a flag, or the contents of the
--   memory that it adds.
-- * `FdIo` is fdwatch/fdio.c and fdwatch/fdio.h: `FdIo.Output` has nwrite and nwritev, `FdIo.Input`
--   nread and npread, `FdIo.Transfer` transfer as compiled on Linux, `FdIo.Sendfile` bsd_nsendfile as
--   compiled on FreeBSD. What the system answers is a list: each answer moves some bytes, at most
--   as many as asked for, or fails with an error; the loops recur on it, and a call that has got no
--   answer yet has no result. `FdIo.Writes`, `.Vectors`, `.Reads`, `.Streams`, `.Copies` and
--   `.Sending` say what is moved and whether the loops end.
-- * `Relay` is fdwatch/frelay.c, which calls `transfer` of `FdIo` in a loop. `Relay.Files` has the
--   two files and rollover, `Relay.Loop` a round, the loop and main. The state also records
--   what each file held that was moved away, which the program does not keep. A round has its answers of the
--   system; the loop runs over a list of rounds, as nothing but an error ends it. `Relay.Rounds`
--   and `.Served` are about what is copied, `.Stale` about an interrupted pause.
-- * `Follow` is fdwatch/evrdr.c, which reads a file as it grows with `nread` of `FdIo`.
--   `Follow.Events` has process_event and re_open, `Follow.Loop` the watch loop on a list of turns,
--   each with what kevent gives and the answers of the other calls; `Follow.Pieces`,
--   `.Served` and `.Whole` are about the bytes that are read and printed.
-- * `Wal` is wal/wbuft.c. `Wal.Options` reads the command line, with getopt's options and atol's
--   numbers as inputs; `Wal.Sync` asks for the data to be synchronised, at once or by the thread;
--   `Wal.Writing` has write_nbuf and writev_nbuf against a list of answers of the system, one for
--   each write; `Wal.Run` has run_odsync and main. `Wal.Turns` lets the turns of the thread
--   fall anywhere between the writes; in `Wal.Run` the thread has no turn, since nothing that the
--   writer does depends on it. The mutex and the condition work as documented, and fsync and
--   fdatasync succeed in the writer, which does not look at their values.
-- * `Prof` is the probe of prof/prfm.c, prof/prfm.h and prof/rusage_ops.h. `Prof.Usage` has the
--   counters, `Prof.Probe` the operations; what the clock and getrusage answer is an input, and the
--   sums of times, macros of a copied header, are a parameter. `Prof.Sessions` says what is added up.
-- * `Align` is memalign/unalcalc.c: `Align.Code` has align128bit_offset and main, with the block that
--   mmap gives as an input; the loop runs on as much fuel as the block has bytes, and one more.
--   `Align.Bounds` says which words are written.
-- * `Sort` is sort/simple_sort.c: `Sort.Code` has selection_sort, insertion_sort and bubble_sort over
--   a list of values, every access checked.
--
-- Numbers are natural; a value of w bits keeps its reduction modulo 2 ^ w where the code can
-- wrap. Loops run by recursion on what they count down, or on fuel: the slicing loop has a group
-- of eight bytes per step, the decoder one byte of input or more per step.
--
-- Not modelled: pqueue_free and ds_destroy, which only release memory; shell_sort, which uses a
-- name that nothing defines; fdwatch/reader.c, fdwatch/writer.c and memalign/unalign.c, earlier
-- variants of evrdr.c, frelay.c and unalcalc.c; fdwatch/iorly.c, which does not compile; the printing
-- of metrics in prof/prfm.c and the options of main in evrdr.c; the programs that only print, measure
-- time or try out a call of the operating system; and the copies of other libraries.
pub mod Prelude
pub mod Crc32
pub mod Queue
pub mod Base64
pub mod DebugSync
pub mod XvDat
pub mod FdIo
pub mod Wal
pub mod Sort
pub mod Prof
pub mod DynSync
pub mod Relay
pub mod Follow
pub mod Align
