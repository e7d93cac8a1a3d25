-- ===== src/Lib.antt =====
-- Verification of avs_commons, a library of C modules for embedded network programs. What is here are
-- modules that the others stand on: time, the job scheduler, the byte buffer, lists, vectors, base64
-- and hexadecimal texts, URLs, the streams and the persistence of values on top of them, the bodies of HTTP
-- messages, and what threads share. Each is a tree of its own; the scheduler uses the instants of Time, the
-- streams in memory fill the interface that Stream declares, and Persistence, the encoding of URLs and Http
-- are written against that interface.
--
-- * Buffer.antt models src/buffer/avs_buffer.c: the record `Buffer` holds the block and the offsets
--   `begin` and `end`; each function of the file is an operation of the same name, the failing ones
--   with a `Status`. Queue is the abstract queue of bytes, Refine relates the two.
-- * Time.antt models src/utils/avs_time.c: `Duration` over the integers, with the ranges of int64_t and
--   int32_t as tests where the code has them; Convert is the conversion to and from scalars, and the
--   printing, whose decimal texts are those of src/utils/avs_strings.c, with 20 digits as fuel for 64 bits.
--   The wall clock and the monotonic clock are read from the system, and left out.
-- * Sched.antt models src/sched/avs_sched.c: the list of jobs, sorted by instants, and the variables of
--   the clients that hold handles, as a store from addresses to pointers. The allocator is asked
--   through an argument, which is an address or nothing; a callback is a function on the scheduler. The
--   loop of `avs_sched_run` has fuel: one more than the jobs that are due is enough, as its theorem shows.
-- * Base64.antt models src/algorithm/avs_base64.c, with the alphabet and the padding as parameters; a plain
--   char is signed. The
--   fuel of the padding loop is 3, as a group has four digits.
-- * ListOps.antt models src/list/avs_list.c on sequences of elements. The merge sort has fuel for the
--   depth of its recursion, and the number of elements is enough.
-- * Vector.antt models src/vector/avs_vector.c: the elements and the size of the block. The allocator is
--   a function from sizes to whether they are served. The reversal has fuel `end + 1`.
-- * Hexlify.antt models src/utils/avs_hexlify.c, with texts as lists of characters.
-- * Stream.antt models src/stream/avs_stream.c: the table of operations of a stream as the record `VTable`
--   of functions on its state, and the functions on top of it. Stream/Queue.antt is the contract between
--   both, a stream as a queue of bytes: `IsSource` for what reads promise, `IsSink` for writes. The loop of
--   `avs_stream_read_reliably` has fuel for each byte and two rounds; that of `avs_stream_copy` gets it as
--   an argument, and two rounds more than the bytes of the input are enough. Line has the lines of text, with
--   fuel for twice the buffer.
-- * Membuf.antt models src/stream/avs_stream_membuf.c: the bytes before the write index, the two indices
--   and the size of the block; the allocator as for vectors. Queue and Write fill the contract.
-- * Blockbuf.antt models src/stream/avs_stream_inbuf.c and avs_stream_outbuf.c, the streams that read from a
--   given block and write into one; Sides fills their half of the contract each.
-- * Numbers.antt models the byte orders of src/utils/avs_numbers.c, on a little-endian target, and the
--   memory of an integer.
-- * Persistence.antt models src/persistence/avs_persistence.c: Store and Restore are the two tables of
--   handlers, the functions of the parent choose by the context, which is one of the two or null, and
--   Collections has the lists, with their handlers as functions. Codec is the contract of a pair of
--   functions that store and restore, by an encoding as bytes.
-- * Url.antt models src/url/avs_url.c: the record `Url` holds the block of the parsed text and the offsets of
--   the parts. A step of the parser fails an assertion or leaves the block (`fault`), returns an error
--   (`refused`), or goes on. Escape has percent-encoding, Parser the parser, Access the accessors, the
--   validation and the copy; Expected is a grammar of its own, on texts. The decoding has fuel for the
--   length of its block, and takes a character at least in each round.
-- * Http.antt is for src/http/body_receivers, and Http/Sending.antt for the chunks that src/http/avs_chunked.c
--   sends: ContentLength models avs_content_length.c, and Chunked
--   avs_chunked_body_receiver.c, both over any stream of a connection. Chunked/Wire.antt is the format of a
--   chunked message as a relation between the bytes and the body. The loops over lines have fuel, and more
--   than the bytes that wait at the connection is enough; `avs_stream_read_reliably` gets two rounds more
--   than these bytes. `strtoul` and `%lX` are written out as C has them.
-- * Threads.antt is the frame for src/compat/threading/atomic_spinlock: any number of threads, of which any
--   may take the next step, with at most one atomic operation in each. InitOnce models
--   avs_atomic_spinlock_init_once.c, Mutex the functions of avs_atomic_spinlock_mutex.c, and Condvar
--   avs_atomic_spinlock_condvar.c with the mutex of its users; a thread's place in the code is its `Pc`.
--   Exclusion is the argument that both share. The atomic operations are sequentially consistent, which
--   is what the code asks C for; the threads of the model lock the mutex
--   only when they do not hold it, and unlock only what they hold.
-- * Common holds what they share: lists measured by native numbers, the integers, words, Boolean tests.
--
-- Numbers of a fixed width are natural numbers or integers, and wrap-around is written out where the code
-- can reach it; size_t has 64 bits. A failed assertion, or an access outside of a block, is `none`, and
-- the theorems say where it cannot happen. Logging is left out.
--
-- Not modelled: the network, TLS and cryptography modules, which call OpenSSL, mbed TLS, tinydtls and the
-- system; the other streams, the rest of HTTP, the red-black tree and its persistence, which are further work;
-- the unit test framework and the build.
pub mod Common
pub mod Buffer
pub mod Time
pub mod Sched
pub mod Base64
pub mod ListOps
pub mod Url
pub mod Vector
pub mod Hexlify
pub mod Numbers
pub mod Stream
pub mod Membuf
pub mod Blockbuf
pub mod Http
pub mod Persistence
pub mod Threads
