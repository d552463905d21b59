-- ===== src/Lib.antt =====
-- EQ Data Patcher downloads the manifests of data patches, parses them and applies the patches to
-- archives of game data. This library models the containers, the lexer and parser of manifests,
-- the ring buffer, the archives, the patch sets, the downloads and the background thread of its C
-- sources, all under src/.
--
-- Base holds what the parts share: Boolean tests, C arrays as lists with reads, writes and copies
-- by index, and 32-bit words as numbers with `% 2 ^ 32` written out. Err is the codes of
-- src/enum_err.h and the names of src/err_code.c.
--
-- Array models src/edp_array.c: `Array` is the struct, its block a list of cells, and `items` the
-- elements. `array_x` of C is `x` here, and `array_set` is `set_at`. Array/Inv says when an array
-- is valid, Array/Items is about the operations in place, Array/Grow and Array/Append about those
-- that allocate and Array/Sort about `array_sort`, with its parts Rearrange, Partition, Sorted,
-- and Result. Bits models src/bit.c, Hash src/hash.c, Crc src/crc.c. Bits/Or, Bits/Smear and
-- Bits/Pow2 lead to the powers of two, Hash/Laws to what a hash depends on, Crc/Table to the
-- table's polynomial. Sstr models src/edp_buffer.c and the simple strings of src/edp_string.c;
-- Str models the growing strings of src/edp_string.c, with Str/Inv and Str/Laws about validity
-- and the text. Their capacity comes from Bits. HashTbl models src/edp_hash_tbl.c: one block of
-- entries, linked by index. HashTbl/Place is `tbl_set_impl` on a block that is there,
-- HashTbl/Resize `tbl_realloc`, HashTbl/Remove `tbl_remove_impl` and HashTbl/Api what clients
-- call, with the hashes of Hash. HashTbl/Fresh, HashTbl/Evict and HashTbl/Lookup set
-- `tbl_set_impl` against `tbl_get_impl` for any table, and HashTbl/Remove/Stuck is about the loop
-- of a removal. HashTbl/Chain is the order of the chains as a predicate on the function from
-- indices to entries, with a distance from its chain's start for each entry that bounds every
-- walk. Its children follow it through the writes: Fill, Append and Move are the three writes,
-- Stored what they have in common, Block the same on lists, Walk the loops along a chain and Free
-- the free index. HashTbl/Holds is the invariant of a table from which nothing was removed (the
-- program never removes a key), with Holds/Get, Holds/Place, Holds/Rehash and Holds/Grow about
-- the functions, and HashTbl/Map the table as a finite map. Lex models src/lex.c, one token read
-- ahead, with Lex/Munch and Lex/Progress. Parse models src/parse.c: it drives Lex, gathers a
-- value in a Str, and stores it in a HashTbl in an Array of manifest entries. Parse/Value is the
-- state that reads a value, Parse/File the machine of all states, and Parse/Ends and
-- Parse/Value/Line are about its loops. Ringbuf models src/ringbuf.c for one thread at a time.
-- Ringbuf/Holds says which queue a buffer stands for, Ringbuf/Push and Ringbuf/Pop are about its
-- two ends. Atomic models src/edp_atomic_posix.c and the loops of src/edp_atomic_win32.c, with
-- Atomic/Added about the addition of both and Atomic/Locked about their mutexes. Semaphore models
-- what src/edp_semaphore_posix.c and src/edp_semaphore_win32.c return. Bytes is the 32-bit
-- numbers that files hold, and chains of writes. Pfs models src/pfs.h and src/pfs.c over Array,
-- HashTbl, Sstr and Crc: an entry's bytes are blocks of compressed runs. Pfs/Put is what replaces
-- and adds files, Pfs/Open what opens an archive and Pfs/Save what writes one. Pfs/Put/Blocks
-- says what blocks hold, Pfs/Put/Extend and Pfs/Put/Pack are about `pfs_compress`, Pfs/Put/Unpack
-- about the loop of `pfs_decompress` and Pfs/Put/RoundTrip about both; Pfs/Open/Walk is about the
-- walk over the blocks, and Pfs/Save/Layout about what a save leaves. A pointer to an entry is
-- its index. Bin models src/bin.c, which puts the files of its command line in one. Bin/Leads
-- says when a line leads to its data, Bin/Laid is about the gathering, Bin/Moved about the loop
-- that moves the offsets, and Bin/Offsets about all of it. Db models src/db.c, with Db/Opened;
-- Patch models src/patch.c, which uses Parse, HashTbl and Ringbuf, with Patch/Settled and
-- Patch/Counted about its loop over the URLs, Patch/Named about a round of the table of names and
-- Patch/Named/Table about all of them; BgThread models src/bg_thread.c, with BgThread/Rounds
-- about the thread and BgThread/Stop about its end. Tests holds runs and instances of the
-- theorems.
--
-- Allocation is a parameter `grant`, which says whether a request of that many bytes succeeds,
-- and `junk`, `blank` and `fresh` are what memory holds before it is written. A null pointer is
-- `none` or an empty list. A file is a record of what the calls on it return. Comparisons and
-- callbacks are functions, and a callback that changes something passes a state on. Character
-- classes are those of the C locale.
--
-- Loops that follow data take fuel and give `none` where it runs out. The walks of a hash table
-- have the number of its entries, which no chain without a cycle exceeds; `tbl_set_impl` calls
-- itself once, so it has 2; the search of a removal has its fuel as an argument. The parser's
-- loops have the text's length and 2: a call of the lexer reads a character or is at the end. The
-- loops of the ring buffer have 129 rounds, each but the last clearing one of 128 flags, and its
-- retries have their number as an argument, since a weak exchange may fail with no cause.
-- `array_sort` has one more than the number of its elements, which its recursion is never deeper
-- than.
--
-- The blocks of an archive's entry take as many rounds as the entry has bytes, or have their
-- number as an argument. The thread empties a ring buffer in 129 rounds, since it holds 127
-- packets at most.
--
-- Where C's behaviour is undefined in a way that a model of lists does not show by itself, it is
-- an outcome of its own: `none` for a sum of two indices of `array_sort` that is no `int`, `overrun`
-- for a file of which more is read than its block was made for, and `overruns`, `closes_null` and
-- `frees_uninitialised` for calls that end in such a way.
--
-- zlib, libcurl, SQLite and the Windows exchange are parameters: what their functions return,
-- call after call, or a function on the bytes that they are given. `IsZlib` is what zlib
-- documents: a result fits the buffer, and is expanded to what it was made from wherever that
-- fits. A transfer is given the callback that was set. `IsExchange` is what the Windows API
-- documents. What other threads do stands in parameters too: a wait of the background thread is a
-- function that gives the buffer as it is then.
--
-- Not modelled: src/main.c, which prints what the other parts found, the operating system's
-- threads, semaphores and files, printing, and the libraries for compression, transfer and
-- databases, of which src/sqlite3.h is one's header.
mod Base
pub mod Err
pub mod Bits
pub mod Hash
pub mod Crc
pub mod Sstr
pub mod Str
pub mod HashTbl
pub mod Array
pub mod Lex
pub mod Parse
pub mod Ringbuf
pub mod Atomic
pub mod Semaphore
pub mod Bytes
pub mod Pfs
pub mod Bin
pub mod Db
pub mod Patch
pub mod BgThread
mod Tests
