-- ===== src/Lib.antt =====
-- The KCI client library: a C interface to a database server, with the ODBC driver built on it. The
-- library scans the statements that a program prepares, converts the values it binds and fetches,
-- and exchanges encrypted packets with the server, with memory from contexts of its own.
--
-- Calendar (ksources/utl_time.cpp, kinclude/kci_time.h): `date2tm` and `tm2date` between day
-- numbers and dates, `dt2tm` and `tm2dt` between microseconds and dates with a time, with the
-- tables they read. The day numbers and stamps are integers, ℤ; inside the functions the source
-- shifts them by 110000 years, and the shifted values are natural numbers. `none` stands for a
-- value outside that calendar, where C would divide a negative number, for a read outside a table,
-- and for a sum that is too large for the source's `int` or `int64`, of which C says nothing; so
-- the theorems on the Gregorian calendar have a last year or a last day. Calendar/Years and Numbers
-- treat the year of a day, Months the tables, Dates and Reform the two sides of October 1582.
--
-- TimeText (ksources/utl_time.cpp, the tokens of kinclude/kci_time.h, `astricmp` of
-- kinclude/kci_string.h): `next_tfmt` with its tables, `str2tm`, `tm2str` and `str2Interval`. A C
-- string is the list of its bytes before the zero, and an argument that the source moves on is the
-- rest of that list. A token is its number in `TFmt`. The numbers of a pass are exact, and a pass
-- at whose end one is too large for an `int` has the result `overflown`; the year that the clock
-- shows is a parameter. A pass from the label `retry` to the end is a function; the loop over the
-- tokens has a fuel of the length of the format and one, enough as each token is a byte at least,
-- and the passes are counted by fuel, since the source can jump back for ever; after two it does so
-- or has returned. The result is what is stored, or `refused` for false; `overflown` is a pass in
-- which an `int` overflows, of which C says nothing, and `stuck` is a fuel that runs out.
-- TimeText/Tables has the tables, Scan and Parse the pieces of `str2tm`, Words, Longest, Match and
-- Language the language that the tables stand for, Valid the dates that are stored, Retry, Passes
-- and OneYear the loops. Print has `tm2str`; what `sprintf` writes for a double is a parameter
-- there, and the string in the buffer before the call an argument. Digits, Layout, Fields, Between,
-- Written, ReadBack and RoundTrip lead from a date to its text and back. Interval has `str2Interval`, on exact numbers, and IntervalText what it reads.
--
-- Sql (ksources/utl_stmt.cpp, `astrnicmp` of kinclude/kci_string.h): `parseSQL`, `getSQLType` and
-- the functions that skip strings, identifiers and comments. A statement is a function from offsets
-- to bytes and a length, since the source reads behind the length in places. Loops that are bounded
-- by the length count down the bytes left; the loop that skips blanks takes a fuel of the length
-- and one, enough where a zero stands behind the statement, and the main loop too, as each round
-- moves on. Parameters are their offsets and lengths in the order they are added; the memory they
-- are allocated from and the texts of the errors are left out. `isspace` and `isalnum` are those of
-- the C locale.
--
-- Net (ksources/kci_netio.cpp, kinclude/kci_net.h): `sockSend` and `sockRecv`, `encrypt_buff` and
-- `decrypt_buff` (one function, `crypt_buff`, on the keys of either direction), `sendData`,
-- `readData` and `netFlush`. A connection holds its buffers as the bytes that wait in them. The
-- socket is part of it: the bytes sent, the bytes that will arrive, and for each call of `send` and
-- `recv` to come how many bytes it moves at most, 0 or the end of that list for a call that fails;
-- so the loops recur on these lists. The generator of the key stream is a parameter, a function
-- from its state to a stream of keys and its next state. The loop of `sendData` takes a fuel of the
-- length, enough as each round puts a byte. An exception of the source is a result that carries the
-- state it leaves. Net/Messages has the bytes, integers and strings of kinclude/kci_net.h: an
-- integer is its bits, and memory for a string is there. Ready and Exchange lead from a string that
-- one end writes to the one that the other reads.
--
-- BlkMem (ksources/kci_blk_mem.cpp, kinclude/kci_mem.h): `init_blk_mem`, `blk_mem_alloc` and
-- `reset_blk_mem`. A pointer is a block and a place in it; block 0 is the array `mem0`, and each
-- block that the parent grants has a number of its own, which stands for memory apart from all
-- other blocks. The sizes wrap around at 32 bits as they do in the source. The variants with a lock
-- call the same functions, and `realloc` and `free` do nothing there.
--
-- LinkMem (ksources/kci_lnk_mem.cpp, `ListAdd` and `ListRmv` of kinclude/kci_types.h):
-- `init_link_mem`, `link_mem_alloc`, `link_mem_realloc`, `link_mem_free` and `reset_link_mem`. A
-- piece is the number it got from the parent, which stands for its address; the list through the
-- pieces is the list of their numbers, and the state also has the numbers that the parent has not
-- got back. The calls of a client, each with a piece on the list, are a step relation.
--
-- BinMem (ksources/kci_bin_mem.cpp, the structs of kinclude/kci_mem.h): `bin_mem_alloc`,
-- `bin_mem_free` and `bin_mem_realloc` with the macros on chunks, `init_bin_mem`,
-- `reset_bin_mem_context` and `clr_bin_mem_context`. An address is a number, and each field of the
-- chunk headers a function from addresses. The word `size` of a header is four fields, the size
-- without its low three bits and the three flags, since the sizes are multiples of 8. The list of a
-- bin, or of heaps, is the list of the addresses on it; where the pointers of a list overlap other
-- memory is not modelled, and the theorems are about requests of a byte or more, whose chunks have
-- room for them. The parent is an argument of each call: what it returns for the bytes that it is
-- asked for, a number of 32 bits (`heap_bytes`), to which the sum of a request and the header is
-- cut. Hypotheses say that these bytes are apart from what it has granted before and not got back,
-- and bound the requests and the step so that nothing is cut off. A request is read on 32 bits, and
-- the sum with the rounding on 64; the field `heap_size` of a heap is 32 bits, read as an `int32`.
-- Tiles and Headers have the chunks side by side, Kinds the lists, Homes and Grants the heaps,
-- Valid, Cuts and HeapSteps the steps of the calls on the whole state; Serve, Search and Requests
-- follow `bin_mem_alloc`, Release and Returned `bin_mem_free`, Resize, Fits and Resizing
-- `bin_mem_realloc`, and History and Reached the calls of the clients one after the other. The
-- bytes of a block are not modelled: `memmove` is its arguments.
--
-- Hex (kinclude/kci_string.h): `i4toh`, `ui4toh`, `i8toh` and `ui8toh` with `SG_SWAP4` and
-- `SG_SWAP8`, on a machine that keeps the low byte first. An integer in memory is the tuple of its
-- bytes.
--
-- CPool (ksources/kci_cpool.cpp, the structs of kinclude/kci_defs.h): `bindPhyConn`,
-- `unbindPhyConn` and `releasePhyConn` on a pool, by the threads of `k` servers, one for each. What
-- a thread of `bindPhyConn` does between two places where the lock is taken or freed is one step,
-- each call of the other two is one, as what they write outside of the lock belongs to their
-- caller, and the steps of the threads come in any order. A step of `unbindPhyConn` or
-- `releasePhyConn` is one of a server that has a connection; `KCIServerDetach`, which calls
-- `releasePhyConn` also behind `unbindPhyConn`, is no step. Connections and servers are numbers, a
-- list through the links of the connections is the list of their numbers, and the pointers between
-- connections and servers are functions of these. `buildPhyConn` gives a connection that the pool
-- does not have, or fails; `wait_event` may return at any time. The pool is created without
-- connections.
--
-- Decimal (kinclude/kci_string.h): `i4toa`, `ui4toa` and `i8toa`. Memory is a function from
-- addresses to bytes. The loop of the digits takes a fuel of the number and one, as each division
-- makes it smaller, and the loop that turns the digits around one of their number.
--
-- Base holds the shared definitions: Boolean tests, lists, integers and checks over ranges.
--
-- Not modelled: the calls of the socket itself, threads and handles, which call the operating
-- system; the ciphers and the big integers, which are copies of other projects; the ODBC driver,
-- the demonstrations and the tests.
pub mod Base
pub mod BinMem
pub mod BlkMem
pub mod CPool
pub mod Calendar
pub mod Decimal
pub mod Hex
pub mod LinkMem
pub mod Net
pub mod Sql
pub mod TimeText
