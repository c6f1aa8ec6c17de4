-- ===== src/Lib.antt =====
-- Models of the C libraries of this notebook, c/, and what they guarantee.
--
-- The parts are independent libraries, each with its own state; they share C's allocator and C's
-- strings. Where one hands its result to another, a caller composes them.
--
-- - Prioq: c/src/prioq/prioq.c, a priority queue in a block that grows. Prioq.antt has the record
--   and every operation (prioq_readplus is `readplus`, prioq_insert `insert`, prioq_min
--   `min_elt`, prioq_del_min `del_min`, and spq_new, spq_clean, spq_add, spq_get under their
--   names). The loops of insert and of del_min are `up_loop` and `down_loop`. Order says what a
--   heap is, Up and Down are about the loops, Grow about the block, Queue about one call, Drain
--   about whole sessions.
-- - Codec.Base64: c/src/code/base64.c, and Codec.Crc32: c/src/code/crc32.c with crc32.h. The
--   bytes of a string are a list; the pointers that walk over it are its tails. Bitwise compares
--   the table with the polynomial.
-- - Codec.QuotedPrintable: c/src/code/quote_print.c. Bounds and Room are about the two blocks
--   that are asked for, RoundTrip composes the encoder and the decoder.
-- - Text.Slashes: c/src/string/str_utils.c, and Text.Trim: c/src/string/str_trim.c;
--   Text.Trim.Into has the trims into a buffer of the caller.
-- - Array: c/src/array/array.c, values under string keys. `Slot` joins the three arrays that the
--   code indexes together. Invariant says which arrays the calls produce. Implode has
--   array_implode_alloc, and Implode.Joined is about its text; Explode has array_explode_alloc,
--   Explode.Keys is about the keys it prints, Explode.Tokens about the array it returns.
-- - Schar: c/src/schar/schar.c, a string that grows. Grow is about schar_ready, Write about the
--   calls that copy and append. Search has the searches, and a pointer into the text is its
--   offset; Search.First is about the search for a part, Search.Place about the calls of it.
--   SCDBPART
-- - Mfile: c/lib/mfile/mfile.c, a file in memory as a queue of blocks. A pointer to a block is
--   its place in the queue, and the answers of alloc_fun are a field. Ready is about finding a
--   block with room, Writing about mwrite, Heading about mwrite_head. Read has the calls that
--   read, Read.Place says where a reader stands, Read.InOrder is about mread, Read.Byte about
--   mgetc, RoundTrip about reading what was written, and Line has mread_line.
-- - Tgrep: c/app/tgrep. Tgrep.antt has the names of the months of utils.c, Times the time at the
--   start of a line in tgrep.c, and Position the bisection of get_pos; fgets, from a place of the
--   file on, and atoi are parameters. Times.Spelled is about the words of a line, Position.Ending
--   and Position.Hanging about searches that end and that do not. Search is the loop of do_search
--   over the blocks of a part, behind the calls of get_pos, open and lseek, with strstr,
--   strcasestr and the answers of read as parameters, and Search.Blocks is about its text.
-- - System: the system calls of the socket code, with the kernel, the TLS library and the clock
--   as one parameter, a `Kernel`, whose answers may depend on all the calls made before. A
--   `Process` has `errno` and the log of its calls. System.Retry is the loop over interrupted
--   calls.
-- - Sio: c/src/io/sio.c, of which c/app/mail/sio.c is a copy. Sio.Returns is about its loops.
-- - Socket: c/src/socket/socket_io.c. Reading is about socket_read and socket_write, Connect
--   about connect_timeout, Open has socket_connect and socket_listen over the addresses that
--   getaddrinfo gave, and Open.Held is about the descriptors that they leave open. Tls has the
--   functions over the TLS library, Tls.Ending is about ssl_timeoutio and Tls.Handshake about the
--   object of the library in the two handshakes. EAGAIN and EWOULDBLOCK are one value, as on
--   Linux.
-- - Base has the shared words: numbers, lists, blocks of cells, bits. Block is memcpy. Run is the
--   result of C code that may access memory outside a block or overflow an `int`: this is
--   `fault`, and a loop of the model whose fuel is used up is `out_of_fuel`. `Ends P` says that a
--   call does neither and that its value satisfies P.
--
-- Numbers are natural numbers and unsigned arithmetic wraps as it is written, by `% 2 ^ 32`; a
-- byte as a signed `char` is extended by hand. malloc is an argument: a function from a number of
-- bytes to a block or to nothing, of which only the size of the block is relied on, or the answer
-- of an allocation as a Boolean. Where a sum or a product of type int would overflow the model
-- wraps it or says `fault`, and each theorem names the sizes that it needs: up to 2 ^ 27 entries
-- of a priority queue or 2 ^ 26 slots of an array, for example.
--
-- The fuel of `up_loop` is j + 1, since j halves, that of `down_loop` n + 1, since i grows, and
-- that of `putalign` two more than the bytes to put, since each turn but the first takes at least
-- one, that of `memnstr` the bytes of the text and one, that of scdb's `match` the bytes of the
-- key and one, that of `findnext` the slots and one, that of a table's `probe` its cells and one,
-- that of quoted-printable's `decode_loop` the bytes of the input and one, that of `digits` the
-- number and one, since it is divided by ten. The loops of mwrite and mread have the bytes and
-- one, since each turn moves a byte at least. `Ends` in the theorems about them includes that it
-- is enough. The `copy_loop` of mfile_copy has the end and one, since its position grows in each
-- turn but the last. The search of get_pos has two rounds more than the file has bytes, since the
-- place moves in each. The loops of the socket code have as many rounds as calls may be
-- interrupted, or as the clock needs to pass the limit, which the theorems about them assume of
-- the kernel. Other loops run over a list.
--
-- Not modelled: programs that print, read the clock or show calls of the system; the copies of
-- other projects (md5, sha1, iniParser, the BSD queue macros); the wrappers around curl, iconv,
-- json-c, memcached, MySQL, PCRE and OpenSSL; examples and scripts. The model also leaves out
-- databases that cannot be mapped, c/src/code/uniqid.c, kscal and the start of do_search in
-- c/app/tgrep, and of c/lib/mfile mclose and mwrite_file.
mod Base
pub mod Run
mod Block
pub mod Prioq
pub mod Codec
pub mod Text
pub mod Array
pub mod Schar
pub mod Scdb
pub mod Mfile
pub mod Tgrep
pub mod System
pub mod Sio
pub mod Socket
