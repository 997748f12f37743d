-- ===== src/Lib.antt =====
-- The library models the storage layers of wednesday, a database in C:
--
--   * variable-length integers and byte strings in memory (src/varint.c, src/blob.c),
--   * the thread-local error state with its trace (src/error.c, include/error.h) and the guard of
--     deferred handlers (include/deffer.h),
--   * a read-write latch in one atomic word (src/latch.c),
--   * the pager (src/pager.c), a page cache over the latch, with a hash directory and a CLOCK ring,
--   * a B+-tree over the pages of the pager (src/btree.c).
--
-- The tree fixes a page of the pager, works on its bytes and unfixes it; its keys are varints and its
-- values blobs. The pager latches its directory's entries and its pages; blobs carry a varint as
-- their length; every fallible function reports to the error state, which the guard of deferred
-- handlers reads.
--
-- Files:
--
--   * Base and below: Boolean tests, byte memory (`Memory` is a function from addresses to bytes),
--     bit operations, integers, sums over families, and `Outcome`, how a call ends: with a value, in a
--     trap (a failed assert, a null pointer read, a division by zero) or spinning on a latch.
--   * Varint: varint_put, varint_put_len, varint_get and varint_get_len of src/varint.c under their
--     names. `wide_loop` is the loop for values of 2 ^ 56 or more, `put_loop` the one for smaller
--     values.
--   * Blob: blob_cmp, blob_put, blob_put_len, blob_get and blob_get_len of src/blob.c. `memcmp` is a
--     parameter with the sign that the C library documents.
--   * Error: error_push, error_append_message, error_get_code, error_trace_length, error_trace_nth and
--     error_clear of src/error.c, and the macro `failure` of include/error.h. The text that vsnprintf
--     makes is a parameter.
--   * Latch: the functions of src/latch.c as steps of one thread (`Move`), of which one is one access
--     to the word, and a thread releases what it holds; Latch/Threads interleaves any number of
--     threads. In Latch/Calls any thread may call a release function (`Call`); Latch/Expected is about
--     the local `value` of the loops. The int32_t word is an integer without bound. Latch/Alone has the
--     functions as one thread sees them while no other moves; the pager uses those.
--   * Pager: the structs of src/pager.c (Types), entry_directory_lookup, pager_directory_insert and
--     pager_directory_remove (Directory), pager_hash (Hash), pager_lookup and pager_unfix (Lookup),
--     pager_create (Create), pager_directory_find_entry and pager_evict (Evict), pager_fix and
--     pager_next (Fix), pager_open (Open), pager_close (Close: the blocks in the order of their free).
--     A `header_t *` is the index of the ring entry that owns the header. Links and Invariant state
--     the invariant; Fix/Granted is about calls for which there is memory, Open/Serves about a pager
--     that was opened; Evict/Turns and Evict/Frees are about the turns of the CLOCK hand.
--   * Btree: how a node lies in the bytes of its page (Layout: header_t, the array of cells, the
--     payload_get functions and key_compare of src/btree.c), the operations on one node
--     (Page: page_find_pointer, page_compact, page_insert_payload, page_insert_leaf,
--     page_insert_inner, page_split), btree_insert_walk and btree_insert (Insert), btree_lookup
--     (Lookup), btree_open, btree_create and btree_close (Open), btree_table_insert and btree_table_lookup
--     (Table). A pointer into a page is an offset, and numbers lie lowest byte first. World holds the
--     state that these functions change: the pager with the bytes of its pages, and the thread's error
--     code, which the errdefer handlers of include/pager.h read. The other modules are about: Local and
--     Node what a payload is, Compact and below page_compact, Find the search, Keys the order of
--     keys, Leaf and below the insertion into a leaf, Inner and below that into an inner page, Split
--     and below page_split, Cached and Held a page that the pager holds, Whole the tree of one
--     page, Full a page with little free space, Twice the handlers of an insertion. Search and below
--     have the lookup on the bytes of the pages alone (`search`), the pages that the pager holds
--     (Pool), the lookup of the code on them (Steps, Refined) and search trees (Ordered, Located,
--     Correct); Walk and below the way of an insertion that splits no page (Route), what it does to
--     the pages (Steps, Next, Inserts, Whole), to a search tree (Ordered, Grown, Ranges, Tree), to
--     the lookups of other keys (Others), and where the key is there already (Refused).
--   * Uuid: intcpy, uuid_v7_create, uuid_v7_package and uuid_v8_package of src/uuid.c, on the same byte
--     memory.
--
-- Bounds and fuel: `wide_loop`, `put_len_loop` and `get_loop` have fuel 9, since their counters leave
-- the loop at 9 bytes at the latest; `put_loop` recurs on the accessibility of the value.
-- `evict_loop` takes the bound of the source's own loop. The loop of pager_create has no bound in the
-- source; its fuel is `Answers.rounds`, and a run that needs more is `blocked`. The loops over the
-- cells of a page count the cells that are left; btree_insert_walk and btree_lookup go down on a
-- depth, and a tree that is deeper is `blocked`; the loop of pager_close over the directory has fuel,
-- of which one round for each entry and one more is enough. Machine integers wrap around where the
-- source's do.
--
-- Not modelled: uuid_snprintf of src/uuid.c, one call of snprintf; operations of the pager that
-- interleave with other threads (latches held by others are in the state, and do not move during a
-- call); memory orders weaker than sequential consistency; the formatting of messages; the checks
-- `ensure(… != nullptr)` of the pager, the B+-tree and src/uuid.c, since no pointer that these
-- functions take is null in the model; blob_from_string and the unit tests; the testing library
-- include/winter.h with src/test.c.
pub mod Base
pub mod Varint
pub mod Error
pub mod Latch
pub mod Blob
pub mod Uuid
pub mod Pager
pub mod Btree
