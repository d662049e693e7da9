-- ===== src/Lib.antt =====
-- A verification library for libresman, a resource manager in C that loads files in the
-- background.
--
-- The program. src/resman.c keeps the resources and hands their loading to the thread pool of
-- src/tpool.c. The table of resources and the descriptors to wait on are arrays of src/dynarr.c.
-- The file watches of src/filewatch_linux.c and src/filewatch_win32.c tell of changed files;
-- they look up the watched resources in the trees of src/rbtree.c.
--
-- The files.
-- - Base and its children: shared names, tests on numbers, lists by native numbers, signed
--   integers, and `Exec`, the outcome of C code, in which a step through a null pointer and a
--   write outside an array are values.
-- - Rbtree: the nodes of src/rbtree.c and the functions on them (`insert`, `fix_up`, the
--   rotations, `traverse`, `count_nodes`), and in Rbtree/Removal `delete` and `del_min`. A node
--   owns its two children, so a tree is a value and an update in place is a new tree. Each C
--   statement that goes through a pointer is a step of `Exec`. The two alternative ends of a
--   function, the tests before them and the recursive calls are functions of their own, so that
--   `delete` and `del_min` share what the C code repeats.
-- - Rbtree/Api: `struct rbtree` and the calls of src/rbtree.h, among them the iteration by
--   `rstack` and `iter`, and `rb_copy`. Rbtree/Keying: `rb_init`, the comparisons of addresses
--   and of integers that are stored as pointers, and the calls for integer keys.
-- - Rbtree/Entries, Rbtree/Balance, Rbtree/Contents, Rbtree/Left, Rbtree/DelMin, Rbtree/Right,
--   Rbtree/Delete, Rbtree/Insert, Rbtree/Height, Rbtree/Log and the children of Rbtree/Api: the
--   proofs. The abstract view of a tree is the list of its entries in order, a finite map by
--   `lookup`, `put` and `erase`. Rbtree/Tests: runs and concrete instances.
-- - Dynarr: src/dynarr.c. Dynarr/Stack, Dynarr/Grow, Dynarr/Shrink: the arrays as stacks of
--   items; Dynarr/Tests.
-- - Tpool: src/tpool.c. The state of a thread pool with its workers and the callers that wait,
--   one function for each critical section and for each step outside the mutex. Tpool/Steps: a
--   relation of these steps, in any order that the mutex allows, and runs of it; Tpool/Turn,
--   Tpool/Counts, Tpool/Invariant, Tpool/Order, Tpool/Pending, Tpool/Wakeups, Tpool/Waiters and
--   Tpool/Shutdown: the proofs on runs. Tpool/Items: the list of free work items. Tpool/Tests.
-- - Resman: the table of resources of src/resman.c, on the arrays of Dynarr, and what adds to it
--   and removes from it. Resman/Sweep: the first loop of
--   `resman_poll` on the list of slots. Resman/Table,
--   Resman/Append, Resman/Add, Resman/Erased: the proofs, by way of the list of the table's
--   slots.
-- - Resman/Watch: what src/resman.c asks of a file watch (src/filewatch.h), as an interface, and
--   the empty watch of src/filewatch_dummy.c. Resman/Work: `work_func` and the two branches of
--   the second loop of `resman_poll`. Resman/Poll: `resman_poll` with both loops. These take any
--   file watch.
-- - Resman/Life: a relation of the calls, the turns of the two loops and the work on jobs, in
--   any order, and runs of it; Resman/Owed, Resman/Balanced, Resman/Moves and Resman/Grows:
--   what each does to the slots and to the queue; Resman/Kept: what adding and reloading leave
--   of the callbacks.
--   Resman/Polled, Resman/Refine, Resman/Returns: `resman_poll` by slots, and as a run.
--   Resman/Raced: what may come between the two steps of `work_func`.
-- - Resman/Setup, Resman/Teardown: `resman_init`, `resman_destroy`, the options and the shared
--   thread pool. Resman/Waiting: the waiting calls, on the pool of Tpool. Resman/Select:
--   `resman_wait`. Resman/Access: the functions on one resource.
-- - Resman/Inotify: src/filewatch_linux.c, on the trees of Rbtree. Resman/Unwatch: it as a file
--   watch; Resman/Events: its loop over the events. Resman/Tests, Resman/LoadTests,
--   Resman/PollTests.
-- - Watchdirs, Watchdirs/Start, Watchdirs/Stop, Watchdirs/Events: the rest of
--   src/filewatch_win32.c, one watch for each directory, with a store of directories;
--   Watchdirs/Lost: what a stop loses. Watchdirs/Tests.
-- - Timer, Timer/Elapsed: src/timer.c. Timer/Tests. Tpool/Timed: the wait with a timeout;
--   Tpool/TimedTests.
-- - Paths: `clean_path` of src/filewatch_win32.c. Paths/Clean, Paths/Ends: how it ends.
--   Paths/Reference: the path that it means to write; Paths/Resolved, Paths/Written,
--   Paths/Meant: that it does. Paths/Tests.
-- - Imgthumbs: the data of examples/imgthumbs/src/thumbs.h, a store of thumbnails by their blocks,
--   and the floats as a parameter. Imgthumbs/Thumbs, Imgthumbs/Create: src/thumbs.c there;
--   Imgthumbs/Draw: `draw_thumbs` and the loop of `find_thumb`; Imgthumbs/Viewer, Imgthumbs/Start:
--   src/main.c; Imgthumbs/Callbacks: the callbacks where src/resman.c calls them. Imgthumbs/Chain,
--   Imgthumbs/Link, Imgthumbs/Unlink, Imgthumbs/Freed, Imgthumbs/Listing: the doubly linked list of
--   thumbnails. Imgthumbs/Found: drawing and finding. Imgthumbs/Clicks, Imgthumbs/Steady,
--   Imgthumbs/Motions, Imgthumbs/Handlers: the handlers of the window. Imgthumbs/Held,
--   Imgthumbs/Turned, Imgthumbs/Loading, Imgthumbs/Taken, Imgthumbs/Finishing, Imgthumbs/Fresh,
--   Imgthumbs/Growing: which resource holds which thumbnail, and what each callback does to it.
--   Imgthumbs/Life, Imgthumbs/Lives, Imgthumbs/Safe: runs of the whole program.
--   Imgthumbs/Samples, Imgthumbs/Tests, Imgthumbs/LifeTests.
--
-- Choices. An `int` is its bit pattern, a number below 2 ^ 32, whose arithmetic wraps around; a
-- pointer used as a key is a number below 2 ^ 64. A comparison is used by its sign alone, as the
-- code does. The result of `count_nodes` has no wrap-around, which would take 2 ^ 31 nodes. The
-- recursions of `delete` and `del_min` are not structural in C (the rotations come first); they
-- run on fuel, the number of nodes and one, and the theorems on `rb_delete` show an outcome other
-- than the one that stands for spent fuel. The second loop of `clean_path` runs on the size of
-- its buffer, which is proved to be enough, and the loop over the events of a `read` on 33 turns:
-- it goes on by sixteen bytes or more in a buffer of 512, unless an event has a name of about 2 ^
-- 32 bytes. The loop of `resman_tpool_timedwait` runs on any number of turns. All other
-- recursions are structural. Memory is granted or denied by a parameter: a flag for each call of
-- `insert`, a function of the size for `malloc` and `realloc` in src/dynarr.c. The callbacks
-- `del` and `free` are the list of their calls.
--
-- In src/tpool.c what is done under `workq_mutex` is one step, but for the call of
-- `pthread_cond_wait` by a worker, since `should_quit` and most broadcasts are free of the
-- mutex. A sleeping thread may wake by itself, as POSIX allows. A step that the code takes at
-- one place only, such as the broadcast of `resman_tpool_destroy`, may come at any time in a
-- run. Locking, `pthread_create`, and `alloc_work_item` within `resman_tpool_enqueue` succeed.
--
-- In src/resman.c a resource is known by the number of its slot, wherever the code has a pointer
-- to it, so that a pointer to a resource that was freed is a slot that is empty. What the
-- callbacks return, the clock, the answers of `select` and of inotify are parameters. `work_func` is
-- two steps, up to where it clears `pending`, which the first loop of `resman_poll` reads without
-- the lock, and from there to its end; a turn of a loop is one step, and in it no worker does
-- anything. A file descriptor that is watched is a number below 2 ^ 31.
--
-- In src/filewatch_win32.c a directory is known by its number in the store, and a string by its
-- address and its text; memory and handles that were given back are listed.
--
-- In examples/imgthumbs a pointer to a thumbnail is the number of its block, and a block that was
-- given back is one that holds nothing. The image of a thumbnail is its size, and its texture a
-- number that is not 0. The blocks that `malloc` gives, what the image library reads and the entries
-- of the directory are parameters; that a block is not in use is a hypothesis. `texman` is set up.
-- The loops over the list run on fuel, and the theorems ask for as much as the list has nodes.
-- A callback is one step, as is a load by `work_func`, since the program marks no resource for
-- deletion and the second loop of `resman_poll` takes the lock; it is the build without a file watch.
-- The matrices are counted, and where they move what is drawn is not part of the model. The lists of
-- calls of `destroy_func` that src/resman.c makes are replayed on the store.
--
-- Not modelled: the Windows variants in src/tpool.c, src/resman.c and src/timer.c; the callbacks
-- of src/resman.c, of which only the results matter; the set-up of the trees in
-- src/filewatch_win32.c; the choice of an allocator for a tree, and `dynarr_free`; the calls of
-- the operating system. In the example program, what only draws, and its copy of dirent for
-- Windows.
pub mod Base
pub mod Rbtree
pub mod Dynarr
pub mod Tpool
pub mod Resman
pub mod Paths
pub mod Timer
pub mod Watchdirs
pub mod Imgthumbs
