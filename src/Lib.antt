-- ===== src/Lib.antt =====
-- A verification library for hosk, a NUMA-aware concurrent skip list (src/hosk).
--
-- The program keeps one sorted list of nodes, the data layer, that all threads share. Each enclave
-- pairs an application thread, which works on the data layer, with a helper thread, which keeps an
-- intermediate layer and an index over it that belong to the enclave. The application thread hands
-- its successful operations to the helper through a circular array; index and intermediate nodes
-- come from a linear allocator of the enclave.
--
-- Files and what they model:
--   Base, Base/*            comparisons, lists with native indices, the source's int results.
--   Enclave                 src/hosk/enclave.h, src/hosk/enclave.cpp: class enclave as a record, its
--                           constructor, destructor and methods as functions to the new record.
--   Enclave/OpBuffer        sequences of opbuffer_insert and opbuffer_remove, and below it the
--                           queue that the array implements and how it stalls.
--   Enclave/Threads         sequences of the thread methods, against the pthread protocol.
--   Allocator               src/hosk/allocator.h, src/hosk/allocator.cpp: class numa_allocator.
--   Allocator/Align         sizes and one request.  Allocator/Blocks: sequences of requests.
--   Allocator/Lines         cache lines.  Allocator/Free: nfree.  Allocator/Buffers: nreset.
--   Skiplist                src/hosk/skiplist.h, src/hosk/skiplist.cpp: the nodes on an explicit
--                           heap, commands with faults, failed assertions and fuel.
--   Skiplist/Upper          index and intermediate nodes, and the loops that search them.
--   Skiplist/Zones          the address checks.
--   Chain, Chain/Link, Unlink   stores of nodes linked in the order of their keys, for any kind of
--                           node; a node linked in, and one taken out.
--   Helper                  src/hosk/helper.cpp: node_remove, update_intermediate_layer, bg_mremove.
--   Helper/Update, Publish  what update_intermediate_layer does to the keys and their marks.
--   Sweep                   bg_trav_mnodes and reset_index of src/hosk/helper.cpp.
--   Sweep/Trav, Loop, Marks   what a pass of bg_trav_mnodes removes.
--   Sweep/Reset, Clear, Fresh   the levels that reset_index sets, and its new sentinel.
--   Levels                  bg_raise_mlevel, bg_raise_ilevel and bg_lower_ilevel.
--   Levels/Above            the search for the place of a new index node.
--   Levels/Add, Bottom, Raise, Rounds, Spacing   bg_raise_mlevel: the new index node, a round, and
--                           the whole pass.
--   Levels/Skip, RowRound, Row   bg_raise_ilevel: its inner loop, a round, and the whole pass.
--   Background              update_index_layer and helper_loop.  Background/Drain: its inner loop.
--   Background/Column, Lowest, Second, Rows, Top, Update   update_index_layer: the array of first
--                           index nodes, the lowest row, the second level, the rows above, a new
--                           level, and the whole pass.
--   Index, Index/Search     how the three layers fit together, and where the searches end.
--   Index/Change, Inodes    changes that keep the layers together.
--   Application             src/hosk/application.cpp: sl_finish_contains, sl_finish_delete,
--                           sl_finish_insert and sl_traverse_data.
--   Application/Layer       the order of the data layer and the map that it stands for.
--   Application/Values      what writes do to the map.  Application/Search: where the search ends.
--   Application/Contains, Delete, Insert   the three operations.
--   Operation               sl_traverse_index, sl_do_operation and sequences of them.
--   Operation/Set           the set of keys that is their specification.
--   Operation/Simulation, Refinement   one operation, and a sequence, against the set.
--   Workload                update_results, get_unext and application_loop.
--   Workload/Choices        the rounds by their results.  Workload/Iteration: one round.
--   Workload/Populate, News, Populated   initial_populate.
--   System                  the threads of all enclaves over one data layer: a step relation.
--   System/Sound, Rounds, Pieces, Reached, Progress   what holds between the steps, a round of an
--                           application, a piece of work of a helper, any steps, and what comes next.
--   System/Pending, View, Current   the operations that wait in an array, the intermediate layer with
--                           them as the set, and the steps of one enclave.
--   Driver, Driver/*        src/hosk/test.cpp: floor_log_2, the shares of the initial elements, the
--                           barrier, the sums of the results, and in files of their own the options,
--                           thread_init, the cores of the enclaves, and main's calls of an enclave.
--   Random, Random/Double, Range    src/hosk/common.h: rand_range and rand_range_re.
--   Layout, Layout/Places   src/hosk/hardware_layout.cpp.
--   VersionedLock, VersionedLock/Exclusion   src/utils/versioned-lock/versioned-lock.c.
--   IntSet, IntSet/*        src/utils/estm-0.2.4.3/bench/lf-linkedlist: intset.c, harris.c and, in
--                           IntSet/Operations, linkedlist.c; its list between two neighbours, and
--                           the operations as those of a set.
--   Tests, Tests/*          runs and the theorems at concrete inputs.
--
-- Pointers are numbers, 0 for NULL. A value is a word; keys and values are below 2 ^ 32 and nodes
-- live above, which the theorems state as hypotheses. malloc, numa_alloc_local and rand are
-- parameters; the enclave's allocator stands behind the upper layers as the address that it returns
-- in each heap. Loops run on fuel; the theorems on the searches give the fuel that is enough, the
-- height of the index and the number of keys up to the one that is sought. The operations of the
-- application and of the helper are proved for a thread that runs alone; a compare-and-swap is one
-- step. In System whole rounds of an application, and the publishing of an operation, a whole pass over
-- the index that does not lower it, and a reset by a helper, come in any order; none is cut by another.
-- The barrier, with wake-ups that come too early, and the versioned lock are proved for interleaved
-- threads. `int` and `uint` wrap round where the source converts or compares them; RAND_MAX is that of the
-- GNU C library, and the one product of doubles whose value matters is rounded as in IEEE arithmetic.
--
-- The release build turns assertions off; in the model a failing one aborts.
--
-- Not modelled: printing, signals, pinning of threads, the release of the hardware layout and the
-- statistics that are compiled out by default; the copies of atomic_ops and of the estm libraries, whose
-- calls in the integer set are parameters. The integer set is a program of its own beside estm.
-- Harris' list, bg_lower_ilevel and helper_loop are modelled without a theorem on what they come to;
-- update_index_layer has one for the passes that do not lower the index.
pub mod Background
pub mod Base
pub mod Enclave
pub mod Allocator
pub mod Skiplist
pub mod Chain
pub mod Helper
pub mod Index
pub mod Application
pub mod Sweep
pub mod Levels
pub mod Operation
pub mod Random
pub mod Workload
pub mod Driver
pub mod VersionedLock
pub mod Layout
pub mod IntSet
pub mod System
pub mod Tests
