-- ===== src/Lib.antt =====
-- The benchmarks of cray-tests for libfabric, and what their common code promises.
--
-- The program's parts. Several processes, the ranks, run a benchmark together. They find each other
-- through the collectives of common/ct_utils.c (an all-gather and a broadcast over the key-value
-- store of PMI), open the objects of libfabric, exchange addresses and memory keys, measure, and
-- close what they opened. The threads of one process meet at the barrier of include/ct_tbarrier.h.
-- performance/multi-node/random_access.c updates a table that is spread over all ranks at random
-- places, and checks it by applying the same updates again.
--
-- The files:
-- Prelude: names, tests, lists and the outcomes of C functions that the other modules share; Bits:
-- laws of the exclusive or.
--
-- RandomAccess, performance/multi-node/random_access.c. Stream: the step of the stream and
-- `generate_initial_xor_val`; Layout: the size of the table, its division and the owner of an
-- entry; Table: `update_table`, `lf_atomic_xor` and the verification, over the tables of all ranks;
-- Program: `random_access` as one computation of all ranks; Registration:
-- `exchange_registration_data`, with Words and Exchange for its gathers over Pmi.
--
-- Tbarrier, include/ct_tbarrier.h: the threads as a step relation, one access to shared memory at
-- a time.
--
-- Clock, include/ct_utils.h: `ct_start_clock` as a step relation of the threads that call it, for
-- performance/single-node/lock_tests.c, and `ct_stop_clock`.
--
-- Pmi, common/ct_utils.c. Encoding: `encode` and `decode`; Key: the keys; Store: what is used of
-- PMI; Message: `gni_pmi_send` and `gni_pmi_receive`; Collective, Published and Gather:
-- `PMI_Allgather` and `PMI_Bcast`; Reorder: the last loop of `allgather`; Allgather: all of
-- `allgather`, which is `ctpm_Allgather`.
--
-- Fabric, performance/multi-node. Libfabric: what is used of libfabric; Ends: code that jumps to
-- error labels; Gnix: random_access.c; AuthKey: auth_key_test.c; OneSided: rdm_one_sided.c;
-- Pingpong: rdm_pingpong.c; Mbw: rdm_mbw_mr.c, with its waits and `calc_bw`; Completion:
-- `wait_for_comp`; Threads: the loops of `main` that open and close the resources of the threads,
-- with OneSided.Main and Pingpong.Main for the two programs; Regions: the memory regions of
-- random_access.c and auth_key_test.c, with Gnix.Main and AuthKey.Main for the two programs.
--
-- Options, the command lines of the four programs of performance/multi-node and
-- `ct_parse_std_opts` of include/ct_utils.h: `atoi`, the list of what getopt returned, and one
-- child module for each program's variables and loop over its options.
--
-- Measure, the measurements themselves. Sizes and Rounds: the loop over the sizes of `main` in
-- rdm_one_sided.c and rdm_pingpong.c, with the variables that it changes on the way; Results: what
-- rank 0 adds up over the threads; OneSided: `thread_fn` of rdm_one_sided.c; Pingpong: `thread_fn`
-- of rdm_pingpong.c at the two ranks, as a step relation; Mbw: the calls of `calc_bw` that `main`
-- of rdm_mbw_mr.c makes at each rank, and its table of bandwidths.
--
-- PrintUtils, common/ct_print_utils.c: the table and its csv form, with what was written so far.
-- Csv and CsvLoop: the csv form of a line and the buffer that grows for it; Lines and Report:
-- `ct_add_line`; Flush: `ct_print_data` and `ct_fini_info`; Session: a
-- program's whole use of them.
--
-- Numbers. A `uint64_t` and an `int` are natural numbers with the cut to 64 and 32 bits written out
-- where the code can reach it; a byte is a number below 256. A `double` of random_access.c is a
-- fraction, exact below 2 ^ 53.
--
-- Interleavings. An update of the table is one step at the rank that owns the entry, and a run is a
-- list of such steps in some order. The ranks of a collective send in the order of a list, and the
-- ones that are ahead send for later calls before another one reads. The atomics of the thread
-- barrier are sequentially consistent.
--
-- Fuel. `reduce_seed` takes the seed, which each round lowers; `table_size_loop` takes the bytes of
-- memory, more than the rounds that halve them; `decimal_fuel` takes the number plus one, more than
-- its digits; `line_loop` takes two rounds, since a line that did not fit is tried once more, and
-- `csv_loop` two more than the characters of the line; `sizes` takes the largest size, which the
-- doubling reaches in fewer rounds, and `log_val` the largest size in the same way. Waits run over
-- the list of what the successive calls return, and have no result when the list ends first.
--
-- Parameters. The key-value store and the barrier of PMI are the record `Pmi`, and libfabric is the
-- record `Libfabric`, each with laws for what the code relies on and with a concrete instance. What
-- `realloc` and `write` do is the record `Env`.
--
-- Left out: memory and its release, the credentials of DRC, messages on stderr, what the clocks
-- return, contrib/buddy_test.c, and performance/single-node, whose code is timing for the most part.
pub mod Prelude
pub mod Bits
pub mod RandomAccess
pub mod Tbarrier
pub mod Clock
pub mod Pmi
pub mod Fabric
pub mod PrintUtils
pub mod Options
pub mod Measure
