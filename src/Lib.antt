-- ===== src/Lib.antt =====
-- Verification of the trace replay tool of nvm_tools.
--
-- The program helper/replay.c reads a block trace, gathers its records (infos) by block address,
-- deals them to workers, and has each worker replay its share against a file of its own. Smaller
-- programs prepare and load a file system: helper/aging_system.c makes it look old,
-- helper/write_1G.c, helper/create_files.c and helper/exhaust_nvmm.c fill it,
-- helper/shuffle_and_write.cpp writes a file's blocks in another order, and
-- helper/rw_interference.cpp runs threads whose blocks can be deduplicated against threads whose
-- blocks cannot. The parts and the files that model them:
--
-- - Base: helpers. `Run` is how a piece of the program ends: `ok` with a value, `exit` with a
--   status, or `fault`, which stands for undefined behaviour (an access out of bounds, a division
--   by zero, a signed overflow). Lists with native indices stand for arrays.
-- - Trace and Trace.Container: `struct trace_info`, `struct trace_replay_hint`,
--   `struct trace_container` with `trace_container_create`, `trace_container_add` and
--   `trace_container_add_collection`. A container is the list of the slots that were written; the
--   capacity is kept beside it.
-- - Parse: `parse_trace_info`. What `fgets` gives is a list of lines; `sscanf` is a parameter.
-- - Build: `build_trace_containers`. The hash map of helper/map.c, a copy of c-hashmap, is a record
--   of functions with the laws of its documentation; pointers to containers are indices of a heap.
-- - MapSort: `hashmap_sort` with what it calls in helper/map.c, and `trace_container_cmp`. The buckets
--   are a heap of linked records; MapSort.Chain makes them of a list and reads them back.
-- - Assign: `assign_params_per_worker`. Assign.Deal is the loop that deals the containers to the
--   workers, Assign.Prepare the loop that sorts each worker's container and extracts its hints,
--   Assign.Whole the function with the workers behind it.
-- - Sort: `trace_container_sort_infomap_by_ts` with `_trace_infomap_msort_by_ts` and
--   `_merge_array_by_ts`. Sort.Interleave says what a stable sort is. Sort.Quick is
--   `_trace_infomap_qsort_by_ts`, which stands there in a comment in front of the merge sort.
-- - Hints: the loop that cuts a worker's infos into hints. Hints.Runs says what a cut into runs is.
-- - Fill: `fill_blk`, `rand_gener_t` and the wrappers, and `lcg_rand_r` of helper/lcg.c. A draw can
--   end in a `fault`.
-- - Worker: `replay_worker`, whose calls of the system are a record of functions on a file.
-- - Twister: `init_genrand_r` and `genrand_int32_r` of helper/mt19937ar.c. Twister.Gener makes a
--   generator for Fill of them.
-- - Options: `main` up to the opening of the trace file.
-- - Paths: the names of the workers' files, and the decimal numbers in them.
-- - Replay: `main` behind the options, which puts Parse, Build, Assign and Worker together, with
--   the switch over the generators and `check_param_per_worker`. Replay.Buckets is the way from the
--   buckets of the sorted map to the containers, Replay.Affinity which worker gets a block address,
--   Replay.Whole the program.
-- - Interference: helper/rw_interference.cpp. `make_tasks` and `make_file` are in Interference,
--   `prepare_workload`, `run` and `main` in Interference.Stages.
-- - Pages: `fill_page` and the loops that write pages in steps, and helper/write_1G.c.
-- - Aging: helper/aging_system.c. The loop that punches holes at random positions is in Aging, the
--   phases and options in Aging.Phases.
-- - Shuffle, Create, Exhaust: the programs of these names.
-- - Tests: runs on small inputs, and the theorems applied to concrete ones.
--
-- Integers are natural numbers with the wrap-around written out. A `while` loop that is no
-- recursion on its data takes fuel, and a run that is short of it is a `fault`. The merge sort has
-- depth 65, one for each bit of an index and one more; the loops of a merge have twice the length
-- of the array, since each round reads one further slot of one side; a read has one round for each
-- byte and one more. The loops of the sort of the map take any fuel, and two rounds are enough for
-- two buckets; the loop that punches holes takes one round for each draw of a position, and one
-- more.
--
-- The quick sort needs a depth of one more than the range is long, and its loop has the length of
-- the array. The loop that fills a device needs one round more than the device takes blocks.
--
-- The assignment takes the buckets in any order, since the sort of the map need not sort. The
-- program runs the model of `hashmap_sort` on the map's buckets, with fuel of four times their
-- number and four, and its theorem has as a condition that this run ends and keeps the buckets.
-- What `%s` stores of a trace line has to fit its array, and the workers' paths theirs; the draws
-- of the linear congruential generator overflow and are a `fault` but for three states. The hole
-- punching of helper/aging_system.c needs a directory of fewer than 120 characters. Threads run one
-- behind the other: the workers of a replay share only the hints, which they read, and the tasks of
-- helper/rw_interference.cpp share nothing; how far a thread gets that is not waited for, when the
-- sum of the blocks is taken and in all, is a parameter, and a `fault` if it has yet to read its
-- parameters when they are freed. Not modelled: the rest of the map and the twister's original
-- functions on static variables, copies of libraries, of which the n-th draw is a function of n;
-- memory that is freed, timing and printed reports; the quick sort of the map, which nothing calls;
-- the options of helper/shuffle_and_write.cpp; toG.c and the other filters over floating-point
-- numbers; scripts.
pub mod Base
pub mod Trace
pub mod Sort
pub mod Hints
pub mod Fill
pub mod Worker
pub mod Twister
pub mod Assign
pub mod Build
pub mod MapSort
pub mod Parse
pub mod Options
pub mod Paths
pub mod Interference
pub mod Pages
pub mod Shuffle
pub mod Create
pub mod Exhaust
pub mod Replay
pub mod Aging
pub mod Tests
