-- ===== src/Lib.antt =====
-- A model of the core of the NUMA migration tool of src/ (a daemon that samples the memory accesses
-- of running programs and moves their pages and threads between NUMA nodes), and what makes it
-- correct. Paths are from the repository's root.
--
-- The parts and how they work together. Each iteration of the daemon reads the memory regions of the
-- processes (src/system_info/memory_info.hpp), cuts them into fake huge pages if these are enabled,
-- and puts the samples into the table of pages and the table of threads (src/migration/performance).
-- A page strategy (src/migration/strategies/memory_strats) walks the table of pages, chooses pages and
-- destinations, and adds pages to prefetch; memory_strategy.hpp gathers the choices by process and
-- hands them to libnuma. A thread strategy (src/migration/strategies/thread_strats) gives tickets to
-- the migrations of threads (src/migration/tickets.hpp), selects some and pins the threads
-- (src/system_info/processes/process.hpp), where maps say where they are (src/system_info/
-- system_info.hpp); thread_strategy.hpp has what the strategies share: balancing, undoing, schedules.
-- At its start the daemon detects nodes and processors (src/system_info/system_info.cpp), and it keeps
-- the processes that it watches in a tree (src/system_info/processes/process_tree.hpp).
--
-- Where things are:
-- - Base: Boolean tests, lists indexed by native numbers, sets as lists, std::max_element.
-- - Real: real_t as an interface, and the numbers as an instance on which tests run.
-- - Machine: what is read of system_info.hpp.
-- - Topology: the detection of nodes and processors of system_info.cpp; Topology.Distances,
--   Topology.Writes and Topology.Bounds are theorems.
-- - Tree: process_tree.hpp with the members of process.hpp that it calls. Tree.Links says what a tree
--   is; Tree.Cut, Tree.Children, Tree.Erasing and Tree.Updating are about erase and update, Tree.Adding,
--   Tree.Constructing and Tree.Inserting about insert, Tree.Growing about all of them in any order,
--   Tree.Shrinking, Tree.Stranding, Tree.Ending and Tree.Unlinking about erase_invalid.
-- - Memory.SortedMap: std::map by address, `lower_bound`, `emplace`, and the lookup of spans.
-- - Memory.Region: update_memory_regions, region_from_address, contains.
-- - Memory.Thp: src/system_info/memory/thp.hpp, update_fake_thps, fake_thp_from_address.
-- - Memory.Move: move_page and the three move_pages.
-- - Pages.Row: the row of a page, with the ratios that are computed when they are read;
--   Pages.Row.Laws, Pages.Row.Ratios and Pages.Row.Reads are about it, Pages.Means about averages of
--   integers.
-- - Pages.Table: the table; its children are about its rows, its averages and its keys.
-- - Strategy: prefetch_candidates, select_best_migrations, gather_and_perform_migrations and the
--   shared perform_migration_algorithm; Strategy.Consider is the loop that tmma.hpp and lmma.hpp
--   share, which Strategy.Tmma and Strategy.Lmma fill with their tests; Strategy.Rmma is rmma.hpp.
-- - Threads: pin, pin_node and unpin of a process, pin_thread_to_cpu and its kin, and the pinning of
--   all threads; Threads.Moves has the lists of threads, update and remove_invalid_data, Threads.Cells
--   is migration_cell.hpp, and Threads.Placement, Threads.Pinning, Threads.Repins and Threads.Sets are
--   theorems.
-- - Tickets: src/migration/tickets.hpp and tickets.cpp; Tickets.Masks is about the masks, Tickets.Files
--   about the file of variables.
-- - Migrations: the cells with their tickets, select_migration, the tickets by their reasons,
--   mutate_tickets, compare_last_migrations and undo_last_migrations of thread_strategy.hpp.
-- - Balance: balance, balance_CPUs, balance_nodes and best_pid_for_swap of thread_strategy.hpp.
-- - Schedule: thread_t and schedule_t of thread_strategy.hpp; Schedule.Plan is its `migrations`.
-- - Rm3d: src/migration/performance/rm3d.hpp. PerfTable: tid_perf_table.hpp beside it.
-- - Lbma: src/migration/strategies/thread_strats/lbma.hpp.
-- - Imar: nimar.hpp beside it; Imar.Processors is cimar.hpp and imar2.hpp, Imar.Worst their choice of
--   threads, Imar.Rollback their `migrate` with src/migration/utils/times.hpp, whose children are about
--   what it comes to; Imar.Gain and Imar.Once are theorems about the migrations that nimar.hpp lists.
-- - the modules Tests: runs at concrete inputs.
--
-- How the code is rendered. Counters, latencies and addresses are native numbers without wrap-around:
-- addresses of user space and 64-bit counters stay far below 2^64. An unordered map is an association
-- list in the order of its walk. Loops are recursion on the list they walk; the two `while` loops over
-- addresses have fuel, the bytes that are left, since each round moves ahead by at least one byte when
-- a page has a size, and the theorems about them hold for that fuel. The loops of balancing have fuel
-- too: one unit for each thread that is counted at the place is enough when the threads run where they
-- are pinned, and without this condition there are threads for which no fuel is enough. In the
-- tree of processes, where a pointer to a process is its pid and following one whose process is gone
-- is an outcome of its own, `dangling`, the depth of the tree is enough fuel to erase, and the height of
-- a process in /proc to insert it; the theorems say so for every larger fuel. A write outside of a
-- vector is an outcome too, `out_of_bounds`; a read of the vectors over nodes by the number of a
-- processor, which the strategies that migrate to processors do, is `none` if it is out of bounds. The
-- store of globals is passed as arguments and results. A stream is a list of words. The clock,
-- libnuma's numa_move_pages, the calls that pin a thread, std::sort and the random numbers are
-- parameters, with hypotheses where a theorem relies on them: a sort permutes, a draw is in its range.
-- What the thread strategies read of the tables and of /proc is the record Migrations.Readings.
--
-- Not modelled: reading and scanning /proc, printing and CSV files, the perf_event sampling, the
-- command line; of thread_strategy.hpp balance_CPUs_load and balance_nodes_load, which nothing calls,
-- and neighbour, which draws random changes of a schedule; the thread strategies annealing.hpp,
-- rm3d_strategy.hpp and random.hpp; huge pages of the kernel (memory_info.cpp). NPB3.4.2 and src/third_party_libs/tabulate are other projects.
mod Base
pub mod Real
pub mod Machine
pub mod Memory
pub mod Pages
pub mod Strategy
pub mod Threads
pub mod Topology
pub mod Tree
pub mod Tickets
pub mod Migrations
pub mod Balance
pub mod Schedule
pub mod Rm3d
pub mod PerfTable
pub mod Lbma
pub mod Imar
