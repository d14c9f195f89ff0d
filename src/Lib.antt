-- ===== src/Lib.antt =====
-- A model of yk_util, the C++23 utility library under include/yk, and what is proved of it.
--
-- The program's parts that are modelled, and how they interact:
--
-- exec (include/yk/exec): workers that produce and consume values over an input range. A
--   `scheduler` claims chunks of the range under a mutex, hands its callbacks a `queue_gate` to a
--   `cv_queue`, and adds what the gate counted to `scheduler_stats`; the counters say when all
--   tasks are done. The files under Exec:
--   - Exec/CvQueue: class cv_queue of cv_queue.hpp. A call is one step under the mutex of the queue.
--     A call whose predicate is false ends as `waits` and counts as a sleeper on its condition
--     variable; `notify_one` and `notify_all` lower that number, and the woken thread calls again,
--     as the predicate loop of `wait` does. `Flags` are the cv_queue_traits of the four kinds of
--     queue, `Run` the histories of calls.
--   - Exec/AtomicQueue: atomic_queue.hpp. A step is one access of one thread to a shared variable or
--     to the storage of a slot, in push, try_push, pop and try_pop; the records `pushed` and
--     `popped` are added to state the order of delivery. `Invariant` says who holds which ticket, `Progress`
--     is about waiting threads, `Destructor` about the end of the store. `Cancelable` has the loops of
--     queue_traits over try_push and try_pop, and `Attempts` and `Ends` are about these.
--   - Exec/WorkerPool: worker_pool.hpp, the threads of a pool with the exceptions that left them.
--   - Exec/Gate: queue_gate.hpp; the queue behind it is a parameter.
--   - Exec/Stats: scheduler_stats.hpp. Exec/Scheduler: the critical sections of
--     do_worker_producer and do_worker_consumer, as functions `claim`, `report_producer` and
--     `report_consumer`, and the setters. Workers: the loops of the three kinds of worker and the
--     crew that `start` launches. System: the events of any number of workers, one for each critical
--     section or access to the queue, in any order; the callbacks are the events of accessing, and
--     may throw. Slowing and Stopping: what is left once the pool is asked to stop.
--     Whole: the scheduler over a cv_queue, whose push_wait and pop_wait the accesses are; its values
--     are those of the histories in CvQueue/Run.
--   - Exec/Tracker: scheduler_stats_tracker.hpp and scheduler_delta_stats.hpp, with the thread of
--     launch_stats_tracker and the last tick of wait_for_all_tasks. What the clock reads is given
--     to each tick.
--
-- colorize (include/yk/colorize.hpp): text with colour specifiers in brackets. The files under
--   Colorize, on lists of bytes:
--   - Parse: colorizer::do_parse and its lambda parse_rgb. Colors: the colour table, which the
--     enumerators of rgb_color are copied to in their order, and name_to_color. Emphasis: the
--     flags, and each_bit of enum_bitops_algorithm.hpp. Numbers: from_chars and to_chars at eight
--     bits, as the standard describes them. Render: colorizer::colorize.
--   - Scanner: scanner::scan with the two positions of brackets that it caches, and the three
--     classes that derive from scanner. Api: the functions that users call.
--   - Result: a run returns, throws a colorize_error, meets undefined behaviour (the addition of
--     npos to an iterator, reading behind the end), or is out of fuel.
--
-- compare (include/yk/compare): Compare has the comparators and closures of comparator.hpp as trees,
--   `instantiate`, which gives the category and the function of a comparator, or nothing where a call
--   would not compile, and the operations of adaptor.hpp. A function that is passed in comes with the
--   category of its result; the comparison of keys is a parameter.
--
-- ranges (include/yk/ranges/concat.hpp): Ranges/Concat has concat_view and its iterator, a view being
--   the list of its elements. `Positions` says which position of the joined sequence an iterator
--   stands at, and what each step of the iterator makes of it.
--
-- par_for_each (include/yk/par_for_each.hpp): ParForEach has for_each with its job policies, as jobs
--   whose steps come in any order. A job is the test, the call and the handler.
--
-- variant, variant_view (include/yk/variant, include/yk/variant_view): Variant has what the library uses
--   of std::variant, on objects in a store; VariantView the views that point to them, with visit,
--   get and the comparisons; VariantView/Several visits of more than one variant. A type is a
--   number, and what the compiler checks on types is computed: a use that does not compile is
--   `none` or false.
--
-- enum_bitops (include/yk/enum_bitops.hpp, include/yk/enum_bitops_io.hpp): EnumBitops has the operators
--   and tests of flags, and parse_flags over the names that an enumeration gives. queue_gate and
--   colorize use flags.
--
-- util (include/yk/util/functional.hpp): Functional has invocable_traits and is_n_ary_function, which the
--   adaptors of compare ask about a function, on types as data.
--
-- Base: Boolean tests and lists over the native numbers, integers, and bits of words.
--
-- Bounds and fuel. Counters are natural numbers: the source's counters are 64 bits wide and count
-- inputs of a range that is in memory. Colours are 24 bits of 32, and no operation on them leaves
-- that range. The counters of the atomic queue do wrap around, and what is proved of it is proved of
-- runs that are too short for that: at 64 bits, of fewer than 2 ^ 63 steps. The loops of the parser and of
-- the scanner get one round for each byte of their text, and every round consumes a byte at least.
--
-- Not modelled: the timers of debug builds; quotients in floating point; destructors other
-- than those of worker_pool and the atomic queue; what a scanner has written before it throws;
-- hashing, boost::variant and the other templates on types, which are other parts of the library.
-- Memory is sequentially consistent here. Outside of the atomic queue, every shared variable of the
-- modelled parts is accessed under a mutex, but for the exceptions in worker_pool, whose calls are
-- taken one at a time.
pub mod Base
pub mod Colorize
pub mod Compare
pub mod EnumBitops
pub mod Exec
pub mod Functional
pub mod ParForEach
pub mod Ranges
pub mod Variant
pub mod VariantView
