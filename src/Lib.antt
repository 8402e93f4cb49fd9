-- ===== src/Lib.antt =====
-- TinyReactor, a distributed task system: a worker executes tasks, clients and the server exchange
-- them as protocol buffers, and a library of hazard pointers serves lock-free structures.
--
-- Parts, and how they interact. A task (`src/common/include/task.hpp`) is filled in by a client,
-- crosses the wire as a protobuf message (`src/common/src/utils.cpp`,
-- `src/common/src/grpc_client.cpp`) to the server (`src/api-server`), and is executed by the
-- worker (`src/worker/task-executor`), whose pool threads and timers change its state. The hazard
-- pointers (`src/common/include/hazard_pointer.hpp`) serve the queue of
-- `src/common/include/mpmc_queue.hpp`.
--
-- Files.
--   Base: names, Boolean tests, lists, families of natural numbers, integers of 64 bits.
--   Hazptr: hazard_pointer.hpp. The state is `HazPtrDomain`, with the thread-local data of all
--     threads; `register_thread`, `unregister_thread`, `acquire`, `release`, `is_protected`,
--     `scan`, `reclaim_all` and `retire_pointer` are `RegisterThread`, `UnregisterThread`,
--     `acquire`, `release`, `isProtected`, `Scan`, `reclaim_all` and `RetirePointer`. A `Call` is
--     one of them made by one thread, or one of the two parts of a `Scan` (`collect_all` and
--     `reclaim_all`), and `run` is a sequence of calls in the order in which they take effect.
--     Hazptr/Holder is `HazPtrHolder`. Hazptr/Slots, Scan, Retire, Protection, Counts,
--     Conservation, Exclusion, Allocation and Returns are the proofs, by what they are about.
--   Task: task.hpp, the task and its parts. Task/JsonValue is the value type of nlohmann::json, as
--     far as the code looks into it; Task/Proto is utils.cpp, with the messages of
--     src/common/proto/task.proto; Task/JsonCodec is `to_json` and `from_json`. Task/Normal
--     describes what becomes of a JSON value on the wire; Task/Schema has the members and their
--     types as a table, with a check of a value and its typing. Task/Structs, Entries, RoundTrip,
--     Transfer, Reading, Typing and JsonKeys are proofs.
--   Executor: task_executor.hpp and task_executor.cpp. `execute_task`, `check_resources`,
--     `update_task_state` and `is_retryable_error` have the code's names; `run_task` is
--     `begin_task` up to the call of the task's function and `finish_task` from its end on, with
--     the `catch` block in `handle_exception`; `on_timer` is the two timer handlers. `run` is a
--     sequence of events, so that pool threads and the io thread interleave between them.
--     Executor/Fib is the built-in function, and Executor/Builtin the constructor that registers
--     it. Executor/Timeout, Run, Counts, Kept, Taken, Invariant, Settled and Overwrite are proofs.
--     Executor/Pooled is the executor on its thread pool: `pool_step` is one of a pool thread,
--     with the call of `run_task`, `enqueue_step` one of a thread in `execute_task`, and
--     `run_handler` a handler of the io thread, which is the pool's client 0.
--     Executor/Pooled/Effects, Endings, PoolMoves, Coherent, Kept, Refinement, PoolRefinement and
--     Threads are proofs.
--   ThreadPool: thread_pool.hpp and thread_pool.cpp. `worker_step` is one atomic access of
--     `worker`, `client_step` one of `enqueue` or `remove_threads`, `destroy_step` one of the
--     destructor, at the end of which the threads are joined; `add_threads` and `shutdown` are
--     steps as well, and `run` is a sequence of steps of any threads. ThreadPool/Measures counts
--     what the threads hold; ThreadPool/WorkerMoves, Moves, Accounting, Stopping, Refusing,
--     Wakeups, Turns, Serving, Unstarted, Destroying, Destroyed, Joining and Returning are proofs.
--     Executor has this pool as a queue of tasks, Executor/Pooled as it is.
--   MpmcQueue: mpmc_queue.hpp. `advance` is one access of a thread in `enqueue` or `dequeue` to
--     `head`, `tail`, a `next` or a hazard pointer, and `run` is a sequence of steps of any
--     threads, any of whose exchanges may fail without a reason. `history` records the exchanges
--     that took effect. MpmcQueue/Chains has the abstract queue, a list; Invariant, Moves,
--     Exchanges, Steps, Reclaim and Refinement carry the invariant over each step; Contents, Alone
--     and Progress are about the calls, Undeleted about the addresses of nodes. `start_check` and
--     `check_slot` are the steps of `reclaim_all` and `isProtected` on the nodes that `dequeue`
--     retired, one slot at a time; Guards, Guarding and Hazards are about them.
--   GrpcClient: grpc_client.cpp. `submit_task_async`, `submit_task_sync`, `cancel_task_async`,
--     `query_status_async` and `listen_results` have the code's names, `complete_rpc` is the loop
--     of `CompleteRpc`. GrpcClient/Client is the class: its state with the tags of its calls, its
--     constructor and destructor, `cancel_task`, `query_status`, and `loop_step`, a step of its
--     loop; a run is a sequence of these, and nothing happens after a call that goes through a
--     null pointer. GrpcClient/Client/Closing is a proof. GrpcClient/Tags is the tags of
--     grpc_client.hpp: `submit_proceed`, `cancel_proceed`, `query_proceed` and `listen_proceed`
--     are the `ProceedImpl` of each. A `Flight` is a call with the operations that the gRPC
--     library will report; `deliver` reports one, with what the library wrote as an argument. What
--     it does on a second `Finish` of one reader is not documented; Twice says what follows if it
--     reports that one too. GrpcClient/Submit, Twice, Listen, Callbacks and Calls are proofs.
--   ApiServer: api_server.hpp and api_server.cpp. `proceed` is `AsyncCallContext::Proceed`,
--     `on_submit_task`, `run_server` and `drive_completion_queue` are the members of
--     `AsyncServer`, `shutdown` and `join_threads` are the two parts of its `Shutdown`; `run` is a
--     sequence of completions that the gRPC library reports to contexts. ApiServer/Program is
--     main.cpp: `main_step` is a step of `main`, and signals come in between; a call of `Shutdown`
--     is two steps, `enter_shutdown` and `leave_shutdown`. ApiServer/Contexts, Answers, Start,
--     Drive, Exit, Launch are proofs, and Served is about a client and the server together.
--   Logger: logger.hpp.
--   Task/Sample: parameters for the runs at concrete inputs.
--   Hazptr/Tests, ThreadPool/Tests, MpmcQueue/Tests, GrpcClient/Tests, ApiServer/Tests,
--     Task/Tests, Executor/Tests and Executor/Pooled/Tests: runs at concrete inputs.
--
-- Conventions. Numbers are natural numbers; the wrap-around of unsigned fields is written out; an
-- `int64_t` is an integer. A double is its bit pattern, and the order of doubles is a parameter. A
-- thread that locks a mutex that it holds is `stuck`, and a failed assertion is `aborted`. No
-- definition but the loop of ~MPMCQueue (`delete_from`) uses fuel, and that is enough with two
-- rounds more than there are items: every other loop is structural recursion or a sequence of
-- steps. The conversions of nlohmann::json to C++ types, its conversion of an integer to a double
-- and its keys for the items of an array are parameters, with hypotheses on what the library
-- documents.
--
-- Not modelled. Memory order. In Hazptr an operation of the hazard pointers takes effect at once,
-- also the unlocked walk of `isProtected`; MpmcQueue has that walk slot by slot. The exit of a
-- thread, and the logging. A task of the pool that throws, also an exception of a task function
-- that is no `std::exception`. What a release of the pool's binary semaphore beyond its maximum
-- does: here it has no effect, and `overruns` tells when a release is one. `add_threads` is one
-- step. A node of the queue that the domain deletes is marked and keeps its content until `new`
-- gives its address again; `enqueue` can read such a node, and can link a node behind it
-- (MpmcQueue/Tests has both runs), so what is proved of the queue's runs is proved of those in
-- which `new` gives no address of a deleted node (`none_reused`), as it does not before the domain
-- deletes one. A signal that interrupts `Shutdown` of the server ends the program here.
pub mod Base
pub mod Hazptr
pub mod Task
pub mod Executor
pub mod ThreadPool
pub mod MpmcQueue
pub mod Logger
pub mod GrpcClient
pub mod ApiServer
