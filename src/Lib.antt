-- ===== src/Lib.antt =====
-- A verification library for the load-shedding program: admission control for Go services. Requests are
-- let in, made to wait or refused, so that a service under more load than it can carry stays fast for
-- those that it serves.
--
-- Parts and files (paths from the repository's root):
--   queue/gate.go                  Queue/Gate.antt: the interface Gate, CPUThresholdGate, gateFor. Gate/Counted
--                                  wraps any gate with counts of its callbacks.
--   queue/codel.go                 Queue/Codel.antt: NewCodel, submitWithOutcome (arrive, enter), worker
--                                  (worker_lock, drop_callback, task_end), run, Stats, Stop. Codel/Law is
--                                  shouldDrop. Codel/System interleaves submitters and workers, and
--                                  Codel/Wait adds the callers of SubmitWait, and Codel/Wakeup the workers
--                                  asleep on the condition variable notEmpty. Codel/Stop follows the
--                                  workers of a closed pool to their return, as Pool/Stop does.
--   queue/pool.go                  Queue/Pool.antt: New, submitWithOutcome (arrive, try_acquire, shed, send,
--                                  count_accepted), worker, run, Stats, Stop. Pool/System interleaves them,
--                                  and Pool/Wait adds the callers of SubmitWait. Queue/Promise is the
--                                  abstract task queue that both pools refine (Codel/Refines, Pool/Refines);
--                                  Promise/Kept is what its moves keep.
--                                  Queue/Handler is the middleware, which both pools spell the same;
--                                  Queue/Task is what they share, with runSafe (queue/runsafe.go).
--   queue/cpu_linux.go, cpu.go     Queue/Cpu.antt: parseUint and parseUints. Cpu/Text: readText, readLines;
--                                  Cpu/Cgroup: both kinds of cgroup, and systemCpuUsage; Cpu/Sampler:
--                                  refreshCpu, cpuInitialize and the tick of startCpuSampler.
--   concurrencylimits/limit.go,    Limits/Limit.antt: the interfaces Limit, Limiter and Listener, and
--     fixed.go                     FixedLimit. Limit/Capped is what a limiter relies on of an algorithm, an
--                                  invariant that bounds its limit; Gradient2/Capped and Windowed/Capped are
--                                  two instances.
--   concurrencylimits/limiter.go   Limits/Limiter.antt: SimpleLimiter.Acquire and simpleListener.finish, in
--                                  their atomic actions. Limiter/System interleaves requests. Limiter/Adaptive
--                                  puts a SimpleLimiter on windows on a Gradient2Limit.
--   concurrencylimits/lifo.go      Limits/Lifo.antt: LifoBlockingLimiter. Lifo/System interleaves callers,
--                                  and Lifo/Holders adds the listeners that they hold; Lifo/Conserve counts
--                                  those that the delegate has handed out, over Lifo/Granted and
--                                  Lifo/Balance.
--   concurrencylimits/windowed.go  Limits/Windowed.antt: WindowedLimit and sampleWindow. Windowed/Timing is
--                                  one call, Windowed/Spacing any number of them.
--   concurrencylimits/vegas.go,    Limits/Vegas.antt, Limits/Gradient.antt, Limits/Gradient2.antt, over
--     gradient.go, gradient2.go    Limits/ExpAvg (limit.go) and Limits/Held, a clamp that two of them share.
--   concurrencylimits/handler.go   Limits/Handler.antt: the middleware; Http.antt: codeWriter, of which
--                                  queue/response_writer.go and gozero/gozero.go hold the same text.
--   gozero/gate.go, gozero.go      GoZero.antt: the gate and the middleware; load.Shedder is a parameter.
--   quarkus/config.go              Quarkus/Config.antt
--   quarkus/detector.go            Quarkus/Detector.antt: OverloadDetector.
--   quarkus/priority.go            Quarkus/Priority.antt: PriorityLoadShedding.
--   quarkus/shedder.go             Quarkus/Shedder.antt: Admit and its callback; Quarkus/Handler.antt:
--                                  the middleware.
--   sentinel/shedder.go            Sentinel.antt: DefaultConfig, buildRules, New, Allow and the middleware;
--                                  sentinel-golang is a parameter.
--   simulate/simulate.go           Simulate.antt: Run, with its ticks and its requests interleaved, its
--                                  report with the percentiles, and ShedRate.
--   cmd/simulate/main.go           Simulate/Command.antt: the scenario and the settings of the strategies.
--
-- How the code is read. A critical section or an atomic operation is one function on the state; `Step`
-- is one such action of one thread, and `Reach` the states that a new object reaches by any sequence of
-- them. The lists of a `System` say which thread stands where. The clock, the CPU usage and random
-- draws are arguments; a time is a number of nanoseconds from the zero time. int and int64 wrap at 2^64
-- (Prelude/Word). float64 and package math are a parameter, the record Float64; what a theorem asks of
-- it is in Prelude/Float/Laws, which Float/Fixed meets. A gate, a limit algorithm and a delegate limiter
-- are parameters too: records of operations on a state. An algorithm that reads the clock gets
-- a sequence of readings, one for each call. The conversion of a NaN to an integer is that of amd64 and
-- arm64. The delegate behind a backlog may change in any way between two actions of the backlog, as where
-- other threads are in the middle of a call of it. The CPU source of a gate is the sequence of readings
-- that its calls return. Of net/http a response is the list of calls that its writer gets: the first
-- status that is not informational is the one that the client is sent, and 200 where there is none. A
-- refresh of the CPU usage reads one snapshot of the files, a function from paths to contents.
--
-- Bounds and fuel. A counter of requests inside is taken to stay below 2^63, as a premise of the step that
-- increments it. The loop of a worker that drains a closed pool runs on fuel, one round for each queued
-- item and one to return. Decimal texts are written on fuel, which the number itself is enough of.
--
-- Not modelled: logging, and the options that set a logger, a clock or another source; the ticker and the
-- goroutine of the CPU sampler, and its constant 0 on other systems; text beyond ASCII in the files that it reads,
-- lines too long for a bufio.Scanner, and paths that path.Join would have to clean; the table that the
-- simulator prints, and the call of Stop after each of its runs.
pub mod Prelude
pub mod Http
pub mod Queue
pub mod Limits
pub mod Quarkus
pub mod GoZero
pub mod Sentinel
pub mod Simulate
