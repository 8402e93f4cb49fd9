-- ===== src/Executor/Timeout.antt =====
-- task_executor.cpp: the arithmetic of the dynamic timeout and of the retry delay.
use tiny_reactor.Base.{ℕ, ◌+◌, ◌-◌, ◌<◌, ◌^◌, ◌%◌, ◌≡◌, arith}
use tiny_reactor.Base.Int.{pos, sub_ℕ, to_int64}
use tiny_reactor.Task.{Task}
use tiny_reactor.Executor.{remaining_timeout}

-- Wrapping 64-bit arithmetic, read as signed, is exact where the result is in range.
wrapped_difference :
    (timeout now submit : ℕ)
    → timeout < 2 ^ 32
    → now < 2 ^ 62
    → submit < 2 ^ 62
    → to_int64 ((timeout + 2 ^ 64 - (now + 2 ^ 64 - submit % 2 ^ 64) % 2 ^ 64) % 2 ^ 64)
      ≡ sub_ℕ (timeout + submit) now
wrapped_difference timeout now submit a b c = ground arith

-- The time left to a task, computed in `uint64_t` and read as `int64_t`, is the exact integer
-- `timeout_ms - (now - submit_ts)`, for a timeout in `uint32_t` and times from 0 up to 2 ^ 62,
-- also where the task was submitted after `now`.
pub remaining_timeout_exact :
    (t : Task) (now submit : ℕ)
    → t.submit_ts ≡ pos submit
    → t.timeout_ms < 2 ^ 32
    → now < 2 ^ 62
    → submit < 2 ^ 62
    → remaining_timeout t now ≡ sub_ℕ (t.timeout_ms + submit) now
unfolding remaining_timeout
remaining_timeout_exact t now submit e a b c =
    rw e (wrapped_difference t.timeout_ms now submit a b c)
