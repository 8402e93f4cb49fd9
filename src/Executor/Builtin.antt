-- ===== src/Executor/Builtin.antt =====
-- task_executor.cpp, the constructor: it registers the built-in function `fib`. What
-- `params.value("n", 0)` gives is an argument, a number or the text of its exception, and so are the
-- tasks, the time, and what a call whose behaviour is undefined comes to.
use Prim.Native.String.{String}
use tiny_reactor.Base.{
  ℕ, ◌≡◌, ◌≤◌, ◌<◌, refl, ap, ◌∙◌, Bool, false, some, [], ◌⊎◌, inl, inr, ==_self,
}
use tiny_reactor.Base.Int.{ℤ, pos}
use tiny_reactor.Task.JsonValue.{Json, int, end, field}
use tiny_reactor.Task.{Task, TaskState}
use tiny_reactor.Executor.{
  TaskExecutor, TaskFunction, Outcome, returns, throws, no_error, register_function, put_function,
  find_function, call_function, finish_task, update_task_state, cancel_timer,
}
use tiny_reactor.Executor.Fib.{
  FibOutcome, fib, fib_result, fib_cancelled, negative_input, undefined, fibonacci, fib-fibonacci,
}

-- `{{"result", v}}`.
abbrev pub result_json : Json → Json
result_json v = Json.object (field "result" v end)

abbrev pub fib_outcome : (unspecified : Outcome) → FibOutcome → Outcome
fib_outcome unspecified (fib_result z) = returns (result_json (Json.number (int z)))
fib_outcome unspecified fib_cancelled = returns (result_json (Json.string "cancelled"))
fib_outcome unspecified negative_input = throws no_error "Negative input for fib"
fib_outcome unspecified undefined = unspecified

module _ (read_n : Json → ℤ ⊎ String) (unspecified : Outcome) where
  -- The lambda that the constructor registers.
  unfoldable pub fib_function : TaskFunction
  fib_function params flags = elim (read_n params) [
    | inl n ↦ fib_outcome unspecified (fib flags n)
    | inr text ↦ throws no_error text
  ]

  -- The constructor. 4616189618054758400 is the bit pattern of 4.0.
  unfoldable pub new_executor : (tasks : ℕ → Task) → (clock : ℕ) → TaskExecutor
  unfolding register_function fib_function
  new_executor tasks clock = register_function "fib" fib_function (record {
    functions = [];
    available_resources = record { cpu_core = 4616189618054758400; mem_mb = 8192 };
    retrying_cnt = 0;
    tasks = tasks;
    queue = [];
    running = [];
    refused = [];
    resubmitting = [];
    timers = [];
    next_timer = 0;
    clock = clock;
  })

  -- A task that names `fib` calls the built-in function.
  call_function-fib :
      (k : ℕ) (flags : ℕ → Bool) (e : TaskExecutor) (tasks : ℕ → Task) (clock : ℕ) (n : ℤ)
      → e.functions ≡ (new_executor tasks clock).functions
      → (e.tasks k).func_name ≡ "fib"
      → read_n (e.tasks k).func_params ≡ inl n
      → call_function k flags e ≡ fib_outcome unspecified (fib flags n)
  unfolding new_executor call_function find_function put_function register_function fib_function
  call_function-fib k flags e tasks clock n known named read =
      let found : find_function (e.tasks k).func_name e.functions ≡ some fib_function =
        ap (λ x. find_function x e.functions) named ∙ ap (find_function "fib") known in
      rw (call_function, found) (rw (fib_function, read) refl)

  finish_task-returns :
      (k timer : ℕ) (r : Json) (e : TaskExecutor)
      → let t = (finish_task k timer (returns r) e).tasks k in
        (t.state ≡ TaskState.success) × (t.result ≡ r)
  unfolding finish_task update_task_state cancel_timer
  finish_task-returns k timer r e = rw (==_self k) (refl, refl)

  -- A task that names `fib`, in an executor with the functions that the constructor registers, while
  -- its cancellation flag is not set: with a parameter from 0 to 46 it ends in the state SUCCESS with
  -- the Fibonacci number as its result, and with a larger one its call has undefined behaviour.
  pub finish_task-fib :
      (k timer n : ℕ) (flags : ℕ → Bool) (e : TaskExecutor) (tasks : ℕ → Task) (clock : ℕ)
      → e.functions ≡ (new_executor tasks clock).functions
      → (e.tasks k).func_name ≡ "fib"
      → read_n (e.tasks k).func_params ≡ inl (pos n)
      → ((j : ℕ) → 2 ≤ j → j ≤ n → flags j ≡ false)
      → let call = call_function k flags e in
        let t = (finish_task k timer call e).tasks k in
        (n ≤ 46
          → (t.state ≡ TaskState.success)
            × (t.result ≡ result_json (Json.number (int (pos (fibonacci n))))))
        × (46 < n → call ≡ unspecified)
  finish_task-fib k timer n flags e tasks clock known named read quiet =
      let call = call_function-fib k flags e tasks clock (pos n) known named read in
      let (small, large, _) = fib-fibonacci flags n quiet in
      (
        λ h.
            let answer = call ∙ ap (fib_outcome unspecified) (small h) in
            rw answer (finish_task-returns k timer _ e),
        λ h. call ∙ ap (fib_outcome unspecified) (large h),
      )
