-- ===== src/GrpcClient/Twice.antt =====
-- grpc_client.hpp and grpc_client.cpp: cancellations and queries, for which `Finish` is called by the
-- client and by the tag.
use tiny_reactor.Base.{
  ℕ, ◌≡◌, refl, subst, sym, ◌∙◌, Bool, true, ◌&&◌, List, [], ◌∷◌, if◌then◌else◌, tally, arith,
}
use tiny_reactor.Task.{Task}
use tiny_reactor.Task.Proto.{PbTask}
use tiny_reactor.GrpcClient.{
  Flight, deliver, deliver_all, cancel_flight, query_flight, cancel_task_async, query_status_async,
}
use tiny_reactor.GrpcClient.Tags.{
  Promise, value, exception, Completion, CancelTag, QueryTag, is_ok, task_of, cancel_proceed,
  cancel_receive, query_proceed, query_receive, query_set_result, requests,
}
use tiny_reactor.GrpcClient.Submit.{is_finish, is_delete, deliver_all-none}

-- What a call of either kind comes to: what its promise holds, how often `Finish` was called, and
-- that its tag was deleted once and waits for nothing.
pub record Ended {ℓ} {Tag : Type 0} {A : Type ℓ} (promise : Tag → Promise A) (result : Promise A)
    (calls : ℕ) (f : Flight Tag) : Type ℓ where
  pub promised : promise f.tag ≡ result
  pub finish_calls : tally is_finish f.log ≡ calls
  pub deletions : tally is_delete f.log ≡ 1
  pub over : f.pending ≡ 0

abbrev pub promise_of_cancel : CancelTag → Promise Bool
promise_of_cancel t = t.promise

two_cancel :
    (first second : Completion)
    → first.ok ≡ true
    → Ended promise_of_cancel
        (value (is_ok second.status && second.success))
        2
        (cancel_flight (first ∷ second ∷ []) cancel_task_async.0)
unfolding cancel_flight deliver_all deliver cancel_receive cancel_proceed cancel_task_async requests
    tally
two_cancel first second h =
    rw h (record { promised = refl; finish_calls = refl; deletions = refl; over = refl })

cancel_flight-two :
    (a b : Completion) (cs : List Completion) (f : Flight CancelTag)
    → cancel_flight (a ∷ b ∷ cs) f ≡ cancel_flight cs (cancel_flight (a ∷ b ∷ []) f)
unfolding cancel_flight deliver_all
cancel_flight-two a b cs f = refl

cancel_flight-none :
    (cs : List Completion) (f : Flight CancelTag) → f.pending ≡ 0 → cancel_flight cs f ≡ f
unfolding cancel_flight
cancel_flight-none cs f h =
    deliver_all-none cancel_receive (λ ok t. cancel_proceed ok t.step t) cs f h

-- If the first completion of a cancellation is good, its tag calls `Finish` although the client did
-- so already, and a second completion, if the library reports one, decides the result; then the tag
-- is deleted, and no later completion reaches it.
pub cancel_task_async-Ended :
    (first second : Completion) (later : List Completion)
    → first.ok ≡ true
    → Ended promise_of_cancel
        (value (is_ok second.status && second.success))
        2
        (cancel_flight (first ∷ second ∷ later) cancel_task_async.0)
cancel_task_async-Ended first second later h =
    let g : Flight CancelTag = cancel_flight (first ∷ second ∷ []) cancel_task_async.0 in
    let ended : Ended promise_of_cancel _ 2 g = two_cancel first second h in
    subst (Ended promise_of_cancel (value (is_ok second.status && second.success)) 2)
      (sym (
        cancel_flight-two first second later cancel_task_async.0
        ∙ cancel_flight-none later g ended.over))
      ended

abbrev pub promise_of_query : QueryTag → Promise Task
promise_of_query t = t.promise

-- What the last completion of a query says of it.
abbrev pub found : PbTask → Completion → Promise Task
found empty c = if is_ok c.status then value (task_of empty c.response) else exception c.status

two_query :
    (empty : PbTask) (first second : Completion)
    → first.ok ≡ true
    → Ended promise_of_query
        (found empty second)
        2
        (query_flight empty (first ∷ second ∷ []) (query_status_async empty).0)
unfolding query_flight deliver_all deliver query_receive query_proceed query_set_result
    query_status_async requests tally
two_query empty first second h =
    rw h (record { promised = ground arith; finish_calls = refl; deletions = refl; over = refl })

query_flight-two :
    (empty : PbTask) (a b : Completion) (cs : List Completion) (f : Flight QueryTag)
    → query_flight empty (a ∷ b ∷ cs) f ≡ query_flight empty cs (query_flight empty (a ∷ b ∷ []) f)
unfolding query_flight deliver_all
query_flight-two empty a b cs f = refl

query_flight-none :
    (empty : PbTask) (cs : List Completion) (f : Flight QueryTag)
    → f.pending ≡ 0
    → query_flight empty cs f ≡ f
unfolding query_flight
query_flight-none empty cs f h =
    deliver_all-none (query_receive empty) (λ ok t. query_proceed ok t.step t) cs f h

-- If the first completion of a query is good, its tag calls `Finish` although the client did so
-- already, and a second completion, if the library reports one, decides the result; then the tag is
-- deleted, and no later completion reaches it.
pub query_status_async-Ended :
    (empty : PbTask) (first second : Completion) (later : List Completion)
    → first.ok ≡ true
    → Ended promise_of_query
        (found empty second)
        2
        (query_flight empty (first ∷ second ∷ later) (query_status_async empty).0)
query_status_async-Ended empty first second later h =
    let f : Flight QueryTag = (query_status_async empty).0 in
    let g : Flight QueryTag = query_flight empty (first ∷ second ∷ []) f in
    let ended : Ended promise_of_query (found empty second) 2 g = two_query empty first second h in
    subst (Ended promise_of_query (found empty second) 2)
      (sym
        (query_flight-two empty first second later f ∙ query_flight-none empty later g ended.over))
      ended
