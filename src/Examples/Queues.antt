-- ===== src/Examples/Queues.antt =====
-- The approval queue's theorems at concrete queues.
use forward.Prelude.{
  ℕ, ◌*◌, ◌≤◌, ◌-◌, ◌≡◌, ◌≢◌, refl, false, none, some, [], ◌∷◌, arith, All, count_if, second,
}
use forward.Requests.Types.{QueueLimits, Queue, decrypting}
use forward.Requests.Queue.{
  new, enqueue, push_request, mark_decrypting, started, start_decrypt, complete, deny, next_ready,
  end_request, admit, coalesce_or_admit,
}
use forward.Requests.Ops.{enqueue_op, mark_op, prune_op, run}
use forward.Requests.Sound.{IsSound, new-IsSound, enqueue-IsSound, mark-IsSound}
use forward.Requests.Ended.{denied_never_completes, completes_at_most_once}
use forward.Requests.Limits.{run-limits, is_plain, is_ceremony}
use forward.Requests.Flight.{next_ready-starts, single_flight}
use forward.Examples.Data.{agent, terminal, key_a}

abbrev limits : QueueLimits
limits = record { cooldown = 5 * second; ttl = 60 * second; max_pending_per_scope = 2 }

abbrev waiting : Queue
waiting = (enqueue agent key_a 1 none (new limits)).0

waiting-IsSound : IsSound waiting
waiting-IsSound =
    enqueue-IsSound agent key_a 1 none (new limits) (unfold new in omega arith) (new-IsSound limits)

abbrev running : Queue
running = (mark_decrypting 1 2 waiting).0

running-IsSound : IsSound running
running-IsSound = mark-IsSound 1 2 waiting waiting-IsSound

denied_never_completes_example :
    (complete 1 1 9 (run (mark_op 1 4 ∷ []) (deny 1 3 running).0)).1 ≡ false
unfolding deny end_request mark_decrypting start_decrypt started enqueue coalesce_or_admit admit
    push_request new
denied_never_completes_example =
    denied_never_completes 1 3 running (mark_op 1 4 ∷ []) 1 9 running-IsSound refl

completes_at_most_once_example :
    (complete 1 1 9 (run (prune_op 4 ∷ []) (complete 1 1 3 running).0)).1 ≡ false
unfolding complete mark_decrypting start_decrypt started enqueue coalesce_or_admit admit
    push_request new
completes_at_most_once_example =
    completes_at_most_once 1 1 3 running (prune_op 4 ∷ []) 1 9 running-IsSound refl

run-limits_example :
    let q =
      run (enqueue_op agent key_a 1 none ∷ enqueue_op terminal key_a 1 none ∷ []) (new limits) in
    (count_if (is_plain agent) q.requests ≤ 2) × (count_if (is_ceremony agent) q.requests ≤ 1)
run-limits_example =
    run-limits limits (enqueue_op agent key_a 1 none ∷ enqueue_op terminal key_a 1 none ∷ []) agent

next_ready-starts_example : mark_decrypting 1 2 waiting ≡ started 1 waiting
unfolding next_ready enqueue coalesce_or_admit admit push_request new
next_ready-starts_example = next_ready-starts 2 waiting 1 waiting-IsSound refl

single_flight_example :
    All (λ r. r.state ≢ decrypting) waiting.requests
    × ((last : ℕ)
        → waiting.last_finished ≡ some last
        → last ≤ 2
        → waiting.limits.cooldown ≤ 2 - last)
    × All (λ r. r.state ≡ decrypting → r.id ≡ 1) running.requests
    × (running.inflight ≡ some 1)
unfolding mark_decrypting start_decrypt started enqueue coalesce_or_admit admit push_request new
single_flight_example = single_flight 1 2 waiting 1 waiting-IsSound refl
