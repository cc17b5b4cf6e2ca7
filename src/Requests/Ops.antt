-- ===== src/Requests/Ops.antt =====
-- The operations that other parts of the broker call on the queue, as data, and a run of them.
use forward.Prelude.{ℕ, Option, List, [], ◌∷◌, Text}
use forward.Grants.Scope.{Scope}
use forward.Requests.Types.{Queue}
use forward.Requests.Queue.{
  enqueue, mark_decrypting, complete, fail, timeout, deny, sweep_timeouts, prune,
}

pub data Op : Type 0 where
  enqueue_op : Scope → Text → ℕ → Option ℕ → Op
  mark_op : ℕ → ℕ → Op
  complete_op : ℕ → ℕ → ℕ → Op
  fail_op : ℕ → ℕ → Op
  timeout_op : ℕ → ℕ → Op
  deny_op : ℕ → ℕ → Op
  sweep_op : ℕ → Op
  prune_op : ℕ → Op

unfoldable pub apply : Op → Queue → Queue
apply (enqueue_op scope key now ttl) q = (enqueue scope key now ttl q).0
apply (mark_op id now) q = (mark_decrypting id now q).0
apply (complete_op id generation now) q = (complete id generation now q).0
apply (fail_op id now) q = fail id now q
apply (timeout_op id now) q = (timeout id now q).0
apply (deny_op id now) q = (deny id now q).0
apply (sweep_op now) q = (sweep_timeouts now q).0
apply (prune_op now) q = prune now q

unfoldable pub run : List Op → Queue → Queue
run [] q = q
run (op ∷ ops) q = run ops (apply op q)
