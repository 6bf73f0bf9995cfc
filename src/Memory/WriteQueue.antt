-- ===== src/Memory/WriteQueue.antt =====
-- memory-plane/src/write-queue.ts: the class `MemoryWriteQueue`. An operation stands with its
-- reference, the number it was accepted under, since the flush goes on holding the object that it found
-- at the head when the queue has moved on. The repository's answers are events, and what the
-- queue did is a list of effects.
pub mod Order
pub mod Overflow
use the_kubernetes_of_ai_age.Common.{
  ℕ, ◌+◌, ◌-◌, ◌*◌, ◌^◌, String, Bool, true, false, not, ◌||◌, Option, List, [], ◌∷◌, ◌++◌, map,
  if◌then◌else◌, leb, ◌==◌, length, is_empty,
}
use the_kubernetes_of_ai_age.Common.Json.{Json}

pub record MemoryWriteOp : Type 0 where
  pub namespace : String
  pub agent_id : String
  pub key : String
  pub value : Json
  pub ttl_seconds : Option ℕ
  pub attempts : ℕ

abbrev pub Entry : Type 0
Entry = ℕ × MemoryWriteOp

-- Where the flush stands: not running, waiting for `repo.set` of an operation, or waiting for a delay.
pub data Flush : Type 0 where
  idle : Flush
  writing : ℕ × MemoryWriteOp → Flush
  sleeping : ℕ → Flush

pub record MemoryWriteQueue : Type 0 where
  pub max_attempts : ℕ
  pub backoff_base_ms : ℕ
  pub max_queue_size : ℕ
  pub queue : List (ℕ × MemoryWriteOp)
  pub flush : Flush
  pub disposed : Bool
  pub next_ref : ℕ

pub data Effect : Type 0 where
  accepted : ℕ → Effect
  dropped : ℕ → Effect
  wrote : ℕ → Effect
  gave_up : ℕ → Effect

unfoldable pub new : ℕ → ℕ → ℕ → MemoryWriteQueue
new max_attempts backoff_base_ms max_queue_size = record {
  max_attempts = max_attempts;
  backoff_base_ms = backoff_base_ms;
  max_queue_size = max_queue_size;
  queue = [];
  flush = idle;
  disposed = false;
  next_ref = 0;
}

-- `Array.shift`, for its effect on the array.
abbrev pub shift {ℓ} : {A : Type ℓ} → List A → List A
shift [] = []
shift (x ∷ xs) = xs

abbrev pub drop_effect : List Entry → List Effect
drop_effect [] = []
drop_effect (e ∷ es) = dropped e.0 ∷ []

abbrev pub drop_oldest : MemoryWriteQueue → MemoryWriteQueue × List Effect
drop_oldest q = (record q { queue = shift q.queue }, drop_effect q.queue)

-- `const op = this.queue[0]`, and the call of `repo.set` or the end of the loop.
abbrev pub take_head : List Entry → Flush
take_head [] = idle
take_head (e ∷ es) = writing e

-- The flush from the head of its loop to its next wait.
abbrev pub go_on : MemoryWriteQueue → MemoryWriteQueue
go_on q = record q {
  flush = if not q.disposed || not (is_empty q.queue) then take_head q.queue else idle;
}

-- `this.flushPromise ??= this.flush()`
abbrev pub start : MemoryWriteQueue → Flush → MemoryWriteQueue
start q idle = go_on q
start q f = q

-- `this.queue.push({ ...op, attempts: 0 })`
abbrev pub push : MemoryWriteOp → MemoryWriteQueue → MemoryWriteQueue
push op q = record q {
  queue = q.queue ++ (q.next_ref, record op { attempts = 0 }) ∷ [];
  next_ref = q.next_ref + 1;
}

abbrev pub make_room : MemoryWriteQueue → MemoryWriteQueue × List Effect
make_room q = if leb q.max_queue_size (length q.queue) then drop_oldest q else (q, [])

-- The queue after the call, what `enqueue` returns, and the effects.
unfoldable pub enqueue : MemoryWriteOp → MemoryWriteQueue → MemoryWriteQueue × Bool × List Effect
enqueue op q =
    if q.disposed
    then (q, false, [])
    else let room = make_room q in
      let pushed = push op room.0 in
      (start pushed pushed.flush, true, room.1 ++ accepted q.next_ref ∷ [])

unfoldable pub pending : MemoryWriteQueue → ℕ
pending q = length q.queue

unfoldable pub dispose : MemoryWriteQueue → MemoryWriteQueue
dispose q = record q { disposed = true }

-- The repository has written the operation that the flush holds.
abbrev pub written : Entry → MemoryWriteQueue → MemoryWriteQueue × List Effect
written e q = (go_on (record q { queue = shift q.queue }), wrote e.0 ∷ [])

-- `op.attempts += 1`, on the object: the entry of the queue with its reference is the same object.
abbrev pub touch : Entry → List Entry → List Entry
touch e [] = []
touch e (x ∷ xs) =
    let rest = touch e xs in
    (if x.0 == e.0 then (x.0, record x.1 { attempts = e.1.attempts + 1 }) else x) ∷ rest

-- The repository has failed to.
abbrev pub failed : Entry → MemoryWriteQueue → MemoryWriteQueue × List Effect
failed e q =
    let touched = touch e q.queue in
    if leb q.max_attempts (e.1.attempts + 1)
    then (go_on (record q { queue = shift touched }), gave_up e.0 ∷ [])
    else (
      record q {
        queue = touched;
        flush = sleeping (q.backoff_base_ms * 2 ^ (e.1.attempts + 1 - 1));
      },
      [],
    )

abbrev pub reply : Bool → Flush → MemoryWriteQueue → MemoryWriteQueue × List Effect
reply true (writing e) q = written e q
reply false (writing e) q = failed e q
reply _ _ q = (q, [])

abbrev pub wake : Flush → MemoryWriteQueue → MemoryWriteQueue
wake (sleeping ms) q = go_on q
wake _ q = q

-- What may happen: a call of `enqueue` or `dispose`, an answer of the repository, the end of a delay. An
-- event that the flush is not waiting for does nothing.
pub data Event : Type 0 where
  add : MemoryWriteOp → Event
  answer : Bool → Event
  wake_up : Event
  end : Event

unfoldable pub step : Event → MemoryWriteQueue → MemoryWriteQueue × List Effect
unfolding enqueue dispose
step (add op) q = let r = enqueue op q in (r.0, r.2)
step (answer ok) q = reply ok q.flush q
step wake_up q = (wake q.flush q, [])
step end q = (dispose q, [])

unfoldable pub run : List Event → MemoryWriteQueue → MemoryWriteQueue × List Effect
unfolding step
run [] q = (q, [])
run (e ∷ es) q = let r = step e q in let rest = run es r.0 in (rest.0, r.1 ++ rest.1)
