-- ===== src/Memory/WriteQueue/Order.antt =====
-- As long as the queue does not overflow, every accepted write is settled once, in order.
mod Traces
pub use Traces.*
use the_kubernetes_of_ai_age.Common.{
  ℕ, ◌+◌, ◌≤◌, ◌<◌, ◌≡◌, refl, sym, ap, ◌∙◌, Bool, true, false, not, ◌||◌, List, [], ◌∷◌, ◌++◌,
  append-nil, append_assoc, if◌then◌else◌, leb, length, is_empty, length-append, Bool-cases, inl,
  inr, arith, if_rule,
}
use the_kubernetes_of_ai_age.Memory.WriteQueue.{
  MemoryWriteOp, Entry, Flush, idle, writing, sleeping, MemoryWriteQueue, Effect, accepted, dropped,
  wrote, gave_up, new, shift, drop_oldest, drop_effect, take_head, go_on, start, push, make_room,
  enqueue, dispose, written, touch, failed, reply, wake, Event, add, answer, wake_up, end, step,
  run,
}

-- The flush holds the head of the queue whenever it waits for the repository.
abbrev IsHeld : Flush → List ℕ → Type 0
IsHeld (writing e) xs = (rest : List ℕ) × (xs ≡ e.0 ∷ rest)
IsHeld _ xs = Unit

record IsStep (q r : MemoryWriteQueue) (effects : List Effect) : Type 0 where
  held : IsHeld r.flush (refs r.queue)
  kept : settled effects ++ refs r.queue ≡ refs q.queue ++ arrived effects

take_head-IsHeld :
    (b : Bool) (es : List Entry) → IsHeld (if b then take_head es else idle) (refs es)
take_head-IsHeld true [] = tt
take_head-IsHeld true (e ∷ es) = (refs es, refl)
take_head-IsHeld false es = tt

go_on-IsHeld : (q : MemoryWriteQueue) → IsHeld (go_on q).flush (refs q.queue)
go_on-IsHeld q = take_head-IsHeld (not q.disposed || not (is_empty q.queue)) q.queue

append-IsHeld : (f : Flush) (xs ys : List ℕ) → IsHeld f xs → IsHeld f (xs ++ ys)
append-IsHeld idle xs ys h = tt
append-IsHeld (writing e) xs ys (rest, h) = (rest ++ ys, ap (λ zs. zs ++ ys) h)
append-IsHeld (sleeping ms) xs ys h = tt

start-IsHeld :
    (q : MemoryWriteQueue) (f : Flush)
    → IsHeld q.flush (refs q.queue)
    → IsHeld (start q f).flush (refs (start q f).queue)
start-IsHeld q idle h = go_on-IsHeld q
start-IsHeld q (writing e) h = h
start-IsHeld q (sleeping ms) h = h

start-keeps :
    (q : MemoryWriteQueue) (f : Flush)
    → ((start q f).queue ≡ q.queue) × ((start q f).max_queue_size ≡ q.max_queue_size)
start-keeps q idle = (refl, refl)
start-keeps q (writing e) = (refl, refl)
start-keeps q (sleeping ms) = (refl, refl)

same-IsStep : (q : MemoryWriteQueue) → IsHeld q.flush (refs q.queue) → IsStep q q []
same-IsStep q h = record { held = h; kept = sym (append-nil (refs q.queue)) }

push-IsStep :
    (op : MemoryWriteOp) (q : MemoryWriteQueue)
    → IsHeld q.flush (refs q.queue)
    → IsStep q (start (push op q) q.flush) (accepted q.next_ref ∷ [])
push-IsStep op q h =
    let new_entry : Entry = (q.next_ref, record op { attempts = 0 }) in
    let appended = refs-append q.queue (new_entry ∷ []) in
    let same = start-keeps (push op q) q.flush in
    record {
      held =
          start-IsHeld (push op q) q.flush
            (rw appended (append-IsHeld q.flush (refs q.queue) (q.next_ref ∷ []) h));
      kept = ap refs same.0 ∙ appended;
    }

pushed-IsStep :
    (op : MemoryWriteOp) (q : MemoryWriteQueue) (room : MemoryWriteQueue × List Effect)
    → room ≡ (q, [])
    → IsHeld q.flush (refs q.queue)
    → IsStep q (start (push op room.0) (push op room.0).flush) (room.1 ++ accepted q.next_ref ∷ [])
pushed-IsStep op q room e h = rw e (push-IsStep op q h)

-- A full queue drops a write, unless it is empty, as a queue of size 0 can be.
dropping :
    (q : MemoryWriteQueue) (es : List Entry) (b : List Effect)
    → q.queue ≡ es
    → is_lossless (drop_effect es ++ b) ≡ true
    → drop_oldest q ≡ (q, [])
dropping q [] b e h = rw e refl
dropping q (x ∷ xs) b e h = absurd (ground arith)

make_room-lossless :
    (q : MemoryWriteQueue) (b : List Effect)
    → is_lossless ((make_room q).1 ++ b) ≡ true
    → make_room q ≡ (q, [])
make_room-lossless q b =
    if_rule {A = MemoryWriteQueue × List Effect}
      (λ room. is_lossless (room.1 ++ b) ≡ true → room ≡ (q, []))
      (leb q.max_queue_size (length q.queue)) (λ full. dropping q q.queue b refl) (λ roomy h. refl)

add-IsStep :
    (op : MemoryWriteOp) (q : MemoryWriteQueue)
    → IsHeld q.flush (refs q.queue)
    → is_lossless (enqueue op q).2 ≡ true
    → IsStep q (enqueue op q).0 (enqueue op q).2
unfolding enqueue
add-IsStep op q h =
    if_rule {A = MemoryWriteQueue × Bool × List Effect}
      (λ r. is_lossless r.2 ≡ true → IsStep q r.0 r.2) q.disposed (λ closed kept. same-IsStep q h)
      (λ going kept. pushed-IsStep op q (make_room q) (make_room-lossless q _ kept) h)

refs-shift :
    (e : Entry) (es : List Entry) → IsHeld (writing e) (refs es) → refs es ≡ e.0 ∷ refs (shift es)
refs-shift e [] (rest, h) = absurd (ground arith)
refs-shift e (x ∷ xs) (rest, h) = let first : x.0 ≡ e.0 = ground arith in rw first refl

written-IsStep :
    (e : Entry) (q : MemoryWriteQueue)
    → IsHeld (writing e) (refs q.queue)
    → IsStep q (written e q).0 (written e q).1
written-IsStep e q h = record {
  held = go_on-IsHeld (record q { queue = shift q.queue });
  kept = sym (refs-shift e q.queue h) ∙ sym (append-nil (refs q.queue));
}

failed-IsStep :
    (e : Entry) (q : MemoryWriteQueue)
    → IsHeld (writing e) (refs q.queue)
    → IsStep q (failed e q).0 (failed e q).1
failed-IsStep e q h =
    let touched = touch e q.queue in
    let held : IsHeld (writing e) (refs touched) = rw (refs-touch e q.queue) h in
    if_rule {A = MemoryWriteQueue × List Effect} (λ r. IsStep q r.0 r.1)
      (leb q.max_attempts (e.1.attempts + 1))
      (λ over. record {
        held = go_on-IsHeld (record q { queue = shift touched });
        kept =
            sym (refs-shift e touched held)
            ∙ refs-touch e q.queue
            ∙ sym (append-nil (refs q.queue));
      })
      (λ again. record { held = tt; kept = refs-touch e q.queue ∙ sym (append-nil (refs q.queue)) })

reply-IsStep :
    (ok : Bool) (f : Flush) (q : MemoryWriteQueue)
    → q.flush ≡ f
    → IsHeld f (refs q.queue)
    → IsStep q (reply ok f q).0 (reply ok f q).1
reply-IsStep true (writing e) q same h = written-IsStep e q h
reply-IsStep false (writing e) q same h = failed-IsStep e q h
reply-IsStep true idle q same h = same-IsStep q (rw same tt)
reply-IsStep false idle q same h = same-IsStep q (rw same tt)
reply-IsStep true (sleeping ms) q same h = same-IsStep q (rw same tt)
reply-IsStep false (sleeping ms) q same h = same-IsStep q (rw same tt)

wake-IsStep :
    (f : Flush) (q : MemoryWriteQueue) → IsHeld q.flush (refs q.queue) → IsStep q (wake f q) []
wake-IsStep (sleeping ms) q h = record {
  held = go_on-IsHeld q;
  kept = sym (append-nil (refs q.queue));
}
wake-IsStep idle q h = same-IsStep q h
wake-IsStep (writing e) q h = same-IsStep q h

step-IsStep :
    (e : Event) (q : MemoryWriteQueue)
    → IsHeld q.flush (refs q.queue)
    → is_lossless (step e q).1 ≡ true
    → IsStep q (step e q).0 (step e q).1
unfolding step dispose
step-IsStep (add op) q h room = add-IsStep op q h room
step-IsStep (answer ok) q h room = reply-IsStep ok q.flush q refl h
step-IsStep wake_up q h room = wake-IsStep q.flush q h
step-IsStep end q h room = record { held = h; kept = sym (append-nil (refs q.queue)) }

run-keeps :
    (es : List Event) (q : MemoryWriteQueue)
    → IsHeld q.flush (refs q.queue)
    → is_lossless (run es q).1 ≡ true
    → settled (run es q).1 ++ refs (run es q).0.queue ≡ refs q.queue ++ arrived (run es q).1
unfolding run
run-keeps [] q h room = sym (append-nil (refs q.queue))
run-keeps (e ∷ es) q h room =
    let r = step e q in
    let rest = run es r.0 in
    let lossless = is_lossless-append r.1 rest.1 room in
    let s = step-IsStep e q h lossless.0 in
    let later = run-keeps es r.0 s.held lossless.1 in
    rw
      (
        settled-append r.1 rest.1,
        arrived-append r.1 rest.1,
        append_assoc (settled r.1) (settled rest.1) (refs rest.0.queue),
        later,
      )
      (rw
        (
          sym (append_assoc (settled r.1) (refs r.0.queue) (arrived rest.1)),
          s.kept,
          append_assoc (refs q.queue) (arrived r.1) (arrived rest.1),
        )
        refl)

-- As long as the queue drops no write for being full, the writes that are settled (written, or given
-- up), followed by those in the queue, are the accepted ones in the order of their acceptance: nothing is
-- lost, settled twice or overtaken, whatever fails and whenever.
pub settled-run-arrived :
    (max_attempts base size : ℕ) (es : List Event)
    → is_lossless (run es (new max_attempts base size)).1 ≡ true
    → settled (run es (new max_attempts base size)).1
        ++ refs (run es (new max_attempts base size)).0.queue
      ≡ arrived (run es (new max_attempts base size)).1
unfolding new
settled-run-arrived max_attempts base size es lossless =
    run-keeps es (new max_attempts base size) tt lossless
