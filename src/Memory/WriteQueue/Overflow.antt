-- ===== src/Memory/WriteQueue/Overflow.antt =====
-- What an overflow does to the write that is on its way.
use the_kubernetes_of_ai_age.Common.{
  ℕ, ◌+◌, ◌≤◌, ◌≡◌, refl, true, false, List, [], ◌∷◌, ◌++◌, leb, length, arith,
}
use the_kubernetes_of_ai_age.Memory.WriteQueue.{
  MemoryWriteOp, Entry, writing, MemoryWriteQueue, accepted, dropped, wrote, make_room, enqueue,
  add, answer, step, run,
}
use the_kubernetes_of_ai_age.Memory.WriteQueue.Order.{refs, refs-append}

-- A queue whose flush waits for the repository with the write at the head.
abbrev pub busy : ℕ → ℕ → ℕ → ℕ → Entry → List Entry → MemoryWriteQueue
busy max_attempts base size next_ref oldest others = record {
  max_attempts = max_attempts;
  backoff_base_ms = base;
  max_queue_size = size;
  queue = oldest ∷ others;
  flush = writing oldest;
  disposed = false;
  next_ref = next_ref;
}

-- When a write is accepted by a full queue while the repository is busy with the oldest write, and the
-- repository then succeeds, the queue loses its second write too: it is neither written nor given up
-- nor reported as dropped, and what is left in the queue is the rest and the new write.
run-busy-loses :
    (max_attempts base size next_ref : ℕ) (op : MemoryWriteOp) (oldest second : Entry)
    (rest : List Entry)
    → size ≤ length rest + 2
    → let r =
        run
          (add op ∷ answer true ∷ [])
          (busy max_attempts base size next_ref oldest (second ∷ rest)) in
      (r.1 ≡ dropped oldest.0 ∷ accepted next_ref ∷ wrote oldest.0 ∷ [])
      × (refs r.0.queue ≡ refs rest ++ next_ref ∷ [])
unfolding run step enqueue
run-busy-loses max_attempts base size next_ref op oldest second rest full =
    let at_limit : leb size (length (oldest ∷ second ∷ rest)) ≡ true = ground arith in
    rw (make_room, at_limit) (refl, refs-append rest ((next_ref, record op { attempts = 0 }) ∷ []))
