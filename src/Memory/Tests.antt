-- ===== src/Memory/Tests.antt =====
-- Runs of the write queue on concrete inputs.
use the_kubernetes_of_ai_age.Common.{◌≡◌, refl, true, false, none, List, [], ◌∷◌, ◌++◌}
use the_kubernetes_of_ai_age.Common.Json.{null}
use the_kubernetes_of_ai_age.Memory.WriteQueue
use the_kubernetes_of_ai_age.Memory.WriteQueue.{
  MemoryWriteOp, Entry, Event, add, answer, wake_up, accepted, dropped, wrote, gave_up,
}
use the_kubernetes_of_ai_age.Memory.WriteQueue.Order
use the_kubernetes_of_ai_age.Memory.WriteQueue.Order.{refs, arrived, settled}

abbrev op : MemoryWriteOp
op = record {
  namespace = "n";
  agent_id = "a";
  key = "k";
  value = null;
  ttl_seconds = none;
  attempts = 0;
}

abbrev retried : List Event
retried = add op ∷ answer false ∷ add op ∷ wake_up ∷ answer false ∷ answer true ∷ []

retried-effects :
    (WriteQueue.run retried (WriteQueue.new 2 500 10)).1
    ≡ accepted 0 ∷ accepted 1 ∷ gave_up 0 ∷ wrote 1 ∷ []
unfolding WriteQueue.run WriteQueue.step WriteQueue.enqueue WriteQueue.new
retried-effects = refl

settled-run-arrived_example :
    settled (WriteQueue.run retried (WriteQueue.new 2 500 10)).1
      ++ refs (WriteQueue.run retried (WriteQueue.new 2 500 10)).0.queue
    ≡ arrived (WriteQueue.run retried (WriteQueue.new 2 500 10)).1
unfolding WriteQueue.run WriteQueue.step WriteQueue.enqueue WriteQueue.new
settled-run-arrived_example = Order.settled-run-arrived 2 500 10 retried refl
