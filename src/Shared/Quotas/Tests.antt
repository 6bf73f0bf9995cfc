-- ===== src/Shared/Quotas/Tests.antt =====
-- Runs of the quota enforcer on concrete inputs.
use the_kubernetes_of_ai_age.Common.{◌*◌, ◌≡◌, refl, List, [], ◌∷◌}
use the_kubernetes_of_ai_age.Common.Maps
use the_kubernetes_of_ai_age.Shared.Quotas.{
  QuotaEnforcer, new, get_fallback_key, check_fallback, check, release, quota_exceeded,
}
use the_kubernetes_of_ai_age.Shared.Quotas.Bounds
use the_kubernetes_of_ai_age.Shared.Quotas.Bounds.{Event, check_at, release_at, reset_at}

abbrev events : List Event
events = check_at 10 "n" 1 ∷ check_at 20 "n" 1 ∷ check_at 30 "m" 1 ∷ release_at "m" 1 ∷ []

third-exceeded :
    (check 40 "n" "concurrent_executions" 1 (Bounds.run "concurrent_executions" events (new 60))).1
    ≡ quota_exceeded 2 2 1000
unfolding check check_fallback Bounds.run Bounds.perform new release get_fallback_key Maps.get
    Maps.set
third-exceeded = refl

run-new-IsBounded_example :
    Bounds.IsBounded (2 * 1) (Bounds.run "concurrent_executions" events (new 60))
run-new-IsBounded_example = Bounds.run-new-IsBounded 60 2 1 "concurrent_executions" events refl refl

abbrev used : QuotaEnforcer
used = record {
  window_seconds = 60;
  fallback_counts = (("n:concurrent_executions", record { count = 1; window_start = 5 }) ∷ []);
}
