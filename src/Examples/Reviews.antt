-- ===== src/Examples/Reviews.antt =====
-- The revision of reviews, and the effort of routes.
use agentic_harness.Base.{◌+◌, ◌≤◌, ◌||◌, true, arith, ◌≡◌, some, none, false, []}
use agentic_harness.Routing.{RoutedTask, reasoning_effort, rank, is_implementation, is_governed}
use agentic_harness.Routing.Effort.{reasoning_effort_rises}
use agentic_harness.Revision.{Artifact}

abbrev product : Artifact
product = record {
  review_stage = "product-discovery";
  producer = "";
  reviewed_revision = some 2;
  criterion_sources = [];
  plan_revision = none;
}

abbrev implementation : Artifact
implementation = record product { review_stage = "implementation"; reviewed_revision = some 5 }

abbrev small : RoutedTask
small = record {
  complexity = "low";
  files = 1;
  criteria = 1;
  contract_change = false;
  migration = false;
  role = "implementation";
  stage = "implementation";
}

reasoning_effort_rises_example :
    (rank (reasoning_effort (λ s. false) small "developer" "low" 1)
      ≤ rank (reasoning_effort (λ s. false) small "developer" "low" (1 + 1)))
    × (is_implementation "developer" small || is_governed false "developer" ≡ true
        → reasoning_effort (λ s. false) small "developer" "low" (1 + 1) ≡ "max")
reasoning_effort_rises_example =
    reasoning_effort_rises (λ s. false) small "developer" "low" 1 (omega arith)
