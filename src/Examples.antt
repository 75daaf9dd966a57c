-- ===== src/Examples.antt =====
-- One release from its creation to its dispatch, and concrete inputs for the statements that have
-- hypotheses.
mod Parts
mod Outcomes
mod Domains
mod Alarms
mod Detection
mod Standing
mod Fleet
use domain_lifecycle_deploym.Base.{
  ℕ, ◌≡◌, refl, ◌≤◌, ◌<◌, String, Bool, true, false, Option, none, some, List, [], ◌∷◌, ◌++◌, arith,
  any, count_where, first, suc, length, get_elem?, Bool-cases, ◌==◌, inl, inr, ==→eq, sym,
}
use domain_lifecycle_deploym.Base.Exec.{Session, ok, transaction}
use domain_lifecycle_deploym.Base.Follows.{Star, here, next, one}
use domain_lifecycle_deploym.Release.Tables.{
  Tables, Release, Domain, TemplateVersion, Agent, Artifact, Manifest, AgentTask, HistoryRow,
  ReleaseFinalizePayload, named, text,
}
use domain_lifecycle_deploym.Release.Graph.{can_release_transition, is_terminal_release_state}
use domain_lifecycle_deploym.Release.Effects.{lookup_status, statuses}
use domain_lifecycle_deploym.Release.Audit.Walks.{is_edge}
use domain_lifecycle_deploym.Release.Audit.Laws.{Progress}
use domain_lifecycle_deploym.Release.Audit.Trails.{
  operations-Consistent, operations-Progress, terminal_release-kept, started_release-dispatched,
}
use domain_lifecycle_deploym.Release.Service.Create.{CreateInput}
use domain_lifecycle_deploym.Release.Service.Transition.{pause, transition_release}
use domain_lifecycle_deploym.Release.Store.{transition_tx}
use domain_lifecycle_deploym.Release.Audit.{
  Step, operation, Operation, perform, creates, plans, marks_ready, dispatches, Consistent,
  below_nil, below_cons, trail, pauses,
}

abbrev no_digest : String → ℕ → ℕ → String
no_digest slug version nanos = slug

abbrev no_url : String → String → Option String
no_url slug checksum = none

abbrev pub first_tables : Tables
first_tables = record {
  now = 1;
  next_id = 10;
  releases = [];
  scopes = [];
  shards = [];
  history = [];
  domain_tasks = [];
  agent_tasks = [];
  rollbacks = [];
  agents =
      (record {
        id = 3;
        agent_id = "a3";
        host_group_id = none;
        status = "online";
        is_deleted = false;
      })
      ∷ [];
  host_groups = [];
  domains =
      (record {
        id = 4;
        fqdn = "a.com";
        project_id = 1;
        lifecycle_state = "active";
        is_deleted = false;
      })
      ∷ (record {
        id = 5;
        fqdn = "b.com";
        project_id = 1;
        lifecycle_state = "active";
        is_deleted = false;
      })
      ∷ [];
  versions = (record { id = 6; published_at = some 0 }) ∷ [];
  artifacts =
      (record {
        id = 7;
        checksum = "c";
        storage_uri = "s3";
        manifest = some (record { project_slug = "demo1234"; checksum = "c" });
      })
      ∷ [];
  queue = [];
}

abbrev pub start : Session Tables
start = record { tables = first_tables; faults = λ n. false; calls = 0 }

abbrev pub demo : CreateInput
demo = record {
  project_id = 1;
  project_slug = "demo1234";
  template_version_id = 6;
  release_type = "";
  trigger_source = "";
  shard_strategy = "";
  description = none;
  domain_ids = [];
  created_by = some 2;
}

abbrev run : Operation → Session Tables → Session Tables
run o d = (perform no_digest no_url o d).1

abbrev audit : Option String → String → HistoryRow
audit from to = record {
  release_id = 10;
  from_state = from;
  to_state = to;
  reason = text "";
  triggered_by = named "system";
}

abbrev pub release_in : String → Release
release_in status = record {
  id = 10;
  release_id = "demo1234";
  project_id = 1;
  template_version_id = 6;
  artifact_id = some 7;
  release_type = "html";
  trigger_source = "ui";
  status = status;
  total_domains = some 2;
  total_shards = some 1;
  success_count = 0;
  failure_count = 0;
  description = none;
  created_by = some 2;
  started_at = some 1;
  ended_at = none;
}

-- A release that was dispatched, and another that was cancelled.
abbrev pub executing_tables : Tables
executing_tables = record first_tables {
  next_id = 12;
  releases = release_in "executing" ∷ record (release_in "cancelled") { id = 11 } ∷ [];
  history =
      audit none "pending"
      ∷ audit (some "pending") "planning"
      ∷ audit (some "planning") "ready"
      ∷ audit (some "ready") "executing"
      ∷ record (audit (some "pending") "cancelled") { release_id = 11 }
      ∷ [];
}

abbrev pub executing : Session Tables
executing = record { tables = executing_tables; faults = λ n. false; calls = 0 }

abbrev pausing : Operation
pausing = pauses 10 (text "") (named "user")

abbrev paused : Session Tables
paused = run pausing executing

abbrev path : Star (Step no_digest no_url) executing paused
path = one (operation pausing)

executing_tables-Consistent : Consistent executing_tables
unfolding lookup_status trail can_release_transition
executing_tables-Consistent = record {
  ids_below = below_cons (omega arith) (below_cons (omega arith) below_nil);
  audited = λ id. elim (Bool-cases (10 == id)) [
    | inl q ↦ rw (sym (==→eq 10 id q)) (refl, refl, (refl, refl, (refl, refl, refl)))
    | inr q ↦ elim (Bool-cases (11 == id)) [
      | inl p ↦ rw (sym (==→eq 11 id p)) (refl, refl, refl)
      | inr p ↦ rw (q, p) refl
    ]
  ];
}

is_paused : lookup_status 10 (statuses paused.tables) ≡ some "paused"
unfolding lookup_status perform pause transition_release transaction transition_tx first
    domain_lifecycle_deploym.Base.update_where
is_paused = refl

operations-Consistent_example : Consistent paused.tables
operations-Consistent_example =
    operations-Consistent no_digest no_url executing paused executing_tables-Consistent path

is_executing : lookup_status 10 (statuses executing_tables) ≡ some "executing"
unfolding lookup_status
is_executing = refl

operations-Progress_example : Progress 10 "executing" executing_tables paused.tables
operations-Progress_example =
    operations-Progress no_digest no_url 10 "executing" executing paused is_executing path

cancelled_terminal : is_terminal_release_state "cancelled" ≡ true
unfolding is_terminal_release_state
cancelled_terminal = refl

is_cancelled : lookup_status 11 (statuses executing_tables) ≡ some "cancelled"
unfolding lookup_status
is_cancelled = refl

terminal_release-kept_example :
    (lookup_status 11 (statuses paused.tables) ≡ some "cancelled")
    × (trail 11 paused.tables.history ≡ trail 11 executing_tables.history)
terminal_release-kept_example =
    terminal_release-kept no_digest no_url 11 "cancelled" executing paused cancelled_terminal
      is_cancelled path

started_release-dispatched_example :
    any (is_edge "ready" "executing") (trail 10 paused.tables.history) ≡ true
started_release-dispatched_example =
    started_release-dispatched no_digest no_url 10 "paused" executing paused
      executing_tables-Consistent path is_paused refl
