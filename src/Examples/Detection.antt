-- ===== src/Examples/Detection.antt =====
-- Concrete measurements and trackers for the statements on detection that have hypotheses.
use domain_lifecycle_deploym.Base.{
  ◌≤◌, ◌≡◌, refl, String, str_eq, eq_iff, true, false, Option, none, some, List, [], ◌∷◌, arith,
  any, ◌≢◌,
}
use domain_lifecycle_deploym.Base.Exec.{Session, ok}
use domain_lifecycle_deploym.Gfw.Confidence.State.{
  ConfidenceState, empty_state, observed, score_from_state,
}
use domain_lifecycle_deploym.Gfw.Confidence.Trackers.{Json, Redis, Memory}
use domain_lifecycle_deploym.Gfw.Confidence.Counting.{
  observed_from, times_listed, observed_from-Scores, observed_rises,
}
use domain_lifecycle_deploym.Gfw.Confidence.Refinement.{
  Call, observe, ask, clear, memory_calls, redis_calls, Represents, redis_calls-Refines,
}
use domain_lifecycle_deploym.Gfw.Measurements.{Measurement}
use domain_lifecycle_deploym.Base.Always.{Post}
use domain_lifecycle_deploym.Base.Runs.{Ran}
use domain_lifecycle_deploym.Examples.Alarms.{quiet}
use domain_lifecycle_deploym.Gfw.Analyzer.{Verdict, classify}
use domain_lifecycle_deploym.Gfw.Analyzer.Layers.{check_dns}
use domain_lifecycle_deploym.Gfw.Tables.{GfwTables, MeasurementRow, verdict_added}
use domain_lifecycle_deploym.Gfw.Blocking.{
  BlockingAlertDetail, classify_blocking, evaluate_and_alert,
}
use domain_lifecycle_deploym.Gfw.Blocking.Recovery.{recovered, evaluate_and_alert-Ignores_p3}
use domain_lifecycle_deploym.Gfw.Verdicts.{
  Columns, stored, redis_tracker, judge, analyze_and_store, verdict_row,
}
use domain_lifecycle_deploym.Gfw.Verdicts.Outcomes.{Added, analyze_and_store-Stores}
use domain_lifecycle_deploym.Gfw.Verdicts.Failures.{judge-Forgets}
use domain_lifecycle_deploym.Gfw.Analyzer.Decisions.{IsCoherent, classify-IsCoherent}
use domain_lifecycle_deploym.Gfw.Analyzer.Uncontrolled.{
  uncontrolled_blockings, classify-IsUncontrolled,
}

-- Bytes that are the state itself.
abbrev plain : Json ConfidenceState
plain = record { marshal = λ s. some s; unmarshal = λ b. some b }

abbrev no_entries : Session (Redis ConfidenceState)
no_entries = record {
  tables = record { now = 9; entries = λ k. none };
  faults = λ n. false;
  calls = 0;
}

abbrev no_states : Memory
no_states = λ k. none

abbrev watch : List Call
watch = observe 4 "cn-1" "dns" ∷ observe 4 "cn-2" "dns" ∷ ask 4 ∷ clear 4 ∷ ask 4 ∷ []

redis_calls-Refines_example :
    ((redis_calls plain watch no_entries).0 ≡ ok (memory_calls watch no_states).0)
    × Represents plain
        (redis_calls plain watch no_entries).1.tables
        (memory_calls watch no_states).1
redis_calls-Refines_example =
    redis_calls-Refines (λ s. (s, refl, refl)) watch no_states no_entries (λ id. refl) (λ n. refl)

dns_ne : ◌≢◌ {A = String} "dns" ""
dns_ne e = absurd (ground (arith, (eq_iff "dns" "").1 e))

observed_from-Scores_example :
    ((observed_from "dns" ("cn-1" ∷ "cn-2" ∷ "cn-1" ∷ []) empty_state).count ≡ 3)
    × (times_listed "cn-1"
          (observed_from "dns" ("cn-1" ∷ "cn-2" ∷ "cn-1" ∷ []) empty_state).unique_nodes
        ≡ 1)
    × (score_from_state (observed_from "dns" ("cn-1" ∷ "cn-2" ∷ "cn-1" ∷ []) empty_state) ≡ 90)
unfolding any
observed_from-Scores_example =
    observed_from-Scores "dns" "cn-1" "cn-1" ("cn-2" ∷ "cn-1" ∷ []) dns_ne

abbrev seen_once : ConfidenceState
seen_once = record { count = 1; unique_nodes = "cn-1" ∷ []; last_blocking = "dns" }

observed_rises_example :
    (score_from_state seen_once ≤ score_from_state (observed "cn-2" "dns" seen_once))
    × (30 ≤ score_from_state (observed "cn-2" "dns" seen_once))
    × (score_from_state (observed "cn-2" "dns" seen_once) ≤ 90)
observed_rises_example = observed_rises "cn-2" "dns" seen_once dns_ne refl

abbrev injected : Measurement
injected = record {
  domain_id = 4;
  fqdn = "a.com";
  node_id = "cn-1";
  dns =
      some (record { answers = "1.1.1.1" ∷ []; error = ""; is_bogon = false; is_injected = true });
  tcp = [];
  tls = [];
  http = none;
  measured_at = 5;
}

classify-IsCoherent_example : IsCoherent (classify none injected (some injected) 90)
classify-IsCoherent_example = classify-IsCoherent none injected (some injected) 90

classify-IsUncontrolled_example :
    (any (str_eq (classify none injected none 90).blocking) uncontrolled_blockings ≡ true)
    × ((classify none injected none 90).confidence ≡ 90)
classify-IsUncontrolled_example = classify-IsUncontrolled none injected 90

abbrev columns : Columns
columns = record {
  decode_dns = λ j. none;
  decode_tcp = λ j. some [];
  decode_tls = λ j. some [];
  decode_http = λ j. none;
}

abbrev no_detail : BlockingAlertDetail → Option String
no_detail b = some "{}"

abbrev measured : MeasurementRow
measured = record {
  domain_id = 4;
  node_id = "cn-1";
  node_role = "probe";
  fqdn = "a.com";
  dns_result = "null";
  tcp_results = "";
  tls_results = "";
  http_result = "";
  measured_at = 5;
}

abbrev watched : Session (GfwTables (Redis ConfidenceState))
watched = record {
  tables = record {
    tracked = no_entries.tables;
    measurements = measured ∷ [];
    verdicts = [];
    domains = [];
    alerts = quiet;
  };
  faults = λ n. false;
  calls = 0;
}

analyze_and_store-Stores_example :
    Post
      (λ r t. Added [] r t.verdicts)
      (λ t. t.verdicts ≡ [])
      (analyze_and_store none columns no_detail (redis_tracker plain) 4 watched).0
      (analyze_and_store none columns no_detail (redis_tracker plain) 4 watched).1.tables
analyze_and_store-Stores_example = analyze_and_store-Stores none columns no_detail plain 4 watched

-- Bytes that may be no state.
abbrev checked : Json (Option ConfidenceState)
checked = record { marshal = λ s. some (some s); unmarshal = λ b. b }

abbrev garbled : Session (GfwTables (Redis (Option ConfidenceState)))
garbled = record {
  tables = record {
    tracked = record { now = 9; entries = λ k. some (record { bytes = none; expires = 100 }) };
    measurements = measured ∷ [];
    verdicts = [];
    domains = [];
    alerts = quiet;
  };
  faults = λ n. false;
  calls = 0;
}

judge-Forgets_example :
    Ran
      (judge none columns no_detail (redis_tracker checked) 4 injected none garbled)
      (stored (classify none injected none 0))
      (recovered
        (classify none injected none 0)
        (verdict_added (verdict_row (classify none injected none 0)) garbled.tables))
judge-Forgets_example =
    judge-Forgets none columns no_detail checked 4 injected none none garbled refl refl (λ n. refl)

abbrev doubtful : Verdict
doubtful = classify none injected none 50

evaluate_and_alert-Ignores_p3_example :
    ((classify_blocking 50 "dns").1 ≡ "P3")
    × Ran (evaluate_and_alert no_detail doubtful watched) tt (recovered doubtful watched.tables)
unfolding classify check_dns
evaluate_and_alert-Ignores_p3_example =
    evaluate_and_alert-Ignores_p3 no_detail doubtful watched dns_ne (omega arith) (omega arith)
      (λ n. refl)
