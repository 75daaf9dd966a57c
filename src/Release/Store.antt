-- ===== src/Release/Store.antt =====
-- store/postgres/release.go: the statements on releases, their history, scopes and shards.
use domain_lifecycle_deploym.Base.{
  ℕ, suc, ◌+◌, String, str_eq, Bool, true, false, not, ◌&&◌, ◌||◌, Option, none, some, List, [],
  ◌∷◌, ◌++◌, ◌==◌, ltb, leb, if◌then◌else◌, select, first, any, update_where, sort_by,
}
use domain_lifecycle_deploym.Base.Exec.{
  Res, ok, err, pure, throw, query, reads, writes, ◌>>=◌, ◌>>◌,
}
use domain_lifecycle_deploym.Release.Tables.{
  Failure, db_failed, release_not_found, shard_not_found, release_race_condition, duplicate_key,
  Reason, Actor, Release, ReleaseScope, ReleaseShard, HistoryRow, Tables, Db,
}

abbrev pub found : {A : Type 0} → Failure → Option A → Res Failure A
found e none = err e
found e (some a) = ok a

abbrev pub is_release : ℕ → Release → Bool
is_release id r = r.id == id

abbrev pub is_null {ℓ} : {A : Type ℓ} → Option A → Bool
is_null none = true
is_null (some a) = false

abbrev pub later_id : Release → Release → Bool
later_id r r' = leb r'.id r.id

abbrev pub set_release : ℕ → (Release → Release) → Tables → Tables
set_release id f t = record t { releases = update_where (is_release id) f t.releases }

-- `Create`: the columns with a DEFAULT are filled in; `release_id` is unique.
abbrev pub insert_release : Release → Tables → Tables
insert_release r t = record t {
  next_id = suc t.next_id;
  releases = t.releases ++ (record r { id = t.next_id }) ∷ [];
}

abbrev pub new_release : String → ℕ → ℕ → String → String → Option String → Option ℕ → Release
new_release release_id project_id version_id release_type source description created_by = record {
  id = 0;
  release_id = release_id;
  project_id = project_id;
  template_version_id = version_id;
  artifact_id = none;
  release_type = release_type;
  trigger_source = source;
  status = "pending";
  total_domains = none;
  total_shards = none;
  success_count = 0;
  failure_count = 0;
  description = description;
  created_by = created_by;
  started_at = none;
  ended_at = none;
}

abbrev pub inserted : Release → Tables → Bool → Res Failure Release × Tables
inserted r t true = (err duplicate_key, t)
inserted r t false = (ok (record r { id = t.next_id }), insert_release r t)

unfoldable pub create : Release → Db Release
unfolding query
create r =
    query db_failed (λ t. inserted r t (any (λ x. str_eq x.release_id r.release_id) t.releases))

unfoldable pub get_by_id : ℕ → Db Release
unfolding reads
get_by_id id = reads db_failed (λ t. found release_not_found (first (is_release id) t.releases))

unfoldable pub set_artifact_id : ℕ → ℕ → Db Unit
unfolding writes
set_artifact_id id artifact =
    writes db_failed (set_release id (λ r. record r { artifact_id = some artifact }))

unfoldable pub set_totals : ℕ → ℕ → ℕ → Db Unit
unfolding writes
set_totals id domains shards =
    writes db_failed
      (set_release id (λ r. record r { total_domains = some domains; total_shards = some shards }))

unfoldable pub set_started_at : ℕ → Db Unit
unfolding writes
set_started_at id =
    writes db_failed (λ t. set_release id (λ r. record r { started_at = some t.now }) t)

unfoldable pub set_ended_at : ℕ → Db Unit
unfolding writes
set_ended_at id = writes db_failed (λ t. set_release id (λ r. record r { ended_at = some t.now }) t)

-- Both `Increment…By` send nothing for 0.
unfoldable pub increment_success_by : ℕ → ℕ → Db Unit
unfolding writes pure
increment_success_by id n =
    if n == 0
    then pure tt
    else writes db_failed (set_release id (λ r. record r { success_count = r.success_count + n }))

unfoldable pub increment_failure_by : ℕ → ℕ → Db Unit
unfolding writes pure
increment_failure_by id n =
    if n == 0
    then pure tt
    else writes db_failed (set_release id (λ r. record r { failure_count = r.failure_count + n }))

-- The single write path of `releases.status`.
unfoldable pub update_release_status_tx : ℕ → String → Db Unit
unfolding writes
update_release_status_tx id status =
    writes db_failed (set_release id (λ r. record r { status = status }))

abbrev pub insert_history : HistoryRow → Tables → Tables
insert_history row t = record t { history = t.history ++ row ∷ [] }

unfoldable pub insert_release_state_history_tx : ℕ → String → String → Reason → Actor → Db Unit
unfolding writes
insert_release_state_history_tx id from to reason by = writes db_failed (
    insert_history (record {
      release_id = id;
      from_state = some from;
      to_state = to;
      reason = reason;
      triggered_by = by;
    }))

-- SELECT … FOR UPDATE, the optimistic check, the write, and the audit row, inside a transaction.
unfoldable pub transition_tx : ℕ → String → String → Reason → Actor → Db Unit
unfolding reads ◌>>=◌ throw update_release_status_tx insert_release_state_history_tx
transition_tx id expected_from to reason by = do
  current ← reads db_failed (λ t. found release_not_found (first (is_release id) t.releases))
  if str_eq current.status expected_from
      then (do
        update_release_status_tx id to
        insert_release_state_history_tx id expected_from to reason by)
      else throw release_race_condition

-- The newest succeeded release of the project with an artifact and a smaller ID.
unfoldable pub get_last_succeeded : ℕ → ℕ → Db Release
unfolding reads
get_last_succeeded project_id before_id = reads db_failed (λ t. found release_not_found (
    first (λ r. true)
      (sort_by later_id (
        select
          (λ r.
            (r.project_id == project_id)
            && (str_eq r.status "succeeded" && (not (is_null r.artifact_id) && ltb r.id before_id)))
          t.releases))))

unfoldable pub create_scope : ℕ → ℕ → Option ℕ → Db Unit
unfolding writes
create_scope release_id domain_id host_group_id = writes db_failed (λ t. record t {
  scopes =
      t.scopes
      ++ (record { release_id = release_id; domain_id = domain_id; host_group_id = host_group_id })
        ∷ [];
})

unfoldable pub list_scopes : ℕ → Db (List ReleaseScope)
unfolding reads
list_scopes id = reads db_failed (λ t. ok (select (λ s. s.release_id == id) t.scopes))

abbrev pub lower_index : ReleaseShard → ReleaseShard → Bool
lower_index s s' = leb s.shard_index s'.shard_index

abbrev pub is_shard : ℕ → ReleaseShard → Bool
is_shard id s = s.id == id

abbrev pub new_shard : ℕ → ℕ → ℕ → Tables → ReleaseShard
new_shard release_id index domain_count t = record {
  id = t.next_id;
  release_id = release_id;
  shard_index = index;
  is_canary = false;
  domain_count = domain_count;
  status = "pending";
  started_at = none;
  ended_at = none;
  success_count = 0;
  failure_count = 0;
}

-- (release_id, shard_index) is unique.
abbrev pub shard_inserted : ReleaseShard → Tables → Bool → Res Failure ReleaseShard × Tables
shard_inserted s t true = (err duplicate_key, t)
shard_inserted s t false = (ok s, record t { next_id = suc t.next_id; shards = t.shards ++ s ∷ [] })

unfoldable pub create_shard : ℕ → ℕ → ℕ → Db ReleaseShard
unfolding query
create_shard release_id index domain_count = query db_failed (λ t.
    shard_inserted (new_shard release_id index domain_count t) t
      (any (λ s. (s.release_id == release_id) && (s.shard_index == index)) t.shards))

unfoldable pub list_shards : ℕ → Db (List ReleaseShard)
unfolding reads
list_shards id =
    reads db_failed (λ t. ok (sort_by lower_index (select (λ s. s.release_id == id) t.shards)))

unfoldable pub get_shard_by_id : ℕ → Db ReleaseShard
unfolding reads
get_shard_by_id id = reads db_failed (λ t. found shard_not_found (first (is_shard id) t.shards))

abbrev pub start_time : String → ℕ → Option ℕ → Option ℕ
start_time status now (some at) = some at
start_time status now none =
    if str_eq status "dispatching" || str_eq status "running" then some now else none

abbrev pub end_time : String → ℕ → Option ℕ → Option ℕ
end_time status now at =
    if str_eq status "succeeded" || (str_eq status "failed" || str_eq status "cancelled")
    then some now
    else at

unfoldable pub update_shard_status : ℕ → String → Db Unit
unfolding writes
update_shard_status id status = writes db_failed (λ t. record t {
  shards =
      update_where (is_shard id)
        (λ s. record s {
          status = status;
          started_at = start_time status t.now s.started_at;
          ended_at = end_time status t.now s.ended_at;
        })
        t.shards;
})

unfoldable pub update_shard_counts : ℕ → ℕ → ℕ → Db Unit
unfolding writes
update_shard_counts id success failure = writes db_failed (λ t. record t {
  shards =
      update_where (is_shard id)
        (λ s. record s { success_count = success; failure_count = failure }) t.shards;
})

-- none: no shard after `after_index` is still pending.
unfoldable pub get_next_pending_shard : ℕ → ℕ → Db (Option ReleaseShard)
unfolding reads
get_next_pending_shard release_id after_index = reads db_failed (λ t. ok (
    first (λ s. true)
      (sort_by lower_index (
        select
          (λ s.
            (s.release_id == release_id)
            && (ltb after_index s.shard_index && str_eq s.status "pending"))
          t.shards))))
