-- ===== src/Server/Shadow/Driver/Reads.antt =====
-- harvest_shadow.rs: the read surface of the table of verdicts. A statement takes its outcome as the
-- driver's do; the parsers of the JSON library and of the time library are arguments.
use bigtop.Common.{
  ℕ, ◌+◌, ◌≡◌, refl, List, [], ◌∷◌, String, ◌⊎◌, if◌then◌else◌, ◌==◌, HashMap, get, insert,
  unwrap_or,
}
use bigtop.Common.Sort.{sort_by, le_str}
use bigtop.Core.Ids.{TaskId, SnapshotId}
use bigtop.Server.Metrics.{VerdictCounts}
use bigtop.Server.Shadow.{Observation, Verdict, as_str}
use bigtop.Server.Shadow.Driver.{
  Row, Action, ok, ◌>>=◌, ◌>>◌, pure, or_raise, serialization, statement,
}

pub record ShadowTrack : Type 0 where
  pub snapshot_id : SnapshotId
  pub task_id : TaskId
  pub verdict : Verdict
  pub observations : List Observation
  pub detail : String
  pub updated_at : ℕ

-- The `match` of `tracks` on the verdict's text.
unfoldable pub verdict_of : String → Verdict
verdict_of s =
    if s == "agree"
    then Verdict.agree
    else (if s == "stuck"
        then Verdict.stuck
        else (if s == "missing"
            then Verdict.missing
            else (if s == "harvest_error" then Verdict.harvest_error else Verdict.pending)))

-- `ORDER BY updated_at DESC`
unfoldable pub newest_first : List Row → List Row
unfolding sort_by
newest_first = sort_by (λ a b. le_str b.updated_at a.updated_at)

module _ (from_str : String → List Observation ⊎ String) (parse_time : String → ℕ ⊎ String) where
  -- The loop of `tracks` over the rows.
  unfoldable pub tracks_of : List Row → Action (List ShadowTrack)
  unfolding verdict_of
  tracks_of [] = pure []
  tracks_of (r ∷ rows) = do
    observations ← or_raise (from_str r.observations_json) serialization
    updated_at ← or_raise (parse_time r.updated_at) serialization
    rest ← tracks_of rows
    pure (
        record {
          snapshot_id = r.snapshot_id;
          task_id = r.task_id;
          verdict = verdict_of r.verdict;
          observations = observations;
          detail = r.detail;
          updated_at = updated_at;
        }
        ∷ rest)

  unfoldable pub tracks : Action (List ShadowTrack)
  unfolding statement tracks_of newest_first
  tracks = do statement; λ d. tracks_of (newest_first d.rows) d

-- `SELECT verdict, COUNT(*) ... GROUP BY verdict`
unfoldable pub count_verdicts : List Row → HashMap ℕ
unfolding get insert
count_verdicts [] = []
count_verdicts (r ∷ rows) =
    let counts = count_verdicts rows in
    insert r.verdict (unwrap_or 0 (get r.verdict counts) + 1) counts

abbrev pub no_verdicts : VerdictCounts
no_verdicts = record { pending = 0; agree = 0; stuck = 0; missing = 0; harvest_error = 0 }

-- The `match` of `metrics_snapshot` on a group's verdict.
unfoldable pub set_count : String → ℕ → VerdictCounts → VerdictCounts
set_count verdict count m =
    if verdict == "pending"
    then record m { pending = count }
    else (if verdict == "agree"
        then record m { agree = count }
        else (if verdict == "stuck"
            then record m { stuck = count }
            else (if verdict == "missing"
                then record m { missing = count }
                else (if verdict == "harvest_error"
                    then record m { harvest_error = count }
                    else m))))

unfoldable pub set_counts : HashMap ℕ → VerdictCounts → VerdictCounts
unfolding set_count
set_counts [] m = m
set_counts ((verdict, count) ∷ counts) m = set_counts counts (set_count verdict count m)

-- `metrics_snapshot`, without the counters, which stand in the driver.
unfoldable pub metrics_snapshot : Action VerdictCounts
unfolding statement count_verdicts set_counts
metrics_snapshot = do statement; λ d. (ok (set_counts (count_verdicts d.rows) no_verdicts), d)

-- A verdict is read as it was recorded.
verdict_of-as_str : (v : Verdict) → verdict_of (as_str v) ≡ v
unfolding verdict_of as_str
verdict_of-as_str Verdict.pending = refl
verdict_of-as_str Verdict.agree = refl
verdict_of-as_str Verdict.stuck = refl
verdict_of-as_str Verdict.missing = refl
verdict_of-as_str Verdict.harvest_error = refl
