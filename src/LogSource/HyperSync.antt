-- ===== src/LogSource/HyperSync.antt =====
-- `getLogs` of apps/indexer/src/sources/hypersync.ts, from the answer of the service on. `none` stands
-- for `undefined`, and an empty text for a topic that is `null` or left out.
use stunks.Prelude.{
  ℕ, ◌-◌, not, Option, none, some, List, [], ◌∷◌, ◌++◌, ltb, if◌then◌else◌, filter_by,
}
use stunks.Prelude.Text.{Text}
use stunks.ScanState.{Fetch, batch}
use stunks.LogSource.{RawLog, LogQuery, matches_topics, is_empty}

pub record HyperSyncLog : Type 0 where
  pub block_number : Option ℕ
  pub block_hash : Option Text
  pub transaction_hash : Option Text
  pub log_index : Option ℕ
  pub address : Option Text
  pub log_data : Option Text
  pub topics : List Text  -- `topic0` to `topic3`

pub record HyperSyncResponse : Type 0 where
  pub pages : List (List HyperSyncLog)  -- `data`, and the `logs` of each page, or none
  pub next_block : Option ℕ

abbrev or_empty : Option Text → Text
or_empty none = b'0' ∷ b'x' ∷ []
or_empty (some t) = t

abbrev full_log :
    HyperSyncLog
    → List Text
    → Option ℕ
    → Option Text
    → Option ℕ
    → Option Text
    → Option Text
    → List RawLog
full_log log topics (some number) (some transaction) (some index) (some address) (some hash) =
    record {
      address = address;
      topics = topics;
      log_data = or_empty log.log_data;
      block_number = number;
      block_hash = hash;
      transaction_hash = transaction;
      log_index = index;
    }
    ∷ []
full_log log topics _ _ _ _ _ = []

unfoldable pub hyper_log : Option (List Text) → HyperSyncLog → List RawLog
unfolding matches_topics
hyper_log topics0 log =
    let topics = filter_by (λ t. not (is_empty t)) log.topics in
    if matches_topics topics0 topics
    then full_log log topics log.block_number log.transaction_hash log.log_index log.address
        log.block_hash
    else []

unfoldable pub page_logs : Option (List Text) → List HyperSyncLog → List RawLog
unfolding hyper_log
page_logs topics0 [] = []
page_logs topics0 (log ∷ logs) = hyper_log topics0 log ++ page_logs topics0 logs

unfoldable pub all_logs : Option (List Text) → List (List HyperSyncLog) → List RawLog
unfolding page_logs
all_logs topics0 [] = []
all_logs topics0 (page ∷ pages) = page_logs topics0 page ++ all_logs topics0 pages

unfoldable pub reached : Option ℕ → LogQuery → ℕ
reached none query = query.to_block
reached (some next_block) query =
    if ltb query.from_block next_block then next_block - 1 else query.to_block

unfoldable pub get_hyper_logs : LogQuery → HyperSyncResponse → Fetch RawLog
unfolding all_logs reached
get_hyper_logs query payload =
    let last = reached payload.next_block query in
    batch (all_logs query.topics0 payload.pages)
      (if ltb last query.to_block then last else query.to_block)
