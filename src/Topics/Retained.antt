-- ===== src/Topics/Retained.antt =====
-- The retained topics of the bridge: RetainedTopicLedger of app/roborock/retained_topics.go, with
-- expectedRetainedTopics and cleanupStaleRetainedTopics of app/main.go. The broker is a parameter.
use roborock_mqtt_loxone.Common.{
  ◌≡◌, String, Bool, false, ◌&&◌, not, Option, none, some, List, [], ◌∷◌, if◌then◌else◌, str_eq,
  eq_iff, keep, trim_space, sort_strings, arith,
}
use roborock_mqtt_loxone.Topics.{is_in}

-- What a run finds in place of the ledger's file.
pub data LedgerFile : Type 0 where
  absent : LedgerFile
  unreadable : LedgerFile
  malformed : LedgerFile
  holding : List String → LedgerFile

-- The loop that trims topics, leaves out the empty ones, and puts the others into a set.
unfoldable pub topic_set : List String → List String
unfolding trim_space
topic_set [] = []
topic_set (topic ∷ topics) =
    let rest = topic_set topics in
    let t = trim_space topic in
    if str_eq t "" then rest else if is_in t rest then rest else t ∷ rest

-- `NewRetainedTopicLedger`: `none` for an error.
unfoldable pub new_ledger : LedgerFile → Option (List String)
unfolding topic_set
new_ledger absent = some []
new_ledger unreadable = none
new_ledger malformed = none
new_ledger (holding topics) = some (topic_set topics)

-- `Reconcile`: the stale topics or `none` for an error, the set held, and the file's new content.
unfoldable pub reconcile : Bool → List String → List String → Option (List String) × List String
unfolding topic_set sort_strings
reconcile disk_ok expected topics =
    let next = topic_set expected in
    let stale = sort_strings (keep (λ t. not (is_in t next)) topics) in
    if disk_ok then (some stale, next) else (none, topics)

-- A broker of retained messages.
pub record RetainingBroker (S : Type 0) : Type 0 where
  -- There is a retained message under the topic.
  pub retains : String → S → Bool
  -- A publication of "" under the topic, retained, that the broker receives.
  pub clear : String → S → S
  -- An empty retained payload removes the topic's message, and no other.
  pub retains-clear :
      (s t : String) (b : S) → retains s (clear t b) ≡ (if str_eq t s then false else retains s b)

-- `delivered` tells the topics whose publication succeeds in the client.
module _ {S : Type 0} (broker : RetainingBroker S) (delivered : String → Bool) where
  -- publishLocalMQTT(topic, "", true), which only logs an error.
  unfoldable pub publish_empty : String → S → S
  publish_empty t b = if delivered t then broker.clear t b else b

  unfoldable pub clear_all : List String → S → S
  unfolding publish_empty
  clear_all [] b = b
  clear_all (t ∷ topics) b = clear_all topics (publish_empty t b)

  -- `cleanupStaleRetainedTopics`, where MQTT is in use: the file and the broker after it.
  unfoldable pub cleanup_stale_retained_topics :
      Bool → List String → LedgerFile → S → LedgerFile × S
  unfolding new_ledger reconcile clear_all sort_strings
  cleanup_stale_retained_topics disk_ok expected file b = elim (new_ledger file) [
    | none ↦ (file, b)
    | some topics ↦
        let (answer, next) = reconcile disk_ok expected topics in
        elim answer [
          | none ↦ (file, b)
          | some stale ↦ (holding (sort_strings next), clear_all stale b)
        ]
  ]

  pub retains-clear_all :
      (s : String) (topics : List String) (b : S)
      → broker.retains s (clear_all topics b)
        ≡ broker.retains s b && not (is_in s topics && delivered s)
  unfolding clear_all publish_empty
  retains-clear_all s [] b = ground arith
  retains-clear_all s (t ∷ topics) b = ground (
    arith,
    retains-clear_all s topics (publish_empty t b),
    broker.retains-clear s t b,
    eq_iff t s,
  )

-- The topics that a file names.
abbrev pub topics_in : LedgerFile → List String
topics_in absent = []
topics_in unreadable = []
topics_in malformed = []
topics_in (holding topics) = topics
