-- ===== src/Topics/Cleanup.antt =====
-- What a cleanup does to the sets of topics that the ledger and the broker stand for.
use roborock_mqtt_loxone.Common.{
  ◌≡◌, refl, sym, ◌∙◌, String, Bool, true, false, ◌&&◌, ◌||◌, not, some, List, [], ◌∷◌,
  if◌then◌else◌, str_eq, eq_iff, eq_refl, any_of, keep, trim_space, trim_space-trim_space,
  sort_strings, any_of-sort_by, str_le, arith,
}
use roborock_mqtt_loxone.Topics.{is_in}
use roborock_mqtt_loxone.Topics.Retained.{
  LedgerFile, holding, topic_set, new_ledger, reconcile, RetainingBroker, clear_all,
  cleanup_stale_retained_topics, retains-clear_all,
}

-- The topic is one of those, as they stand there or between spaces.
abbrev pub is_expected : List String → String → Bool
is_expected topics s = not (str_eq s "") && any_of (λ t. str_eq (trim_space t) s) topics

is_in-topic_set :
    (topics : List String) (s : String) → is_in s (topic_set topics) ≡ is_expected topics s
unfolding topic_set
is_in-topic_set [] s = ground arith
is_in-topic_set (t ∷ topics) s = ground (
  arith,
  is_in-topic_set topics s,
  eq_iff (trim_space t) s,
  eq_iff (trim_space t) "",
  eq_iff s "",
)

is_in-sort_strings :
    (s : String) (topics : List String) → is_in s (sort_strings topics) ≡ is_in s topics
unfolding sort_strings
is_in-sort_strings s topics = any_of-sort_by str_le (λ t. str_eq t s) topics

pub is_in-keep :
    (q : String → Bool) (s : String) (topics : List String)
    → is_in s (keep q topics) ≡ is_in s topics && q s
is_in-keep q s [] = ground arith
is_in-keep q s (t ∷ topics) = ground (arith, is_in-keep q s topics, eq_iff t s)

-- Each topic is trimmed and not empty, so that it is read back as it was written.
abbrev AreClean : List String → Type 0
AreClean topics = (s : String) → is_in s topics ≡ true → (trim_space s ≡ s) × (str_eq s "" ≡ false)

topic_set-AreClean : (topics : List String) → AreClean (topic_set topics)
unfolding topic_set
topic_set-AreClean [] s h = ground arith
topic_set-AreClean (t ∷ topics) s h = ground (
  arith,
  topic_set-AreClean topics s,
  trim_space-trim_space t,
  eq_iff (trim_space t) s,
  eq_iff (trim_space t) "",
  eq_iff s "",
)

any_of-AreClean :
    (topics : List String) (s : String)
    → AreClean topics
    → any_of (λ t. str_eq (trim_space t) s) topics ≡ is_in s topics
any_of-AreClean [] s clean = refl
any_of-AreClean (t ∷ topics) s clean =
    let here = (clean t (ground (arith, eq_refl t))).0 in
    ground (arith, here, any_of-AreClean topics s (λ u m. clean u (ground (arith, m))))

is_expected-AreClean :
    (topics : List String) (s : String) → AreClean topics → is_expected topics s ≡ is_in s topics
is_expected-AreClean topics s clean =
    ground (arith, any_of-AreClean topics s clean, λ (h : is_in s topics ≡ true). (clean s h).1)

-- A set of topics is read back from the file.
is_in-new_ledger :
    (topics : List String) (s : String)
    → is_in s (topic_set (sort_strings (topic_set topics))) ≡ is_expected topics s
is_in-new_ledger topics s =
    is_in-topic_set (sort_strings (topic_set topics)) s
    ∙ is_expected-AreClean (sort_strings (topic_set topics)) s
        (λ u m. topic_set-AreClean topics u (sym (is_in-sort_strings u (topic_set topics)) ∙ m))
    ∙ is_in-sort_strings s (topic_set topics)
    ∙ is_in-topic_set topics s

-- A ledger's set of topics before or after a cleanup, as a set.
abbrev pub spec_ledger : Bool → List String → (String → Bool) → String → Bool
spec_ledger disk_ok expected ledger s = if disk_ok then is_expected expected s else ledger s

-- The retained topics: those of the ledger that are no longer expected, and whose empty message was
-- delivered, are gone.
abbrev pub spec_retained :
    Bool → (String → Bool) → List String → (String → Bool) → (String → Bool) → String → Bool
spec_retained disk_ok delivered expected ledger retained s =
    if disk_ok
    then retained s && (is_expected expected s || not (ledger s) || not (delivered s))
    else retained s

module _ {S : Type 0} (broker : RetainingBroker S) where
  -- The file and the broker stand for a set of topics each.
  pub record Represents (file : LedgerFile) (b : S) (ledger retained : String → Bool) : Type 0 where
    pub topics : List String
    pub readable : new_ledger file ≡ some topics
    pub ledger_is : (s : String) → is_in s topics ≡ ledger s
    pub retained_is : (s : String) → broker.retains s b ≡ retained s

module _ {S : Type 0} (broker : RetainingBroker S) (delivered : String → Bool) where
  cleanup-readable :
      (disk_ok : Bool) (expected topics : List String) (file : LedgerFile) (b : S)
      → new_ledger file ≡ some topics
      → cleanup_stale_retained_topics broker delivered disk_ok expected file b ≡ (
          if disk_ok
          then (
            holding (sort_strings (topic_set expected)),
            clear_all broker delivered
                (sort_strings (keep (λ t. not (is_in t (topic_set expected))) topics))
                b,
          )
          else (file, b))
  unfolding cleanup_stale_retained_topics reconcile
  cleanup-readable false expected topics file b h = rw (h, cleanup_stale_retained_topics) refl
  cleanup-readable true expected topics file b h = rw (h, cleanup_stale_retained_topics) refl

  retains-stale :
      (expected topics : List String) (b : S) (s : String)
      → broker.retains s (
          clear_all broker delivered
            (sort_strings (keep (λ t. not (is_in t (topic_set expected))) topics))
            b)
        ≡ broker.retains s b
          && (is_expected expected s || not (is_in s topics) || not (delivered s))
  retains-stale expected topics b s =
      let gone = keep (λ t. not (is_in t (topic_set expected))) topics in
      ground (
        arith,
        retains-clear_all broker delivered s (sort_strings gone) b,
        is_in-sort_strings s gone,
        is_in-keep (λ t. not (is_in t (topic_set expected))) s topics,
        is_in-topic_set expected s,
      )

  -- The cleanup is an operation on two sets, whatever writes and publications succeed. From a file
  -- and a broker that stand for two sets it leads to those that stand for the sets that the
  -- operation gives: the ledger names the expected topics, and the retained topics have lost those
  -- that the ledger named, that are not expected and whose empty message was delivered. A stale
  -- topic whose message was not delivered stays, and is no longer named. Where the file cannot be
  -- written nothing changes.
  pub cleanup_stale_retained_topics-refines :
      (disk_ok : Bool) (expected : List String) (file : LedgerFile) (b : S)
      (ledger retained : String → Bool)
      → Represents broker file b ledger retained
      → let (file', b') = cleanup_stale_retained_topics broker delivered disk_ok expected file b in
        Represents broker file' b'
          (spec_ledger disk_ok expected ledger)
          (spec_retained disk_ok delivered expected ledger retained)
  unfolding new_ledger
  cleanup_stale_retained_topics-refines false expected file b ledger retained r =
      rw (cleanup-readable false expected r.topics file b r.readable) r
  cleanup_stale_retained_topics-refines true expected file b ledger retained r =
      rw (cleanup-readable true expected r.topics file b r.readable) (record {
        topics = topic_set (sort_strings (topic_set expected));
        readable = refl;
        ledger_is = is_in-new_ledger expected;
        retained_is =
            λ s. retains-stale expected r.topics b s ∙ rw (r.retained_is s, r.ledger_is s) refl;
      })
