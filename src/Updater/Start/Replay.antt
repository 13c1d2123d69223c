-- ===== src/Updater/Start/Replay.antt =====
-- `Start` refuses without a change, accepts exactly sound requests, and does not accept a request
-- id again.
use native.Mathlib.Decide.{dec_lt}
use roborock_mqtt_loxone.Common.{
  ℕ, ◌+◌, ◌≤◌, ◌<◌, ◌≡◌, ◌↔◌, inl, inr, refl, String, Bool, true, false, none, some, List, [], ◌∷◌,
  ◌++◌, ◌&&◌, ◌||◌, not, arith, str_eq, eq_iff, find, put, remove, find-put, find-remove, is_some,
  any_of, length, length-append, Option-cases,
}
use roborock_mqtt_loxone.Updater.Operation.{Request}
use roborock_mqtt_loxone.Updater.Service.{Result, ok, err, Service}
use roborock_mqtt_loxone.Updater.Start.{clean, reject, remember, begin, start}

module _ (target : String → Result String) (disk_ok : Bool) (now : ℕ) (request : Request)
    (s : Service) where
  -- A request that `Start` refuses leaves the service as it was.
  pub start_error_unchanged :
      {message : String}
      → (start target disk_ok now request s).0.1 ≡ some message
      → (start target disk_ok now request s).1 ≡ s
  unfolding start begin
  start_error_unchanged h = ground arith

  -- What `Start` asks of a request.
  abbrev pub IsAcceptable : Type 0
  IsAcceptable =
      (reject (clean request) ≡ none)
      × (s.running ≡ false)
      × (is_some (find (clean request).request_id s.used_set) ≡ false)
      × (artifact : String) × (target (clean request).tag ≡ ok artifact)

  accepts→IsAcceptable :
      (r : Result String)
      → target (clean request).tag ≡ r
      → (start target disk_ok now request s).0.1 ≡ none
      → IsAcceptable
  unfolding start begin
  accepts→IsAcceptable (ok artifact) e h = (ground arith, ground arith, ground arith, artifact, e)
  accepts→IsAcceptable (err message) e h = absurd (ground arith)

  IsAcceptable→accepts : IsAcceptable → (start target disk_ok now request s).0.1 ≡ none
  unfolding start begin
  IsAcceptable→accepts h = ground arith

  -- `Start` accepts exactly the requests whose cleaned fields pass every check, while no update
  -- runs, with an id not in the set of used ones and a target that can be named.
  pub start_accepts_iff : ((start target disk_ok now request s).0.1 ≡ none) ↔ IsAcceptable
  start_accepts_iff = (accepts→IsAcceptable (target (clean request).tag) refl, IsAcceptable→accepts)

  -- What an accepted request leaves: its operation, a running service, its id remembered.
  pub start_accepted :
      (start target disk_ok now request s).0.1 ≡ none
      → let s' = (start target disk_ok now request s).1 in
        let m = remember (clean request).request_id s in
        (s'.running ≡ true) × (s'.used_ids ≡ m.used_ids) × (s'.used_set ≡ m.used_set)
  unfolding start begin remember
  start_accepted h = ground arith

abbrev pub contains : List String → String → Bool
contains ids id = any_of (λ x. str_eq x id) ids

abbrev distinct : List String → Bool
distinct [] = true
distinct (x ∷ xs) = not (contains xs x) && distinct xs

-- The list of used ids and the set say the same, and neither grows beyond fifty.
pub record IsConsistent (s : Service) : Type 0 where
  pub few : length s.used_ids ≤ 50
  pub once : distinct s.used_ids ≡ true
  pub agrees : (id : String) → is_some (find id s.used_set) ≡ contains s.used_ids id

pub contains-append :
    (xs : List String) (y id : String) → contains (xs ++ y ∷ []) id ≡ contains xs id || str_eq y id
contains-append [] y id = ground arith
contains-append (x ∷ xs) y id = ground (arith, contains-append xs y id)

distinct-append :
    (xs : List String) (y : String)
    → contains xs y ≡ false
    → distinct xs ≡ true
    → distinct (xs ++ y ∷ []) ≡ true
distinct-append [] y new h = refl
distinct-append (x ∷ xs) y new h =
    ground (arith, contains-append xs y x, eq_iff y x, eq_iff x y, distinct-append xs y)

pub length-snoc : (xs : List String) (y : String) → length (xs ++ y ∷ []) ≡ length xs + 1
length-snoc xs y = length-append xs (y ∷ [])

module _ (id : String) (s : Service) (old : IsConsistent s)
    (new : contains s.used_ids id ≡ false) where
  pub remember_room :
      length s.used_ids < 50
      → ((remember id s).used_ids ≡ s.used_ids ++ id ∷ [])
        × ((remember id s).used_set ≡ put id tt s.used_set)
  unfolding remember
  remember_room h = ground (arith, length-snoc s.used_ids id)

  pub remember_full :
      (first : String) (rest : List String)
      → s.used_ids ≡ first ∷ rest
      → length rest ≡ 49
      → ((remember id s).used_ids ≡ rest ++ id ∷ [])
        × ((remember id s).used_set ≡ put id tt (remove first s.used_set))
  unfolding remember
  remember_full first rest e h = rw (e, length-snoc rest id, h) (refl, refl)

  room-IsConsistent : length s.used_ids < 50 → IsConsistent (remember id s)
  room-IsConsistent h =
      let (ids, set) = remember_room h in
      record {
        few = rw ids (omega (arith, length-snoc s.used_ids id));
        once = rw ids (distinct-append s.used_ids id new old.once);
        agrees = λ j.
            rw (ids, set, find-put, contains-append s.used_ids id j)
              (ground (arith, old.agrees j, eq_iff id j));
      }

  full-IsConsistent :
      (first : String) (rest : List String)
      → s.used_ids ≡ first ∷ rest
      → length rest ≡ 49
      → IsConsistent (remember id s)
  full-IsConsistent first rest e h =
      let (ids, set) = remember_full first rest e h in
      let once : distinct (first ∷ rest) ≡ true = rw e at old.once in
      let fresh : contains (first ∷ rest) id ≡ false = rw e at new in
      record {
        few = rw ids (omega (arith, length-snoc rest id));
        once = rw ids (distinct-append rest id (ground arith) (ground arith));
        agrees = λ j.
            let known : is_some (find j s.used_set) ≡ contains (first ∷ rest) j =
              rw e at old.agrees j in
            rw (ids, set, find-put, find-remove, contains-append rest id j)
              (ground (arith, known, once, eq_iff id j, eq_iff first j));
      }

  -- Remembering a new id keeps the list and the set of used ids in step.
  remember-IsConsistent : IsConsistent (remember id s)
  remember-IsConsistent = go s.used_ids refl
    where
      go : (ids : List String) → s.used_ids ≡ ids → IsConsistent (remember id s)
      go [] e = room-IsConsistent (rw e (omega arith))
      go (first ∷ rest) e = elim (dec_lt (length rest) 49) [
        | yes p ↦ room-IsConsistent (rw e (omega arith))
        | no p ↦
            let few : length (first ∷ rest) ≤ 50 = rw e at old.few in
            full-IsConsistent first rest e (omega arith)
      ]

pub transport-IsConsistent :
    (a b : Service)
    → a.used_ids ≡ b.used_ids
    → a.used_set ≡ b.used_set
    → IsConsistent b
    → IsConsistent a
transport-IsConsistent a b ids set h = record {
  few = rw ids h.few;
  once = rw ids h.once;
  agrees = λ id. rw (ids, set) (h.agrees id);
}

-- `Start`, refused or not, keeps the list of used ids and the set in step, each id once and at most
-- fifty of them.
pub start-IsConsistent :
    (target : String → Result String) (disk_ok : Bool) (now : ℕ) (request : Request) (s : Service)
    → IsConsistent s
    → IsConsistent (start target disk_ok now request s).1
start-IsConsistent target disk_ok now request s h =
    elim (Option-cases (start target disk_ok now request s).0.1) [
      | inl taken ↦
          let (going, ids, set) = start_accepted target disk_ok now request s taken in
          let ok = (start_accepts_iff target disk_ok now request s).0 taken in
          let id = (clean request).request_id in
          transport-IsConsistent (start target disk_ok now request s).1 (remember id s) ids set
            (remember-IsConsistent id s h (ground (arith, h.agrees id, ok.2)))
      | inr refused ↦ rw (start_error_unchanged target disk_ok now request s refused.1) h
    ]
