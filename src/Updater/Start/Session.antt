-- ===== src/Updater/Start/Session.antt =====
-- A session of requests: an accepted request id is refused again while it is among the last fifty.
use mathlib.Core.List.{append_assoc}
use native.Mathlib.Decide.{dec_lt}
use roborock_mqtt_loxone.Common.{
  ℕ, suc, ◌+◌, ◌≤◌, ◌<◌, ◌≡◌, ◌≢◌, inl, inr, refl, ap, ◌∙◌, String, Bool, true, false, none, List,
  [], ◌∷◌, ◌++◌, arith, eq_refl, find, is_some, length, Option-cases,
}
use roborock_mqtt_loxone.Updater.Operation.{Operation, Request}
use roborock_mqtt_loxone.Updater.Service.{Result, Service, Files}
use roborock_mqtt_loxone.Updater.Start.{clean, remember, start}
use roborock_mqtt_loxone.Updater.Start.Replay.{
  IsConsistent, contains, length-snoc, start_error_unchanged, start_accepts_iff, start_accepted,
  start-IsConsistent, remember_room, remember_full, transport-IsConsistent,
}

-- A request with the time and the state of the disk, or a step of a running update, which changes
-- the operation, the flag and the files in whatever way.
pub data Event : Type 0 where
  asked : Bool → ℕ → Request → Event
  changed : Operation → Bool → Files → Event

module _ (target : String → Result String) where
  abbrev pub react : Event → Service → Service
  react (asked disk_ok now request) s = (start target disk_ok now request s).1
  react (changed o running files) s = record s { operation = o; running = running; files = files }

  unfoldable pub session : List Event → Service → Service
  session [] s = s
  session (e ∷ es) s = session es (react e s)

-- How many requests a session makes.
abbrev pub requests : List Event → ℕ
requests [] = 0
requests (asked disk_ok now request ∷ es) = suc (requests es)
requests (changed o running files ∷ es) = requests es

-- At most `k` ids were remembered after `id`.
record Since (id : String) (k : ℕ) (s : Service) : Type 0 where
  before : List String
  after : List String
  split : s.used_ids ≡ before ++ id ∷ after
  few : length after ≤ k

contains-middle : (xs ys : List String) (id : String) → contains (xs ++ id ∷ ys) id ≡ true
contains-middle [] ys id = rw (eq_refl id)
contains-middle (x ∷ xs) ys id = ground (arith, contains-middle xs ys id)

remember-Since :
    (id j : String) (k : ℕ) (s : Service)
    → IsConsistent s
    → contains s.used_ids j ≡ false
    → k < 49
    → Since id k s
    → Since id (k + 1) (remember j s)
remember-Since id j k s h new room old = go old.before old.split
  where
    appended :
        (xs : List String) → (xs ++ id ∷ old.after) ++ j ∷ [] ≡ xs ++ id ∷ (old.after ++ j ∷ [])
    appended xs = append_assoc xs (id ∷ old.after) (j ∷ [])

    more : length (old.after ++ j ∷ []) ≤ k + 1
    more = omega (arith, length-snoc old.after j, old.few)

    roomy :
        (xs : List String)
        → s.used_ids ≡ xs ++ id ∷ old.after
        → length s.used_ids < 50
        → Since id (k + 1) (remember j s)
    roomy xs e few = record {
      before = xs;
      after = old.after ++ j ∷ [];
      split = (remember_room j s h new few).0 ∙ ap (λ l. l ++ j ∷ []) e ∙ appended xs;
      few = more;
    }

    go : (xs : List String) → s.used_ids ≡ xs ++ id ∷ old.after → Since id (k + 1) (remember j s)
    go [] e = roomy [] e (rw e (omega (arith, old.few)))
    go (x ∷ xs) e = elim (dec_lt (length s.used_ids) 50) [
      | yes few ↦ roomy (x ∷ xs) e few
      | no full ↦
          let size : length s.used_ids ≡ suc (length (xs ++ id ∷ old.after)) = rw e in
          record {
            before = xs;
            after = old.after ++ j ∷ [];
            split =
                (remember_full j s h new x (xs ++ id ∷ old.after) e (omega (arith, h.few))).0
                ∙ appended xs;
            few = more;
          }
    ]

weaken-Since :
    (id : String) (k n : ℕ) (s t : Service)
    → t.used_ids ≡ s.used_ids
    → k ≤ n
    → Since id k s
    → Since id n t
weaken-Since id k n s t same le h = record {
  before = h.before;
  after = h.after;
  split = same ∙ h.split;
  few = omega (arith, h.few);
}

-- An accepted request's own id is the last one remembered.
first-Since :
    (id : String) (s t : Service)
    → t.used_ids ≡ (remember id s).used_ids
    → IsConsistent s
    → contains s.used_ids id ≡ false
    → Since id 0 t
first-Since id s t same h new = go s.used_ids refl
  where
    last : (xs : List String) → t.used_ids ≡ xs ++ id ∷ [] → Since id 0 t
    last xs e = record { before = xs; after = []; split = e; few = omega arith }

    go : (ids : List String) → s.used_ids ≡ ids → Since id 0 t
    go [] e =
        last []
          (same ∙ ((remember_room id s h new (rw e (omega arith))).0 ∙ ap (λ l. l ++ id ∷ []) e))
    go (x ∷ xs) e = elim (dec_lt (length s.used_ids) 50) [
      | yes few ↦
          last (x ∷ xs) (same ∙ ((remember_room id s h new few).0 ∙ ap (λ l. l ++ id ∷ []) e))
      | no full ↦
          let size : length s.used_ids ≡ suc (length xs) = rw e in
          last xs (same ∙ (remember_full id s h new x xs e (omega (arith, h.few))).0)
    ]

module _ (target : String → Result String) where
  asked-Since :
      (id : String) (k : ℕ) (disk_ok : Bool) (now : ℕ) (request : Request) (s : Service)
      → IsConsistent s
      → k < 49
      → Since id k s
      → Since id (k + 1) (start target disk_ok now request s).1
  asked-Since id k disk_ok now request s h room old =
      elim (Option-cases (start target disk_ok now request s).0.1) [
        | inl taken ↦
            let (going, ids, set) = start_accepted target disk_ok now request s taken in
            let fine = (start_accepts_iff target disk_ok now request s).0 taken in
            let j = (clean request).request_id in
            weaken-Since id (k + 1) (k + 1) (remember j s) (start target disk_ok now request s).1
              ids (omega arith)
              (remember-Since id j k s h (ground (arith, h.agrees j, fine.2)) room old)
        | inr refused ↦
            weaken-Since id k (k + 1) s (start target disk_ok now request s).1
              (ap (λ (x : Service). x.used_ids)
                (start_error_unchanged target disk_ok now request s refused.1))
              (omega arith) old
      ]

  session-contains :
      (id : String) (k : ℕ) (es : List Event) (s : Service)
      → IsConsistent s
      → Since id k s
      → k + requests es ≤ 49
      → is_some (find id (session target es s).used_set) ≡ true
  unfolding session
  session-contains id k [] s h old room =
      h.agrees id
      ∙ (ap (λ ids. contains ids id) old.split ∙ contains-middle old.before old.after id)
  session-contains id k (asked disk_ok now request ∷ es) s h old room =
      session-contains id (k + 1) es (start target disk_ok now request s).1
        (start-IsConsistent target disk_ok now request s h)
        (asked-Since id k disk_ok now request s h (omega arith) old) (omega arith)
  session-contains id k (changed o running files ∷ es) s h old room =
      session-contains id k es (record s { operation = o; running = running; files = files })
        (transport-IsConsistent (record s { operation = o; running = running; files = files }) s
          refl refl h)
        (weaken-Since id k k s (record s { operation = o; running = running; files = files }) refl
          (omega arith) old)
        room

  -- After a request is accepted, and whatever at most 49 further requests and the running updates
  -- do, a request with the same id is refused.
  pub replay_refused :
      (disk_ok disk_ok' : Bool) (now now' : ℕ) (first again : Request) (es : List Event)
      (s : Service)
      → IsConsistent s
      → (start target disk_ok now first s).0.1 ≡ none
      → requests es ≤ 49
      → (clean again).request_id ≡ (clean first).request_id
      → (start target disk_ok' now' again
          (session target es (start target disk_ok now first s).1)).0.1
        ≢ none
  replay_refused disk_ok disk_ok' now now' first again es s h taken room same accepted =
      let id = (clean first).request_id in
      let (going, ids, set) = start_accepted target disk_ok now first s taken in
      let s' = (start target disk_ok now first s).1 in
      let h' : IsConsistent s' = start-IsConsistent target disk_ok now first s h in
      let fine = (start_accepts_iff target disk_ok now first s).0 taken in
      let known =
        session-contains id 0 es s' h'
          (first-Since id s s' ids h (ground (arith, h.agrees id, fine.2))) (omega arith) in
      let used =
        ((start_accepts_iff target disk_ok' now' again (session target es s')).0 accepted).2 in
      ground (arith, known, used, ap (λ x. is_some (find x (session target es s').used_set)) same)
