-- ===== src/Updater/Server/RateLimit.antt =====
-- The rate limit of the update server, over any sequence of requests in the order of time.
use roborock_mqtt_loxone.Common.{
  ℕ, ◌≤◌, ◌≡◌, refl, sym, ap, subst, ◌∙◌, String, Bool, true, false, Option, none, some, List, [],
  ◌∷◌, ◌++◌, if◌then◌else◌, leb, length, keep, keep-append, keep-keep, length-keep-le,
  length-append, Bool-cases, inl, inr, arith, if-both, has_part, ◌||◌,
}
use mathlib.Core.List.{append-nil, append_assoc}
use roborock_mqtt_loxone.Updater.Operation.{Operation, Request}
use roborock_mqtt_loxone.Updater.Service.{Result, Service}
use roborock_mqtt_loxone.Updater.Start.{start}
use roborock_mqtt_loxone.Updater.Server.{
  Server, new_server, Post, Status, live, unauthorized, too_many_requests, authorized, start_body,
  rate_limit, post_update, reply_status, error_status,
}

-- The request passed the limiter.
abbrev pub is_let_in : Status → Bool
is_let_in unauthorized = false
is_let_in too_many_requests = false
is_let_in _ = true

-- A request, and what the running update has done to the service before it.
pub record Visit : Type 0 where
  pub post : Post
  pub meanwhile : Service → Service

-- The visits follow one another from `start` to `end`.
abbrev pub InOrder : ℕ → ℕ → List Visit → Type 0
InOrder start end [] = start ≤ end
InOrder start end (v ∷ rest) = (start ≤ v.post.now) × InOrder v.post.now end rest

InOrder-le : (start end : ℕ) (visits : List Visit) → InOrder start end visits → start ≤ end
InOrder-le start end [] h = h
InOrder-le start end (v ∷ rest) h = omega (arith, InOrder-le v.post.now end rest h.1)

abbrev pub after : Visit → Server → Server
after v s = record s { service = v.meanwhile s.service }

new_server-empty :
    (service : Service) (token : String) (maximum window : ℕ) (s : Server)
    → new_server service token maximum window ≡ some s
    → s.requests ≡ []
unfolding new_server
new_server-empty service token maximum window s h = ground arith

module _ (target_artifact : String → Result String) where
  -- The times of the requests that pass, and the server after them.
  unfoldable pub serve : List Visit → Server → List ℕ × Server
  unfolding post_update
  serve [] s = ([], s)
  serve (v ∷ rest) s =
      let (status, s') = post_update target_artifact v.post (after v s) in
      let (times, s'') = serve rest s' in
      ((if is_let_in status then v.post.now ∷ [] else []) ++ times, s'')

  is_let_in-error : (message : String) → is_let_in (error_status message) ≡ true
  unfolding error_status
  is_let_in-error message =
      if-both (λ status. is_let_in status ≡ true)
        (has_part message "already" || has_part message "running") Status.conflict
        Status.bad_request refl refl

  is_let_in-reply :
      (reply : Option Operation × Option String) → is_let_in (reply_status reply) ≡ true
  is_let_in-reply (operation, none) = refl
  is_let_in-reply (operation, some message) = is_let_in-error message

  -- The limits of the server stay as they are.
  record Same (s s' : Server) : Type 0 where
    same_maximum : s'.maximum ≡ s.maximum
    same_window : s'.window ≡ s.window

  start_body-let_in :
      (body : Option Request) (r : Post) (s : Server)
      → (is_let_in (start_body target_artifact body r s).0 ≡ true)
        × ((start_body target_artifact body r s).1.requests ≡ s.requests)
        × Same s (start_body target_artifact body r s).1
  unfolding start_body
  start_body-let_in none r s = (refl, refl, record { same_maximum = refl; same_window = refl })
  start_body-let_in (some request) r s = (
    is_let_in-reply (start target_artifact r.disk_ok r.now request s.service).0,
    refl,
    record { same_maximum = refl; same_window = refl },
  )

  -- One request: what passes is added to the requests that count at any later time.
  record Counts (r : Post) (s : Server) (m : ℕ) (q : Status × Server) : Type 0 where
    counted :
        keep (live s.window m) q.1.requests
        ≡ keep (live s.window m) (s.requests ++ (if is_let_in q.0 then r.now ∷ [] else []))
    bounded : length q.1.requests ≤ s.maximum
    same : Same s q.1

  keep-live :
      (w now m : ℕ) (xs : List ℕ)
      → now ≤ m
      → keep (live w m) (keep (live w now) xs) ≡ keep (live w m) xs
  keep-live w now m xs h = keep-keep (live w m) (live w now) xs (λ x k. ground arith)

  rate_limit-Counts :
      (r : Post) (s : Server) (m : ℕ)
      → r.now ≤ m
      → length s.requests ≤ s.maximum
      → Counts r s m (rate_limit target_artifact r s)
  unfolding rate_limit
  rate_limit-Counts r s m h fits =
      let w = s.window in
      let kept = keep (live w r.now) s.requests in
      let again = keep-live w r.now m s.requests h in
      let s2 : Server = record s { requests = kept ++ r.now ∷ [] } in
      let (let_in, requests, same) = start_body-let_in r.body r s2 in
      let full : Counts r s m (too_many_requests, record s { requests = kept }) = record {
        counted = again ∙ ap (keep (live w m)) (sym (append-nil s.requests));
        bounded = omega (arith, length-keep-le (live w r.now) s.requests);
        same = record { same_maximum = refl; same_window = refl };
      } in
      elim (Bool-cases (leb s.maximum (length kept))) [
        | inl over ↦ rw over full
        | inr under ↦ rw under (record {
          counted =
              ap (keep (live w m)) requests
              ∙ keep-append (live w m) kept (r.now ∷ [])
              ∙ ap (λ xs. xs ++ keep (live w m) (r.now ∷ [])) again
              ∙ sym (keep-append (live w m) s.requests (r.now ∷ []))
              ∙ ap (λ b. keep (live w m) (s.requests ++ (if b then r.now ∷ [] else [])))
                  (sym let_in);
          bounded =
              subst (λ xs. length xs ≤ s.maximum) (sym requests)
                (ground (arith, length-append kept (r.now ∷ [])));
          same = record { same_maximum = same.same_maximum; same_window = same.same_window };
        })
      ]

  post_update-Counts :
      (r : Post) (s : Server) (m : ℕ)
      → r.now ≤ m
      → length s.requests ≤ s.maximum
      → Counts r s m (post_update target_artifact r s)
  unfolding post_update
  post_update-Counts r s m h fits =
      if-both (Counts r s m) (authorized s.token r.authorization) (rate_limit target_artifact r s)
        (unauthorized, s) (rate_limit-Counts r s m h fits)
        (record {
          counted = ap (keep (live s.window m)) (sym (append-nil s.requests));
          bounded = fits;
          same = record { same_maximum = refl; same_window = refl };
        })

  serve-Counts :
      (visits : List Visit) (s : Server) (start m : ℕ)
      → InOrder start m visits
      → length s.requests ≤ s.maximum
      → (let (times, s') = serve visits s in
          (keep (live s.window m) s'.requests ≡ keep (live s.window m) (s.requests ++ times))
          × (length s'.requests ≤ s.maximum))
  unfolding serve
  serve-Counts [] s start m order fits =
      (ap (keep (live s.window m)) (sym (append-nil s.requests)), fits)
  serve-Counts (v ∷ rest) s start m order fits =
      let (status, s1) = post_update target_artifact v.post (after v s) in
      let one =
        post_update-Counts v.post (after v s) m (InOrder-le v.post.now m rest order.1) fits in
      let here = if is_let_in status then v.post.now ∷ [] else [] in
      let (times, s2) = serve rest s1 in
      let (kept, bounded) =
        serve-Counts rest s1 v.post.now m order.1
          (omega (arith, one.bounded, one.same.same_maximum)) in
      let w = s.window in
      let kept' : keep (live w m) s2.requests ≡ keep (live w m) (s1.requests ++ times) =
        subst (λ u. keep (live u m) s2.requests ≡ keep (live u m) (s1.requests ++ times))
          one.same.same_window kept in
      (
        kept'
            ∙ keep-append (live w m) s1.requests times
            ∙ ap (λ xs. xs ++ keep (live w m) times) one.counted
            ∙ sym (keep-append (live w m) (s.requests ++ here) times)
            ∙ ap (keep (live w m)) (append_assoc s.requests here times),
        omega (arith, bounded, one.same.same_maximum),
      )

  -- Whatever requests come in the order of time, and whatever the running update does between them,
  -- a new server lets in at most `maximum` of them within the window that ends at `now`.
  pub let_in_budget :
      (service : Service) (token : String) (maximum window : ℕ) (s : Server)
      → (visits : List Visit) (now : ℕ) → new_server service token maximum window ≡ some s
      → InOrder 0 now visits
      → length (keep (live s.window now) (serve visits s).0) ≤ s.maximum
  let_in_budget service token maximum window s visits now made order =
      let empty = new_server-empty service token maximum window s made in
      let (counted, bounded) = serve-Counts visits s 0 now order (omega (arith, ap length empty)) in
      let s' = (serve visits s).1 in
      subst (λ xs. length xs ≤ s.maximum)
        (counted ∙ ap (λ xs. keep (live s.window now) (xs ++ (serve visits s).0)) empty)
        (omega (arith, bounded, length-keep-le (live s.window now) s'.requests))
