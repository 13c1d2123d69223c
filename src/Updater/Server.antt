-- ===== src/Updater/Server.antt =====
-- app/updater/server.go: the HTTP server of the update service. A handler is a function from the
-- request to the status that it writes; the JSON of a body is decoded by the standard library, whose
-- answer is the field `body`.
pub mod RateLimit
pub mod Examples
use roborock_mqtt_loxone.Common.{
  ℕ, ◌+◌, String, Bool, true, false, ◌&&◌, ◌||◌, not, Option, none, some, List, [], ◌∷◌, ◌++◌,
  if◌then◌else◌, ltb, leb, ◌==◌, str_eq, length, keep, trim_space, has_part, trim_prefix,
}
use Prim.Native.String.{len}
use roborock_mqtt_loxone.Updater.Operation.{Request, Operation}
use roborock_mqtt_loxone.Updater.Service.{Result, Service}
use roborock_mqtt_loxone.Updater.Start.{start}

pub record Server : Type 0 where
  pub service : Service
  pub token : String
  pub requests : List ℕ
  pub maximum : ℕ
  pub window : ℕ

abbrev pub hour : ℕ
hour = 3600000000000

-- `NewServer`; `none` is its error. A limit that is not positive is 0 here.
unfoldable pub new_server : Service → String → ℕ → ℕ → Option Server
unfolding trim_space
new_server service token maximum window =
    if ltb (len (trim_space token)) 32
    then none
    else some (record {
      service = service;
      token = trim_space token;
      requests = [];
      maximum = if maximum == 0 then 3 else maximum;
      window = if window == 0 then hour else window;
    })

-- The status codes that the handlers write.
pub data Status : Type 0 where
  status_ok accepted bad_request unauthorized conflict too_many_requests : Status

-- A POST of /v1/updates: its Authorization header, the decoded body, and the time.
pub record Post : Type 0 where
  pub authorization : String
  pub body : Option Request
  pub now : ℕ
  pub disk_ok : Bool

-- The test of `auth`.
unfoldable pub authorized : String → String → Bool
authorized token header =
    let provided = trim_prefix "Bearer " header in
    len provided == len token && str_eq provided token

-- `request.After(now.Add(-s.window))`, with the subtraction moved to the other side.
abbrev pub live : ℕ → ℕ → ℕ → Bool
live window now request = ltb now (request + window)

-- The status of an error of `Service.Start`.
unfoldable pub error_status : String → Status
unfolding has_part
error_status message =
    if has_part message "already" || has_part message "running" then conflict else bad_request

-- The status of what `Service.Start` returns.
abbrev pub reply_status : Option Operation × Option String → Status
reply_status (operation, none) = accepted
reply_status (operation, some message) = error_status message

module _ (target_artifact : String → Result String) where
  -- `start`, over the decoded body; `none` for one that does not decode.
  unfoldable pub start_body : Option Request → Post → Server → Status × Server
  unfolding start error_status
  start_body none r s = (bad_request, s)
  start_body (some request) r s =
      let (reply, service) = start target_artifact r.disk_ok r.now request s.service in
      (reply_status reply, record s { service = service })

  abbrev pub post_start : Post → Server → Status × Server
  post_start r s = start_body r.body r s

  -- `rateLimit` around `start`
  unfoldable pub rate_limit : Post → Server → Status × Server
  unfolding start_body
  rate_limit r s =
      let kept = keep (live s.window r.now) s.requests in
      let s1 : Server = record s { requests = kept } in
      if leb s.maximum (length kept)
      then (too_many_requests, s1)
      else post_start r (record s { requests = kept ++ r.now ∷ [] })

  -- `auth` around both: the route POST /v1/updates.
  unfoldable pub post_update : Post → Server → Status × Server
  unfolding authorized rate_limit
  post_update r s = if authorized s.token r.authorization then rate_limit r s else (unauthorized, s)

-- The route GET /v1/operations/current: `none` for an unauthorized request.
unfoldable pub get_current : String → Server → Option Operation
unfolding authorized
get_current authorization s =
    if authorized s.token authorization then some s.service.operation else none
