-- ===== src/Bridge/Web.antt =====
-- serveWeb: the endpoints, who may use them, and where the server may listen.
use myflowhub_clipboardnode.Base.{
  ℕ, Bool, true, false, not, ◌||◌, Option, none, some, List, [], Text, codes, text_eq, is_empty,
  trim_space, is_some, if◌then◌else◌, Result, ok, err, Error, wrapped, web_port_required,
  web_host_required, web_not_loopback,
}
use myflowhub_clipboardnode.History.{HistoryEntry}
use myflowhub_clipboardnode.Engine.{stop_engine}
use myflowhub_clipboardnode.Bridge.{
  Host, Outside, Command, Status, status_now, history_entries, emit_status, emit_history,
}
use myflowhub_clipboardnode.Bridge.Commands.{Handled, handle}

-- What the handlers read of a request: the header X-ClipboardNode-Token, the query's token, and the
-- command that the first MiB of its body decodes to.
pub record Request : Type 0 where
  pub method : Text
  pub header_token : Text
  pub query_token : Text
  pub body : Result Command

pub record Answered : Type 0 where
  pub accepted : Bool
  pub good : Bool
  pub error : Option Error
  pub status : Status
  pub history : List HistoryEntry

pub data Body : Type 0 where
  empty stream : Body
  message : Text → Body
  healthy : Body
  status_body : Status → Body
  history_body : List HistoryEntry → Body
  answer_body : Answered → Body
  error_body : Error → Body

pub record Reply : Type 0 where
  pub code : ℕ
  pub body : Body

abbrev pub reply : ℕ → Body → Reply
reply code body = record { code = code; body = body }

-- authorized
unfoldable pub authorized : Request → Text → Bool
authorized r token =
    if is_empty token then false else text_eq r.header_token token || text_eq r.query_token token

-- net.SplitHostPort, strings.EqualFold with "localhost", and net.ParseIP with IsLoopback
pub record Net : Type 0 where
  pub split_host_port : Text → Result (Text × Text)
  pub is_localhost : Text → Bool
  pub loopback_ip : Text → Option Bool

abbrev check_host : Net → Text → Option Error
check_host net host = if net.is_localhost host then none else elim (net.loopback_ip host) [
  | some true ↦ none
  | some false ↦ some (web_not_loopback host)
  | none ↦ some (web_not_loopback host)
]

abbrev check_address : Net → Result (Text × Text) → Option Error
check_address net (err e) = some (wrapped (codes "invalid web-listen address") [] e)
check_address net (ok (host, port)) =
    if is_empty (trim_space port)
    then some web_port_required
    else if is_empty host
    then some web_host_required
    else check_host net host

-- validateLoopbackListen
unfoldable pub validate_loopback_listen : Net → Text → Option Error
validate_loopback_listen net listen = check_address net (net.split_host_port listen)

module _ {T : Type 0} (outside : Outside T) (token : Text) where
  -- /health
  unfoldable pub health : Request → Reply
  unfolding authorized
  health r =
      if text_eq r.method (codes "OPTIONS")
      then reply 204 empty
      else if not (text_eq r.method (codes "GET"))
      then reply 405 (message (codes "method not allowed"))
      else if not (authorized r token)
      then reply 401 (message (codes "unauthorized"))
      else reply 200 healthy

  -- /events, whose stream is that of serveSSE; `can_stream` says whether the writer is a flusher.
  unfoldable pub events : Bool → Request → Reply
  unfolding authorized
  events can_stream r =
      if text_eq r.method (codes "OPTIONS")
      then reply 204 empty
      else if not (text_eq r.method (codes "GET"))
      then reply 405 (message (codes "method not allowed"))
      else if not (authorized r token)
      then reply 401 (message (codes "unauthorized"))
      else if can_stream
      then reply 200 stream
      else reply 500 (message (codes "streaming unsupported"))

  -- /status
  unfoldable pub status_endpoint : Host T → Request → Reply
  unfolding authorized
  status_endpoint h r =
      if text_eq r.method (codes "OPTIONS")
      then reply 204 empty
      else if not (text_eq r.method (codes "GET"))
      then reply 405 (message (codes "method not allowed"))
      else if not (authorized r token)
      then reply 401 (message (codes "unauthorized"))
      else reply 200 (status_body (status_now outside h none))

  -- /history
  unfoldable pub history_endpoint : Host T → Request → Reply
  unfolding authorized
  history_endpoint h r =
      if text_eq r.method (codes "OPTIONS")
      then reply 204 empty
      else if not (text_eq r.method (codes "GET"))
      then reply 405 (message (codes "method not allowed"))
      else if not (authorized r token)
      then reply 401 (message (codes "unauthorized"))
      else reply 200 (history_body (history_entries outside h))

  -- The reply to a command, and the second Stop that follows a shutdown.
  unfoldable pub command_done : Handled T → Host T × Reply
  command_done (h, shutdown, failure) = (
    (if shutdown
        then record h { eng = (stop_engine outside.transport outside.envs h.eng).0 }
        else h),
    reply (if is_some failure then 200 else 202) (
        answer_body (record {
          accepted = true;
          good = not (is_some failure);
          error = failure;
          status = status_now outside h none;
          history = history_entries outside h;
        })),
  )

  unfoldable pub run_command : Host T → Result Command → Host T × Reply
  unfolding command_done handle
  run_command h (err e) = (h, reply 400 (error_body (wrapped (codes "decode command") [] e)))
  run_command h (ok cmd) = command_done (handle outside h cmd)

  -- /command
  unfoldable pub command_endpoint : Host T → Request → Host T × Reply
  unfolding authorized run_command
  command_endpoint h r =
      if text_eq r.method (codes "OPTIONS")
      then (h, reply 204 empty)
      else if not (text_eq r.method (codes "POST"))
      then (h, reply 405 (message (codes "method not allowed")))
      else if not (authorized r token)
      then (h, reply 401 (message (codes "unauthorized")))
      else run_command h r.body

  pub data Endpoint : Type 0 where
    at_health at_status at_history at_command : Endpoint
    at_events : Bool → Endpoint

  -- A request to one of the five endpoints.
  unfoldable pub serve_request : Host T → Endpoint → Request → Host T × Reply
  unfolding health events status_endpoint history_endpoint command_endpoint
  serve_request h at_health r = (h, health r)
  serve_request h (at_events can_stream) r = (h, events can_stream r)
  serve_request h at_status r = (h, status_endpoint h r)
  serve_request h at_history r = (h, history_endpoint h r)
  serve_request h at_command r = command_endpoint h r

  -- serveWeb up to its listening, at an address that it may refuse
  unfoldable pub serve_web : Net → Text → Host T → Host T × Option Error
  unfolding validate_loopback_listen
  serve_web net listen h = elim (validate_loopback_listen net listen) [
    | some e ↦ (h, some e)
    | none ↦ (emit_history outside (emit_status outside h [] none) [], none)
  ]
