-- ===== src/Client.antt =====
-- core/myflowhub/client.go: the connection to the hub, the node's identity there and its snapshot.
--
-- The SDK session, the wire encoding, the file system, the clock and the keys are not the client's
-- own: they are a `World`, whose answers may depend on everything that was called before. The calls
-- are kept in `log`, newest first; a request is kept as the message that its payload encodes.
pub mod Auth
pub mod Topics
pub mod Requests
pub mod Identity
pub mod Closing
pub mod Tests
use myflowhub_clipboardnode.Base.{
  ℕ, suc, Bool, true, false, not, ◌&&◌, Option, none, some, List, [], ◌∷◌, ◌++◌, Text, codes,
  text_eq, is_empty, trim_space, ℤ, pos, ltb_ℤ, pos_part, if◌then◌else◌, Result, ok, err, Error,
  wrapped, work_dir_required, endpoint_required,
}
use myflowhub_clipboardnode.Runtime.Remote.{Message}
use myflowhub_clipboardnode.Keys.{Vault, KeyStore, ensure, sign_login}

pub record AuthState : Type 0 where
  pub device_id : Text
  pub node_id : ℕ
  pub hub_id : ℕ
  pub role : Text
  pub logged_in : Bool
  pub last_action : Text
  pub last_message : Text
  pub last_unix_time : ℤ

-- AuthState{}
abbrev pub no_auth : AuthState
no_auth = record {
  device_id = [];
  node_id = 0;
  hub_id = 0;
  role = [];
  logged_in = false;
  last_action = [];
  last_message = [];
  last_unix_time = pos 0;
}

-- `last_error` is none for the empty string.
pub record Status : Type 0 where
  pub connected : Bool
  pub auth : AuthState
  pub last_error : Option Error

-- What the source reads and writes of the protocol's structures.
pub record RespData : Type 0 where
  pub code : ℤ
  pub msg : Text
  pub node_id : ℕ
  pub hub_id : ℕ
  pub role : Text

pub record BusResp : Type 0 where
  pub code : ℤ
  pub msg : Text

pub record RegisterData : Type 0 where
  pub device_id : Text
  pub pub_key : Text
  pub node_pub : Text
  pub display_name : Text

pub record LoginData : Type 0 where
  pub device_id : Text
  pub node_id : ℕ
  pub display_name : Text
  pub ts : ℤ
  pub nonce : Text
  pub sig : Text
  pub alg : Text

pub record PublishReq : Type 0 where
  pub topic : Text
  pub name : Text
  pub ts : ℤ
  pub payload : List ℕ

pub data Request : Type 0 where
  register : RegisterData → Request
  login : LoginData → Request
  subscribe unsubscribe : Text → Request
  publish : PublishReq → Request

-- A call with the source and target node of its header, where it has one.
pub data Op : Type 0 where
  open_session close_session read_clock draw_nonce : Op
  dial : Text → Op
  ask send : ℕ → ℕ → Request → Op
  make_dir : Op
  write_snapshot : List ℕ → Op

abbrev pub Log : Type 0
Log = List Op

-- What a call of others' code returns; the error is known by its text.
pub data Answer {ℓ} (A : Type ℓ) : Type ℓ where
  failed : Text → Answer A
  answered : A → Answer A

-- How sdk.Connect ends, or that the context ended first.
pub data Dial : Type 0 where
  dialled already_connected : Dial
  dial_failed cancelled : Text → Dial

-- What a read of the snapshot file gives.
pub data Snapshot : Type 0 where
  missing unreadable : Snapshot
  contents : List ℕ → Snapshot

pub data Written : Type 0 where
  written : Written
  write_failed : Text → Snapshot → Written

-- The key store, as the client uses it.
pub record KeyOps (K : Type 0) : Type 0 where
  pub ensure : K → K × Result Text
  pub sign_login : K → Text → ℕ → ℤ → Text → K × Result Text

-- The key store of core/auth.
abbrev pub key_ops : {Key : Type 0} → Vault Key → KeyOps (KeyStore Key)
key_ops vault = record { ensure = ensure vault; sign_login = sign_login vault }

-- The first three are names of the protocol's actions; each later one is a call.
pub record World (K : Type 0) : Type 0 where
  pub keys : KeyOps K
  pub register_resp : Text
  pub login_resp : Text
  pub publish_action : Text
  pub dial : Log → Text → Dial
  pub reply : Log → Answer (List ℕ)
  pub sent : Log → Option Text
  pub encode_error : Request → Option Text
  pub decode_resp : List ℕ → Answer RespData
  pub decode_bus_resp : List ℕ → Answer BusResp
  pub decode_message : List ℕ → Answer (Text × List ℕ)
  pub decode_publish : List ℕ → Answer PublishReq
  pub now : Log → ℤ
  pub now_milli : Log → ℤ
  pub nonce : Log → Text
  pub mkdir : Log → Option Text
  pub encode_auth : AuthState → List ℕ
  pub decode_auth : List ℕ → Answer AuthState
  pub write : Log → List ℕ → Written

-- `session` says whether `client` is set. `file` and `log` are the world's.
pub record Client (K : Type 0) : Type 0 where
  pub session : Bool
  pub endpoint : Text
  pub connected : Bool
  pub last_error : Option Error
  pub keys : K
  pub auth : AuthState
  pub events : List Message
  pub event_buffer : ℕ
  pub file : Snapshot
  pub log : Log

abbrev pub Done : Type 0 → Type 0
Done K = Client K × Option Error

-- normalizeDisplayName
unfoldable pub normalize_display_name : Text → Text → Text
normalize_display_name display_name fallback =
    let name = trim_space display_name in if is_empty name then trim_space fallback else name

module _ {K : Type 0} where
  abbrev pub note : Client K → Op → Client K
  note c op = record c { log = op ∷ c.log }

  -- storeLastError, of an error that is not nil
  abbrev pub store_last_error : Client K → Error → Client K
  store_last_error c e = record c { last_error = some e }

  -- Status
  abbrev pub status : Client K → Status
  status c = record { connected = c.connected; auth = c.auth; last_error = c.last_error }

  -- ensureClient
  unfoldable pub ensure_client : Client K → Client K
  ensure_client c = if c.session then c else record c { session = true; log = open_session ∷ c.log }

  -- onClientError, of an error that is not nil
  abbrev pub on_client_error : Client K → Error → Client K
  on_client_error c e = record c { connected = false; last_error = some e }

module _ {K : Type 0} (world : World K) where
  abbrev pub end_write : Client K → List ℕ → Written → Done K
  end_write c bytes written = (record c { file = contents bytes }, none)
  end_write c bytes (write_failed t left) = (record c { file = left }, some (Error.external t))

  -- saveAuthSnapshot; its path is never blank, and an AuthState is always encoded.
  unfoldable pub save_auth_snapshot : Client K → AuthState → Done K
  save_auth_snapshot c st =
      let bytes = world.encode_auth st ++ codes "\n" in
      elim (world.mkdir c.log) [
        | some t ↦ (
          note c make_dir,
          some (wrapped (codes "create auth snapshot directory") [] (Error.external t)),
        )
        | none ↦
            end_write (note (note c make_dir) (write_snapshot bytes)) bytes
              (world.write (make_dir ∷ c.log) bytes)
      ]

  abbrev adopt : Client K → Answer AuthState → Client K
  adopt c (failed t) = c
  adopt c (answered st) = record c { auth = record st { logged_in = false } }

  -- loadAuthSnapshot, whose error New drops
  unfoldable pub load_auth_snapshot : Client K → Client K
  load_auth_snapshot c = elim c.file [
    | missing ↦ c
    | unreadable ↦ c
    | contents bytes ↦ adopt c (world.decode_auth bytes)
  ]

  -- New, over a working directory that can be made or not
  unfoldable pub new_client : Text → ℤ → Option Text → K → Snapshot → Result (Client K)
  unfolding load_auth_snapshot
  new_client work_dir event_buffer dir_error keys file =
      if is_empty (trim_space work_dir) then err work_dir_required else elim dir_error [
        | some t ↦ err (wrapped (codes "create workDir") [] (Error.external t))
        | none ↦ ok (
            load_auth_snapshot (record {
              session = false;
              endpoint = [];
              connected = false;
              last_error = none;
              keys = keys;
              auth = no_auth;
              events = [];
              event_buffer = if ltb_ℤ (pos 0) event_buffer then pos_part event_buffer else 64;
              file = file;
              log = [];
            }))
      ]

  -- ClearAuth
  unfoldable pub clear_auth : Client K → Done K
  unfolding save_auth_snapshot
  clear_auth c = save_auth_snapshot (record c { auth = no_auth }) no_auth

  abbrev pub end_close : Done K → Done K
  end_close (c, some e) = (store_last_error c e, some e)
  end_close (c, none) = (c, none)

  abbrev pub close_session_if : Bool → Client K → Client K
  close_session_if true c = note c close_session
  close_session_if false c = c

  -- Close
  unfoldable pub close : Client K → Done K
  unfolding save_auth_snapshot
  close c =
      let dropped = record c { session = false; endpoint = [] } in
      let closed = close_session_if c.session dropped in
      let st = record c.auth { logged_in = false } in
      end_close (save_auth_snapshot (record closed { connected = false; auth = st }) st)

  abbrev end_dial : Client K → Text → Dial → Done K
  end_dial c endpoint dialled = (record c { connected = true; endpoint = endpoint }, none)
  end_dial c endpoint already_connected = (record c { connected = true; endpoint = endpoint }, none)
  end_dial c endpoint (dial_failed t) =
      (store_last_error c (Error.external t), some (Error.external t))
  end_dial c endpoint (cancelled t) =
      let e = wrapped (codes "connect canceled") [] (Error.external t) in
      (store_last_error (note c close_session) e, some e)

  -- Connect
  unfoldable pub connect : Client K → Text → Done K
  unfolding ensure_client close
  connect c target =
      let endpoint = trim_space target in
      let left = (close c).0 in
      let kept =
        if not (is_empty c.endpoint) && not (text_eq c.endpoint endpoint) then left else c in
      let ready = ensure_client kept in
      if is_empty endpoint
      then (c, some endpoint_required)
      else end_dial (note ready (dial endpoint)) endpoint (world.dial ready.log endpoint)
