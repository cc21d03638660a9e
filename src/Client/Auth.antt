-- ===== src/Client/Auth.antt =====
-- Register, Login and EnsureIdentity.
use myflowhub_clipboardnode.Base.{
  ℕ, Bool, true, false, not, ◌&&◌, ◌||◌, none, some, List, [], ◌++◌, Text, codes, text_eq, is_empty,
  trim_space, ◌==◌, ℤ, pos, eq_ℤ, if◌then◌else◌, Result, ok, err, Error, wrapped, format_int,
  device_id_required, login_node_required, not_connected, login_nonce_failed, register_without_node,
  hub_refused,
}
use myflowhub_clipboardnode.Client.{
  AuthState, RespData, RegisterData, LoginData, Request, register, login, ask, read_clock,
  draw_nonce, Answer, failed, answered, World, Client, Done, normalize_display_name, note,
  store_last_error, ensure_client, save_auth_snapshot, clear_auth,
}

abbrev pub Authed : Type 0 → Type 0
Authed K = Client K × Result AuthState

-- The message of responseError.
unfoldable pub response_message : Text → ℤ → Text → Text
response_message prefix code msg =
    let trimmed = trim_space msg in
    if is_empty trimmed
    then prefix ++ codes " failed (code=" ++ format_int code ++ codes ")"
    else trimmed

-- responseError
unfoldable pub response_error : Text → ℤ → Text → Error
unfolding response_message
response_error prefix code msg = hub_refused (response_message prefix code msg)

-- registerData
unfoldable pub register_data : Text → Text → Text → RegisterData
unfolding normalize_display_name
register_data device_id display_name pub_key =
    let device = trim_space device_id in
    record {
      device_id = device;
      pub_key = pub_key;
      node_pub = pub_key;
      display_name = normalize_display_name display_name device;
    }

-- loginData
unfoldable pub login_data : Text → Text → ℕ → ℤ → Text → Text → LoginData
unfolding normalize_display_name
login_data device_id display_name node_id ts nonce sig =
    let device = trim_space device_id in
    record {
      device_id = device;
      node_id = node_id;
      display_name = normalize_display_name display_name device;
      ts = ts;
      nonce = nonce;
      sig = sig;
      alg = codes "ES256";
    }

-- Whether the snapshot is another device's, or of no device but with a node.
abbrev pub is_stale : AuthState → Text → Bool
is_stale st device =
    let owner = trim_space st.device_id in
    (not (is_empty owner) && not (text_eq owner device))
    || (is_empty owner && not (st.node_id == 0))

module _ {K : Type 0} (world : World K) where
  -- setAuthResult
  unfoldable pub set_auth_result : Client K → Bool → Text → Text → Client K
  set_auth_result c good action msg =
      note
        (record c {
          auth = record c.auth {
            logged_in = good;
            last_action = trim_space action;
            last_message = trim_space msg;
            last_unix_time = world.now c.log;
          };
        })
        read_clock

  -- setAuthSnapshot
  unfoldable pub set_auth_snapshot : Client K → Text → Text → RespData → Bool → Client K
  set_auth_snapshot c action device_id resp good =
      note
        (record c {
          auth = record {
            device_id = trim_space device_id;
            node_id = resp.node_id;
            hub_id = resp.hub_id;
            role = trim_space resp.role;
            logged_in = good;
            last_action = trim_space action;
            last_message = trim_space resp.msg;
            last_unix_time = world.now c.log;
          };
        })
        read_clock

  -- sendAndAwait; each request gets the SDK's own deadline, which is not modelled.
  unfoldable pub send_and_await : Client K → ℕ → ℕ → Request → Client K × Answer (List ℕ)
  unfolding ensure_client
  send_and_await c source target request =
      let sent = note (ensure_client c) (ask source target request) in (sent, world.reply sent.log)

  -- The three statements that follow a failed Register or Login.
  unfoldable pub auth_failed : Client K → Text → Error → Text → Authed K
  unfolding set_auth_result
  auth_failed c action e msg = (store_last_error (set_auth_result c false action msg) e, err e)

  unfoldable pub auth_accepted : Client K → Text → Text → RespData → Authed K
  unfolding set_auth_snapshot save_auth_snapshot
  auth_accepted c action device_id resp =
      let saved =
        (save_auth_snapshot world (set_auth_snapshot c action device_id resp true)
          (set_auth_snapshot c action device_id resp true).auth).0 in
      (saved, ok saved.auth)

  unfoldable pub finish_resp : Client K → Text → Text → Text → Answer RespData → Authed K
  unfolding auth_failed auth_accepted response_error response_message
  finish_resp c action prefix device_id (failed t) = auth_failed c action (Error.external t) t
  finish_resp c action prefix device_id (answered resp) =
      if eq_ℤ resp.code (pos 1)
      then auth_accepted c action device_id resp
      else auth_failed c action (response_error prefix resp.code resp.msg)
          (response_message prefix resp.code resp.msg)

  unfoldable pub finish_reply : Text → Text → Text → Client K × Answer (List ℕ) → Authed K
  unfolding auth_failed finish_resp
  finish_reply action prefix device_id (c, failed t) = auth_failed c action (Error.external t) t
  finish_reply action prefix device_id (c, answered bytes) =
      finish_resp c action prefix device_id (world.decode_resp bytes)

  -- From the encoding of an auth request to the end of Register or Login.
  unfoldable pub exchange : Client K → Text → Text → Text → Request → Authed K
  unfolding finish_reply send_and_await
  exchange c action prefix device_id request = elim (world.encode_error request) [
    | some t ↦ (c, err (Error.external t))
    | none ↦ finish_reply action prefix device_id (send_and_await c 0 0 request)
  ]

  unfoldable pub register_with : Text → Text → Client K × Result Text → Authed K
  unfolding exchange register_data
  register_with device_id display_name (c, err e) = (store_last_error c e, err e)
  register_with device_id display_name (c, ok pub_key) =
      exchange c world.register_resp (codes "auth register") device_id
        (register (register_data device_id display_name pub_key))

  -- c.keys.Ensure()
  abbrev pub ensure_keys : Client K → Client K × Result Text
  ensure_keys c = let r = world.keys.ensure c.keys in (record c { keys = r.0 }, r.1)

  -- Register
  unfoldable pub register_node : Client K → Text → Text → Authed K
  unfolding register_with normalize_display_name
  register_node c device_id display_name =
      let device = trim_space device_id in
      if is_empty device
      then (c, err device_id_required)
      else if not c.connected
      then (c, err not_connected)
      else register_with device (normalize_display_name display_name device) (ensure_keys c)

  unfoldable pub login_with : Text → Text → ℕ → ℤ → Text → Client K × Result Text → Authed K
  unfolding exchange login_data
  login_with device_id display_name node_id ts nonce (c, err e) = (store_last_error c e, err e)
  login_with device_id display_name node_id ts nonce (c, ok sig) =
      exchange c world.login_resp (codes "auth login") device_id
        (login (login_data device_id display_name node_id ts nonce sig))

  -- c.keys.SignLogin(...)
  abbrev pub sign : Client K → Text → ℕ → ℤ → Text → Client K × Result Text
  sign c device_id node_id ts nonce =
      let r = world.keys.sign_login c.keys device_id node_id ts nonce in
      (record c { keys = r.0 }, r.1)

  -- Login once its guards have passed
  unfoldable pub login_now : Client K → Text → Text → ℕ → Authed K
  unfolding login_with
  login_now c device display_name node_id =
      let ts = world.now c.log in
      let timed = note c read_clock in
      let nonce = world.nonce timed.log in
      let drawn = note timed draw_nonce in
      if is_empty nonce
      then (drawn, err login_nonce_failed)
      else login_with device display_name node_id ts nonce (sign drawn device node_id ts nonce)

  -- Login
  unfoldable pub login_node : Client K → Text → Text → ℕ → Authed K
  unfolding login_now normalize_display_name
  login_node c device_id display_name node_id =
      let device = trim_space device_id in
      if is_empty device
      then (c, err device_id_required)
      else if node_id == 0
      then (c, err login_node_required)
      else if not c.connected
      then (c, err not_connected)
      else login_now c device (normalize_display_name display_name device) node_id

  unfoldable pub login_registered : Text → Text → Authed K → Authed K
  unfolding login_node
  login_registered device display_name (c, err e) = (c, err e)
  login_registered device display_name (c, ok st) =
      if c.auth.node_id == 0
      then (c, err register_without_node)
      else login_node c device display_name c.auth.node_id

  -- EnsureIdentity with the snapshot st, which is c.auth
  unfoldable pub identify : Client K → Text → Text → Authed K
  unfolding login_registered register_node login_node
  identify c device display_name =
      if c.auth.node_id == 0
      then login_registered device display_name (register_node c device display_name)
      else if not c.auth.logged_in
      then login_node c device display_name c.auth.node_id
      else (c, ok c.auth)

  abbrev pub cleared : Text → Text → Done K → Authed K
  unfolding identify
  cleared device display_name (c, some e) =
      (c, err (wrapped (codes "clear stale auth snapshot") [] e))
  cleared device display_name (c, none) = identify c device display_name

  -- EnsureIdentity
  unfoldable pub ensure_identity : Client K → Text → Text → Authed K
  unfolding identify clear_auth normalize_display_name
  ensure_identity c device_id display_name =
      let device = trim_space device_id in
      let name = normalize_display_name display_name device in
      if is_empty device
      then (c, err device_id_required)
      else if is_stale c.auth device
      then cleared device name (clear_auth world c)
      else identify c device name
