-- ===== src/Client/Tests.antt =====
-- EnsureIdentity at a concrete hub, and its runs on a saved snapshot.
use myflowhub_clipboardnode.Base.{
  ℕ, ◌≡◌, refl, true, false, none, some, [], ◌∷◌, Text, codes, trim_space, ℤ, pos, Result, ok, err,
  Error, login_required,
}
use myflowhub_clipboardnode.Keys.{KeyStore, new_key_store}
use myflowhub_clipboardnode.Keys.Tests.{SampleKey, sample_vault}
use myflowhub_clipboardnode.Client.{
  RespData, World, Client, answered, failed, dialled, written, missing, no_auth, key_ops,
}
use myflowhub_clipboardnode.Client.Auth.{ensure_identity}
use myflowhub_clipboardnode.Client.Topics.{subscribe_topic}
use myflowhub_clipboardnode.Client.Identity.{Identifies, ensure_identity-Identifies}

abbrev accepted : RespData
accepted = record { code = pos 1; msg = codes "ok"; node_id = 7; hub_id = 1; role = codes "node" }

-- A hub that accepts everything, as node 7 of hub 1.
abbrev pub sample_world : World (KeyStore SampleKey)
sample_world = record {
  keys = key_ops sample_vault;
  register_resp = codes "register_resp";
  login_resp = codes "login_resp";
  publish_action = codes "publish";
  dial = λ log endpoint. dialled;
  reply = λ log. answered [];
  sent = λ log. none;
  encode_error = λ request. none;
  decode_resp = λ bytes. answered accepted;
  decode_bus_resp = λ bytes. answered (record { code = pos 1; msg = [] });
  decode_message = λ bytes. failed (codes "no message");
  decode_publish = λ bytes. failed (codes "no publication");
  now = λ log. pos 1700;
  now_milli = λ log. pos 1700000;
  nonce = λ log. codes "0a1b";
  mkdir = λ log. none;
  encode_auth = λ st. [];
  decode_auth = λ bytes. answered no_auth;
  write = λ log bytes. written;
}

-- Connected, with the snapshot of another device.
abbrev pub sample_client : Client (KeyStore SampleKey)
sample_client = record {
  session = true;
  endpoint = codes "hub:9000";
  connected = true;
  last_error = none;
  keys = new_key_store sample_vault (codes "keys.json") none 0;
  auth = record no_auth { device_id = codes "old"; node_id = 3; hub_id = 1 };
  events = [];
  event_buffer = 64;
  file = missing;
  log = [];
}

ensure_identity-Identifies_example :
    Identifies sample_client.auth
      (trim_space (codes " pc "))
      sample_client
      (ensure_identity sample_world sample_client (codes " pc ") (codes "PC"))
ensure_identity-Identifies_example =
    ensure_identity-Identifies sample_world sample_client (codes " pc ") (codes "PC")

identity_test :
    (ensure_identity sample_world sample_client (codes " pc ") (codes "PC")).0.auth.device_id
    ≡ codes "pc"
unfolding ensure_identity trim_space myflowhub_clipboardnode.Base.text_eq
    myflowhub_clipboardnode.Keys.ensure sample_vault myflowhub_clipboardnode.Keys.sign_login
identity_test = refl

node_test :
    (ensure_identity sample_world sample_client (codes " pc ") (codes "PC")).0.auth.node_id ≡ 7
unfolding ensure_identity trim_space myflowhub_clipboardnode.Base.text_eq
    myflowhub_clipboardnode.Keys.ensure sample_vault myflowhub_clipboardnode.Keys.sign_login
node_test = refl

subscribe_test : (subscribe_topic sample_world sample_client (codes "clip")).1 ≡ some login_required
unfolding subscribe_topic trim_space
subscribe_test = refl
