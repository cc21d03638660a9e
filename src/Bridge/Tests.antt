-- ===== src/Bridge/Tests.antt =====
-- The bridge's host over the sample engine: a forwarded decision, new settings, and web requests.
use myflowhub_clipboardnode.Base.{
  ℕ, ◌≡◌, refl, Bool, true, false, Option, none, some, List, [], ◌∷◌, Text, codes, ℤ, pos, Result,
  ok, err, Error,
}
use myflowhub_clipboardnode.Config.{
  Config, default_config, retention_body, default_max_inline_bytes,
}
use myflowhub_clipboardnode.Event.Samples.{sample_platform}
use myflowhub_clipboardnode.Runtime.{Decision, decision, local_published}
use myflowhub_clipboardnode.History.{Moment}
use myflowhub_clipboardnode.History
use myflowhub_clipboardnode.Keys.{KeyStore}
use myflowhub_clipboardnode.Keys.Tests.{SampleKey}
use myflowhub_clipboardnode.Client.{Client}
use myflowhub_clipboardnode.Client.Tests.{sample_world}
use myflowhub_clipboardnode.Store.Tests.{sample_codec, sample_disk, sample_store}
use myflowhub_clipboardnode.Engine.Hub.{client_transport}
use myflowhub_clipboardnode.Engine.Tests.{sample_engine, sample_envs}
use myflowhub_clipboardnode.Bridge.{Host, Outside, Settings, Command}
use myflowhub_clipboardnode.Bridge.Commands.{set_config}
use myflowhub_clipboardnode.Bridge.Forward.{forward_decision}
use myflowhub_clipboardnode.Bridge.Forwarded.{Forwards, forward_decision-Forwards}
use myflowhub_clipboardnode.Bridge.SetConfig.{Sets, set_config-Sets}
use myflowhub_clipboardnode.Bridge.Web.{Request, at_history, serve_request}
use myflowhub_clipboardnode.Bridge.Guards.{Guards, serve_request-Guards}

abbrev hello : Decision
hello = record (decision local_published) { event_id = codes "e"; text = codes "hello" }

abbrev plain_settings : Settings
plain_settings = record {
  enabled = false;
  parent_endpoint = [];
  topic = codes "clip";
  topics = none;
  device_id = codes "pc";
  display_name = [];
  device_label = [];
  max_inline_bytes = default_max_inline_bytes;
  auto_watch = false;
  auto_apply = false;
  history_retention = retention_body;
  history_limit = pos 10;
  transfer_provider = [];
  transfer_ref = [];
}

abbrev sample_outside : Outside (Client (KeyStore SampleKey))
sample_outside = record {
  transport = client_transport sample_world;
  envs = sample_envs;
  platform = sample_platform;
  codec = sample_codec;
  disk = λ n. sample_disk;
  history_disk = record {
    format_int = λ z. codes "1";
    decode = λ text. ok [];
    save = λ n entries. none;
  };
  moment = λ n. record { unix_micro = pos 1; unix_milli = pos 1 };
  read_text = λ n. ok (codes "local");
  decode_settings = λ text. ok plain_settings;
  decode_send_text = λ text. ok text;
  decode_apply_event = λ text. ok text;
  decode_entry = λ text. err (Error.external (codes "decode"));
}

abbrev sample_host : Host (Client (KeyStore SampleKey))
sample_host = record {
  store = sample_store;
  history = record { entries = []; file = none; saves = 0 };
  cfg = default_config;
  eng = record sample_engine { decisions = hello ∷ [] };
  out = [];
  moments = 0;
  writes = 0;
}

abbrev no_token : Request
no_token = record {
  method = codes "GET";
  header_token = [];
  query_token = codes "guess";
  body = err (Error.external (codes "decode"));
}

forward_decision-Forwards_example :
    Forwards sample_outside sample_host (forward_decision sample_outside sample_host)
forward_decision-Forwards_example = forward_decision-Forwards sample_outside sample_host

set_config-Sets_example :
    Sets sample_outside sample_host
      (ok plain_settings)
      (set_config sample_outside sample_host (codes "1") (ok plain_settings))
set_config-Sets_example = set_config-Sets sample_outside sample_host (codes "1") (ok plain_settings)

set_config_test :
    (set_config sample_outside sample_host (codes "1") (ok plain_settings)).0.cfg.topic
    ≡ codes "clip"
unfolding set_config myflowhub_clipboardnode.Config.normalize_config
    myflowhub_clipboardnode.Config.normalize_topic_routes
    myflowhub_clipboardnode.Bridge.config_from_settings myflowhub_clipboardnode.Config.check_config
    myflowhub_clipboardnode.Config.fill_defaults myflowhub_clipboardnode.Base.text_eq
    myflowhub_clipboardnode.Base.trim_space History.apply_settings History.history_limit_of
    myflowhub_clipboardnode.Store.save myflowhub_clipboardnode.Engine.update_engine
    myflowhub_clipboardnode.Client.close myflowhub_clipboardnode.Client.clear_auth
set_config_test = refl

serve_request-Guards_example :
    Guards sample_outside
      (codes "secret")
      sample_host
      at_history
      no_token
      (serve_request sample_outside (codes "secret") sample_host at_history no_token)
serve_request-Guards_example =
    serve_request-Guards sample_outside (codes "secret") sample_host at_history no_token

denied_test :
    (serve_request sample_outside (codes "secret") sample_host at_history no_token).1.code ≡ 401
unfolding serve_request myflowhub_clipboardnode.Base.text_eq
denied_test = refl
