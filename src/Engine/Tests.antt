-- ===== src/Engine/Tests.antt =====
-- The engine over a client at concrete inputs: it starts, is refused, and changes its device.
use myflowhub_clipboardnode.Base.{
  ℕ, ◌≡◌, refl, Bool, true, false, Option, none, some, List, [], ◌∷◌, Text, codes, ℤ, pos, Result,
  ok, err, Error,
}
use myflowhub_clipboardnode.Config.{Config, default_config}
use myflowhub_clipboardnode.Event.Samples.{sample_platform}
use myflowhub_clipboardnode.Runtime.{Env}
use myflowhub_clipboardnode.Keys.{KeyStore}
use myflowhub_clipboardnode.Keys.Tests.{SampleKey}
use myflowhub_clipboardnode.Client.{Client, no_auth}
use myflowhub_clipboardnode.Client.Tests.{sample_world, sample_client}
use myflowhub_clipboardnode.Engine.{Engine, Options, new_engine, start_engine, update_engine}
use myflowhub_clipboardnode.Engine.Hub.{client_transport}
use myflowhub_clipboardnode.Engine.Updates.{Updates, update_engine-Updates}
use myflowhub_clipboardnode.Engine.Traces.{starts, sends, serves_decision, run}
use myflowhub_clipboardnode.Engine.Coherence.{IsCoherent, new_engine-IsCoherent}

abbrev pub sample_envs : ℕ → Env
sample_envs n = record {
  answer = λ l c. none;
  now = λ k. pos k;
  new_event_id = λ k. ok (codes "id");
}

abbrev sample_options : Options (Client (KeyStore SampleKey))
sample_options = record {
  config = record default_config { enabled = true };
  work_dir = codes "work";
  has_clipboard = true;
  transport = some sample_client;
  instance_id = codes "instance";
}

abbrev pub sample_engine : Engine (Client (KeyStore SampleKey))
sample_engine = record {
  has_clipboard = true;
  transport = sample_client;
  cfg = record default_config { enabled = true };
  runtime = none;
  cancel = false;
  done = false;
  started = false;
  last_error = none;
  instance_id = codes "instance";
  decisions = [];
  run = 0;
}

abbrev other_device : Config
other_device = record default_config { device_id = codes "other" }

start_test :
    (start_engine (client_transport sample_world) sample_envs sample_engine).0.started ≡ true
unfolding start_engine myflowhub_clipboardnode.Client.connect
    myflowhub_clipboardnode.Base.trim_space myflowhub_clipboardnode.Client.Auth.ensure_identity
    myflowhub_clipboardnode.Base.text_eq myflowhub_clipboardnode.Keys.ensure
    myflowhub_clipboardnode.Keys.Tests.sample_vault myflowhub_clipboardnode.Keys.sign_login
    myflowhub_clipboardnode.Runtime.new_runtime myflowhub_clipboardnode.Config.normalize_config
    myflowhub_clipboardnode.Config.normalize_topic_routes
    myflowhub_clipboardnode.Config.check_config myflowhub_clipboardnode.Config.fill_defaults
    myflowhub_clipboardnode.Runtime.Lifecycle.start
    myflowhub_clipboardnode.Runtime.Bus.subscribe_topics
    myflowhub_clipboardnode.Runtime.Bus.subscribe_loop myflowhub_clipboardnode.Runtime.Bus.topics_of
start_test = refl

update_engine-Updates_example :
    Updates sample_world sample_envs sample_engine other_device
      (update_engine (client_transport sample_world) sample_envs sample_engine other_device)
update_engine-Updates_example =
    update_engine-Updates sample_world sample_envs sample_engine other_device

update_test :
    (update_engine
      (client_transport sample_world)
      sample_envs
      sample_engine
      other_device).0.transport.auth
    ≡ no_auth
unfolding update_engine myflowhub_clipboardnode.Config.normalize_config
    myflowhub_clipboardnode.Config.normalize_topic_routes myflowhub_clipboardnode.Base.trim_space
    myflowhub_clipboardnode.Config.check_config myflowhub_clipboardnode.Config.fill_defaults
    myflowhub_clipboardnode.Base.text_eq myflowhub_clipboardnode.Client.close
    myflowhub_clipboardnode.Client.clear_auth
update_test = refl

new_test :
    new_engine sample_options (err Error.engine_not_started) (ok (codes "id")) ≡ ok sample_engine
unfolding new_engine myflowhub_clipboardnode.Config.normalize_config
    myflowhub_clipboardnode.Config.normalize_topic_routes myflowhub_clipboardnode.Base.trim_space
    myflowhub_clipboardnode.Config.check_config myflowhub_clipboardnode.Config.fill_defaults
    myflowhub_clipboardnode.Base.text_eq
new_test = refl

new_engine-IsCoherent_example : IsCoherent (
    run
      (client_transport sample_world)
      sample_envs
      sample_platform
      sample_engine
      (starts ∷ sends (codes "hello") ∷ serves_decision ∷ []))
new_engine-IsCoherent_example =
    new_engine-IsCoherent (client_transport sample_world) sample_envs sample_platform sample_options
      (err Error.engine_not_started) (ok (codes "id")) sample_engine
      (starts ∷ sends (codes "hello") ∷ serves_decision ∷ []) new_test
