-- ===== src/Engine/Updates.antt =====
-- UpdateConfig over the client: the same device keeps its identity, another one loses it.
use myflowhub_clipboardnode.Base.{
  ℕ, ◌≡◌, refl, sym, true, false, not, Option, none, some, text_eq, ok, err, Error, if_elim, inl,
  inr, Result-cases, not-true, not-false,
}
use myflowhub_clipboardnode.Config.{Config, normalize_config}
use myflowhub_clipboardnode.Runtime.{Runtime, Env}
use myflowhub_clipboardnode.Runtime.Lifecycle.{update_config}
use myflowhub_clipboardnode.Client.{World, Client, no_auth}
use myflowhub_clipboardnode.Client.Closing.{IsDown, close-IsDown, clear_auth-IsDown}
use myflowhub_clipboardnode.Engine.{
  Engine, Done, Transport, record_if, stop_engine, stop_runtime, change_identity, forget,
  update_runtime, update_normalized, update_engine,
}
use myflowhub_clipboardnode.Engine.Hub.{client_transport, SameLink, same_link, after_calls-SameLink}

-- An engine that neither runs nor holds a runtime, over a client that is down.
pub data IsIdle {K : Type 0} (e : Engine (Client K)) : Type 0 where
  is_idle : e.started ≡ false → e.runtime ≡ none → IsDown e.transport → IsIdle e

-- What becomes of the runtime under the configuration cfg, and the error m that this gives.
pub data Took (env : Env) (cfg : Config) (old now : Option Runtime) (m : Option Error)
    : Type 0 where
  no_runtime : old ≡ none → now ≡ none → m ≡ none → Took env cfg old now m
  took :
      (rt : Runtime)
      → old ≡ some rt
      → now ≡ some (update_config env rt cfg).0
      → m ≡ (update_config env rt cfg).1
      → Took env cfg old now m

-- What UpdateConfig does: it refuses the configuration, keeps the device and with it what the client
-- is connected and logged in as, or changes the device.
pub data Updates {K : Type 0} (world : World K) (envs : ℕ → Env) (e : Engine (Client K))
    (given : Config) (o : Done (Client K)) : Type 0 where
  rejected :
      (failure : Error)
      → normalize_config given ≡ err failure
      → o ≡ (e, some failure)
      → Updates world envs e given o
  same_device :
      (cfg : Config)
      → normalize_config given ≡ ok cfg
      → text_eq e.cfg.device_id cfg.device_id ≡ true
      → o.0.cfg ≡ cfg
      → SameLink world e.transport o.0.transport
      → o.0.started ≡ e.started
      → Took (envs e.run) cfg e.runtime o.0.runtime o.1
      → Updates world envs e given o
  new_device :
      (cfg : Config)
      → normalize_config given ≡ ok cfg
      → text_eq e.cfg.device_id cfg.device_id ≡ false
      → o.1 ≡ none
      → o.0.cfg ≡ cfg
      → o.0.transport.auth ≡ no_auth
      → IsIdle o.0
      → Updates world envs e given o
  not_changed :
      (cfg : Config) (failure : Error)
      → normalize_config given ≡ ok cfg
      → text_eq e.cfg.device_id cfg.device_id ≡ false
      → o.1 ≡ some failure
      → o.0.cfg ≡ e.cfg
      → IsIdle o.0
      → Updates world envs e given o

module _ {K : Type 0} (world : World K) (envs : ℕ → Env) where
  abbrev hub : Transport (Client K)
  hub = client_transport world

  data Stopped (e : Engine (Client K)) (o : Done (Client K)) : Type 0 where
    is_stopped : o.0.cfg ≡ e.cfg → IsIdle o.0 → Stopped e o

  recorded-Stopped :
      (e s : Engine (Client K)) (failure : Option Error)
      → s.cfg ≡ e.cfg
      → IsIdle s
      → Stopped e (record_if s failure, failure)
  recorded-Stopped e s none same idle = is_stopped same idle
  recorded-Stopped e s (some failure) same (is_idle a b c) = is_stopped same (is_idle a b c)

  -- Stop leaves the engine idle, whether it returns an error or not.
  stop_engine-Stopped : (e : Engine (Client K)) → Stopped e (stop_engine hub envs e)
  unfolding stop_engine
  stop_engine-Stopped e =
      recorded-Stopped e _ _ refl
        (is_idle refl refl (close-IsDown world (stop_runtime hub envs e e.runtime).0))

  forget-Updates :
      (e s : Engine (Client K)) (given cfg : Config) (m : Option Error)
      → normalize_config given ≡ ok cfg
      → text_eq e.cfg.device_id cfg.device_id ≡ false
      → s.cfg ≡ e.cfg
      → s.transport.auth ≡ no_auth
      → IsIdle s
      → Updates world envs e given (forget hub envs cfg (s, m))
  forget-Updates e s given cfg none h differs same gone (is_idle a b c) =
      new_device cfg h differs refl refl gone (is_idle a b c)
  forget-Updates e s given cfg (some failure) h differs same gone (is_idle a b c) =
      not_changed cfg failure h differs refl same (is_idle a b c)

  change-Updates :
      (e : Engine (Client K)) (given cfg : Config) (o : Done (Client K))
      → normalize_config given ≡ ok cfg
      → text_eq e.cfg.device_id cfg.device_id ≡ false
      → Stopped e o
      → Updates world envs e given (change_identity hub envs cfg o)
  unfolding change_identity
  change-Updates e given cfg (s, some failure) h differs (is_stopped same (is_idle a b c)) =
      not_changed cfg failure h differs refl same (is_idle a b c)
  change-Updates e given cfg (s, none) h differs (is_stopped same (is_idle a b down)) =
      let (still, gone) = clear_auth-IsDown world s.transport down in
      forget-Updates e (record s { transport = (hub.clear_auth s.transport).0 }) given cfg
        (hub.clear_auth s.transport).1 h differs same gone (is_idle a b still)

  kept-Updates :
      (e s : Engine (Client K)) (given cfg : Config) (m : Option Error)
      → normalize_config given ≡ ok cfg
      → text_eq e.cfg.device_id cfg.device_id ≡ true
      → s.cfg ≡ cfg
      → SameLink world e.transport s.transport
      → s.started ≡ e.started
      → Took (envs e.run) cfg e.runtime s.runtime m
      → Updates world envs e given (record_if s m, m)
  kept-Updates e s given cfg none h same a b c d = same_device cfg h same a b c d
  kept-Updates e s given cfg (some failure) h same a b c d = same_device cfg h same a b c d

  runtime-Updates :
      (e : Engine (Client K)) (given cfg : Config) (r : Option Runtime)
      → normalize_config given ≡ ok cfg
      → text_eq e.cfg.device_id cfg.device_id ≡ true
      → r ≡ e.runtime
      → Updates world envs e given (update_runtime hub envs (record e { cfg = cfg }) cfg r)
  unfolding update_runtime
  runtime-Updates e given cfg none h same there =
      same_device cfg h same refl (same_link world e.transport) refl
        (no_runtime (sym there) (sym there) refl)
  runtime-Updates e given cfg (some rt) h same there =
      kept-Updates e _ given cfg _ h same refl (after_calls-SameLink world e.transport _) refl
        (took rt (sym there) refl refl)

  -- UpdateConfig over the client: a configuration that does not normalise changes nothing; one with
  -- the same device is adopted and handed to the runtime, if there is one, whose error is returned; it
  -- leaves whether the engine runs as it
  -- was, and of the client its identity, connection, keys and snapshot file; one with another device stops the engine, with the client closed and
  -- logged out, and is adopted only once the old identity is cleared, else the error is returned.
  pub update_engine-Updates :
      (e : Engine (Client K)) (given : Config)
      → Updates world envs e given (update_engine hub envs e given)
  unfolding update_engine update_normalized
  update_engine-Updates e given = elim (Result-cases (normalize_config given)) [
    | inr (failure, h) ↦ rw (h, update_engine) (rejected failure h refl)
    | inl (cfg, h) ↦
        rw (h, update_engine)
          (if_elim (Updates world envs e given) (not (text_eq e.cfg.device_id cfg.device_id))
            (λ differs.
              change-Updates e given cfg (stop_engine hub envs e) h (not-true _ differs)
                (stop_engine-Stopped e))
            (λ same. runtime-Updates e given cfg e.runtime h (not-false _ same) refl))
  ]
