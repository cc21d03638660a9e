-- ===== src/Engine/Startup.antt =====
-- Start over the client: what a start that succeeds serves, and what one that fails leaves.
use myflowhub_clipboardnode.Base.{
  ℕ, ◌≡◌, ◌≢◌, true, false, none, some, codes, [], trim_space, ok, Error, wrapped,
}
use myflowhub_clipboardnode.Config.{normalize_config}
use myflowhub_clipboardnode.Runtime.{Runtime, Env}
use myflowhub_clipboardnode.Runtime.Sync.Follows.{Follows}
use myflowhub_clipboardnode.Runtime.Sync.Follows
use myflowhub_clipboardnode.Runtime.Sync.Named
use myflowhub_clipboardnode.Client.{AuthState, World, Client, connect}
use myflowhub_clipboardnode.Client.Closing.{IsDown}
use myflowhub_clipboardnode.Engine.{Engine, Done, Transport}
use myflowhub_clipboardnode.Engine.Hub.{client_transport}

-- The runtime rt, made for the engine e, serves the node that the client is logged in as.
pub record Serves {T : Type 0} (e : Engine T) (st : AuthState) (rt : Runtime) : Type 0 where
  pub node : rt.node_id ≡ st.node_id
  pub positive : st.node_id ≢ 0
  pub logged_in : st.logged_in ≡ true
  pub device : trim_space st.device_id ≡ trim_space e.cfg.device_id
  pub instance_same : rt.instance_id ≡ e.instance_id
  pub config : normalize_config e.cfg ≡ ok rt.cfg
  pub started : rt.started ≡ true
  pub follows : Follows rt

-- What Start does, of an engine e: nothing when it runs; else it fails to connect, or fails later and
-- closes the client, in both cases without a runtime of its own; or it serves.
pub data Starts {K : Type 0} (world : World K) (e : Engine (Client K)) (o : Done (Client K))
    : Type 0 where
  running : e.started ≡ true → o ≡ (e, none) → Starts world e o
  unreachable :
      (failure : Error)
      → (connect world e.transport e.cfg.parent_endpoint).1 ≡ some failure
      → o.1 ≡ some (wrapped (codes "connect myflowhub") [] failure)
      → o.0.started ≡ false
      → o.0.runtime ≡ e.runtime
      → Starts world e o
  abandoned :
      (failure : Error)
      → o.1 ≡ some failure
      → o.0.started ≡ false
      → o.0.runtime ≡ e.runtime
      → IsDown o.0.transport
      → Starts world e o
  up :
      (rt : Runtime)
      → o.1 ≡ none
      → o.0.started ≡ true
      → o.0.runtime ≡ some rt
      → Serves e o.0.transport.auth rt
      → Starts world e o

-- Two engines with the same configuration, instance and runtime, neither started.
data Alike {T : Type 0} (e s : Engine T) : Type 0 where
  alike :
      s.cfg ≡ e.cfg
      → s.instance_id ≡ e.instance_id
      → s.runtime ≡ e.runtime
      → s.started ≡ false
      → Alike e s

module _ {K : Type 0} (world : World K) (envs : ℕ → Env) where
  abbrev hub : Transport (Client K)
  hub = client_transport world
