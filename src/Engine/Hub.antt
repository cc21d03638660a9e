-- ===== src/Engine/Hub.antt =====
-- The transport is the client of core/myflowhub, which is also the runtime's topic bus.
use myflowhub_clipboardnode.Base.{
  ℕ, not, ◌&&◌, ◌||◌, Option, none, some, Text, is_empty, trim_space, Error, if◌then◌else◌, ◌≡◌,
  refl, ◌∙◌, List, [], ◌∷◌, if_elim, Option-cases, inl, inr,
}
use myflowhub_clipboardnode.Runtime.{Call, Log}
use myflowhub_clipboardnode.Client.{
  World, Client, Request, Op, ask, send, read_clock, subscribe, unsubscribe, publish, connect,
  close, clear_auth, status, note, store_last_error, ensure_client,
}
use myflowhub_clipboardnode.Client.Auth.{ensure_identity}
use myflowhub_clipboardnode.Client.Topics.{may_send}
use myflowhub_clipboardnode.Engine.{Transport, after_calls}

module _ {K : Type 0} (world : World K) where
  abbrev keep_error : Client K → Option Error → Client K
  keep_error c none = c
  keep_error c (some e) = store_last_error c e

  -- A request of the topic bus that ended with the answer: it is not sent if it cannot be encoded.
  unfoldable pub after_request : Client K → Request → Op → Option Error → Client K
  unfolding ensure_client
  after_request c request op answer = elim (world.encode_error request) [
    | some t ↦ c
    | none ↦ keep_error (note (ensure_client c) op) answer
  ]

  abbrev ask_of : Client K → Request → Op
  ask_of c request = ask c.auth.node_id c.auth.hub_id request

  -- What Subscribe leaves of the client, given the error that it returns.
  unfoldable pub after_subscribe : Client K → Text → Option Error → Client K
  unfolding after_request
  after_subscribe c topic answer =
      let request = subscribe (trim_space topic) in
      if is_empty (trim_space topic) || not (may_send c.auth)
      then c
      else after_request c request (ask_of c request) answer

  -- What Unsubscribe leaves of the client, given the error that it returns.
  unfoldable pub after_unsubscribe : Client K → Text → Option Error → Client K
  unfolding after_request
  after_unsubscribe c topic answer =
      let request = unsubscribe (trim_space topic) in
      if is_empty (trim_space topic) || not (may_send c.auth && c.connected)
      then c
      else after_request c request (ask_of c request) answer

  abbrev publish_of : Client K → Text → Text → List ℕ → Request
  publish_of c topic name payload = publish (record {
    topic = trim_space topic;
    name = trim_space name;
    ts = world.now_milli c.log;
    payload = payload;
  })

  -- What Publish leaves of the client, given the error that it returns.
  unfoldable pub after_publish : Client K → Text → Text → List ℕ → Option Error → Client K
  unfolding after_request
  after_publish c topic name payload answer =
      let request = publish_of c topic name payload in
      if is_empty (trim_space topic) || (is_empty (trim_space name) || not (may_send c.auth))
      then c
      else after_request (note c read_clock) request (send c.auth.node_id c.auth.hub_id request)
          answer

  -- A call of the runtime; the others are not to the hub.
  unfoldable pub client_called : Client K → Call → Option Error → Client K
  unfolding after_subscribe after_unsubscribe after_publish
  client_called c (Call.subscribe topic) answer = after_subscribe c topic answer
  client_called c (Call.unsubscribe topic) answer = after_unsubscribe c topic answer
  client_called c (Call.publish topic name payload) answer =
      after_publish c topic name payload answer
  client_called c _ answer = c

  abbrev pub client_transport : Transport (Client K)
  client_transport = record {
    connect = connect world;
    ensure_identity = ensure_identity world;
    close = close world;
    clear_auth = clear_auth world;
    status = status;
    called = client_called;
  }

  -- Two states of a client that differ at most in its last error, its session and its log.
  pub record SameLink (c d : Client K) : Type 0 where
    pub auth : d.auth ≡ c.auth
    pub connected : d.connected ≡ c.connected
    pub endpoint : d.endpoint ≡ c.endpoint
    pub keys : d.keys ≡ c.keys
    pub file : d.file ≡ c.file

  pub same_link : (c : Client K) → SameLink c c
  same_link c = record { auth = refl; connected = refl; endpoint = refl; keys = refl; file = refl }

  same_trans : (c d e : Client K) → SameLink c d → SameLink d e → SameLink c e
  same_trans c d e before after = record {
    auth = after.auth ∙ before.auth;
    connected = after.connected ∙ before.connected;
    endpoint = after.endpoint ∙ before.endpoint;
    keys = after.keys ∙ before.keys;
    file = after.file ∙ before.file;
  }

  opened : (c : Client K) → SameLink c (ensure_client c)
  unfolding ensure_client
  opened c =
      if_elim (SameLink c) c.session (λ _. same_link c)
        (λ _. record { auth = refl; connected = refl; endpoint = refl; keys = refl; file = refl })

  noted : (c : Client K) (op : Op) → SameLink c (note c op)
  noted c op = record { auth = refl; connected = refl; endpoint = refl; keys = refl; file = refl }

  kept_link : (c : Client K) (a : Option Error) → SameLink c (keep_error c a)
  kept_link c none = same_link c
  kept_link c (some e) = record {
    auth = refl;
    connected = refl;
    endpoint = refl;
    keys = refl;
    file = refl;
  }

  after_request-SameLink :
      (c : Client K) (request : Request) (op : Op) (answer : Option Error)
      → SameLink c (after_request c request op answer)
  unfolding after_request
  after_request-SameLink c request op answer = elim (Option-cases (world.encode_error request)) [
    | inr (t, h) ↦ rw (h, after_request) (same_link c)
    | inl h ↦
        rw (h, after_request)
          (same_trans c (note (ensure_client c) op) _
            (same_trans c (ensure_client c) _ (opened c) (noted (ensure_client c) op))
            (kept_link _ answer))
  ]

  called-SameLink :
      (c : Client K) (call : Call) (answer : Option Error)
      → SameLink c (client_called c call answer)
  unfolding client_called after_subscribe after_unsubscribe after_publish
  called-SameLink c (Call.subscribe topic) answer =
      if_elim (SameLink c) (is_empty (trim_space topic) || not (may_send c.auth)) (λ _. same_link c)
        (λ _. after_request-SameLink c (subscribe (trim_space topic)) _ answer)
  called-SameLink c (Call.unsubscribe topic) answer =
      if_elim (SameLink c) (is_empty (trim_space topic) || not (may_send c.auth && c.connected))
        (λ _. same_link c) (λ _. after_request-SameLink c (unsubscribe (trim_space topic)) _ answer)
  called-SameLink c (Call.publish topic name payload) answer =
      if_elim (SameLink c)
        (is_empty (trim_space topic) || (is_empty (trim_space name) || not (may_send c.auth)))
        (λ _. same_link c)
        (λ _.
          same_trans c (note c read_clock) _ (noted c read_clock)
            (after_request-SameLink (note c read_clock) (publish_of c topic name payload) _ answer))
  called-SameLink c _ answer = same_link c

  -- The runtime's calls leave the client's identity and connection as they were.
  pub after_calls-SameLink :
      (c : Client K) (l : Log) → SameLink c (after_calls client_transport c l)
  unfolding after_calls
  after_calls-SameLink c [] = same_link c
  after_calls-SameLink c ((call, answer) ∷ l) =
      same_trans c (after_calls client_transport c l) _ (after_calls-SameLink c l)
        (called-SameLink (after_calls client_transport c l) call answer)
