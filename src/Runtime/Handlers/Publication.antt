-- ===== src/Runtime/Handlers/Publication.antt =====
-- When a local text is published, and what is published then.
use myflowhub_clipboardnode.Base.{
  ℕ, ◌≤◌, ◌≡◌, refl, ap, sym, ◌∙◌, true, false, none, List, [], ◌∷◌, Text, ok, text_eq, byte_len,
  is_empty, trim_space, arith,
}
use myflowhub_clipboardnode.Base.Strings.Laws.{trim_space_idem}
use myflowhub_clipboardnode.Dedupe.{add, consume, contains}
use myflowhub_clipboardnode.Dedupe.Stale.{consume_lem}
use myflowhub_clipboardnode.Event.{
  Platform, TextEvent, inspect_text, new_text_event_with_digest, marshal_text_event,
  normalize_text_event, hash_text, text_event_name, event_version,
}
use myflowhub_clipboardnode.Event.Digest.{IsInline, digest_of, inspect_text_iff}
use myflowhub_clipboardnode.Event.TextEvents.{normalize_text_event_iff}
use myflowhub_clipboardnode.Runtime.{
  Runtime, Env, Log, Call, Outcome, publish, perform, local_published,
}
use myflowhub_clipboardnode.Runtime.Bus.{publish_all, publish_topics}
use myflowhub_clipboardnode.Runtime.Local.{
  build_options, published, send_payload, send_text, handle_inline, handle_connected,
  handle_local_text, drawn, text_decision,
}
use myflowhub_clipboardnode.Runtime.Handlers.Recorded.{kept-record_decision}
use myflowhub_clipboardnode.Runtime.Handlers.FanOut.{sent_log, publish_all-Publishes, log_of_whole}

module _ (env : Env) (p : Platform) where
  -- The event that the runtime makes of a text under the identifier id.
  abbrev pub event_of : Runtime → Text → Text → TextEvent
  event_of r t id = record {
    version = event_version;
    event_id = trim_space id;
    origin_node = r.node_id;
    origin_instance_id = trim_space r.instance_id;
    origin_device = trim_space r.cfg.device_label;
    text = t;
    size = (digest_of p t).size;
    sha256 = hash_text p t;
  }

  -- The text t was published as the event e, encoded as the payload, to the topics in order.
  pub record IsPublished (r : Runtime) (t : Text) (e : TextEvent) (payload : List ℕ) (o : Outcome)
      : Type 0 where
    pub action : o.1.action ≡ local_published
    pub event_id : o.1.event_id ≡ e.event_id
    pub text : o.1.text ≡ t
    pub no_error : o.2 ≡ none
    pub log : o.0.log ≡ sent_log (publish_topics r.cfg) text_event_name payload r.log
    pub hash : o.0.last_local_hash ≡ hash_text p t
    pub recent : o.0.recent_events ≡ add r.recent_events e.event_id

  -- What lets a text through: it is inline, neither suppressed nor the one last sent, an identifier
  -- can be drawn for a node and an instance, and the event made of it can be encoded.
  pub record IsPublishable (r : Runtime) (t id : Text) (payload : List ℕ) : Type 0 where
    pub enabled : r.cfg.enabled ≡ true
    pub bus : r.has_topic_bus ≡ true
    pub inline : IsInline t r.cfg.max_inline_bytes
    pub unsuppressed : contains r.suppress_hashes (hash_text p t) ≡ false
    pub changed : text_eq (hash_text p t) r.last_local_hash ≡ false
    pub node : 1 ≤ r.node_id
    pub instance_id : is_empty (trim_space r.instance_id) ≡ false
    pub drawn_id : env.new_event_id r.ids_drawn ≡ ok id
    pub id_filled : is_empty (trim_space id) ≡ false
    pub id_short : byte_len (trim_space id) ≤ 128
    pub encoded : p.encode_event (event_of r t id) ≡ ok payload

  event_normal :
      (r : Runtime) (t id : Text) (payload : List ℕ)
      → IsPublishable r t id payload
      → normalize_text_event p (event_of r t id) r.cfg.max_inline_bytes ≡ ok (event_of r t id)
  event_normal r t id payload h =
      (normalize_text_event_iff p (event_of r t id) r.cfg.max_inline_bytes (event_of r t id)).1 (
        record {
          version = refl;
          event_id = (rw trim_space_idem h.id_filled, rw trim_space_idem h.id_short);
          origin_node = h.node;
          instance_id = rw trim_space_idem h.instance_id;
          inline = h.inline;
        },
        λ i. record (event_of r t id) {
          event_id = sym (trim_space_idem id) i;
          origin_instance_id = sym (trim_space_idem r.instance_id) i;
          origin_device = sym (trim_space_idem r.cfg.device_label) i;
        },
      )

  made :
      (r : Runtime) (t id : Text) (payload : List ℕ)
      → IsPublishable r t id payload
      → new_text_event_with_digest p t (digest_of p t) (build_options env p r)
        ≡ ok (event_of r t id)
  unfolding new_text_event_with_digest
  made r t id payload h =
      rw (h.drawn_id, h.instance_id) (ground (arith, event_normal r t id payload h, h.node))

  marshalled :
      (r : Runtime) (t id : Text) (payload : List ℕ)
      → IsPublishable r t id payload
      → marshal_text_event p (event_of r t id) r.cfg.max_inline_bytes ≡ ok payload
  unfolding marshal_text_event
  marshalled r t id payload h = rw (event_normal r t id payload h) h.encoded

  -- A hub that accepts every call lets the loop end, and leaves the recent events alone.
  publish_all-all :
      (r : Runtime) (ts : List Text) (name : Text) (payload : List ℕ)
      → ((l : Log) (c : Call) → env.answer l c ≡ none)
      → ((publish_all env r ts name payload).1 ≡ none)
        × ((publish_all env r ts name payload).0.recent_events ≡ r.recent_events)
  unfolding publish_all perform
  publish_all-all r [] name payload fine = (refl, refl)
  publish_all-all r (t ∷ ts) name payload fine =
      rw (fine r.log (publish t name payload), publish_all)
        (publish_all-all (perform env r (publish t name payload)).0 ts name payload fine)

  sent_text :
      (r : Runtime) (t id : Text) (payload : List ℕ) (ts : List Text)
      → ((l : Log) (c : Call) → env.answer l c ≡ none)
      → IsPublishable r t id payload
      → publish_topics r.cfg ≡ ts
      → IsPublished r t (event_of r t id) payload (send_text env p r ts t (digest_of p t))
  unfolding send_text send_payload published
  sent_text r t id payload ts fine h topics =
      let e = event_of r t id in
      let (done, same) = publish_all-all (drawn env p r) ts text_event_name payload fine in
      let k = kept-record_decision env _ (text_decision env p e ts (digest_of p t) t) in
      rw (made r t id payload h, send_text)
        (rw (marshalled r t id payload h) (
          rw (done, send_payload)
            (record {
              action = refl;
              event_id = refl;
              text = refl;
              no_error = refl;
              log =
                  ap (λ x. x.log) k
                  ∙ log_of_whole env r.log ts text_event_name payload _
                      (publish_all-Publishes env (drawn env p r) ts text_event_name payload) done
                  ∙ ap (λ us. sent_log us text_event_name payload r.log) (sym topics);
              hash = ap (λ x. x.last_local_hash) k;
              recent = ap (λ x. x.recent_events) k ∙ ap (λ x. add x e.event_id) same;
            })))

  -- A local text is published when sync is enabled, there is a hub that accepts every call, some
  -- topic takes local texts, the text is inline and neither suppressed nor the one last sent, the node
  -- is not 0, the instance is not blank, an identifier of 1 to 128 bytes is drawn and the event can be
  -- encoded. It is then reported without an error under that identifier, the encoded event of this
  -- node and instance has gone to every such topic in order and nothing else has, the text's hash is
  -- the one last sent, and the identifier is added to the recent events.
  pub handle_local_text-publishes :
      (r : Runtime) (t id : Text) (payload : List ℕ) (u : Text) (us : List Text)
      → ((l : Log) (c : Call) → env.answer l c ≡ none)
      → IsPublishable r t id payload
      → publish_topics r.cfg ≡ u ∷ us
      → IsPublished r t (event_of r t id) payload (handle_local_text env p r t)
  unfolding handle_local_text handle_connected handle_inline
  handle_local_text-publishes r t id payload u us fine h topics =
      let inspected : inspect_text p t r.cfg.max_inline_bytes ≡ ok (digest_of p t) =
        (inspect_text_iff p t r.cfg.max_inline_bytes (digest_of p t)).1 (h.inline, refl) in
      let unsuppressed : (consume r.suppress_hashes (hash_text p t)).1 ≡ false =
        (consume_lem r.suppress_hashes (hash_text p t) []).0 ∙ h.unsuppressed in
      simp (h.enabled, h.bus)
        (rw (inspected, handle_connected)
          (rw (unsuppressed, h.changed, topics) (sent_text r t id payload (u ∷ us) fine h topics)))
