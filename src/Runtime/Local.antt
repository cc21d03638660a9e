-- ===== src/Runtime/Local.antt =====
-- HandleLocalText, publishTransferManifest and the clipboard watcher's loop.
use myflowhub_clipboardnode.Base.{
  ℕ, suc, Bool, not, ◌&&◌, ◌||◌, ◌==◌, trim_space, none, some, List, [], ◌∷◌, Text, codes, text_eq,
  is_empty, if◌then◌else◌, Error, Result, ok, err, true, false, wrapped, topicbus_required,
}
use myflowhub_clipboardnode.Dedupe.{add, consume}
use myflowhub_clipboardnode.Event.{
  Platform, TextEvent, TextDigest, Manifest, BuildEventOptions, inspect_text, inspect_text_content,
  new_text_event_with_digest, marshal_text_event, new_manifest, marshal_manifest, text_event_name,
  transfer_event_name,
}
use myflowhub_clipboardnode.Runtime.{
  Runtime, Env, Decision, Action, Outcome, decision, decide, fail_with, record_failure, hash_prefix,
  disabled, transport_failed, validation_failed, transfer_unsupported, transfer_published,
  ignored_local_policy, ignored_loop, ignored_unchanged, local_published,
}
use myflowhub_clipboardnode.Runtime.Bus.{publish_topics, publish_all, topic_list_label}

abbrev is_ok : Result Text → Bool
is_ok (ok t) = true
is_ok (err e) = false

-- A decision about a text of which only the digest is told.
abbrev pub about : Action → Text → Text → TextDigest → Decision
about a id topic d = record {
  action = a;
  event_id = id;
  topic = topic;
  size = d.size;
  hash_prefix = hash_prefix d.sha256;
  text = [];
}

module _ (env : Env) (p : Platform) where
  -- The next identifier and reading of the clock.
  abbrev pub build_options : Runtime → BuildEventOptions
  build_options r = record {
    origin_node = r.node_id;
    origin_instance_id = r.instance_id;
    origin_device = r.cfg.device_label;
    max_inline_bytes = r.cfg.max_inline_bytes;
    now_ms = env.now r.clock_reads;
    event_id = env.new_event_id r.ids_drawn;
  }

  -- An identifier is drawn for a node and an instance only.
  abbrev draws : Runtime → Bool
  draws r = not (r.node_id == 0 || is_empty (trim_space r.instance_id))

  -- After the making of an event; for a manifest the clock is read once the identifier is there.
  abbrev pub drawn : Runtime → Runtime
  drawn r = record r { ids_drawn = if draws r then suc r.ids_drawn else r.ids_drawn }

  abbrev pub drawn_timed : Runtime → Runtime
  drawn_timed r = record (drawn r) {
    clock_reads =
        if draws r && is_ok (env.new_event_id r.ids_drawn)
        then suc r.clock_reads
        else r.clock_reads;
  }

  -- After all topics were published to.
  unfoldable pub published : Runtime → Decision → TextDigest → Outcome
  published r d digest =
      decide env
        (record r {
          last_local_hash = digest.sha256;
          recent_events = add r.recent_events d.event_id;
        })
        d

  unfoldable pub send_payload :
      Runtime → List Text → Text → List ℕ → TextDigest → Decision → Text → Outcome
  unfolding published
  send_payload r targets name payload digest d what =
      let sent = publish_all env r targets name payload in
      elim sent.1 [
        | some (t, e) ↦
            fail_with env sent.0 (about transport_failed d.event_id t digest) e (wrapped what t e)
        | none ↦ published sent.0 d digest
      ]

  abbrev pub manifest_decision : Manifest → List Text → TextDigest → Decision
  manifest_decision m targets digest =
      about transfer_published m.event_id (topic_list_label targets) digest

  unfoldable pub send_manifest : Runtime → List Text → TextDigest → Outcome
  unfolding send_payload
  send_manifest r targets digest =
      elim (new_manifest p digest
        (record { provider = r.cfg.transfer_provider; opaque_id = r.cfg.transfer_ref; uri = [] }
          ∷ [])
        (build_options r)) [
          | err e ↦ fail_with env (drawn_timed r) (about validation_failed [] [] digest) e e
          | ok m ↦ elim (marshal_manifest p m) [
            | err e ↦
                fail_with env (drawn_timed r) (about validation_failed m.event_id [] digest) e e
            | ok payload ↦
                send_payload (drawn_timed r) targets transfer_event_name payload digest
                  (manifest_decision m targets digest) (codes "publish clipboard transfer manifest")
          ]
        ]

  -- publishTransferManifest
  unfoldable pub publish_transfer_manifest : Runtime → TextDigest → Error → Outcome
  unfolding send_manifest
  publish_transfer_manifest r digest cause =
      let e = wrapped (codes "transfer is not configured") [] cause in
      let targets = publish_topics r.cfg in
      if is_empty r.cfg.transfer_provider || is_empty r.cfg.transfer_ref
      then fail_with env r (about transfer_unsupported [] [] digest) e e
      else if not r.has_topic_bus
      then fail_with env r (about transport_failed [] [] digest) topicbus_required topicbus_required
      else elim targets [
        | [] ↦ decide env r (about ignored_local_policy [] [] digest)
        | t ∷ ts ↦ send_manifest r (t ∷ ts) digest
      ]

  abbrev pub text_decision : TextEvent → List Text → TextDigest → Text → Decision
  text_decision e targets digest t =
      record (about local_published e.event_id (topic_list_label targets) digest) { text = t }

  unfoldable pub send_text : Runtime → List Text → Text → TextDigest → Outcome
  unfolding send_payload
  send_text r targets t digest = elim (new_text_event_with_digest p t digest (build_options r)) [
    | err e ↦ fail_with env (drawn r) (about validation_failed [] [] digest) e e
    | ok out ↦ elim (marshal_text_event p out r.cfg.max_inline_bytes) [
      | err e ↦ fail_with env (drawn r) (about validation_failed out.event_id [] digest) e e
      | ok payload ↦
          send_payload (drawn r) targets text_event_name payload digest
            (text_decision out targets digest t) (codes "publish clipboard event")
    ]
  ]

  -- HandleLocalText for a text that is accepted inline.
  unfoldable pub handle_inline : Runtime → Text → TextDigest → Outcome
  unfolding send_text
  handle_inline r t digest =
      let found = consume r.suppress_hashes digest.sha256 in
      let consumed = record r { suppress_hashes = found.0 } in
      if found.1
      then decide env consumed (about ignored_loop [] [] digest)
      else if text_eq digest.sha256 r.last_local_hash
      then decide env r (about ignored_unchanged [] [] digest)
      else elim (publish_topics r.cfg) [
        | [] ↦ decide env r (about ignored_local_policy [] [] digest)
        | u ∷ us ↦ send_text r (u ∷ us) t digest
      ]

  unfoldable pub handle_connected : Runtime → Text → Outcome
  unfolding handle_inline publish_transfer_manifest
  handle_connected r t = elim (inspect_text p t r.cfg.max_inline_bytes) [
    | ok digest ↦ handle_inline r t digest
    | err e ↦ elim (inspect_text_content p t) [
      | err _ ↦ fail_with env r (decision validation_failed) e e
      | ok digest ↦ publish_transfer_manifest r digest e
    ]
  ]

  -- HandleLocalText
  unfoldable pub handle_local_text : Runtime → Text → Outcome
  unfolding handle_connected
  handle_local_text r t =
      if not r.cfg.enabled
      then decide env r (decision disabled)
      else if not r.has_topic_bus
      then fail_with env r (decision transport_failed) topicbus_required topicbus_required
      else handle_connected r t

  -- What the watcher delivers: a text, or an error of the adapter.
  pub data WatchEvent : Type 0 where
    observed : Text → WatchEvent
    failed : Error → WatchEvent

  -- One round of runClipboardWatcher.
  unfoldable pub watch_step : Runtime → WatchEvent → Runtime
  unfolding handle_local_text
  watch_step r (observed t) = (handle_local_text r t).0
  watch_step r (failed e) = record_failure env r (decision validation_failed) e
