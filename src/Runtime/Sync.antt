-- ===== src/Runtime/Sync.antt =====
-- The topics subscribed at the hub, as the calls and their answers tell, and what the loops of
-- subscribeTopics and unsubscribeTopics do to them.
pub mod Follows
pub mod Updates
pub mod Stops
pub mod Named
use myflowhub_clipboardnode.Base.{
  ℕ, ◌≡◌, refl, ap, sym, ◌∙◌, inl, inr, Bool, true, false, not, ◌&&◌, ◌||◌, Option, none, some,
  List, [], ◌∷◌, Text, text_eq, Error, arith, wrapped, joined, Bool-cases, Option-cases,
  if◌then◌else◌, codes,
}
use myflowhub_clipboardnode.Base.Strings.Laws.{text_eq_iff}
use myflowhub_clipboardnode.Dedupe.{member}
use myflowhub_clipboardnode.Config.{Config}
use myflowhub_clipboardnode.Runtime.{Runtime, Env, Log, Call, subscribe, unsubscribe, perform}
use myflowhub_clipboardnode.Runtime.Bus.{
  subscription_topics, minus, topics_to_subscribe, topics_to_unsubscribe, join_errors,
  subscribe_loop, unsubscribe_loop, subscribe_topics, unsubscribe_topics, failed_with,
}

-- A topic is active when the last call for it that succeeded was a subscription.
abbrev pub active : Text → Log → Bool
active t [] = false
active t ((subscribe u, none) ∷ l) = if text_eq u t then true else active t l
active t ((unsubscribe u, none) ∷ l) = if text_eq u t then false else active t l
active t (_ ∷ l) = active t l

member-minus :
    (t : Text) (ts us : List Text) → member t (minus ts us) ≡ (member t ts && not (member t us))
unfolding member minus
member-minus t [] us = refl
member-minus t (u ∷ ts) us =
    ground (arith, member-minus t ts us, text_eq_iff u t, Bool-cases (member u us))

-- The topics to subscribe and to unsubscribe turn those of one configuration into those of the next.
pub switch-topics :
    (previous next : Config) (t : Text)
    → (not (member t (topics_to_unsubscribe previous next))
        && (member t (topics_to_subscribe previous next)
            || (previous.enabled && member t (subscription_topics previous))))
      ≡ (next.enabled && member t (subscription_topics next))
unfolding topics_to_subscribe topics_to_unsubscribe member
switch-topics previous next t = ground (
  arith,
  Bool-cases previous.enabled,
  Bool-cases next.enabled,
  member-minus t (subscription_topics next) (subscription_topics previous),
  member-minus t (subscription_topics previous) (subscription_topics next),
)

not-or : (a b c : Bool) → (not b && (if a then false else c)) ≡ (not (a || b) && c)
not-or true true c = refl
not-or true false c = refl
not-or false b c = refl

module _ (env : Env) where
  pub data Subscribes (r : Runtime) (ts : List Text) (o : Runtime × List Text × Option Error)
      : Type 0 where
    refused : (e : Error) → o.2 ≡ some e → Subscribes r ts o
    taken :
        o.2 ≡ none
        → o.0 ≡ record r { log = o.0.log }
        → ((t : Text) → active t o.0.log ≡ (member t ts || active t r.log))
        → Subscribes r ts o

  subscribe_more :
      (r : Runtime) (u : Text) (ts : List Text) (o : Runtime × List Text × Option Error)
      → env.answer r.log (subscribe u) ≡ none
      → Subscribes (perform env r (subscribe u)).0 ts o
      → Subscribes r (u ∷ ts) (o.0, u ∷ o.1, o.2)
  unfolding perform member
  subscribe_more r u ts o fine (refused e h) = refused e h
  subscribe_more r u ts o fine (taken h frame now) =
      taken h frame
        (λ t. now t ∙ rw fine (ground (arith, Bool-cases (text_eq u t), Bool-cases (member t ts))))

  subscribe_loop-Subscribes :
      (r : Runtime) (ts : List Text) → Subscribes r ts (subscribe_loop env r ts)
  unfolding subscribe_loop perform member
  subscribe_loop-Subscribes r [] = taken refl refl (λ t. refl)
  subscribe_loop-Subscribes r (u ∷ ts) = elim (Option-cases (env.answer r.log (subscribe u))) [
    | inl fine ↦
        rw (fine, subscribe_loop)
          (subscribe_more r u ts _ fine
            (subscribe_loop-Subscribes (perform env r (subscribe u)).0 ts))
    | inr (e, failed) ↦ rw (failed, subscribe_loop) (refused _ refl)
  ]

  pub data Unsubscribes (r : Runtime) (ts : List Text) (o : Runtime × List Error) : Type 0 where
    partly : (e : Error) (es : List Error) → o.1 ≡ e ∷ es → Unsubscribes r ts o
    wholly :
        o.1 ≡ []
        → o.0 ≡ record r { log = o.0.log }
        → ((t : Text) → active t o.0.log ≡ (not (member t ts) && active t r.log))
        → Unsubscribes r ts o

  unsubscribe_more :
      (r : Runtime) (u : Text) (ts : List Text) (o : Runtime × List Error)
      → env.answer r.log (unsubscribe u) ≡ none
      → Unsubscribes (perform env r (unsubscribe u)).0 ts o
      → Unsubscribes r (u ∷ ts) o
  unfolding perform member
  unsubscribe_more r u ts o fine (partly e es h) = partly e es h
  unsubscribe_more r u ts o fine (wholly h frame now) =
      wholly h frame (λ t. now t ∙ rw fine (not-or (text_eq u t) (member t ts) (active t r.log)))

  unsubscribe_step :
      (r : Runtime) (u : Text) (ts : List Text) (o : Runtime × List Error) (a : Option Error)
      → env.answer r.log (unsubscribe u) ≡ a
      → Unsubscribes (perform env r (unsubscribe u)).0 ts o
      → Unsubscribes r (u ∷ ts) (o.0, failed_with env u a o.1)
  unsubscribe_step r u ts o none answered rest = unsubscribe_more r u ts o answered rest
  unsubscribe_step r u ts o (some e) answered rest = partly _ _ refl

  unsubscribe_loop-Unsubscribes :
      (r : Runtime) (ts : List Text) → Unsubscribes r ts (unsubscribe_loop env r ts)
  unfolding unsubscribe_loop perform member
  unsubscribe_loop-Unsubscribes r [] = wholly refl refl (λ t. refl)
  unsubscribe_loop-Unsubscribes r (u ∷ ts) =
      unsubscribe_step r u ts _ (env.answer r.log (unsubscribe u)) refl
        (unsubscribe_loop-Unsubscribes (perform env r (unsubscribe u)).0 ts)

  -- What unsubscribeTopics leaves when it returns nil; with a hub it then unsubscribed every topic.
  pub data Leaves (r : Runtime) (ts : List Text) (o : Runtime × Option Error) : Type 0 where
    failed_at : (e : Error) → o.1 ≡ some e → Leaves r ts o
    left :
        o.1 ≡ none
        → o.0 ≡ record r { log = o.0.log }
        → ((t : Text) → active t o.0.log ≡ (not (member t ts) && active t r.log))
        → Leaves r ts o

  of_errors :
      (r : Runtime) (ts : List Text) (o : Runtime × List Error)
      → Unsubscribes r ts o
      → Leaves r ts (o.0, join_errors o.1)
  unfolding join_errors
  of_errors r ts o (wholly h frame now) = left (ap join_errors h) frame now
  of_errors r ts o (partly e es h) = elim (Option-cases (join_errors es)) [
    | inl alone ↦ failed_at e (ap join_errors h ∙ rw (alone, join_errors) refl)
    | inr (f, more) ↦ failed_at (joined e f) (ap join_errors h ∙ rw (more, join_errors) refl)
  ]

  pub unsubscribe_topics-Leaves :
      (r : Runtime) (ts : List Text)
      → r.has_topic_bus ≡ true
      → Leaves r ts (unsubscribe_topics env r ts)
  unfolding unsubscribe_topics
  unsubscribe_topics-Leaves r ts bus =
      simp bus (of_errors r ts _ (unsubscribe_loop-Unsubscribes r ts))

  pub subscribe_topics-Subscribes :
      (r : Runtime) (ts : List Text) → Subscribes r ts (subscribe_topics env r ts)
  unfolding subscribe_topics
  subscribe_topics-Subscribes r ts = elim (Bool-cases r.has_topic_bus) [
    | inl bus ↦ simp bus (subscribe_loop-Subscribes r ts)
    | inr alone ↦ simp alone (refused _ refl)
  ]
