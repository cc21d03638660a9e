-- ===== src/Bridge/Guards.antt =====
-- Who gets past the guards of the web endpoints, and what a request that does not can do.
use myflowhub_clipboardnode.Base.{
  ◌≡◌, ◌≢◌, refl, sym, ap, ◌∙◌, inl, inr, Bool, true, false, not, ◌||◌, none, [], ◌∷◌, Text, codes,
  text_eq, is_empty, Bool-cases, if_elim, not-true, not-false, if◌then◌else◌,
}
use myflowhub_clipboardnode.Base.Strings.Laws.{text_eq→eq, text_eq_refl}
use myflowhub_clipboardnode.Bridge.{Host, Outside, status_now, history_entries}
use myflowhub_clipboardnode.Bridge.Web.{
  Request, Reply, reply, empty, message, stream, healthy, status_body, history_body, authorized,
  health, events, status_endpoint, history_endpoint, command_endpoint, run_command, Endpoint,
  at_health, at_status, at_history, at_command, at_events, serve_request,
}

-- The replies that carry nothing of the host.
pub data IsDenial : Reply → Type 0 where
  preflight : IsDenial (reply 204 empty)
  wrong_method : IsDenial (reply 405 (message (codes "method not allowed")))
  unauthorized : IsDenial (reply 401 (message (codes "unauthorized")))

or_second : (a b : Bool) → (a || b) ≡ true → a ≡ false → b ≡ true
or_second true b h e = cc
or_second false b h e = h

or_true : (b : Bool) → (b || true) ≡ true
or_true true = refl
or_true false = refl

module _ {T : Type 0} (outside : Outside T) (token : Text) where
  -- The method that an endpoint serves.
  abbrev pub verb : Endpoint outside token → Text
  verb at_command = codes "POST"
  verb _ = codes "GET"

  -- The token is set, and the request's header or query has it.
  pub data HasToken (r : Request) : Type 0 where
    in_header : token ≢ [] → r.header_token ≡ token → HasToken r
    in_query : token ≢ [] → r.query_token ≡ token → HasToken r

  -- What an endpoint does for a request that it admits.
  abbrev pub serves : Host T → Endpoint outside token → Request → Host T × Reply
  serves h at_health r = (h, reply 200 healthy)
  serves h (at_events true) r = (h, reply 200 stream)
  serves h (at_events false) r = (h, reply 500 (message (codes "streaming unsupported")))
  serves h at_status r = (h, reply 200 (status_body (status_now outside h none)))
  serves h at_history r = (h, reply 200 (history_body (history_entries outside h)))
  serves h at_command r = run_command outside token h r.body

  -- A request is denied, with the host as it was, unless it has the endpoint's method and the token.
  pub data Guards (h : Host T) (e : Endpoint outside token) (r : Request) (o : Host T × Reply)
      : Type 0 where
    denied :
        (a : Reply)
        → IsDenial a
        → o ≡ (h, a)
        → ¬ ((r.method ≡ verb e) × HasToken r)
        → Guards h e r o
    admitted : r.method ≡ verb e → HasToken r → o ≡ serves h e r → Guards h e r o

  has_token :
      (r : Request) (t : Text)
      → (if is_empty t then false else text_eq r.header_token t || text_eq r.query_token t) ≡ true
      → token ≡ t
      → HasToken r
  has_token r [] h same = absurd (cc h)
  has_token r (c ∷ t) h same = elim (Bool-cases (text_eq r.header_token (c ∷ t))) [
    | inl e ↦ in_header (λ n. cc (same, n)) (text_eq→eq _ _ e ∙ sym same)
    | inr e ↦ in_query (λ n. cc (same, n)) (text_eq→eq _ _ (or_second _ _ h e) ∙ sym same)
  ]

  authorized-HasToken : (r : Request) → authorized r token ≡ true → HasToken r
  unfolding authorized
  authorized-HasToken r h = has_token r token h refl

  verb_is_served : (e : Endpoint outside token) → text_eq (verb e) (codes "OPTIONS") ≡ false
  unfolding text_eq
  verb_is_served at_command = refl
  verb_is_served at_health = refl
  verb_is_served at_status = refl
  verb_is_served at_history = refl
  verb_is_served (at_events b) = refl

  not_empty : (t : Text) → t ≢ [] → is_empty t ≡ false
  not_empty [] h = absurd (h refl)
  not_empty (c ∷ t) h = refl

  with_header : (r : Request) → token ≢ [] → r.header_token ≡ token → authorized r token ≡ true
  unfolding authorized
  with_header r set same = rw (not_empty token set, same) (rw (text_eq_refl token) refl)

  with_query : (r : Request) → token ≢ [] → r.query_token ≡ token → authorized r token ≡ true
  unfolding authorized
  with_query r set same =
      rw (not_empty token set, same)
        (rw (text_eq_refl token) (or_true (text_eq r.header_token token)))

  unauthorized-HasToken : (r : Request) → authorized r token ≡ false → ¬ HasToken r
  unauthorized-HasToken r h (in_header set same) = cc (h, with_header r set same)
  unauthorized-HasToken r h (in_query set same) = cc (h, with_query r set same)

  module _ (h : Host T) (e : Endpoint outside token) (r : Request) where
    -- The three guards of an endpoint, which deny a request one after the other.
    denied_preflight : text_eq r.method (codes "OPTIONS") ≡ true → Guards h e r (h, reply 204 empty)
    denied_preflight options =
        denied _ preflight refl
          (λ w. cc (options, ap (λ (t : Text). text_eq t (codes "OPTIONS")) w.0, verb_is_served e))

    denied_method :
        not (text_eq r.method (verb e)) ≡ true
        → Guards h e r (h, reply 405 (message (codes "method not allowed")))
    denied_method other = denied _ wrong_method refl (λ w.
        cc (not-true _ other, ap (λ (t : Text). text_eq t (verb e)) w.0, text_eq_refl (verb e)))

    denied_token :
        not (authorized r token) ≡ true
        → Guards h e r (h, reply 401 (message (codes "unauthorized")))
    denied_token out =
        denied _ unauthorized refl (λ w. unauthorized-HasToken r (not-true _ out) w.1)

    passed :
        (o : Host T × Reply)
        → o ≡ serves h e r
        → not (text_eq r.method (verb e)) ≡ false
        → not (authorized r token) ≡ false
        → Guards h e r o
    passed o served same has =
        admitted (text_eq→eq _ _ (not-false _ same)) (authorized-HasToken r (not-false _ has))
          served

    -- An endpoint that only reads.
    guarded_read :
        (a : Reply)
        → (h, a) ≡ serves h e r
        → Guards h e r (
          h,
          if text_eq r.method (codes "OPTIONS")
              then reply 204 empty
              else if not (text_eq r.method (verb e))
              then reply 405 (message (codes "method not allowed"))
              else if not (authorized r token)
              then reply 401 (message (codes "unauthorized"))
              else a,
        )
    guarded_read a served =
        if_elim (λ (x : Reply). Guards h e r (h, x)) (text_eq r.method (codes "OPTIONS"))
          denied_preflight
          (λ _.
            if_elim (λ (x : Reply). Guards h e r (h, x)) (not (text_eq r.method (verb e)))
              denied_method
              (λ same.
                if_elim (λ (x : Reply). Guards h e r (h, x)) (not (authorized r token)) denied_token
                  (λ has. passed (h, a) served same has)))

  guarded_command :
      (h : Host T) (r : Request) → Guards h at_command r (command_endpoint outside token h r)
  unfolding command_endpoint
  guarded_command h r =
      if_elim (Guards h at_command r) (text_eq r.method (codes "OPTIONS"))
        (denied_preflight h at_command r)
        (λ _.
          if_elim (Guards h at_command r) (not (text_eq r.method (codes "POST")))
            (denied_method h at_command r)
            (λ same.
              if_elim (Guards h at_command r) (not (authorized r token))
                (denied_token h at_command r) (λ has. passed h at_command r _ refl same has)))

  -- A request to any of the five endpoints is denied, with the host as it was and nothing of it told,
  -- or it has the endpoint's method and the token, which is set, in its header or query, and the
  -- endpoint serves it; it is denied only if it lacks one of these.
  pub serve_request-Guards :
      (h : Host T) (e : Endpoint outside token) (r : Request)
      → Guards h e r (serve_request outside token h e r)
  unfolding serve_request health events status_endpoint history_endpoint
  serve_request-Guards h at_health r = guarded_read h at_health r _ refl
  serve_request-Guards h (at_events true) r = guarded_read h (at_events true) r _ refl
  serve_request-Guards h (at_events false) r = guarded_read h (at_events false) r _ refl
  serve_request-Guards h at_status r = guarded_read h at_status r _ refl
  serve_request-Guards h at_history r = guarded_read h at_history r _ refl
  serve_request-Guards h at_command r = guarded_command h r
