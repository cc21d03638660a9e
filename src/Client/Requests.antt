-- ===== src/Client/Requests.antt =====
-- Which requests for an identity Register and Login send, and what a successful one leaves.
use mathlib.Core.Path.{subst}
use myflowhub_clipboardnode.Base.{
  ℕ, ◌≡◌, refl, ap, ◌∙◌, true, not, Option, none, some, List, [], ◌∷◌, ◌++◌, Text, codes,
  trim_space, is_empty, ◌==◌, ℤ, pos, eq_ℤ, Result, ok, err, Error, Option-cases, if_elim, inl, inr,
}
use myflowhub_clipboardnode.Base.Strings.Laws.{trim_space_idem}
use myflowhub_clipboardnode.Client.{
  AuthState, RespData, RegisterData, LoginData, Request, register, login, Log, Op, ask, Answer,
  failed, answered, Written, written, write_failed, World, Client, normalize_display_name, note,
  ensure_client, save_auth_snapshot, end_write, make_dir, write_snapshot, read_clock, draw_nonce,
}
use myflowhub_clipboardnode.Client.Auth.{
  Authed, register_data, login_data, set_auth_result, set_auth_snapshot, send_and_await,
  auth_failed, auth_accepted, finish_resp, finish_reply, exchange, register_with, register_node,
  login_with, login_now, login_node, ensure_keys, sign,
}

abbrev of_auth : Request → Option Request
of_auth (register data_sent) = some (register data_sent)
of_auth (login data_sent) = some (login data_sent)
of_auth _ = none

abbrev auth_request : Op → Option Request
auth_request (ask source target request) = of_auth request
auth_request _ = none

abbrev add_request : Option Request → List Request → List Request
add_request none rs = rs
add_request (some r) rs = r ∷ rs

-- The Register and Login requests of a log, newest first.
unfoldable pub requests : Log → List Request
requests [] = []
requests (op ∷ ops) = add_request (auth_request op) (requests ops)

-- A request that registers the device d.
pub data IsRegister (d : Text) : Request → Type 0 where
  is_register : (r : RegisterData) → r.device_id ≡ d → IsRegister d (register r)

-- A request that logs the device d in as the node n.
pub data IsLogin (d : Text) (n : ℕ) : Request → Type 0 where
  is_login : (r : LoginData) → r.device_id ≡ d → r.node_id ≡ n → IsLogin d n (login r)

-- An error, or the state of a client that is logged in for the device d.
pub data Ends {K : Type 0} (d : Text) (o : Authed K) : Type 0 where
  refused : (e : Error) → o.1 ≡ err e → Ends d o
  logged :
      o.1 ≡ ok o.0.auth → trim_space o.0.auth.device_id ≡ d → o.0.auth.logged_in ≡ true → Ends d o

-- One request at most is sent, with the property P.
pub data Tries {K : Type 0} (P : Request → Type 0) (d : Text) (c : Client K) (o : Authed K)
    : Type 0 where
  unsent : (e : Error) → o.1 ≡ err e → requests o.0.log ≡ requests c.log → Tries P d c o
  sent : (r : Request) → P r → requests o.0.log ≡ r ∷ requests c.log → Ends d o → Tries P d c o

module _ {K : Type 0} (world : World K) where
  -- What saving the snapshot keeps.
  pub data Saves (c s : Client K) : Type 0 where
    saves : s.auth ≡ c.auth → requests s.log ≡ requests c.log → Saves c s

  ended-Saves :
      (c s : Client K) (bytes : List ℕ) (w : Written)
      → Saves c s
      → Saves c (end_write world s bytes w).0
  ended-Saves c s bytes written (saves a r) = saves a r
  ended-Saves c s bytes (write_failed t left) (saves a r) = saves a r

  pub save-Saves : (c : Client K) (st : AuthState) → Saves c (save_auth_snapshot world c st).0
  unfolding save_auth_snapshot requests
  save-Saves c st = elim (Option-cases (world.mkdir c.log)) [
    | inl h ↦
        rw (h, save_auth_snapshot)
          (ended-Saves c
            (note (note c make_dir) (write_snapshot (world.encode_auth st ++ codes "\n")))
            (world.encode_auth st ++ codes "\n")
            (world.write (make_dir ∷ c.log) (world.encode_auth st ++ codes "\n")) (saves refl refl))
    | inr (t, h) ↦ rw (h, save_auth_snapshot) (saves refl refl)
  ]

  accepted-Ends :
      (c s : Client K) (d : Text) (t : Client K)
      → Saves s t
      → s.auth.device_id ≡ trim_space d
      → s.auth.logged_in ≡ true
      → Ends (trim_space d) (t, ok t.auth)
  accepted-Ends c s d t (saves same logged_same) owner on =
      logged refl (ap (λ a. trim_space a.device_id) same ∙ ap trim_space owner ∙ trim_space_idem d)
        (ap (λ a. a.logged_in) same ∙ on)

  sent_with :
      (P : Request → Type 0) (c s : Client K) (d : Text) (r : Request) (o : Authed K)
      → P r
      → requests s.log ≡ r ∷ requests c.log
      → requests o.0.log ≡ requests s.log
      → Ends d o
      → Tries P d c o
  sent_with P c s d r o holds before after ends = sent r holds (after ∙ before) ends

  failed-Ends :
      (c : Client K) (action d : Text) (e : Error) (msg : Text)
      → Ends d (auth_failed world c action e msg)
        × (requests (auth_failed world c action e msg).0.log ≡ requests c.log)
  unfolding auth_failed set_auth_result requests
  failed-Ends c action d e msg = (refused e refl, refl)

  accepted_all :
      (c : Client K) (action d : Text) (resp : RespData)
      → Ends (trim_space d) (auth_accepted world c action d resp)
        × (requests (auth_accepted world c action d resp).0.log ≡ requests c.log)
  unfolding auth_accepted set_auth_snapshot requests
  accepted_all c action d resp =
      let s = set_auth_snapshot world c action d resp true in
      let kept = save-Saves s s.auth in (accepted-Ends c s d _ kept refl refl, logs_of _ _ kept)
    where
      logs_of : (s t : Client K) → Saves s t → requests t.log ≡ requests s.log
      logs_of s t (saves a r) = r

  finish_resp_all :
      (c : Client K) (action prefix d : Text) (a : Answer RespData)
      → Ends (trim_space d) (finish_resp world c action prefix d a)
        × (requests (finish_resp world c action prefix d a).0.log ≡ requests c.log)
  unfolding finish_resp
  finish_resp_all c action prefix d (failed t) = failed-Ends c action _ _ t
  finish_resp_all c action prefix d (answered resp) =
      if_elim (λ (o : Authed K). Ends (trim_space d) o × (requests o.0.log ≡ requests c.log))
        (eq_ℤ resp.code (pos 1)) (λ _. accepted_all c action d resp)
        (λ _. failed-Ends c action _ _ _)

  finish_reply_all :
      (action prefix d : Text) (c : Client K) (a : Answer (List ℕ))
      → Ends (trim_space d) (finish_reply world action prefix d (c, a))
        × (requests (finish_reply world action prefix d (c, a)).0.log ≡ requests c.log)
  unfolding finish_reply
  finish_reply_all action prefix d c (failed t) = failed-Ends c action _ _ t
  finish_reply_all action prefix d c (answered bytes) =
      finish_resp_all c action prefix d (world.decode_resp bytes)

  requests-ensure_client : (c : Client K) → requests (ensure_client c).log ≡ requests c.log
  unfolding ensure_client requests
  requests-ensure_client c =
      if_elim (λ (s : Client K). requests s.log ≡ requests c.log) c.session (λ _. refl) (λ _. refl)

  asked :
      (c : Client K) (r : Request)
      → of_auth r ≡ some r
      → requests (send_and_await world c 0 0 r).0.log ≡ r ∷ requests c.log
  unfolding send_and_await requests
  asked c r auth = rw (auth, requests-ensure_client c) refl

  reply-Tries :
      (P : Request → Type 0) (c : Client K) (action prefix d : Text) (r : Request)
      (p : Client K × Answer (List ℕ))
      → P r
      → requests p.0.log ≡ r ∷ requests c.log
      → Tries P (trim_space d) c (finish_reply world action prefix d p)
  reply-Tries P c action prefix d r (s, a) holds before =
      let (ends, after) = finish_reply_all action prefix d s a in sent r holds (after ∙ before) ends

  -- A request for an identity, sent or not.
  exchange-Tries :
      (P : Request → Type 0) (c : Client K) (action prefix d : Text) (r : Request)
      → of_auth r ≡ some r
      → P r
      → Tries P (trim_space d) c (exchange world c action prefix d r)
  unfolding exchange
  exchange-Tries P c action prefix d r auth holds = elim (Option-cases (world.encode_error r)) [
    | inr (t, h) ↦ rw (h, exchange) (unsent _ refl refl)
    | inl h ↦
        rw (h, exchange)
          (reply-Tries P c action prefix d r (send_and_await world c 0 0 r) holds (asked c r auth))
  ]

  register_with-Tries :
      (d name : Text) (s : Client K) (key : Result Text)
      → Tries (IsRegister (trim_space d)) (trim_space d) s (register_with world d name (s, key))
  unfolding register_with register_data
  register_with-Tries d name s (err e) = unsent e refl refl
  register_with-Tries d name s (ok key) =
      exchange-Tries _ s world.register_resp (codes "auth register") d
        (register (register_data d name key)) refl (is_register _ refl)

  login_with-Tries :
      (d name : Text) (n : ℕ) (ts : ℤ) (nonce : Text) (s : Client K) (sig : Result Text)
      → Tries
          (IsLogin (trim_space d) n)
          (trim_space d)
          s
          (login_with world d name n ts nonce (s, sig))
  unfolding login_with login_data
  login_with-Tries d name n ts nonce s (err e) = unsent e refl refl
  login_with-Tries d name n ts nonce s (ok sig) =
      exchange-Tries _ s world.login_resp (codes "auth login") d
        (login (login_data d name n ts nonce sig)) refl (is_login _ refl refl)

  -- A start with the same requests.
  from_same :
      (P : Request → Type 0) (d : Text) (c s : Client K) (o : Authed K)
      → requests s.log ≡ requests c.log
      → Tries P d s o
      → Tries P d c o
  from_same P d c s o same (unsent e h logged_same) = unsent e h (logged_same ∙ same)
  from_same P d c s o same (sent r holds logged_r ends) =
      sent r holds (logged_r ∙ ap (λ rs. r ∷ rs) same) ends

  pub register_node-Tries :
      (c : Client K) (d name : Text)
      → Tries (IsRegister (trim_space d)) (trim_space d) c (register_node world c d name)
  unfolding register_node
  register_node-Tries c d name =
      if_elim (Tries (IsRegister (trim_space d)) (trim_space d) c) (is_empty (trim_space d))
        (λ _. unsent _ refl refl)
        (λ _.
          if_elim (Tries (IsRegister (trim_space d)) (trim_space d) c) (not c.connected)
            (λ _. unsent _ refl refl) (λ _. registering))
    where
      registering : Tries (IsRegister (trim_space d)) (trim_space d) c (
          register_with world
            (trim_space d)
            (normalize_display_name name (trim_space d))
            (ensure_keys world c))
      registering = from_same _ (trim_space d) c (ensure_keys world c).0 _ refl (
          subst
            (λ x. Tries (IsRegister x) x (ensure_keys world c).0 (
              register_with world (trim_space d) (normalize_display_name name (trim_space d))
                (ensure_keys world c)))
            (trim_space_idem d)
            (register_with-Tries (trim_space d) (normalize_display_name name (trim_space d))
              (ensure_keys world c).0 (ensure_keys world c).1))

  login_now-Tries :
      (c : Client K) (d name : Text) (n : ℕ)
      → Tries (IsLogin (trim_space d) n) (trim_space d) c (login_now world c d name n)
  unfolding login_now requests
  login_now-Tries c d name n =
      let drawn = note (note c read_clock) draw_nonce in
      let nonce = world.nonce (read_clock ∷ c.log) in
      let signed = sign world drawn d n (world.now c.log) nonce in
      if_elim (Tries (IsLogin (trim_space d) n) (trim_space d) c) (is_empty nonce)
        (λ _. unsent _ refl refl)
        (λ _.
          from_same _ (trim_space d) c signed.0 _ refl
            (login_with-Tries d name n (world.now c.log) nonce signed.0 signed.1))

  pub login_node-Tries :
      (c : Client K) (d name : Text) (n : ℕ)
      → Tries (IsLogin (trim_space d) n) (trim_space d) c (login_node world c d name n)
  unfolding login_node
  login_node-Tries c d name n =
      if_elim (Tries (IsLogin (trim_space d) n) (trim_space d) c) (is_empty (trim_space d))
        (λ _. unsent _ refl refl)
        (λ _.
          if_elim (Tries (IsLogin (trim_space d) n) (trim_space d) c) (n == 0)
            (λ _. unsent _ refl refl)
            (λ _.
              if_elim (Tries (IsLogin (trim_space d) n) (trim_space d) c) (not c.connected)
                (λ _. unsent _ refl refl)
                (λ _.
                  subst
                    (λ x. Tries (IsLogin x n) x c (
                      login_now world c (trim_space d) (normalize_display_name name (trim_space d))
                        n))
                    (trim_space_idem d)
                    (login_now-Tries c (trim_space d) (normalize_display_name name (trim_space d))
                      n))))
