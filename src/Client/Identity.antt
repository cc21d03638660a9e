-- ===== src/Client/Identity.antt =====
-- What EnsureIdentity asks of the hub, and for which device.
use mathlib.Core.Path.{subst}
use myflowhub_clipboardnode.Base.{
  ℕ, ◌≡◌, ◌≢◌, refl, ap, ◌∙◌, Bool, true, false, not, ◌&&◌, ◌||◌, none, some, List, [], ◌∷◌, ◌++◌,
  Text, trim_space, text_eq, is_empty, ◌==◌, ok, err, if_elim, not-false,
}
use myflowhub_clipboardnode.Base.Strings.Laws.{trim_space_idem, text_eq→eq}
use myflowhub_clipboardnode.Client.{
  AuthState, Request, World, Client, Done, no_auth, normalize_display_name, clear_auth,
}
use myflowhub_clipboardnode.Client.Auth.{
  Authed, register_node, login_node, login_registered, identify, cleared, is_stale, ensure_identity,
}
use myflowhub_clipboardnode.Client.Requests.{
  requests, IsRegister, IsLogin, Ends, refused, logged, Tries, unsent, sent, Saves, saves,
  save-Saves, register_node-Tries, login_node-Tries,
}

-- The requests, newest first, that EnsureIdentity may send for the device d from the snapshot st: a
-- login as the snapshot's node only if the snapshot is of d, and otherwise a registration of d and
-- then a login of d as a node that is not zero.
pub data Trail (st : AuthState) (d : Text) : List Request → Type 0 where
  silent : Trail st d []
  resumed :
      (r : Request)
      → trim_space st.device_id ≡ d
      → st.node_id ≢ 0
      → IsLogin d st.node_id r
      → Trail st d (r ∷ [])
  registered : (r : Request) → IsRegister d r → Trail st d (r ∷ [])
  joined :
      (r q : Request) (n : ℕ) → IsRegister d r → n ≢ 0 → IsLogin d n q → Trail st d (q ∷ r ∷ [])

-- EnsureIdentity for the device d: what it sends is a trail as above, and it returns an error or the
-- state of a client that is logged in for d.
pub data Identifies {K : Type 0} (st : AuthState) (d : Text) (c : Client K) (o : Authed K)
    : Type 0 where
  identifies :
      (new : List Request)
      → Trail st d new
      → requests o.0.log ≡ new ++ requests c.log
      → Ends d o
      → Identifies st d c o

pub node_positive : (n : ℕ) → (n == 0) ≡ false → n ≢ 0
node_positive n h = λ e. cc (h, ap (λ (m : ℕ). m == 0) e)

own_device : (a b z : Bool) → ((not a && not b) || (a && not z)) ≡ false → z ≡ false → b ≡ true
own_device true b true h e = cc
own_device true b false h e = cc
own_device false true z h e = refl
own_device false false z h e = cc

module _ {K : Type 0} (world : World K) where
  login_after :
      (st : AuthState) (d : Text) (c s : Client K) (n : ℕ) (r : Request) (o : Authed K)
      → IsRegister d r
      → n ≢ 0
      → requests s.log ≡ r ∷ requests c.log
      → Tries (IsLogin d n) d s o
      → Identifies st d c o
  login_after st d c s n r o is_reg positive before (unsent e h after) =
      identifies (r ∷ []) (registered r is_reg) (after ∙ before) (refused e h)
  login_after st d c s n r o is_reg positive before (sent q is_log after ends) =
      identifies (q ∷ r ∷ []) (joined r q n is_reg positive is_log)
        (after ∙ ap (λ rs. q ∷ rs) before) ends

  after_registration :
      (st : AuthState) (d name : Text) (c : Client K) (o : Authed K)
      → trim_space d ≡ d
      → Tries (IsRegister d) d c o
      → Identifies st d c (login_registered world d name o)
  unfolding login_registered
  after_registration st d name c (s, err e) trimmed (unsent e' h same) =
      identifies [] silent same (refused e refl)
  after_registration st d name c (s, err e) trimmed (sent r is_reg before ends) =
      identifies (r ∷ []) (registered r is_reg) before (refused e refl)
  after_registration st d name c (s, ok a) trimmed (unsent e h same) = absurd (cc h)
  after_registration st d name c (s, ok a) trimmed (sent r is_reg before ends) =
      if_elim (Identifies st d c) (s.auth.node_id == 0)
        (λ _. identifies (r ∷ []) (registered r is_reg) before (refused _ refl))
        (λ e. login_after st d c s s.auth.node_id r _ is_reg (node_positive _ e) before (
          subst
            (λ x. Tries (IsLogin x s.auth.node_id) x s (login_node world s d name s.auth.node_id))
            trimmed (login_node-Tries world s d name s.auth.node_id)))

  resume :
      (st : AuthState) (d : Text) (c : Client K) (o : Authed K)
      → trim_space st.device_id ≡ d
      → st.node_id ≢ 0
      → Tries (IsLogin d st.node_id) d c o
      → Identifies st d c o
  resume st d c o owner positive (unsent e h same) = identifies [] silent same (refused e h)
  resume st d c o owner positive (sent r is_log after ends) =
      identifies (r ∷ []) (resumed r owner positive is_log) after ends

  register_first :
      (st : AuthState) (c : Client K) (d name : Text)
      → trim_space d ≡ d
      → Identifies st d c (login_registered world d name (register_node world c d name))
  register_first st c d name trimmed = after_registration st d name c _ trimmed (
      subst (λ x. Tries (IsRegister x) x c (register_node world c d name)) trimmed
        (register_node-Tries world c d name))

  -- The snapshot is of this device, or it has no node.
  identify_own :
      (c : Client K) (d name : Text)
      → trim_space d ≡ d
      → ((c.auth.node_id == 0) ≡ false → trim_space c.auth.device_id ≡ d)
      → Identifies c.auth d c (identify world c d name)
  unfolding identify
  identify_own c d name trimmed owner =
      if_elim (Identifies c.auth d c) (c.auth.node_id == 0)
        (λ _. register_first c.auth c d name trimmed)
        (λ e.
          if_elim (Identifies c.auth d c) (not c.auth.logged_in)
            (λ _. resume c.auth d c _ (owner e) (node_positive _ e) (
              subst
                (λ x.
                  Tries (IsLogin x c.auth.node_id) x c (login_node world c d name c.auth.node_id))
                trimmed (login_node-Tries world c d name c.auth.node_id)))
            (λ on.
              identifies [] silent refl (logged refl (owner e) (not-false c.auth.logged_in on))))

  from_same :
      (st : AuthState) (d : Text) (c s : Client K) (o : Authed K)
      → requests s.log ≡ requests c.log
      → Identifies st d s o
      → Identifies st d c o
  from_same st d c s o same (identifies new trail logs ends) =
      identifies new trail (logs ∙ ap (λ rs. new ++ rs) same) ends

  -- After ClearAuth there is no node.
  cleared-Identifies :
      (st : AuthState) (c : Client K) (d name : Text) (o : Done K)
      → trim_space d ≡ d
      → Saves world (record c { auth = no_auth }) o.0
      → Identifies st d c (cleared world d name o)
  unfolding identify
  cleared-Identifies st c d name (s, some e) trimmed (saves same logs) =
      identifies [] silent logs (refused _ refl)
  cleared-Identifies st c d name (s, none) trimmed (saves same logs) =
      if_elim (Identifies st d c) (s.auth.node_id == 0)
        (λ _. from_same st d c s _ logs (register_first st s d name trimmed))
        (λ e. absurd (cc (e, ap (λ (a : AuthState). a.node_id == 0) same)))

  not_stale :
      (st : AuthState) (d : Text)
      → is_stale st d ≡ false
      → (st.node_id == 0) ≡ false
      → trim_space st.device_id ≡ d
  not_stale st d h e = text_eq→eq (trim_space st.device_id) d (
      own_device (is_empty (trim_space st.device_id)) (text_eq (trim_space st.device_id) d)
        (st.node_id == 0) h e)

  -- EnsureIdentity sends a trail of requests for the given device alone, and either fails or leaves
  -- the client logged in for that device: a node of another device, or of no device, is never reused.
  pub ensure_identity-Identifies :
      (c : Client K) (d name : Text)
      → Identifies c.auth (trim_space d) c (ensure_identity world c d name)
  unfolding ensure_identity clear_auth
  ensure_identity-Identifies c d name =
      let device = trim_space d in
      if_elim (Identifies c.auth device c) (is_empty device)
        (λ _. identifies [] silent refl (refused _ refl))
        (λ _.
          if_elim (Identifies c.auth device c) (is_stale c.auth device)
            (λ _.
              cleared-Identifies c.auth c device (normalize_display_name name device) _
                (trim_space_idem d) (save-Saves world (record c { auth = no_auth }) no_auth))
            (λ own.
              identify_own c device (normalize_display_name name device) (trim_space_idem d)
                (not_stale c.auth device own)))
