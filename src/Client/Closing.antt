-- ===== src/Client/Closing.antt =====
-- Close, which also forgets that the client was logged in.
use myflowhub_clipboardnode.Base.{
  ◌≡◌, refl, Bool, true, false, none, some, List, ℕ, [], ◌∷◌, ◌++◌, codes, Option-cases, inl, inr,
}
use myflowhub_clipboardnode.Client.{
  AuthState, World, Client, Done, Written, written, write_failed, note, make_dir, write_snapshot,
  save_auth_snapshot, end_write, end_close, close, close_session_if, clear_auth, no_auth,
}
use myflowhub_clipboardnode.Client.Requests.{Saves, saves, save-Saves}

-- A client that is not connected and not logged in.
pub data IsDown {K : Type 0} (c : Client K) : Type 0 where
  is_down : c.session ≡ false → c.connected ≡ false → c.auth.logged_in ≡ false → IsDown c

module _ {K : Type 0} (world : World K) where
  written-IsDown :
      (c : Client K) (bytes : List ℕ) (w : Written)
      → IsDown c
      → IsDown (end_write world c bytes w).0
  written-IsDown c bytes written (is_down s n l) = is_down s n l
  written-IsDown c bytes (write_failed t left) (is_down s n l) = is_down s n l

  save-IsDown :
      (c : Client K) (st : AuthState) → IsDown c → IsDown (save_auth_snapshot world c st).0
  unfolding save_auth_snapshot
  save-IsDown c st (is_down s n l) = elim (Option-cases (world.mkdir c.log)) [
    | inl h ↦
        rw (h, save_auth_snapshot)
          (written-IsDown
            (note (note c make_dir) (write_snapshot (world.encode_auth st ++ codes "\n")))
            (world.encode_auth st ++ codes "\n")
            (world.write (make_dir ∷ c.log) (world.encode_auth st ++ codes "\n")) (is_down s n l))
    | inr (t, h) ↦ rw (h, save_auth_snapshot) (is_down s n l)
  ]

  end_close-IsDown : (o : Done K) → IsDown o.0 → IsDown (end_close world o).0
  end_close-IsDown (c, none) d = d
  end_close-IsDown (c, some e) (is_down s n l) = is_down s n l

  session_off :
      (b : Bool) (c : Client K) → c.session ≡ false → (close_session_if world b c).session ≡ false
  session_off true c h = h
  session_off false c h = h

  -- Close leaves the client down, even when the snapshot cannot be saved.
  pub close-IsDown : (c : Client K) → IsDown (close world c).0
  unfolding close
  close-IsDown c = end_close-IsDown _ (
      save-IsDown _ _ (
        is_down (session_off c.session (record c { session = false; endpoint = [] }) refl) refl
          refl))

  -- ClearAuth leaves a client that is down so, and without an identity.
  pub clear_auth-IsDown :
      (c : Client K)
      → IsDown c
      → IsDown (clear_auth world c).0 × ((clear_auth world c).0.auth ≡ no_auth)
  unfolding clear_auth
  clear_auth-IsDown c (is_down s n l) =
      let cleared = record c { auth = no_auth } in
      (
        save-IsDown cleared no_auth (is_down s n refl),
        auth_of cleared _ (save-Saves world cleared no_auth),
      )
    where
      auth_of : (a b : Client K) → Saves world a b → b.auth ≡ a.auth
      auth_of a b (saves same logs) = same
