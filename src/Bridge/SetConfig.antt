-- ===== src/Bridge/SetConfig.antt =====
-- set_config: which of the history, the file, the engine and the host take new settings, and when.
use myflowhub_clipboardnode.Base.{
  suc, ◌≡◌, refl, sym, ap, ◌∙◌, ◌⊎◌, inl, inr, Bool, Option, none, some, Text, Result, ok, err,
  Error, Result-cases,
}
use myflowhub_clipboardnode.Config.{Config, normalize_config}
use myflowhub_clipboardnode.History.{apply_settings}
use myflowhub_clipboardnode.History
use myflowhub_clipboardnode.Store.{ConfigStore, save, save_steps}
use myflowhub_clipboardnode.Engine.{Engine, Done, update_engine}
use myflowhub_clipboardnode.Bridge.{Host, Outside, Settings, config_from_settings}
use myflowhub_clipboardnode.Bridge.Commands.{
  Handled, set_config, set_settings, settings_applied, settings_saved, settings_updated,
}

-- The data decodes to settings that normalise to cfg, or not, with the error e.
abbrev pub Accepts : Result Settings → Config → Type 0
Accepts r cfg = (s : Settings) × (r ≡ ok s) × (normalize_config (config_from_settings s) ≡ ok cfg)

abbrev pub Refuses : Result Settings → Error → Type 0
Refuses r e =
    (r ≡ err e)
    ⊎ ((s : Settings) × (r ≡ ok s) × (normalize_config (config_from_settings s) ≡ err e))

module _ {T : Type 0} (outside : Outside T) where
  -- The four parts of the host that settings concern.
  pub data Parts (s : ConfigStore) (past : History.Store) (cfg : Config) (eng : Engine T)
      (h : Host T) : Type 0 where
    parts : h.store ≡ s → h.history ≡ past → h.cfg ≡ cfg → h.eng ≡ eng → Parts s past cfg eng h

  abbrev pub history_after : Host T → Config → History.Store × Result Bool
  history_after h cfg = apply_settings outside.platform outside.history_disk h.history cfg

  abbrev pub file_after : Host T → Config → ConfigStore × Option Error
  file_after h cfg = save outside.codec (outside.disk h.writes) h.store cfg

  abbrev pub engine_after : Host T → Config → Done T
  engine_after h cfg = update_engine outside.transport outside.envs h.eng cfg

  -- The ends of set_config on the data r; each says which parts took the settings.
  pub data Sets (h : Host T) (r : Result Settings) (o : Handled T) : Type 0 where
    refused :
        (e : Error)
        → Refuses r e
        → o.2 ≡ some e
        → Parts h.store h.history h.cfg h.eng o.0
        → Sets h r o
    history_failed :
        (cfg : Config) (e : Error)
        → Accepts r cfg
        → (history_after h cfg).1 ≡ err e
        → o.2 ≡ some e
        → Parts h.store (history_after h cfg).0 h.cfg h.eng o.0
        → Sets h r o
    not_stored :
        (cfg : Config) (e : Error) (b : Bool)
        → Accepts r cfg
        → (history_after h cfg).1 ≡ ok b
        → (file_after h cfg).1 ≡ some e
        → o.2 ≡ some e
        → Parts h.store (history_after h cfg).0 h.cfg h.eng o.0
        → Sets h r o
    not_adopted :
        (cfg : Config) (e : Error) (b : Bool)
        → Accepts r cfg
        → (history_after h cfg).1 ≡ ok b
        → (file_after h cfg).1 ≡ none
        → (engine_after h cfg).1 ≡ some e
        → o.2 ≡ some e
        → Parts (file_after h cfg).0 (history_after h cfg).0 h.cfg (engine_after h cfg).0 o.0
        → Sets h r o
    set :
        (cfg : Config) (b : Bool)
        → Accepts r cfg
        → (history_after h cfg).1 ≡ ok b
        → (file_after h cfg).1 ≡ none
        → (engine_after h cfg).1 ≡ none
        → o.2 ≡ none
        → Parts (file_after h cfg).0 (history_after h cfg).0 cfg (engine_after h cfg).0 o.0
        → Sets h r o

  -- A failed Save leaves the file as it was.
  save_fails :
      (h : Host T) (cfg : Config) (e : Error)
      → (file_after h cfg).1 ≡ some e
      → (file_after h cfg).0 ≡ h.store
  unfolding save
  save_fails h cfg e = elim (Result-cases (save_steps outside.codec (outside.disk h.writes) cfg)) [
    | inl (bytes, good) ↦ rw (good, save) (λ x. absurd (cc x))
    | inr (e, bad) ↦ rw (bad, save) (λ x. refl)
  ]

  updated-Sets :
      (h g : Host T) (id : Text) (r : Result Settings) (cfg : Config) (b : Bool) (o : Done T)
      → Accepts r cfg
      → (history_after h cfg).1 ≡ ok b
      → engine_after h cfg ≡ o
      → (file_after h cfg).1 ≡ none
      → Parts (file_after h cfg).0 (history_after h cfg).0 h.cfg h.eng g
      → Sets h r (settings_updated outside g id cfg o)
  unfolding settings_updated
  updated-Sets h g id r cfg b (eng, some e) acc done there kept (parts x y z w) =
      not_adopted cfg e b acc done kept (ap (λ (x : Done T). x.1) there) refl
        (parts x y z (ap (λ (x : Done T). x.0) (sym there)))
  updated-Sets h g id r cfg b (eng, none) acc done there kept (parts x y z w) =
      set cfg b acc done kept (ap (λ (x : Done T). x.1) there) refl
        (parts x y refl (ap (λ (x : Done T). x.0) (sym there)))

  saved-Sets :
      (h g : Host T) (id : Text) (r : Result Settings) (cfg : Config) (b : Bool)
      (o : ConfigStore × Option Error)
      → Accepts r cfg
      → (history_after h cfg).1 ≡ ok b
      → file_after h cfg ≡ o
      → Parts h.store (history_after h cfg).0 h.cfg h.eng g
      → Sets h r (settings_saved outside g id cfg o)
  unfolding settings_saved
  saved-Sets h g id r cfg b (s, some e) acc done there (parts x y z w) =
      let failed = ap (λ (x : ConfigStore × Option Error). x.1) there in
      not_stored cfg e b acc done failed refl (
        parts (ap (λ (x : ConfigStore × Option Error). x.0) (sym there) ∙ save_fails h cfg e failed)
          y z w)
  saved-Sets h g id r cfg b (s, none) acc done there (parts x y z w) =
      let saved = record g { store = s; writes = suc g.writes } in
      updated-Sets h saved id r cfg b (engine_after g cfg) acc done
        (ap (λ (x : Engine T). update_engine outside.transport outside.envs x cfg) (sym w))
        (ap (λ (x : ConfigStore × Option Error). x.1) there)
        (parts (ap (λ (x : ConfigStore × Option Error). x.0) (sym there)) y z w)

  applied-Sets :
      (h : Host T) (id : Text) (r : Result Settings) (cfg : Config)
      (o : History.Store × Result Bool)
      → Accepts r cfg
      → history_after h cfg ≡ o
      → Sets h r (settings_applied outside h id cfg o)
  unfolding settings_applied
  applied-Sets h id r cfg (past, err e) acc there =
      history_failed cfg e acc (ap (λ (x : History.Store × Result Bool). x.1) there) refl
        (parts refl (ap (λ (x : History.Store × Result Bool). x.0) (sym there)) refl refl)
  applied-Sets h id r cfg (past, ok b) acc there =
      saved-Sets h (record h { history = past }) id r cfg b (file_after h cfg) acc
        (ap (λ (x : History.Store × Result Bool). x.1) there) refl
        (parts refl (ap (λ (x : History.Store × Result Bool). x.0) (sym there)) refl refl)

  settings-Sets :
      (h : Host T) (id : Text) (s : Settings) (n : Result Config)
      → normalize_config (config_from_settings s) ≡ n
      → Sets h (ok s) (set_settings outside h id n)
  unfolding set_settings
  settings-Sets h id s (err e) there =
      refused e (inr (s, refl, there)) refl (parts refl refl refl refl)
  settings-Sets h id s (ok cfg) there =
      applied-Sets h id (ok s) cfg (history_after h cfg) (s, refl, there) refl

  -- set_config: data that does not decode or normalise changes nothing; an error of the history, of
  -- the configuration file or of the engine is returned, with the host's own configuration as it was
  -- and the parts that come after the failing one untouched, those before it changed; with no error
  -- the history, the file, the engine and the host have all taken the settings.
  pub set_config-Sets :
      (h : Host T) (id : Text) (r : Result Settings) → Sets h r (set_config outside h id r)
  unfolding set_config
  set_config-Sets h id (err e) = refused e (inl refl) refl (parts refl refl refl refl)
  set_config-Sets h id (ok s) = settings-Sets h id s _ refl
