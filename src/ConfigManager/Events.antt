-- ===== src/ConfigManager/Events.antt =====
-- What a file system event does to the configuration manager.
use segwire.Base.{
  true, false, Option, none, some, ok, err, ◌≡◌, ◌≢◌, refl, arith, is_ok, Bool-cases, inl, inr, ap,
}
use segwire.Text.{Text}
use segwire.Text.Equality.{text_eq, text_eq_iff}
use segwire.Error.{SegwireResult}
use segwire.Utils.Address.{UnicodeDigits}
use segwire.Config.Validate.{Base64}
use segwire.ConfigManager.{
  FileSystem, ConfigManager, reload_namespace_config, remove_namespace_config, ConfigFileEvent,
  created, modified, deleted, handle_file_event, reload_master_config, named, removed, rescan,
}
use segwire.ConfigManager.Invariant.{
  IsConsistent, scan_namespace_configs-IsConsistent, reload_namespace_config-IsConsistent,
  remove_namespace_config-IsConsistent,
}

named-state : (p : SegwireResult (Option Text) × ConfigManager) → (named p).1 ≡ p.1
named-state (ok (some name), m) = refl
named-state (ok none, m) = refl
named-state (err e, m) = refl

named-is_ok : (p : SegwireResult (Option Text) × ConfigManager) → is_ok (named p).0 ≡ is_ok p.0
named-is_ok (ok (some name), m) = refl
named-is_ok (ok none, m) = refl
named-is_ok (err e, m) = refl

removed-state : (p : Option Text × ConfigManager) → (removed p).1 ≡ p.1
removed-state (some name, m) = refl
removed-state (none, m) = refl

removed-is_ok : (p : Option Text × ConfigManager) → is_ok (removed p).0 ≡ true
removed-is_ok (some name, m) = refl
removed-is_ok (none, m) = refl

module _ ⦃u : UnicodeDigits⦄ ⦃b : Base64⦄ (fs : FileSystem) where
  reload-error :
      (path : Text) (m : ConfigManager)
      → is_ok (reload_namespace_config fs path m).0 ≡ false
      → (reload_namespace_config fs path m).1 ≡ m
  unfolding reload_namespace_config
  reload-error path m h = ground arith

  rescan-IsConsistent :
      (p : SegwireResult (Unit {0}) × ConfigManager)
      → is_ok (rescan fs p).0 ≡ true
      → IsConsistent (rescan fs p).1
  rescan-IsConsistent (ok done, m) h = scan_namespace_configs-IsConsistent fs m h
  rescan-IsConsistent (err e, m) h = absurd (cc)

  named-IsConsistent :
      (p : SegwireResult (Option Text) × ConfigManager)
      → IsConsistent p.1
      → IsConsistent (named p).1
  named-IsConsistent p h = rw named-state h

  -- An event that a consistent manager handles with success leaves it consistent, also one that changed
  -- the prefix in the master file.
  pub handle_file_event-IsConsistent :
      (event : ConfigFileEvent) (m : ConfigManager)
      → IsConsistent m
      → is_ok (handle_file_event fs event m).0 ≡ true
      → IsConsistent (handle_file_event fs event m).1
  unfolding handle_file_event
  handle_file_event-IsConsistent (created path) m h e =
      named-IsConsistent _ (reload_namespace_config-IsConsistent fs path m h)
  handle_file_event-IsConsistent (modified path) m h e =
      elim (Bool-cases (text_eq path m.config_file_path)) [
        | inl master ↦ rw master (rescan-IsConsistent (reload_master_config fs m) (rw master at e))
        | inr other ↦
            rw other (named-IsConsistent _ (reload_namespace_config-IsConsistent fs path m h))
      ]
  handle_file_event-IsConsistent (deleted path) m h e =
      rw removed-state (remove_namespace_config-IsConsistent path m h)

  -- An event that fails changes nothing, unless it is about the master file.
  pub handle_file_event-error :
      (event : ConfigFileEvent) (m : ConfigManager)
      → event ≢ modified m.config_file_path
      → is_ok (handle_file_event fs event m).0 ≡ false
      → (handle_file_event fs event m).1 ≡ m
  unfolding handle_file_event
  handle_file_event-error (created path) m ne e =
      rw named-state (reload-error path m (rw named-is_ok at e))
  handle_file_event-error (modified path) m ne e =
      elim (Bool-cases (text_eq path m.config_file_path)) [
        | inl master ↦ absurd (ne (ap modified ((text_eq_iff _ _).0 master)))
        | inr other ↦
            let e' = rw other at e in
            rw (other, named-state) (reload-error path m (rw named-is_ok at e'))
      ]
  handle_file_event-error (deleted path) m ne e =
      absurd (cc (removed-is_ok (remove_namespace_config path m)))
