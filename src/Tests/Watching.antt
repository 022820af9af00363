-- ===== src/Tests/Watching.antt =====
-- The watcher on a file that is changed and deleted within a second.
use segwire.Base.{true, false, some, List, [], ◌∷◌, ◌++◌, ◌≡◌, refl, arith}
use segwire.Text.{Text, lit}
use segwire.Text.Equality.{text_eq}
use segwire.Map.{lookup, insert, retain}
use segwire.ConfigManager.{ConfigFileEvent, created}
use segwire.ConfigManager.Watcher.{
  RawEvent, watch_events, is_silent, watch_events-is_silent, is_toml_name,
}

abbrev join : Text → Text
join name = lit "/etc/segwire/" ++ name

-- An editor makes the file at the time 5, writes it, and the file is deleted.
abbrev made : RawEvent
made = record {
  name = some (lit "vpn.toml");
  now = 5;
  is_create = true;
  is_modify = false;
  is_delete = false;
}

abbrev written : RawEvent
written = record made { now = 10; is_create = false; is_modify = true }

abbrev gone : RawEvent
gone = record made { now = 900; is_create = false; is_delete = true }

only-made :
    (watch_events join 1000 (made ∷ written ∷ gone ∷ []) []).0
    ≡ created (join (lit "vpn.toml")) ∷ []
unfolding watch_events lit lookup insert retain text_eq is_toml_name
only-made = refl

watch_events-is_silent_example :
    (later : List ConfigFileEvent) × ((watch_events join 1000 (made ∷ written ∷ gone ∷ []) []).0
      ≡ created (join (lit "vpn.toml")) ∷ later)
    × (is_silent (join (lit "vpn.toml")) later ≡ true)
unfolding lookup is_toml_name lit text_eq
watch_events-is_silent_example =
    watch_events-is_silent join 1000 made (written ∷ gone ∷ []) (lit "vpn.toml") [] (omega arith)
      refl refl refl (((omega arith, omega arith), ((omega arith, omega arith), tt)))
