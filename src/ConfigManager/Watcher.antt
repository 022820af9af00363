-- ===== src/ConfigManager/Watcher.antt =====
-- `ConfigFileWatcher` of crates/segwire-daemon/src/config.rs: from the events of inotify to file events,
-- with at most one for each path in a window. Times are in nanoseconds.
use segwire.Base.{
  ℕ, ◌+◌, ◌-◌, ◌*◌, ◌≤◌, ◌<◌, Bool, true, false, not, ◌||◌, Option, none, some, List, [], ◌∷◌, ◌++◌,
  ltb, if◌then◌else◌, ◌≡◌, refl, arith, All, all, all-append, Bool-cases, inl, inr, ap, ◌∙◌,
}
use segwire.Text.{Text, lit}
use segwire.Text.Equality.{text_eq, text_eq_refl, text_eq_iff}
use segwire.Map.{Map, lookup, insert, retain, lookup-insert}
use segwire.ConfigManager.{ConfigFileEvent, created, modified, deleted}

-- str::ends_with for ".toml"
unfoldable pub is_toml_name : Text → Bool
unfolding lit text_eq
is_toml_name [] = false
is_toml_name (c ∷ s) = text_eq (lit ".toml") (c ∷ s) || is_toml_name s

-- An event of inotify: the name, where there is one in UTF-8, the time at which it is read, and which of
-- the three pairs of bits its mask has.
pub record RawEvent : Type 0 where
  pub name : Option Text
  pub now : ℕ
  -- CREATE or MOVED_TO
  pub is_create : Bool
  -- MODIFY or CLOSE_WRITE
  pub is_modify : Bool
  -- DELETE or MOVED_FROM
  pub is_delete : Bool

abbrev pub mask_event : RawEvent → Text → Option ConfigFileEvent
mask_event e path =
    if e.is_create
    then some (created path)
    else if e.is_modify
    then some (modified path)
    else if e.is_delete
    then some (deleted path)
    else none

abbrev pub option_list : {A : Type 0} → Option A → List A
option_list none = []
option_list (some a) = a ∷ []

-- `now.duration_since(last) < debounce_duration`, where there is a last event
abbrev pub is_debounced : ℕ → ℕ → Option ℕ → Bool
is_debounced debounce now none = false
is_debounced debounce now (some last) = ltb (now - last) debounce

-- `join` gives the path of a name in the directory; `debounce` is the length of the window.
module _ (join : Text → Text) (debounce : ℕ) where
  unfoldable pub accept_event : RawEvent → Text → Map ℕ → List ConfigFileEvent × Map ℕ
  unfolding insert retain
  accept_event e path last_events = (
    option_list (mask_event e path),
    retain (λ p last. ltb (e.now - last) (debounce * 10)) (insert path e.now last_events),
  )

  unfoldable pub watch_path : RawEvent → Text → Map ℕ → List ConfigFileEvent × Map ℕ
  unfolding accept_event lookup
  watch_path e path last_events =
      if is_debounced debounce e.now (lookup path last_events)
      then ([], last_events)
      else accept_event e path last_events

  abbrev watch_named : RawEvent → Option Text → Map ℕ → List ConfigFileEvent × Map ℕ
  watch_named e none last_events = ([], last_events)
  watch_named e (some name) last_events =
      if is_toml_name name then watch_path e (join name) last_events else ([], last_events)

  -- One event: what is sent, and the times behind it.
  unfoldable pub watch_event : RawEvent → Map ℕ → List ConfigFileEvent × Map ℕ
  unfolding is_toml_name watch_path
  watch_event e last_events = watch_named e e.name last_events

  unfoldable pub watch_events : List RawEvent → Map ℕ → List ConfigFileEvent × Map ℕ
  unfolding watch_event
  watch_events [] last_events = ([], last_events)
  watch_events (e ∷ events) last_events =
      let (sent, later) = watch_event e last_events in
      let (rest, last) = watch_events events later in (sent ++ rest, last)

-- The path of a file event.
abbrev pub event_path : ConfigFileEvent → Text
event_path (created path) = path
event_path (modified path) = path
event_path (deleted path) = path

-- Nothing is sent about the path.
abbrev pub is_silent : Text → List ConfigFileEvent → Bool
is_silent path = all (λ event. not (text_eq (event_path event) path))

lookup-retain :
    (keep : ℕ → Bool) (path : Text) (last : ℕ) (m : Map ℕ)
    → lookup path m ≡ some last
    → keep last ≡ true
    → lookup path (retain (λ key value. keep value) m) ≡ some last
unfolding lookup retain
lookup-retain keep path last [] h k = absurd (cc)
lookup-retain keep path last ((key, value) ∷ m) h k = elim (Bool-cases (text_eq key path)) [
  | inl same ↦
      let here : value ≡ last = ground arith in
      let kept : keep value ≡ true = ap keep here ∙ k in rw (kept, same) (ap some here)
  | inr other ↦
      let later : lookup path m ≡ some last = ground arith in
      let rest = lookup-retain keep path last m later k in ground arith
]

option_list-silent :
    (e : RawEvent) (path other : Text)
    → text_eq other path ≡ false
    → is_silent path (option_list (mask_event e other)) ≡ true
option_list-silent e path other h = ground arith

-- An event that comes less than the window behind `last`.
abbrev pub IsInWindow : ℕ → ℕ → RawEvent → Type 0
IsInWindow debounce last e = (last ≤ e.now) × (e.now < last + debounce)

module _ (join : Text → Text) (debounce : ℕ) where
  -- Nothing is sent about the path, and the time of its last event stays.
  abbrev pub IsQuiet : Text → ℕ → List ConfigFileEvent × Map ℕ → Type 0
  IsQuiet path last outcome =
      (is_silent path outcome.0 ≡ true) × (lookup path outcome.1 ≡ some last)

  watch_path-IsQuiet :
      (e : RawEvent) (path other : Text) (last : ℕ) (last_events : Map ℕ)
      → IsInWindow debounce last e
      → lookup path last_events ≡ some last
      → IsQuiet path last (watch_path join debounce e other last_events)
  unfolding watch_path accept_event
  watch_path-IsQuiet e path other last last_events soon known =
      elim (Bool-cases (text_eq other path)) [
        | inl same ↦
            let known' : lookup other last_events ≡ some last =
              ap (λ p. lookup p last_events) ((text_eq_iff other path).0 same) ∙ known in
            let within : ltb (e.now - last) debounce ≡ true = ground arith in
            rw (known', within) (refl, known)
        | inr different ↦
            elim (Bool-cases (is_debounced debounce e.now (lookup other last_events))) [
              | inl dropped ↦ rw dropped (refl, known)
              | inr accepted ↦
                  let inserted : lookup path (insert other e.now last_events) ≡ some last =
                    lookup-insert other path e.now last_events ∙ rw different known in
                  rw accepted (
                    option_list-silent e path other different,
                    lookup-retain (λ v. ltb (e.now - v) (debounce * 10)) path last
                        (insert other e.now last_events) inserted (ground arith),
                  )
            ]
      ]

  watch_event-IsQuiet :
      (e : RawEvent) (path : Text) (last : ℕ) (last_events : Map ℕ)
      → IsInWindow debounce last e
      → lookup path last_events ≡ some last
      → IsQuiet path last (watch_event join debounce e last_events)
  unfolding watch_event
  watch_event-IsQuiet e path last last_events soon known = go e.name
    where
      go : (name : Option Text) → IsQuiet path last (watch_named join debounce e name last_events)
      go none = (refl, known)
      go (some name) = elim (Bool-cases (is_toml_name name)) [
        | inl toml ↦ rw toml (watch_path-IsQuiet e path (join name) last last_events soon known)
        | inr other ↦ rw other (refl, known)
      ]

  watch_events-IsQuiet :
      (events : List RawEvent) (path : Text) (last : ℕ) (last_events : Map ℕ)
      → All (IsInWindow debounce last) events
      → lookup path last_events ≡ some last
      → IsQuiet path last (watch_events join debounce events last_events)
  unfolding watch_events
  watch_events-IsQuiet [] path last last_events soon known = (refl, known)
  watch_events-IsQuiet (e ∷ events) path last last_events (soon, later) known =
      let (silent, known') = watch_event-IsQuiet e path last last_events soon known in
      let next = watch_event join debounce e last_events in
      let (silent', last') = watch_events-IsQuiet events path last next.1 later known' in
      (
        all-append (λ event. not (text_eq (event_path event) path)) next.0 _
            ∙ rw (silent, silent') refl,
        last',
      )

  accept_event-lookup :
      (e : RawEvent) (path : Text) (last_events : Map ℕ)
      → 0 < debounce
      → lookup path (accept_event join debounce e path last_events).1 ≡ some e.now
  unfolding accept_event
  accept_event-lookup e path last_events window =
      lookup-retain (λ v. ltb (e.now - v) (debounce * 10)) path e.now
        (insert path e.now last_events)
        (lookup-insert path path e.now last_events ∙ rw (text_eq_refl path) refl) (ground (arith))

  accepted :
      (e : RawEvent) (name : Text) (last_events : Map ℕ)
      → e.name ≡ some name
      → is_toml_name name ≡ true
      → is_debounced debounce e.now (lookup (join name) last_events) ≡ false
      → watch_event join debounce e last_events
        ≡ accept_event join debounce e (join name) last_events
  unfolding watch_event watch_path
  accepted e name last_events named toml fresh =
      ap (λ n. watch_named join debounce e n last_events) named ∙ rw (toml, fresh) refl

  -- An event of a configuration file that comes outside of the window of the one before it is sent, if its
  -- mask is one of the three; and nothing is sent about its path in the window behind it, not its deletion
  -- either, whatever else happens in the directory. The window is not empty.
  pub watch_events-is_silent :
      (e : RawEvent) (events : List RawEvent) (name : Text) (last_events : Map ℕ)
      → 0 < debounce
      → e.name ≡ some name
      → is_toml_name name ≡ true
      → is_debounced debounce e.now (lookup (join name) last_events) ≡ false
      → All (IsInWindow debounce e.now) events
      → (later : List ConfigFileEvent) × ((watch_events join debounce (e ∷ events) last_events).0
          ≡ option_list (mask_event e (join name)) ++ later)
        × (is_silent (join name) later ≡ true)
  unfolding watch_events accept_event
  watch_events-is_silent e events name last_events window named toml fresh soon =
      let behind = (accept_event join debounce e (join name) last_events).1 in
      let first = accepted e name last_events named toml fresh in
      (
        (watch_events join debounce events behind).0,
        rw first refl,
        (watch_events-IsQuiet events (join name) e.now behind soon
            (accept_event-lookup e (join name) last_events window)).0,
      )
