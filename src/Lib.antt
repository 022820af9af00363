-- ===== src/Lib.antt =====
-- Segwire: a daemon that manages network namespaces under Linux from configuration files, its command
-- line tool and its libraries. This library models the part that decides: what a configuration may
-- say, which configurations the daemon holds, and how its picture of the namespaces follows the
-- configurations and the system. Paths are from the root of the repository.
--
-- The parts, and where they are modelled:
--   * Utils (crates/segwire-common/src/utils.rs): the checks of names, addresses and domains, the full
--     name of a namespace (prefix-name), and the substitution of ${VARIABLES}. The patterns of the
--     source are regular expressions in Regex, matched by derivatives.
--   * Config (crates/segwire-common/src/config.rs): the configuration structures, their `validate`
--     methods (Config/Validate) and the substitution in every field (Config/Substitute). Sorting has
--     the search for duplicates by `sort`, `dedup` and `windows(2)`.
--   * Error (crates/segwire-common/src/error.rs and the errors of netlink.rs there).
--   * ConfigManager (crates/segwire-daemon/src/config.rs): the stored configurations, keyed by the full
--     name; loading, scanning, reloading, removing, and the handler of file events. Each operation is a
--     function from the manager to its result and the manager behind it. Watcher has the loop that makes
--     file events of the events of inotify; a receiver that is gone ends that loop and is not modelled.
--   * NamespaceState (crates/segwire-common/src/dbus.rs): the state that the daemon keeps of a
--     namespace.
--   * StateManager (crates/segwire-daemon/src/namespace_state.rs): creation and update of namespaces
--     (Create, Interfaces), synchronisation and conflicts (Sync), and maintenance. It works over
--     the interface Netlink, the calls of `NetlinkManager` that it makes, with the network and the
--     clock as the state behind them.
--   * Netlink/Simulated (crates/segwire-daemon/src/netlink.rs): the simulated backend of that
--     interface. Netlink/Checks has the checks of routes and DNS settings in
--     crates/segwire-common/src/netlink.rs.
--   * Host (the calls of the kernel and of the file system, as one interface over a state) with the
--     operations of crates/segwire-daemon/src/netns_raw.rs, and Rtnl with the messages of netlink_raw.rs
--     there: Links, Routes and Calls. On them Netlink/Real is the real backend of netlink.rs: namespaces,
--     Devices for links, Settings for routes and resolv.conf.
--   * NsEnter (crates/segwire-ns-enter/src/main.rs): the setuid helper as the sequence of the system
--     calls that it makes; what the kernel answers is a parameter.
--   * Security (crates/segwire-common/src/security.rs): the sanitising of values and names (Names), and the
--     checks of files, directories and paths (Files). What the file system answers is a parameter.
--   * Wireguard (crates/segwire-common/src/wireguard.rs): the import of wg-quick files.
--     Device has the attributes that wireguard_raw.rs of the daemon makes of a configuration.
--   * Wire (crates/segwire-netlink/src/lib.rs): netlink messages as lists of bytes. Genl has the requests
--     of generic netlink, Family the search for a family id (`resolve_genl_family_id`), and Batch the
--     parsing of answers (`request`, `parse_response_batch`). What the kernel answers is a parameter, and
--     so is the deserialisation of netlink-packet-core. An index out of bounds is an outcome of its own.
--   * Policykit (crates/segwire-daemon/src/policykit.rs): the decision whether a sender may call a method.
--   * Service (crates/segwire-daemon/src/dbus_service.rs and the errors, results and checks of
--     crates/segwire-common/src/dbus.rs): the methods of the D-Bus interface, each as a function from the
--     state behind the handlers to the reply and the state after it (Handlers, Dispatch), and the
--     operations that they share (Operations).
--   * EventLoop (crates/segwire-daemon/src/event_loop.rs): the daemon's state over both managers, the rounds
--     of its threads, and the shutdown (Shutdown). Steps has the steps of the threads, of callers over D-Bus
--     and of other programs, in any order, and the states that they reach.
--
--   * Capabilities (crates/segwire-daemon/src/capabilities.rs): whether the process may manage namespaces.
--   * Cli (crates/segwire-cli/src/commands): the commands of the tool that decide something by themselves.
--     Exec has the command exec, which becomes the helper NsEnter with the path that the service gives; Validate
--     the command validate, with the walk over a directory in Collect. A directory is a finite tree.
--
-- The manager of configurations gives the state manager its map of configurations and its prefix; the
-- state manager asks the network for the namespaces and changes them. The service reads both managers, and
-- its deletion and restart go to the system by a backend of their own; the path that it gives for a
-- namespace is the one that the helper NsEnter enters.
--
-- Text is a list of Unicode scalar values, and `len` counts the bytes of UTF-8. A path is such a text: two
-- paths are compared as they are written, where the source compares components; those of one directory come
-- from `join` and are written alike. A map is an association
-- list, whose order stands for the order of iteration. An `Err` is a value of Result, and a method that
-- changes its object returns the object behind it also on an error. Logging is left out. The file
-- system, the crates `toml` and `base64`, the process environment, the class `\d` of the crate `regex`
-- and `IpAddr::from_str` are parameters. The substitution of variables runs at most ten rounds, which is
-- the bound of the source, so that its fuel is no further restriction. The loops over attributes and
-- messages have the length of the buffer as fuel, and each round moves on by four bytes at least. Machine
-- words are little-endian. A handler of the service gives up the locks
-- of the managers on its way. Service/Stages cuts a call there, and EventLoop/Steps runs the other threads
-- between its stages; `handle` is the handler with nothing in between. What a call that only reads finds
-- between its locks is in its reply alone.
--
-- Not modelled: the bytes of route and WireGuard messages, which the crates netlink-packet-route and
-- netlink-packet-wireguard make; the choice of the backend by an environment variable; a panic of a thread
-- inside a namespace; the connection to the bus, logging, the output and the other commands of the tool, and
-- the tests. A failure of a call that the
-- source only logs is not seen in the results of the model either.
pub mod Base
pub mod Text
pub mod Map
pub mod Regex
pub mod Error
pub mod Utils
pub mod Sorting
pub mod Config
pub mod ConfigManager
pub mod Netlink
pub mod Rtnl
pub mod Host
pub mod NamespaceState
pub mod StateManager
pub mod NsEnter
pub mod Security
pub mod Wireguard
pub mod Wire
pub mod Policykit
pub mod Service
pub mod EventLoop
pub mod Capabilities
pub mod Cli
pub mod Tests
