-- ===== src/Tests/Checking.antt =====
-- The checks of paths on a small file system.
use segwire.Base.{true, false, ok, ◌↔◌, ◌≡◌, refl}
use segwire.Text.{Text, lit}
use segwire.Text.Split.{rsplit_once}
use segwire.Text.Equality.{text_eq}
use segwire.Utils.Permissions.{check_file_permissions}
use segwire.Security.Files.{
  FileFacts, check_config_file_security, sanitize_config_path, has_parent_dir, is_prefix,
  components,
}
use segwire.Security.Verdicts.{
  IsSafeFile, IsAllowedPath, check_config_file_security_iff, sanitize_config_path_iff,
}

abbrev master : Text
master = lit "/etc/segwire/daemon.toml"

-- One file that everyone may write, where the mode is 666, and no links.
abbrev open_files : FileFacts
open_files = record {
  canonicalize = λ path. ok path;
  metadata = λ path. ok (record { is_file = true; mode = 0o100666; uid = 0 });
  exists = λ path. true;
  is_dir = λ path. false;
  effective_uid = 1000;
}

check_config_file_security_iff-example :
    ((check_config_file_security open_files master).passed ≡ true) ↔ IsSafeFile open_files master
check_config_file_security_iff-example = check_config_file_security_iff open_files master

open-refused : (check_config_file_security open_files master).passed ≡ false
unfolding lit check_config_file_security rsplit_once
open-refused = refl

climbing-has_parent_dir : has_parent_dir (lit "a/../b") ≡ true
unfolding has_parent_dir components lit text_eq
climbing-has_parent_dir = refl

outside-is_prefix :
    is_prefix (components (lit "/etc/segwire")) (components (lit "/etc/segwire2/vpn.toml")) ≡ false
unfolding is_prefix components lit text_eq
outside-is_prefix = refl

sanitize_config_path_iff-example :
    (sanitize_config_path open_files (lit "daemon.toml") (lit "/etc/segwire") ≡ ok master)
    ↔ IsAllowedPath open_files (lit "daemon.toml") (lit "/etc/segwire") master
sanitize_config_path_iff-example =
    sanitize_config_path_iff open_files (lit "daemon.toml") (lit "/etc/segwire") master

daemon-accepted :
    sanitize_config_path open_files (lit "daemon.toml") (lit "/etc/segwire") ≡ ok master
unfolding sanitize_config_path lit
daemon-accepted = refl

-- A file that everyone may read and write is accepted.
everyone-accepted : check_file_permissions (λ path. ok 0o666) master ≡ ok tt
unfolding check_file_permissions
everyone-accepted = refl
