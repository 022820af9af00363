-- ===== src/Utils/Permissions.antt =====
-- `check_file_permissions` of crates/segwire-common/src/utils.rs. The mode of a file is a parameter.
use Prim.Native.Nat.{bit_and}
use segwire.Base.{ℕ, Bool, not, ◌&&◌, ◌++◌, ◌==◌, Result, ensure, map_err, ◌>>=◌}
use segwire.Text.{Text, lit}
use segwire.Error.{SegwireResult, system, validation}

abbrev is_insecure : ℕ → Bool
is_insecure mode = not (bit_and mode 0o077 == 0) && (bit_and mode 0o044 == 0)

unfoldable pub check_file_permissions : (Text → Result Text ℕ) → Text → SegwireResult (Unit {0})
unfolding lit
check_file_permissions mode_of path = do
  mode ← map_err system (mode_of path)
  ensure (not (is_insecure mode))
      (validation (lit "Configuration file " ++ (path ++ lit " has insecure permissions")))
