-- ===== src/NsEnter/Arguments.antt =====
-- What the helper's command line is.
use segwire.Base.{List, [], ◌∷◌, ok, ◌≡◌, ◌≢◌, ◌↔◌, arith}
use segwire.Text.{Text, lit}
use segwire.Text.Equality.{text_eq_iff}
use segwire.NsEnter.{parse_args}

-- Arguments are accepted exactly if they are the program, a path, the separator, a command and its
-- arguments, where neither the program nor the path is the separator.
pub parse_args_iff :
    (args : List Text) (ns_path cmd : Text) (cmd_args : List Text)
    → (parse_args args ≡ ok (ns_path, cmd, cmd_args)) ↔ (
        (program : Text) × (args ≡ program ∷ ns_path ∷ lit "--" ∷ cmd ∷ cmd_args)
        × (program ≢ lit "--")
        × (ns_path ≢ lit "--"))
unfolding parse_args
parse_args_iff [] path command rest = (λ h. absurd (cc), λ (x, e, n, m). absurd (cc))
parse_args_iff (a ∷ []) path command rest =
    (λ h. absurd (ground arith), λ (x, e, n, m). absurd (cc))
parse_args_iff (a ∷ b ∷ []) path command rest =
    (λ h. absurd (ground arith), λ (x, e, n, m). absurd (cc))
parse_args_iff (a ∷ b ∷ s ∷ []) path command rest =
    (λ h. absurd (ground arith), λ (x, e, n, m). absurd (cc))
parse_args_iff (a ∷ b ∷ s ∷ d ∷ ds) path command rest = (
  λ h. (
    a,
    ground (arith, text_eq_iff s (lit "--")),
    ground (arith, text_eq_iff a (lit "--")),
    ground (arith, text_eq_iff b (lit "--")),
  ),
  λ (x, e, n, m).
      let one : a ≢ lit "--" = (λ q. n (cc)) in
      let two : b ≢ lit "--" = (λ q. m (cc)) in
      let three : s ≡ lit "--" = cc in
      ground (arith, text_eq_iff s (lit "--"), text_eq_iff a (lit "--"), text_eq_iff b (lit "--")),
)
