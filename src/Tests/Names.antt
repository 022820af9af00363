-- ===== src/Tests/Names.antt =====
-- Names, prefixes and the order of texts.
use segwire.Base.{true, false, ok, refl, ◌≡◌, ◌↔◌, ◌≤◌, ◌+◌, length, arith, is_ok, is_ok}
use segwire.Text.{lit}
use segwire.Utils.Names.{validate_namespace_name, generate_full_namespace_name}
use segwire.Utils.Names.Validity.{IsName}
use segwire.Utils.Names.FullName.{validate-generate_full_namespace_name}
use segwire.Text.Split.{split}
use segwire.Regex.{is_match}
use segwire.Base.{for_each}
use segwire.Text.Numbers.{parse_uint}
use segwire.Utils.Address.{validate_ip_address, validate_cidr, validate_cidr_parts, check_octet}
use segwire.Tests.Data.{ascii_digits}

validate_cidr-accepts : is_ok (validate_cidr (lit "10.0.0.1/24")) ≡ true
unfolding validate_cidr validate_cidr_parts validate_ip_address lit split is_match for_each
    check_octet parse_uint
validate_cidr-accepts = refl

validate_cidr-long_prefix : is_ok (validate_cidr (lit "10.0.0.1/33")) ≡ false
unfolding validate_cidr validate_cidr_parts validate_ip_address lit split is_match for_each
    check_octet parse_uint
validate_cidr-long_prefix = refl

pub sw-IsName : IsName 32 (lit "sw")
unfolding lit
sw-IsName = (refl, refl, omega arith)

vpn-IsName : IsName 63 (lit "vpn")
unfolding lit
vpn-IsName = (refl, refl, omega arith)

validate-generate_full_namespace_name_example :
    (validate_namespace_name (generate_full_namespace_name (lit "sw") (lit "vpn")) ≡ ok tt)
    ↔ (length (lit "sw") + length (lit "vpn") ≤ 62)
validate-generate_full_namespace_name_example =
    validate-generate_full_namespace_name (lit "sw") (lit "vpn") sw-IsName vpn-IsName
