-- ===== src/Idna.antt =====
-- internal/idna/idna.go: the canonical form of a DNS name.
use external_dns.Prelude.{Text, has_suffix, if◌then◌else◌, trim_space, ◌++◌}
use external_dns.Endpoint.Create.{dot}
use external_dns.Endpoint.Net.{Net}

unfoldable pub normalize_dns_name : ⦃net : Net⦄ → Text → Text
unfolding trim_space has_suffix
normalize_dns_name ⦃net⦄ dns_name =
    let s = net.to_ascii (trim_space dns_name) in if has_suffix s dot then s else s ++ dot
