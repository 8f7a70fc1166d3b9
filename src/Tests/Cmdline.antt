-- ===== src/Tests/Cmdline.antt =====
-- Tests of the command line's options that are merged into the parameters.
use snx_rs.Prelude.{true, List, [], ◌∷◌, ◌≡◌, refl}
use snx_rs.Prelude.Text.{codes}
use snx_rs.Config.Formats.{decode}
use snx_rs.Cmdline.Options.{
  Given, set, server_name_is, password_is, no_dns_is, search_domains_is, mtu_is,
}
use snx_rs.Cmdline.Given.{set_each}
use snx_rs.Tests.Data.{params}
use snx_rs.Tests.Formats.{formats}

abbrev options : List Given
options =
    server_name_is (codes "backup")
    ∷ password_is (codes "secret")
    ∷ no_dns_is true
    ∷ server_name_is (codes "vpn")
    ∷ search_domains_is (codes "corp") []
    ∷ mtu_is 1400
    ∷ []

all_set : set_each formats options params ≡ record params {
  server_name = codes "backup";
  password = codes "secret";
  search_domains = codes "corp" ∷ [];
  no_dns = true;
  mtu = 1400;
}
unfolding set_each set decode
all_set = refl
