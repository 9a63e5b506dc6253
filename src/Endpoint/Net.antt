-- ===== src/Endpoint/Net.antt =====
-- What the program takes from net/netip, Unicode case folding and golang.org/x/net/idna: an interface
-- with the documented facts that the theorems use.
use external_dns.Prelude.{◌≡◌, Bool, true, Option, Text}

pub record Net : Type 1 where
  pub Addr : Type 0
  -- `netip.ParseAddr`; `none` is its error, with the invalid zero address
  pub parse_addr : Text → Option Addr
  -- `Addr.String`
  pub addr_string : Addr → Text
  -- `Addr.Less`
  pub addr_less : Addr → Addr → Bool
  -- `strings.EqualFold`
  pub equal_fold : Text → Text → Bool
  pub equal_fold_refl : (s : Text) → equal_fold s s ≡ true
  -- the text that `idna.Profile.ToASCII` returns, with an error or without
  pub to_ascii : Text → Text
  -- `idna.Profile.ToUnicode`: the text, and whether there was no error
  pub to_unicode : Text → Text × Bool
