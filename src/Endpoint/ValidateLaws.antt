-- ===== src/Endpoint/ValidateLaws.antt =====
-- The priorities that `NewMXRecord` of endpoint/endpoint.go reads.
use external_dns.Prelude.{Option, Text, [], none, some, ℕ, ◌*◌, ◌+◌, ◌-◌, ◌∷◌, ◌≡◌, ◌≤◌}
use external_dns.Endpoint.Validate.{MxTarget, fields}

-- the number that decimal digits write, behind a number
unfoldable pub decimal_from : ℕ → Text → ℕ
decimal_from n [] = n
decimal_from n (c ∷ s) = decimal_from (n * 10 + (c - b'0')) s

abbrev priority_of : Option MxTarget → ℕ
priority_of none = 0
priority_of (some m) = m.priority

abbrev host_of : Option MxTarget → Text
host_of none = []
host_of (some m) = m.host

-- The text has two fields, a number that fits 16 bits and the host.
pub record Writes (target : Text) (m : MxTarget) : Type 0 where
  pub number : Text
  pub two_fields : fields target ≡ number ∷ m.host ∷ []
  pub priority : m.priority ≡ decimal_from 0 number
  pub in_range : decimal_from 0 number ≤ 65535
