-- ===== src/Endpoint/Validate.antt =====
-- `CheckEndpoint`, `NewMXRecord`, `ValidateMXRecord` and `ValidateSRVRecord` of endpoint/endpoint.go,
-- with what they use of `strings` and `strconv`.
use Prim.Native.Nat.{◌%◌}
use external_dns.Prelude.{
  Bool, List, Option, Text, [], false, has_suffix, if◌then◌else◌, int_eq, is_nil, is_space, leb,
  ltb, nat_eq, none, some, text_eq, true, ℕ, ◌&&◌, ◌*◌, ◌++◌, ◌+◌, ◌-◌, ◌==◌, ◌∷◌,
}
use external_dns.Endpoint.Create.{dot}
use external_dns.Endpoint.Types.{Endpoint, Targets, record_type_mx, record_type_srv}

pub record MxTarget : Type 0 where
  pub priority : ℕ
  pub host : Text

-- `strings.Fields`: a field ends where white space begins; `strings.TrimSpace` before it changes
-- nothing, and is left out
unfoldable pub fields_from : Text → Text → List Text
fields_from cur [] = if is_nil cur then [] else cur ∷ []
fields_from cur (c ∷ s) = elim (is_space c) [
  | true ↦ if is_nil cur then fields_from [] s else cur ∷ fields_from [] s
  | false ↦ fields_from (cur ++ c ∷ []) s
]

unfoldable pub fields : Text → List Text
unfolding fields_from
fields s = fields_from [] s

-- `strconv.ParseUint(s, 10, 16)`: each step refuses a byte that is no digit and a value out of range
unfoldable pub digits_from : ℕ → Text → Option ℕ
digits_from n [] = some n
digits_from n (c ∷ s) =
    let m = n * 10 + (c - b'0') in
    let rest = digits_from m s in
    if leb b'0' c && leb c b'9' then (if ltb 65535 m then none else rest) else none

unfoldable pub parse_uint16 : Text → Option ℕ
unfolding digits_from
parse_uint16 [] = none
parse_uint16 (c ∷ s) = digits_from 0 (c ∷ s)

-- `uint16(priority)`
abbrev pub mx_target : Text → Option ℕ → Option MxTarget
mx_target host none = none
mx_target host (some n) = some (record { priority = n % 65536; host = host })

abbrev pub mx_of : List Text → Option MxTarget
mx_of (priority ∷ host ∷ []) = mx_target host (parse_uint16 priority)
mx_of _ = none

-- `NewMXRecord`; `none` is its error
unfoldable pub new_mx_record : Text → Option MxTarget
unfolding fields parse_uint16
new_mx_record target = mx_of (fields target)

unfoldable pub validate_mx_record : Targets → Bool
unfolding new_mx_record
validate_mx_record [] = true
validate_mx_record (target ∷ ts) =
    let rest = validate_mx_record ts in elim (new_mx_record target) [ none ↦ false | some m ↦ rest ]

abbrev is_some : Option ℕ → Bool
is_some none = false
is_some (some n) = true

abbrev srv_of : List Text → Bool
srv_of (priority ∷ weight ∷ port ∷ host ∷ []) =
    has_suffix host dot
    && (is_some (parse_uint16 priority)
        && (is_some (parse_uint16 weight) && is_some (parse_uint16 port)))
srv_of _ = false

unfoldable pub validate_srv_record : Targets → Bool
unfolding fields parse_uint16
validate_srv_record [] = true
validate_srv_record (target ∷ ts) =
    let rest = validate_srv_record ts in if srv_of (fields target) then rest else false

unfoldable pub check_endpoint : Endpoint → Bool
unfolding validate_mx_record validate_srv_record
check_endpoint e =
    if e.record_type == record_type_mx
    then validate_mx_record e.targets
    else if e.record_type == record_type_srv
    then validate_srv_record e.targets
    else true
