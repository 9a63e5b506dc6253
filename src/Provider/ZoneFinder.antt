-- ===== src/Provider/ZoneFinder.antt =====
-- provider/zonefinder.go: the zone with the longest name that is a suffix of a host name. The map is
-- the list of its entries, in the order in which Go visits them.
use mathlib.Core.List.{map}
use external_dns.Prelude.{
  Bool, Map, Text, [], contains_byte, has_suffix, if◌then◌else◌, insert, int_eq, is_nil, join,
  length, ltb, nat_eq, split, text_eq, ◌&&◌, ◌==◌, ◌||◌, ◌∷◌,
}
use external_dns.Endpoint.Net.{Net}

abbrev pub ZoneIdName : Type 0
ZoneIdName = Map Text Text

abbrev or_original : Text → Text × Bool → Text
or_original s (converted, done) = if done then converted else s

unfoldable pub add_zone : ⦃net : Net⦄ → Text → Text → ZoneIdName → ZoneIdName
unfolding insert
add_zone ⦃net⦄ zone_id zone_name z =
    insert zone_id (or_original zone_name (net.to_unicode zone_name)) z

-- a label with an underscore stays as it is
unfoldable pub convert_label : ⦃net : Net⦄ → Text → Text
unfolding contains_byte
convert_label ⦃net⦄ label =
    if contains_byte label b'_' then label else or_original label (net.to_unicode label)

unfoldable pub unicode_name : ⦃net : Net⦄ → Text → Text
unfolding split join convert_label
unicode_name hostname = join (map convert_label (split hostname b'.')) b'.'

abbrev pub is_zone_of : Text → Text → Bool
is_zone_of name zone_name = name == zone_name || has_suffix name (b'.' ∷ zone_name)

-- the loop over the zones, with the suitable id and name so far
unfoldable pub find_from : Text → Text → Text → ZoneIdName → Text × Text
unfolding has_suffix
find_from name id best [] = (id, best)
find_from name id best ((zone_id, zone_name) ∷ z) =
    let better =
      is_zone_of name zone_name && (is_nil best || ltb (length best) (length zone_name)) in
    find_from name (if better then zone_id else id) (if better then zone_name else best) z

unfoldable pub find_zone : ⦃net : Net⦄ → ZoneIdName → Text → Text × Text
unfolding unicode_name find_from
find_zone z hostname = find_from (unicode_name hostname) [] [] z
