-- ===== src/Provider/Aws/Hosted.antt =====
-- `zones` of provider/aws/aws.go: the hosted zones that the filters leave.
use external_dns.Prelude.{
  Bool, List, Map, Option, Text, [], any, codes, false, if◌then◌else◌, insert, int_eq, is_nil,
  lookup, nat_eq, none, not, remove, some, text_eq, true, ◌&&◌, ◌++◌, ◌∷◌,
}
use external_dns.Endpoint.DomainFilter.{DomainFilter, match, match_parent}
use external_dns.Endpoint.Net.{Net}
use external_dns.Provider.Aws.Types.{ProfiledZone}
use external_dns.Provider.Aws.Zones.{HostedZones}
use external_dns.Provider.ZoneFilters.{
  ZoneIdFilter, ZoneTagFilter, hosted_zone, match_zone_id, match_zone_tags, match_zone_type,
}
use external_dns.Registry.Apply.{option_bind}

pub record ZoneSelection : Type 0 where
  pub zone_id_filter : ZoneIdFilter
  pub zone_type_filter : Text
  pub zone_tag_filter : ZoneTagFilter
  pub domain_filter : Option DomainFilter
  pub zone_match_parent : Bool

-- what `NextPage` returns, up to the page behind which there are no more, and at a throttling
-- exception, after which the loop asks again
pub data PageAnswer : Type 0 where
  -- the zones of a page, and what `tagsForZone` then returns for them: identifiers without their
  -- prefix and tags, `none` for an error
  page_of : List ProfiledZone → Option (List (Text × List (Text × Text))) → PageAnswer
  throttled : PageAnswer
  page_error : PageAnswer

-- the guards on a zone
unfoldable pub selects : ⦃net : Net⦄ → ZoneSelection → ProfiledZone → Bool
unfolding match_zone_id match_zone_type match match_parent
selects s z =
    if not (match_zone_id s.zone_id_filter z.id)
    then false
    else if not (match_zone_type s.zone_type_filter (hosted_zone z.private_zone))
    then false
    else if not (match s.domain_filter z.name)
    then (if not s.zone_match_parent then false else match_parent s.domain_filter z.name)
    else true

-- the loop over the zones of a page: the zones so far, with those that are selected
unfoldable pub select_zones :
    ⦃net : Net⦄ → ZoneSelection → List ProfiledZone → HostedZones → HostedZones
unfolding selects insert
select_zones s [] zones = zones
select_zones s (z ∷ zs) zones =
    select_zones s zs (if selects s z then insert z.id z zones else zones)

-- whether tags are listed: some zone is selected and the filter is not empty
unfoldable pub lists_tags : ⦃net : Net⦄ → ZoneSelection → List ProfiledZone → Bool
unfolding selects any
lists_tags s zs = not (is_nil s.zone_tag_filter) && any (λ z. selects s z) zs

-- the loop over the tags in `zoneTags.append`
unfoldable pub add_tags : List (Text × Text) → Map Text Text → Map Text Text
unfolding insert
add_tags [] tags = tags
add_tags ((k, v) ∷ more) tags = add_tags more (insert k v tags)

abbrev pub tags_or_none : Option (Map Text Text) → Map Text Text
tags_or_none none = []
tags_or_none (some tags) = tags

-- the tag sets of `tagsForZone`, by the identifiers with the prefix
unfoldable pub zone_tags_of :
    List (Text × List (Text × Text)) → Map Text (Map Text Text) → Map Text (Map Text Text)
unfolding add_tags insert lookup
zone_tags_of [] tags = tags
zone_tags_of ((id, new_tags) ∷ sets) tags =
    let k = codes "/hostedzone/" ++ id in
    zone_tags_of sets (insert k (add_tags new_tags (tags_or_none (lookup k tags))) tags)

-- `filterZonesByTags`
unfoldable pub filter_zones_by_tags :
    ZoneTagFilter → Map Text (Map Text Text) → HostedZones → HostedZones
unfolding match_zone_tags remove
filter_zones_by_tags filter [] zones = zones
filter_zones_by_tags filter ((id, tags) ∷ more) zones =
    filter_zones_by_tags filter more
      (if not (match_zone_tags filter tags) then remove id zones else zones)

abbrev pub tagged_page :
    ZoneSelection → Option (List (Text × List (Text × Text))) → HostedZones → Option HostedZones
tagged_page s none zones = none
tagged_page s (some sets) zones =
    some (filter_zones_by_tags s.zone_tag_filter (zone_tags_of sets []) zones)

-- a page
unfoldable pub add_page :
    ⦃net : Net⦄
    → ZoneSelection
    → List ProfiledZone
    → Option (List (Text × List (Text × Text)))
    → HostedZones
    → Option HostedZones
unfolding select_zones lists_tags zone_tags_of filter_zones_by_tags
add_page s zs tags zones =
    let zones' = select_zones s zs zones in
    if lists_tags s zs then tagged_page s tags zones' else some zones'

-- the loops over the profiles and their pages; `none` is an error
unfoldable pub zones_of_pages :
    ⦃net : Net⦄ → ZoneSelection → List PageAnswer → HostedZones → Option HostedZones
unfolding add_page
zones_of_pages s [] zones = some zones
zones_of_pages s (page_error ∷ pages) zones = none
zones_of_pages s (throttled ∷ pages) zones = zones_of_pages s pages zones
zones_of_pages s (page_of zs tags ∷ pages) zones =
    option_bind (add_page s zs tags zones) λ zones'. zones_of_pages s pages zones'

-- `zones`: the cached zones where they have not expired
unfoldable pub hosted_zones :
    ⦃net : Net⦄ → ZoneSelection → Option HostedZones → List PageAnswer → Option HostedZones
unfolding zones_of_pages
hosted_zones s (some known) pages = some known
hosted_zones s none pages = zones_of_pages s pages []

unfoldable pub filter_names : HostedZones → List Text
filter_names [] = []
filter_names ((id, z) ∷ zones) = z.name ∷ (b'.' ∷ z.name) ∷ filter_names zones
