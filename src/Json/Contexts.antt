-- ===== src/Json/Contexts.antt =====
-- `Context.MarshalJSON` of internal/core/context.go, up to the call of `json.Marshal`: the map that is
-- marshalled. The reflected structs carry the tags of that file.
use origamy_go_sdk.Base.{◌≡◌, refl, String, some, [], ◌∷◌}
use origamy_go_sdk.Data.{
  Value, bool, int, float, string, address, dict, struct, Entries, end, entry, StructFields, last,
  field,
}
use origamy_go_sdk.Data.Dict.{Dict, lookup, insert, lookup-insert}
use origamy_go_sdk.Message.Context.{
  AppInfo, CampaignInfo, DeviceInfo, LibraryInfo, LocationInfo, NetworkInfo, OsInfo, PageInfo,
  ReferrerInfo, ScreenInfo, Context,
}
use origamy_go_sdk.Json.{parse_json_tag, struct_to_map}
use origamy_go_sdk.Json.Shown.{or_else, shown, lookup-struct_to_map}
use origamy_go_sdk.Config.{own_library}

abbrev pub app_info_fields : AppInfo → StructFields
app_info_fields x = field "Name" "name,omitempty" (string x.name) (
    field "Version" "version,omitempty" (string x.version) (
      field "Build" "build,omitempty" (string x.build)
        (field "Namespace" "namespace,omitempty" (string x.namespace) last)))

abbrev pub campaign_info_fields : CampaignInfo → StructFields
campaign_info_fields x = field "Name" "name,omitempty" (string x.name) (
    field "Source" "source,omitempty" (string x.source) (
      field "Medium" "medium,omitempty" (string x.medium) (
        field "Term" "term,omitempty" (string x.term)
          (field "Content" "content,omitempty" (string x.content) last))))

abbrev pub device_info_fields : DeviceInfo → StructFields
device_info_fields x = field "Id" "id,omitempty" (string x.id) (
    field "Manufacturer" "manufacturer,omitempty" (string x.manufacturer) (
      field "Model" "model,omitempty" (string x.model) (
        field "Name" "name,omitempty" (string x.name) (
          field "Type" "type,omitempty" (string x.type) (
            field "Version" "version,omitempty" (string x.version)
              (field "AdvertisingID" "advertisingId,omitempty" (string x.advertising_id) last))))))

abbrev pub library_info_fields : LibraryInfo → StructFields
library_info_fields x =
    field "Name" "name,omitempty" (string x.name)
      (field "Version" "version,omitempty" (string x.version) last)

abbrev pub location_info_fields : LocationInfo → StructFields
location_info_fields x = field "City" "city,omitempty" (string x.city) (
    field "Country" "country,omitempty" (string x.country) (
      field "Region" "region,omitempty" (string x.region) (
        field "Latitude" "latitude,omitempty" (float x.latitude) (
          field "Longitude" "longitude,omitempty" (float x.longitude)
            (field "Speed" "speed,omitempty" (float x.speed) last)))))

abbrev pub network_info_fields : NetworkInfo → StructFields
network_info_fields x = field "Bluetooth" "bluetooth,omitempty" (bool x.bluetooth) (
    field "Cellular" "cellular,omitempty" (bool x.cellular) (
      field "WIFI" "wifi,omitempty" (bool x.wifi)
        (field "Carrier" "carrier,omitempty" (string x.carrier) last)))

abbrev pub os_info_fields : OsInfo → StructFields
os_info_fields x =
    field "Name" "name,omitempty" (string x.name)
      (field "Version" "version,omitempty" (string x.version) last)

abbrev pub page_info_fields : PageInfo → StructFields
page_info_fields x = field "Hash" "hash,omitempty" (string x.hash) (
    field "Path" "path,omitempty" (string x.path) (
      field "Referrer" "referrer,omitempty" (string x.referrer) (
        field "Search" "search,omitempty" (string x.search) (
          field "Title" "title,omitempty" (string x.title)
            (field "URL" "url,omitempty" (string x.url) last)))))

abbrev pub referrer_info_fields : ReferrerInfo → StructFields
referrer_info_fields x = field "Type" "type,omitempty" (string x.type) (
    field "Name" "name,omitempty" (string x.name) (
      field "URL" "url,omitempty" (string x.url)
        (field "Link" "link,omitempty" (string x.link) last)))

abbrev pub screen_info_fields : ScreenInfo → StructFields
screen_info_fields x = field "Density" "density,omitempty" (int x.density) (
    field "Width" "width,omitempty" (int x.width)
      (field "Height" "height,omitempty" (int x.height) last))

abbrev pub entries_of : Dict Value → Entries
entries_of [] = end
entries_of (e ∷ es) = entry e.0 e.1 (entries_of es)

abbrev pub context_fields : Context → StructFields
context_fields x = field "App" "app,omitempty" (struct (app_info_fields x.app)) (
    field "Campaign" "campaign,omitempty" (struct (campaign_info_fields x.campaign)) (
      field "Device" "device,omitempty" (struct (device_info_fields x.device)) (
        field "Library" "library,omitempty" (struct (library_info_fields x.library)) (
          field "Location" "location,omitempty" (struct (location_info_fields x.location)) (
            field "Network" "network,omitempty" (struct (network_info_fields x.network)) (
              field "OS" "os,omitempty" (struct (os_info_fields x.os)) (
                field "Page" "page,omitempty" (struct (page_info_fields x.page)) (
                  field "Referrer" "referrer,omitempty" (struct (referrer_info_fields x.referrer)) (
                    field "Screen" "screen,omitempty" (struct (screen_info_fields x.screen)) (
                      field "IP" "ip,omitempty" (address x.ip) (
                        field "Direct" "direct,omitempty" (bool x.direct) (
                          field "Locale" "locale,omitempty" (string x.locale) (
                            field "GroupID" "groupId,omitempty" (string x.group_id) (
                              field "Timezone" "timezone,omitempty" (string x.timezone) (
                                field "UserAgent" "userAgent,omitempty" (string x.user_agent) (
                                  field "Traits" "traits,omitempty" (dict (entries_of x.traits)) (
                                    field "Extra" "-" (dict (entries_of x.extra))
                                      last)))))))))))))))))

-- The copy of the extensions. A Go map has no second entry of a key, so that the order does not count.
unfoldable pub copy : Dict Value → Dict Value
copy [] = []
copy (e ∷ es) = insert e.0 e.1 (copy es)

-- The map that `MarshalJSON` marshals.
unfoldable pub context_map : Context → Dict Value
context_map ctx = struct_to_map (context_fields ctx) (copy ctx.extra)

lookup-copy : (key : String) (m : Dict Value) → lookup key (copy m) ≡ lookup key m
unfolding copy lookup
lookup-copy key [] = refl
lookup-copy key (e ∷ es) = rw (lookup-insert, lookup-copy key es) refl

-- The JSON object of a context has under each key the value of the field that is shown there, and the
-- extension of that key only where there is none.
pub lookup-context_map :
    (key : String) (ctx : Context)
    → lookup key (context_map ctx) ≡ or_else (shown key (context_fields ctx)) (lookup key ctx.extra)
unfolding context_map
lookup-context_map key ctx =
    rw (lookup-struct_to_map key (context_fields ctx), lookup-copy key ctx.extra) refl

-- A context that `makeConfig` has marked carries the library's name and version into its JSON object,
-- whatever its other fields and its extensions are.
pub own_library-shown :
    (ctx : Context)
    → lookup "library" (context_map (own_library ctx))
      ≡ some (struct (library_info_fields (own_library ctx).library))
unfolding parse_json_tag
own_library-shown ctx = rw (lookup-context_map "library" (own_library ctx)) refl
