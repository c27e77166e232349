-- ===== src/Message/Context.antt =====
-- internal/core/context.go: the context object of a message.
use origamy_go_sdk.Base.{ℕ, Bool, false, String, List, []}
use origamy_go_sdk.Base.Int.{ℤ, pos}
use origamy_go_sdk.Data.{Float, finite, Value}
use origamy_go_sdk.Data.Dict.{Dict}

pub record AppInfo : Type 0 where
  pub name : String
  pub version : String
  pub build : String
  pub namespace : String

pub record CampaignInfo : Type 0 where
  pub name : String
  pub source : String
  pub medium : String
  pub term : String
  pub content : String

pub record DeviceInfo : Type 0 where
  pub id : String
  pub manufacturer : String
  pub model : String
  pub name : String
  pub type : String
  pub version : String
  pub advertising_id : String

pub record LibraryInfo : Type 0 where
  pub name : String
  pub version : String

pub record LocationInfo : Type 0 where
  pub city : String
  pub country : String
  pub region : String
  pub latitude : Float
  pub longitude : Float
  pub speed : Float

pub record NetworkInfo : Type 0 where
  pub bluetooth : Bool
  pub cellular : Bool
  pub wifi : Bool
  pub carrier : String

pub record OsInfo : Type 0 where
  pub name : String
  pub version : String

pub record PageInfo : Type 0 where
  pub hash : String
  pub path : String
  pub referrer : String
  pub search : String
  pub title : String
  pub url : String

pub record ReferrerInfo : Type 0 where
  pub type : String
  pub name : String
  pub url : String
  pub link : String

pub record ScreenInfo : Type 0 where
  pub density : ℤ
  pub width : ℤ
  pub height : ℤ

pub record Context : Type 0 where
  pub app : AppInfo
  pub campaign : CampaignInfo
  pub device : DeviceInfo
  pub library : LibraryInfo
  pub location : LocationInfo
  pub network : NetworkInfo
  pub os : OsInfo
  pub page : PageInfo
  pub referrer : ReferrerInfo
  pub screen : ScreenInfo
  pub ip : List ℕ
  pub direct : Bool
  pub locale : String
  pub group_id : String
  pub timezone : String
  pub user_agent : String
  pub traits : Dict Value
  pub extra : Dict Value

-- The zero value, `Context{}`.
abbrev pub zero_context : Context
zero_context = record {
  app = record { name = ""; version = ""; build = ""; namespace = "" };
  campaign = record { name = ""; source = ""; medium = ""; term = ""; content = "" };
  device = record {
    id = "";
    manufacturer = "";
    model = "";
    name = "";
    type = "";
    version = "";
    advertising_id = "";
  };
  library = record { name = ""; version = "" };
  location = record {
    city = "";
    country = "";
    region = "";
    latitude = finite (pos 0) (pos 0);
    longitude = finite (pos 0) (pos 0);
    speed = finite (pos 0) (pos 0);
  };
  network = record { bluetooth = false; cellular = false; wifi = false; carrier = "" };
  os = record { name = ""; version = "" };
  page = record { hash = ""; path = ""; referrer = ""; search = ""; title = ""; url = "" };
  referrer = record { type = ""; name = ""; url = ""; link = "" };
  screen = record { density = pos 0; width = pos 0; height = pos 0 };
  ip = [];
  direct = false;
  locale = "";
  group_id = "";
  timezone = "";
  user_agent = "";
  traits = [];
  extra = [];
}
