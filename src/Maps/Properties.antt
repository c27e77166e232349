-- ===== src/Maps/Properties.antt =====
-- The free-form maps of internal/core/properties.go.
use origamy_go_sdk.Base.{String, Bool, Option, List, [], ◌∷◌}
use origamy_go_sdk.Data.{
  Float, float, string, bool, slice, Items, done, item, Value, struct, last, field,
}
use origamy_go_sdk.Maps.{Map, new_map, set}

unfoldable pub new_properties : Map
new_properties = new_map

unfoldable pub set_revenue : Float → Map → Option Map
set_revenue revenue m = set "revenue" (float revenue) m

unfoldable pub set_currency : String → Map → Option Map
set_currency currency m = set "currency" (string currency) m

unfoldable pub set_value : Float → Map → Option Map
set_value value m = set "value" (float value) m

unfoldable pub set_path : String → Map → Option Map
set_path path m = set "path" (string path) m

unfoldable pub set_referrer : String → Map → Option Map
set_referrer referrer m = set "referrer" (string referrer) m

unfoldable pub set_title : String → Map → Option Map
set_title title m = set "title" (string title) m

unfoldable pub set_url : String → Map → Option Map
set_url url m = set "url" (string url) m

unfoldable pub set_name : String → Map → Option Map
set_name name m = set "name" (string name) m

unfoldable pub set_category : String → Map → Option Map
set_category category m = set "category" (string category) m

unfoldable pub set_sku : String → Map → Option Map
set_sku sku m = set "sku" (string sku) m

unfoldable pub set_price : Float → Map → Option Map
set_price price m = set "price" (float price) m

unfoldable pub set_product_id : String → Map → Option Map
set_product_id id m = set "id" (string id) m

unfoldable pub set_order_id : String → Map → Option Map
set_order_id id m = set "orderId" (string id) m

unfoldable pub set_total : Float → Map → Option Map
set_total total m = set "total" (float total) m

unfoldable pub set_subtotal : Float → Map → Option Map
set_subtotal subtotal m = set "subtotal" (float subtotal) m

unfoldable pub set_shipping : Float → Map → Option Map
set_shipping shipping m = set "shipping" (float shipping) m

unfoldable pub set_tax : Float → Map → Option Map
set_tax tax m = set "tax" (float tax) m

unfoldable pub set_discount : Float → Map → Option Map
set_discount discount m = set "discount" (float discount) m

unfoldable pub set_coupon : String → Map → Option Map
set_coupon coupon m = set "coupon" (string coupon) m

unfoldable pub set_repeat : Bool → Map → Option Map
set_repeat repeat m = set "repeat" (bool repeat) m

pub record Product : Type 0 where
  pub id : String
  pub sku : String
  pub name : String
  pub price : Float

-- A product as the dynamic value of the struct, with the tags of its fields.
abbrev pub product_value : Product → Value
product_value p = struct (
    field "ID" "id,omitempty" (string p.id) (
      field "SKU" "sku,omitempty" (string p.sku) (
        field "Name" "name,omitempty" (string p.name)
          (field "Price" "price" (float p.price) last))))

abbrev product_items : List Product → Items
product_items [] = done
product_items (p ∷ ps) = item (product_value p) (product_items ps)

unfoldable pub set_products : List Product → Map → Option Map
set_products products m = set "products" (slice (product_items products)) m
