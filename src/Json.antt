-- ===== src/Json.antt =====
-- `serde_json::Value`, as crates/depot-auth reads it. A number is what its `Display` prints, and an object
-- holds its members in the order of its map.
use nix_project_cache.Prelude.{Bool, Option, none, some, if◌then◌else◌}
use nix_project_cache.Prelude.Text.{Text, text_eq}

mutual
  pub data Value : Type 0 where
    null : Value
    boolean : Bool → Value
    number : Text → Value
    string : Text → Value
    array : Values → Value
    object : Members → Value

  pub data Values : Type 0 where
    nil : Values
    cons : Value → Values → Values

  pub data Members : Type 0 where
    end : Members
    member : Text → Value → Members → Members

-- `Map::get`.
unfoldable pub get : Members → Text → Option Value
get end key = none
get (member name value rest) key =
    let later = get rest key in if text_eq name key then some value else later

-- `Value::as_str`.
abbrev pub as_str : Value → Option Text
as_str (string s) = some s
as_str _ = none

-- `Value::as_object`.
abbrev pub as_object : Value → Option Members
as_object (object members) = some members
as_object _ = none
