-- ===== src/PluginApi/Config.antt =====
-- `validate_config_schema` of backend/maintainer/plugin_api_v2.py.
pub mod Secrets
use maintune.Base.{
  ℕ, suc, ◌+◌, String, Bool, true, false, not, ◌&&◌, ◌||◌, Option, none, some, if◌then◌else◌, ◌==◌,
  string_eq, nat_eq,
}
use maintune.Base.Result.{Result, ok, err, ◌>>=◌, ◌>>◌}
use maintune.Json.{Value, dict, Fields, end, field, get, has_key, truthy?}
use maintune.PluginApi.Schema.{Checked, fail_if, validate_schema}
use maintune.PluginApi.Value.{type_of}

-- The two tests on a node that is marked secret.
unfoldable pub check_secret : Fields → ℕ → Checked
check_secret fs depth =
    if truthy? (get "secret" fs)
    then (do
      fail_if (not (depth == 1) || not (type_of fs == "string"))
          "Config secrets must be top-level string properties"
      fail_if (has_key "default" fs || has_key "enum" fs)
          "Config secrets cannot declare defaults or enum values")
    else ok tt

unfoldable mutual
  pub check_node : Value → ℕ → Checked
  check_node (dict fs) depth = check_secret fs depth >> below_node (type_of fs) fs depth
  check_node _ depth = ok tt

  pub below_node : String → Fields → ℕ → Checked
  below_node kind end depth = ok tt
  below_node kind (field key v fs) depth =
      let here = check_properties v depth in
      let one = check_node v (depth + 1) in
      let later = below_node kind fs depth in
      if kind == "object" && key == "properties"
      then here
      else if kind == "array" && key == "items"
      then one
      else later

  pub check_properties : Value → ℕ → Checked
  check_properties (dict fs) depth = each_node fs depth
  check_properties _ depth = ok tt

  pub each_node : Fields → ℕ → Checked
  each_node end depth = ok tt
  each_node (field key v fs) depth = check_node v (depth + 1) >> each_node fs depth

unfoldable pub validate_config_schema : Value → Checked
validate_config_schema schema = validate_schema schema true >> check_node schema 0
