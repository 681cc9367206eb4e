-- ===== src/Tests/Tools.antt =====
-- A tool that is added while another request adds one, and then both are there to be changed.
use factn_assistant_service.ProjectApi.Isolated.{serve-projects_of, projects_of, IsOther}
use factn_assistant_service.Schemas.{TenantDoc}
use factn_assistant_service.ProjectApi.Traffic.{
  deletes_project, Traffic, quiet, adds_tool, deletes_tool, serve,
}
use factn_assistant_service.Base.{arith, ok, ◌≡◌, some, refl, none, eq_iff, String}
use factn_assistant_service.ToolExecutor.Defs.{webhook}
use factn_assistant_service.Tests.Projects.{redis, projects, world, tenant}
use factn_assistant_service.Tests.Schemas.{city_schema}
use factn_assistant_service.ProjectApi.Requests.{
  CreateToolRequest, validate_create, has_length_to, matches_name, all_name_chars, is_name_char,
  is_lower, is_timeout, parse_mode, has_fields_for, is_blank, field_status, check_mode_fields,
}
use factn_assistant_service.ProjectApi.Stocked.{IsStocked}
use factn_assistant_service.ProjectApi.Served.{serve-IsStocked, IsCaller}
use factn_assistant_service.ProjectApi.Tools.{empty-IsToolbox}
use factn_assistant_service.ToolSchema.{
  validate_tool_parameters, check_parts, check_properties, check_property, check_type,
  check_in_types, check_enum, check_required_list, check_required, check_required_entry, is_text,
  is_param_type,
}
use factn_assistant_service.Json.{get, get_default, has_key, truthy}
use factn_assistant_service.PlanLimits.{max_session_ttl_seconds, max_rate_limit_rpm, get_all_limits}
use mathlib.Core.Bool.{false≢true}

abbrev weather : String → CreateToolRequest
weather name = record {
  name = name;
  description = "The weather in a city";
  parameters = city_schema;
  execution_mode = "webhook";
  static_response = none;
  webhook_url = some "https://shop.example/weather";
  webhook_secret = none;
  timeout_ms = 30_000;
}

abbrev traffic : Traffic
traffic =
    adds_tool tenant "p1" (weather "weather_now") 10
      (adds_tool tenant "p1" (weather "weather_later") 9 quiet quiet)
      (deletes_tool tenant "p1" "weather_now" 11 quiet quiet)

abbrev on_free : String → String
on_free tenant_id = "free"

tenant-IsCaller : IsCaller redis projects on_free tenant
tenant-IsCaller = ((λ e. false≢true ((eq_iff "t1" "").1 e)), refl)

serve-IsStocked_example : IsStocked redis projects on_free (serve redis projects traffic world)
unfolding max_session_ttl_seconds max_rate_limit_rpm get_all_limits
serve-IsStocked_example =
    serve-IsStocked redis projects on_free traffic world
      (tenant-IsCaller, (tenant-IsCaller, tt, tt), (tenant-IsCaller, tt, tt))
      ((empty-IsToolbox "free", omega arith, omega arith), tt)

-- The request passes its validators.
weather_accepted : validate_create (weather "weather_now") ≡ ok webhook
unfolding validate_create validate_tool_parameters check_parts check_properties check_property
    check_type check_in_types check_enum check_required_list check_required check_required_entry get
    get_default has_key truthy is_text is_param_type has_length_to matches_name all_name_chars
    is_name_char is_lower is_timeout parse_mode has_fields_for is_blank field_status
    check_mode_fields
weather_accepted = refl

abbrev neighbour : TenantDoc
neighbour = record tenant { id = "t2" }

-- The other tenant tries the project of the first.
abbrev foreign_traffic : Traffic
foreign_traffic =
    adds_tool neighbour "p1" (weather "weather_now") 10 (deletes_project neighbour "p1" 9 quiet)
      (deletes_tool neighbour "p1" "weather_now" 11 quiet quiet)

neighbour-IsOther : IsOther redis projects "t1" "t2"
neighbour-IsOther = refl

serve-projects_of_example :
    projects_of redis projects "t1" (serve redis projects foreign_traffic world)
    ≡ projects_of redis projects "t1" world
serve-projects_of_example =
    serve-projects_of redis projects "t1" foreign_traffic world
      (neighbour-IsOther, (neighbour-IsOther, tt), (neighbour-IsOther, tt, tt))
