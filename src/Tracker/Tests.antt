-- ===== src/Tracker/Tests.antt =====
-- Runs of src/connection_tracker.py, and instances of its theorems.
use dpi_engine_python.Dict.{get, put}
use dpi_engine_python.Prelude.{◌≡◌, refl, true, none, some, List, [], ◌∷◌}
use dpi_engine_python.Prelude.Eq.{option_eq}
use dpi_engine_python.Rules.{
  RuleManager, rule_manager, normalize, first_app, classify_domain, is_ip_blocked, is_app_blocked,
  blocks, is_domain_blocked,
}
use dpi_engine_python.Text.{codes, lower_code, is_space, strip}
use dpi_engine_python.Tracker.{
  ConnectionTracker, check_rules, apply_blocking_rules, update_flow, flow_or_new,
  get_or_create_flow,
}
use dpi_engine_python.Tracker.Blocking.{verdict, IsValid, get_or_create_flow-IsValid}
use dpi_engine_python.Tracker.Runs.{Call, run, run_blocked_exactly, empty-IsValid}
use dpi_engine_python.Types.{facebook, FiveTuple, five_tuple_eq, Flow}

abbrev key : FiveTuple
key = record {
  src_ip = codes "10.0.0.1";
  dst_ip = codes "1.2.3.4";
  src_port = 5000;
  dst_port = 443;
  protocol = codes "TCP";
}

abbrev rules : RuleManager
rules = rule_manager none none none

abbrev start : ConnectionTracker
start = record { flows = []; rules = rules }

abbrev calls : List Call
calls = (some key, none) ∷ (some key, some (codes "facebook.com")) ∷ []

-- The flow after the two packets.
abbrev blocked_flow : Flow
blocked_flow = record {
  five_tuple = some key;
  app_type = facebook;
  sni = some (codes "facebook.com");
  blocked = true;
  packet_count = 2;
}

run_found : get (run start calls).flows (some key) ≡ some blocked_flow
unfolding run get_or_create_flow flow_or_new update_flow apply_blocking_rules check_rules get put
    classify_domain first_app normalize lower_code is_space strip is_ip_blocked is_app_blocked
    is_domain_blocked blocks
run_found = refl

run_blocked_exactly_example : true ≡ verdict rules key blocked_flow
run_blocked_exactly_example = run_blocked_exactly rules calls key blocked_flow refl run_found

get_or_create_flow-IsValid_example : IsValid (get_or_create_flow start (some key) none).1
get_or_create_flow-IsValid_example =
    get_or_create_flow-IsValid start (some key) none (empty-IsValid rules)
