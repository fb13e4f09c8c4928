-- ===== src/Programs/Server/Tests.antt =====
-- The server program without options.
use network_demo.Base.{false, none, ◌≡◌, refl}
use network_demo.Base.Text.{pos, negsuc}
use network_demo.Programs.Options.{thrift, info, ok, ◌and_then◌, set_level, proto_of, number_of}
use network_demo.Programs.Server.{ServerArgs, ServerPlan, server_plan}

abbrev options : ServerArgs
options = record {
  log_level = none;
  port = none;
  proto = none;
  attachment = false;
  is_response = false;
  max_c = none;
  internal_port = none;
}

abbrev plan : ServerPlan
plan = record {
  level = info;
  proto = thrift;
  port = pos 38888;
  attachment = false;
  is_response = false;
  max_concurrency = negsuc 0;
  internal_port = negsuc 0;
}

server_plan-options : server_plan options ≡ ok plan
unfolding server_plan ◌and_then◌ set_level proto_of number_of
server_plan-options = refl
