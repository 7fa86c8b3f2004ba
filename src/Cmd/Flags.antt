-- ===== src/Cmd/Flags.antt =====
-- The flags of cmd/main.go, as `flag.Parse` leaves them.
use kube_ephemerals.Prelude.{String, Bool, true, false}

pub record Flags : Type 0 where
  pub metrics_addr : String
  pub metrics_cert_path : String
  pub metrics_cert_name : String
  pub metrics_cert_key : String
  pub webhook_cert_path : String
  pub webhook_cert_name : String
  pub webhook_cert_key : String
  pub enable_leader_election : Bool
  pub probe_addr : String
  pub secure_metrics : Bool
  pub enable_http2 : Bool
  pub ui_addr : String
  pub ui_platform_domain : String
  pub ui_base_domain : String
  pub operator_service : String
  pub operator_namespace : String

-- The defaults with which the flags are declared.
abbrev pub default_flags : Flags
default_flags = record {
  metrics_addr = "0";
  metrics_cert_path = "";
  metrics_cert_name = "tls.crt";
  metrics_cert_key = "tls.key";
  webhook_cert_path = "";
  webhook_cert_name = "tls.crt";
  webhook_cert_key = "tls.key";
  enable_leader_election = false;
  probe_addr = ":8081";
  secure_metrics = true;
  enable_http2 = false;
  ui_addr = ":8082";
  ui_platform_domain = "platform.local";
  ui_base_domain = "preview.example.com";
  operator_service = "";
  operator_namespace = "";
}
