-- ===== src/Settings.antt =====
-- What cmd/server/main.go and cmd/mock-psp/main.go take from the environment, given as the function
-- `getenv`.
use dodo_payment_gateway.Base.{String, ◌==◌, if◌then◌else◌}
use dodo_payment_gateway.Webhook.Signature.{default_psp_secret}

-- `if value == "" { value = default }`
abbrev pub or_default : String → String → String
or_default value default = if value == "" then default else value

pub record GatewaySettings : Type 0 where
  pub migrations_path : String
  pub psp_url : String
  pub psp_webhook_secret : String

abbrev pub gateway_settings : (String → String) → GatewaySettings
gateway_settings getenv = record {
  migrations_path = or_default (getenv "MIGRATIONS_PATH") "migrations";
  psp_url = or_default (getenv "PSP_BASE_URL") "http://localhost:8081";
  psp_webhook_secret = or_default (getenv "PSP_WEBHOOK_SECRET") default_psp_secret;
}

pub record ProcessorSettings : Type 0 where
  pub addr : String
  pub webhook_url : String
  pub webhook_secret : String

abbrev pub processor_settings : (String → String) → ProcessorSettings
processor_settings getenv = record {
  addr = or_default (getenv "MOCK_PSP_ADDR") ":8081";
  webhook_url = or_default (getenv "INVOICE_WEBHOOK_URL") "http://localhost:8080/webhooks/psp";
  webhook_secret = or_default (getenv "PSP_WEBHOOK_SECRET") default_psp_secret;
}
