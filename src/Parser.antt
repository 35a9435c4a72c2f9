-- ===== src/Parser.antt =====
-- src/src/parser/mod.rs: subscription lines and the proxies that they describe.
pub mod Json
pub mod Validate
pub mod Share
pub mod Subscription
pub mod Outbound
pub mod Accepted
pub mod Deduped
pub mod Reality
pub mod Remark
use proxy_fleet.Common.{ℕ, String, List}
use proxy_fleet.Parser.Json.{Value}

pub record ParsedProxy : Type 0 where
  pub source : String
  pub raw_config : String
  pub protocol : String
  pub address : String
  pub port : ℕ  -- u16
  pub remark : String
  pub normalized_config : Value
  pub config_hash : String

pub record ParseReport : Type 0 where
  pub accepted : List ParsedProxy
  pub rejected : List String
