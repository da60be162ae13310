-- ===== src/Plugin.antt =====
-- internal/plugin: manifests, the routes that plugins serve, and the registry that sends events to
-- them. strings.HasPrefix, strings.Contains, strings.TrimSpace and the regular expressions are
-- parameters.
pub mod Manifest
pub mod Routes
pub mod Dispatch
pub mod Startup
use oikos.Common.{String, Bool, List}

pub record Strings : Type 0 where
  pub has_prefix : String → String → Bool  -- the text, and the prefix
  pub has_part : String → String → Bool
  pub trim_space : String → String
  pub matches_id : String → Bool  -- ^[A-Za-z0-9_-]+$
  pub matches_event : String → Bool  -- ^[A-Za-z0-9][A-Za-z0-9._-]*$
  pub matches_sha256 : String → Bool  -- ^[A-Fa-f0-9]{64}$

pub record PluginManifest : Type 0 where
  pub id : String
  pub name : String
  pub version : String
  pub binary : String
  pub enabled : Bool
  pub config : String
  pub allowed_events : List String
  pub allowed_routes : List String
  pub sha256 : String

pub record Capability : Type 0 where
  pub events : List String
  pub routes : List String

pub data PluginError : Type 0 where
  invalid_id empty_binary invalid_sha256 : PluginError
  invalid_event invalid_route : String → PluginError
  event_not_allowed route_not_allowed : String → PluginError
  nil_handler : PluginError
  already_registered : String → PluginError
