-- ===== src/Identity.antt =====
-- crates/resonance-agent/src/identity.rs: the registry of source identities, its data. A `String` is
-- the native string; the order of a `BTreeMap` is that of its keys by code points, which is the order
-- of their bytes. The input and output of files is a parameter.
pub mod Registry
pub mod Observations
pub mod Image
pub mod Field
pub mod Entries
pub mod Retirement
pub mod Freshness
pub mod Inserts
pub mod Loadable
pub mod Loading
mod Scenarios
use resonance_signal.Base.{
  ℕ, ◌+◌, ◌<◌, Bool, true, false, Option, none, some, List, [], ◌∷◌, ◌||◌, ◌&&◌, not, leb, ltb,
  ◌==◌, Result, ok, err, u64_max, string_eq, is_blank, if◌then◌else◌,
}
use Prim.Native.String.{String}

pub record ContinuityEvidence : Type 0 where
  pub backend_key : String
  pub continuity_token : String

pub data RetiredReason : Type 0 where
  native_key_reuse ambiguous_return migration_corruption namespace_reset : RetiredReason

pub data SourceState : Type 0 where
  live absent : SourceState
  retired : RetiredReason → SourceState

abbrev pub is_live : SourceState → Bool
is_live live = true
is_live _ = false

abbrev pub is_retired : SourceState → Bool
is_retired (retired reason) = true
is_retired _ = false

-- The id is a `SourceId`, a string that is not blank.
pub record SourceRecord : Type 0 where
  pub id : String
  pub continuity : ContinuityEvidence
  pub display_name : String
  pub state : SourceState

pub record KnownSource : Type 0 where
  pub source_id : String
  pub display_name : String
  pub is_available : Bool

pub data ObservedContinuity : Type 0 where
  stable : (backend_key continuity_token : String) → ObservedContinuity
  ambiguous : List ContinuityEvidence → ObservedContinuity
  unknown : ObservedContinuity

pub record SourceObservation : Type 0 where
  pub display_name : String
  pub continuity : ObservedContinuity

pub record DiscoverySnapshot : Type 0 where
  pub namespace : String
  pub revision : ℕ

pub data SourceResolution : Type 0 where
  live : String → SourceResolution
  absent retired unknown : SourceResolution

pub data RegistryError : Type 0 where
  io : RegistryError
  unsupported_schema : (expected observed : ℕ) → RegistryError
  corrupt_registry : RegistryError
  snapshot_stale : (expected observed : ℕ) → RegistryError
  unknown_source source_unavailable source_retired : RegistryError
  source_id_allocation_failed migration_failed : RegistryError

abbrev pub continuity_eq : ContinuityEvidence → ContinuityEvidence → Bool
continuity_eq a b =
    string_eq a.backend_key b.backend_key && string_eq a.continuity_token b.continuity_token

-- `SourceId::new`, where the caller gives the error.
abbrev pub source_id : String → RegistryError → Result RegistryError String
source_id value e = if is_blank value then err e else ok value
