-- ===== src/Identity/Image.antt =====
-- crates/resonance-agent/src/identity.rs: from the image of a registry that was read from its file to
-- the registry.
use resonance_signal.Base.{
  ℕ, Option, none, some, List, [], ◌∷◌, not, ◌||◌, ◌==◌, ltb, Result, ok, err, ensure, ◌>>=◌,
  u64_max, is_empty_string, after_last, parse_number, if◌then◌else◌,
}
use Prim.Native.String.{String}
use resonance_signal.Identity.{
  ContinuityEvidence, RetiredReason, SourceState, SourceRecord, RegistryError, corrupt_registry,
  migration_failed, unsupported_schema, source_id,
}
use resonance_signal.Identity.Registry.{IdentityRegistry, contains_key, contains, insert}
use resonance_signal.Identity.Observations.{new_blank}

abbrev pub current_schema_version : ℕ
current_schema_version = 1

abbrev pub current_evidence_schema_version : ℕ
current_evidence_schema_version = 1

pub data PersistedSourceState : Type 0 where
  live absent retired : PersistedSourceState

-- The conversion of `PersistedRetiredReason` keeps the name of each reason, so it is left out.
pub record PersistedSourceRecord : Type 0 where
  pub source_id : String
  pub continuity : ContinuityEvidence
  pub display_name : String
  pub state : PersistedSourceState
  pub retired_reason : Option RetiredReason

pub record PersistedRegistry : Type 0 where
  pub schema_version : ℕ
  pub evidence_schema_version : ℕ
  pub namespace : String
  pub revision : ℕ
  pub next_source_sequence : ℕ
  pub entries : List PersistedSourceRecord

unfoldable pub into_current_schema : PersistedRegistry → Result RegistryError PersistedRegistry
into_current_schema image =
    ensure (not (image.schema_version == 0 || image.evidence_schema_version == 0)) migration_failed
    >>= λ _.
        ensure (not (ltb current_schema_version image.schema_version))
          (unsupported_schema current_schema_version image.schema_version)
        >>= λ _.
            ensure (not (ltb current_evidence_schema_version image.evidence_schema_version))
              (unsupported_schema current_evidence_schema_version image.evidence_schema_version)
            >>= λ _. ok (record image {
              schema_version = current_schema_version;
              evidence_schema_version = current_evidence_schema_version;
            })

abbrev pub loaded_state : PersistedSourceRecord → Result RegistryError SourceState
loaded_state p = elim p.state [
  | PersistedSourceState.live ↦ ok SourceState.live
  | PersistedSourceState.absent ↦ ok SourceState.absent
  | PersistedSourceState.retired ↦ elim p.retired_reason [
    | none ↦ err corrupt_registry
    | some reason ↦ ok (SourceState.retired reason)
  ]
]

-- The loop over the persisted entries, with the continuities seen so far.
unfoldable pub load_entries :
    List PersistedSourceRecord
    → List ContinuityEvidence
    → List SourceRecord
    → Result RegistryError (List SourceRecord)
load_entries [] index entries = ok entries
load_entries (p ∷ persisted) index entries = source_id p.source_id corrupt_registry >>= λ id.
    ensure (not (contains_key id entries)) corrupt_registry >>= λ _.
    ensure
      (not
        (is_empty_string p.continuity.backend_key || is_empty_string p.continuity.continuity_token))
      corrupt_registry
    >>= λ _. ensure (not (contains index p.continuity)) corrupt_registry >>= λ _.
        loaded_state p >>= λ state. load_entries persisted (p.continuity ∷ index) (
          insert
            (record {
              id = id;
              continuity = p.continuity;
              display_name = p.display_name;
              state = state;
            })
            entries)

-- `parse_sequence_from_id`
abbrev pub parse_sequence_from_id : String → Option ℕ
parse_sequence_from_id id = elim (after_last 45 id) [
  | none ↦ none
  | some digits ↦ parse_number u64_max digits
]

-- The sequence goes on after the ids that are there.
abbrev pub next_sequence : ℕ → List SourceRecord → ℕ
next_sequence sequence [] = sequence
next_sequence sequence (e ∷ entries) = elim (parse_sequence_from_id e.id) [
  | none ↦ next_sequence sequence entries
  | some parsed ↦ next_sequence (if ltb sequence parsed then parsed else sequence) entries
]

module _ {Allocator : Type 0} where
  unfoldable pub from_persisted :
      PersistedRegistry → Allocator → Result RegistryError (IdentityRegistry Allocator)
  from_persisted image allocator = into_current_schema image >>= λ current.
      load_entries current.entries [] [] >>= λ entries. ok (record {
        namespace = current.namespace;
        revision = current.revision;
        next_source_sequence = next_sequence current.next_source_sequence entries;
        allocator = allocator;
        entries = entries;
      })

  -- `load_or_init`, from what reading the current file and its backup gives: where neither can be
  -- read, the registry is new.
  unfoldable pub load_or_init :
      (IdentityRegistry Allocator → Result RegistryError (Unit {0}))
      → Result RegistryError PersistedRegistry
      → Result RegistryError PersistedRegistry
      → String
      → Allocator
      → Result RegistryError (IdentityRegistry Allocator)
  load_or_init persist (ok image) backup generated allocator = from_persisted image allocator
  load_or_init persist (err e) (ok image) generated allocator = from_persisted image allocator
  load_or_init persist (err e) (err e') generated allocator = new_blank persist generated allocator
