-- ===== src/Identity/Scenarios.antt =====
-- A source that is found, comes back among others, and is found again; fields with special characters.
use resonance_signal.Base.{
  ℕ, ◌≡◌, refl, Bool, true, Option, none, some, List, [], ◌∷◌, ◌&&◌, ltb, Result, ok, err,
  if◌then◌else◌, arith,
}
use Prim.Native.String.{String}
use resonance_signal.Identity.{
  ContinuityEvidence, RetiredReason, ambiguous_return, SourceState, live, retired, SourceRecord,
  stable, ambiguous, SourceObservation, RegistryError,
}
use resonance_signal.Identity.Registry.{
  IdentityRegistry, snapshot, validate_snapshot, resolve, known_sources, source_id_for_observation,
}
use resonance_signal.Identity.Observations.{
  counter_source_id, new_blank, advance_revision, reset_namespace, allocate_source_id,
  observe_stable, observe, observe_all, apply_observations,
}
use resonance_signal.Identity.Image.{
  PersistedSourceState, PersistedSourceRecord, PersistedRegistry, into_current_schema, load_entries,
  from_persisted, load_or_init,
}
use resonance_signal.Identity.Field.{encode_field, decode_field, decode_field-encode_field}
use resonance_signal.Identity.Retirement.{Safe, apply_observations-Safe}
use resonance_signal.Identity.Freshness.{apply_observations-validate_snapshot}
use resonance_signal.Identity.Loading.{LoadOutcome, from_persisted-LoadOutcome}

-- Every write of the file succeeds.
abbrev written : IdentityRegistry (Unit {0}) → Result RegistryError (Unit {0})
written s = ok tt

abbrev microphone : ContinuityEvidence
microphone = record { backend_key = "wasapi"; continuity_token = "endpoint-1" }

abbrev seen : SourceObservation
seen = record { display_name = "Microphone"; continuity = stable "wasapi" "endpoint-1" }

abbrev unclear : SourceObservation
unclear = record { display_name = "Microphone"; continuity = ambiguous (microphone ∷ []) }

abbrev entry : String → SourceState → SourceRecord
entry id state = record {
  id = id;
  continuity = microphone;
  display_name = "Microphone";
  state = state;
}

abbrev registry : ℕ → ℕ → List SourceRecord → IdentityRegistry (Unit {0})
registry revision sequence entries = record {
  namespace = "ns";
  revision = revision;
  next_source_sequence = sequence;
  allocator = tt;
  entries = entries;
}

abbrev found : IdentityRegistry (Unit {0})
found = registry 2 1 (entry "id-ns-1" live ∷ [])

-- A new source gets the next id.
first_seen_test :
    apply_observations counter_source_id written (seen ∷ []) (registry 1 0 [])
    ≡ (ok (snapshot found), found)
unfolding apply_observations observe_all observe observe_stable allocate_source_id counter_source_id
first_seen_test = refl

-- An ambiguous return retires the source, and then it gets another id: the registry has its
-- continuity twice, and an image with these entries is not loaded.
abbrev twice : IdentityRegistry (Unit {0})
twice = registry 4 2 (entry "id-ns-1" (retired ambiguous_return) ∷ entry "id-ns-2" live ∷ [])

returned_test :
    apply_observations counter_source_id written
      (seen ∷ [])
      (apply_observations counter_source_id written (unclear ∷ []) found).1
    ≡ (ok (snapshot twice), twice)
unfolding apply_observations observe_all observe observe_stable allocate_source_id counter_source_id
returned_test = refl

abbrev persisted : String → PersistedSourceState → Option RetiredReason → PersistedSourceRecord
persisted id state reason = record {
  source_id = id;
  continuity = microphone;
  display_name = "Microphone";
  state = state;
  retired_reason = reason;
}

abbrev image : List PersistedSourceRecord → PersistedRegistry
image entries = record {
  schema_version = 1;
  evidence_schema_version = 1;
  namespace = "ns";
  revision = 4;
  next_source_sequence = 0;
  entries = entries;
}

twice_test :
    from_persisted
      (image (
        persisted "id-ns-1" PersistedSourceState.retired (some ambiguous_return)
        ∷ persisted "id-ns-2" PersistedSourceState.live none
        ∷ []))
      (tt {0})
    ≡ err RegistryError.corrupt_registry
unfolding from_persisted into_current_schema load_entries
twice_test = refl

-- The sequence goes on after the ids that were loaded.
from_persisted-LoadOutcome_example :
    LoadOutcome
      (image (persisted "id-ns-7" PersistedSourceState.live none ∷ []))
      (ok (registry 4 7 (entry "id-ns-7" live ∷ [])))
unfolding from_persisted into_current_schema load_entries
from_persisted-LoadOutcome_example =
    from_persisted-LoadOutcome (image (persisted "id-ns-7" PersistedSourceState.live none ∷ []))
      (tt {0})

apply_observations-Safe_example :
    Safe found.entries (apply_observations counter_source_id written (unclear ∷ []) found).1.entries
apply_observations-Safe_example =
    apply_observations-Safe counter_source_id written (unclear ∷ []) found (refl, tt)

apply_observations-validate_snapshot_example :
    (apply_observations counter_source_id written (seen ∷ []) found).1.entries ≡ found.entries
unfolding apply_observations observe_all observe observe_stable validate_snapshot
apply_observations-validate_snapshot_example =
    apply_observations-validate_snapshot counter_source_id written (seen ∷ []) found
      (apply_observations counter_source_id written (seen ∷ []) found).1 (snapshot found) tt
      (refl, tt) (omega arith) refl refl

-- Texts of code points below 128 are their own bytes.
abbrev is_ascii : List ℕ → Bool
is_ascii [] = true
is_ascii (byte ∷ bytes) = ltb byte 128 && is_ascii bytes

abbrev from_ascii : List ℕ → Option (List ℕ)
from_ascii bytes = if is_ascii bytes then some bytes else none

abbrev special : List ℕ
special = 72 ∷ 124 ∷ 37 ∷ 10 ∷ []

encode_field_test : encode_field special ≡ 72 ∷ 37 ∷ 55 ∷ 67 ∷ 37 ∷ 50 ∷ 53 ∷ 37 ∷ 48 ∷ 65 ∷ []
unfolding encode_field
encode_field_test = refl

decode_field-encode_field_example :
    decode_field (λ text. text) from_ascii (encode_field special) ≡ ok special
decode_field-encode_field_example =
    decode_field-encode_field (λ text. text) from_ascii special
      (omega arith, (omega arith, (omega arith, (omega arith, tt)))) refl

resolve_test : resolve "id-ns-1" (snapshot twice) twice ≡ err RegistryError.source_retired
unfolding resolve validate_snapshot
resolve_test = refl

known_sources_test :
    known_sources twice
    ≡ record { source_id = "id-ns-2"; display_name = "Microphone"; is_available = true } ∷ []
unfolding known_sources
known_sources_test = refl

source_id_for_observation_test :
    source_id_for_observation (stable "wasapi" "endpoint-1") twice ≡ some "id-ns-2"
unfolding source_id_for_observation
source_id_for_observation_test = refl

-- A new revision makes a snapshot stale.
advance_revision_test :
    validate_snapshot (snapshot found) (advance_revision written found).1
    ≡ err (RegistryError.snapshot_stale 3 2)
unfolding advance_revision validate_snapshot
advance_revision_test = refl

reset_namespace_test :
    (reset_namespace written "ns2" found).1
    ≡ record found { namespace = "ns2"; revision = 3; next_source_sequence = 0; entries = [] }
unfolding reset_namespace
reset_namespace_test = refl

-- Neither file can be read.
load_or_init_test :
    load_or_init written (err RegistryError.io) (err RegistryError.io) "ns" tt
    ≡ ok (registry 1 0 [])
unfolding load_or_init new_blank
load_or_init_test = refl
