-- ===== src/Contract/Scenarios.antt =====
-- Requests, sources and a discovery.
use resonance_signal.Base.{◌≡◌, ◌≢◌, ◌↔◌, refl, some, List, [], ◌∷◌, ok, err}
use resonance_signal.Contract.{
  DefaultSource, SourceSelector, SignalProduct, SubscriptionRequest, subscription_request,
  SourceDescriptor, SourceKind, SourceAvailability, source_descriptor, discovery_snapshot,
  DiscoveryContractError, empty_display_name, first_duplicate, empty, new_stream_id,
  new_discovery_revision,
}
use resonance_signal.Contract.Requests.{Distinct, subscription_request_iff}

abbrev sources : List SourceSelector
sources =
    SourceSelector.default DefaultSource.playback
    ∷ SourceSelector.id "microphone:desk"
    ∷ SourceSelector.default DefaultSource.capture
    ∷ []

abbrev products : List SignalProduct
products = SignalProduct.waveform ∷ SignalProduct.levels ∷ []

abbrev request : SubscriptionRequest
request = record { sources = sources; products = products }

request_test : subscription_request sources products ≡ ok request
unfolding subscription_request first_duplicate
request_test = refl

subscription_request_iff_example : (subscription_request sources products ≡ ok request) ↔ (
    (sources ≢ [])
    × (products ≢ [])
    × Distinct sources
    × Distinct products
    × (request ≡ record { sources = sources; products = products }))
subscription_request_iff_example = subscription_request_iff sources products request

abbrev speakers : SourceDescriptor
speakers = record {
  source_id = "source-1";
  display_name = some " ";
  kind = SourceKind.playback;
  availability = SourceAvailability.available;
  supported_products = products;
  default_roles = [];
}

descriptor_test : source_descriptor speakers ≡ err empty_display_name
unfolding source_descriptor first_duplicate
descriptor_test = refl

discovery_test :
    discovery_snapshot "7" (speakers ∷ speakers ∷ [])
    ≡ err (DiscoveryContractError.duplicate_source "source-1")
unfolding discovery_snapshot
discovery_test = refl

blank_test : new_stream_id " " ≡ err empty
unfolding new_stream_id
blank_test = refl

revision_test : new_discovery_revision "4" ≡ ok "4"
unfolding new_discovery_revision
revision_test = refl
