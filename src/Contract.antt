-- ===== src/Contract.antt =====
-- crates/resonance-api/src/contract.rs: the provider contract: ids, sources, discovery, the requests
-- for subscriptions, and the events of a stream.
pub mod Requests
mod Scenarios
use resonance_signal.Base.{
  Bool, true, false, Option, none, some, List, [], ◌∷◌, not, Result, ok, err, string_eq, is_blank,
  is_some, is_some_and, ensure, ◌||◌, ◌>>=◌, ◌>>◌, if◌then◌else◌,
}
use Prim.Native.String.{String}
use resonance_signal.Signal.{SampleRate, ChannelLayout, AudioFrame}
use resonance_signal.Signal.Levels.{LevelFrame, SpectrumFrame}
use resonance_signal.Recovery.Types.{RetryHint}

-- The one-field structs over `String`.
abbrev pub SourceId : Type 0
SourceId = String

abbrev pub StreamId : Type 0
StreamId = String

abbrev pub DiscoveryRevision : Type 0
DiscoveryRevision = String

pub data IdentifierError : Type 0 where
  empty : IdentifierError

-- Its `Display`.
abbrev pub identifier_error_text : IdentifierError → String
identifier_error_text empty = "identifier must contain a non-whitespace character"

-- `StreamId::new`
unfoldable pub new_stream_id : String → Result IdentifierError StreamId
new_stream_id value = if is_blank value then err empty else ok value

-- `DiscoveryRevision::new`
unfoldable pub new_discovery_revision : String → Result IdentifierError DiscoveryRevision
new_discovery_revision value = if is_blank value then err empty else ok value

pub data SourceKind : Type 0 where
  playback microphone virtual other : SourceKind

pub data DefaultSource : Type 0 where
  playback capture : DefaultSource

pub data SourceSelector : Type 0 where
  default : DefaultSource → SourceSelector
  id : SourceId → SourceSelector

pub data SignalProduct : Type 0 where
  waveform levels spectrum : SignalProduct

pub data SourceAvailability : Type 0 where
  available unavailable unknown : SourceAvailability

-- The derived `PartialEq`.
abbrev pub role_eq : DefaultSource → DefaultSource → Bool
role_eq DefaultSource.playback DefaultSource.playback = true
role_eq DefaultSource.capture DefaultSource.capture = true
role_eq _ _ = false

abbrev pub selector_eq : SourceSelector → SourceSelector → Bool
selector_eq (SourceSelector.default a) (SourceSelector.default b) = role_eq a b
selector_eq (SourceSelector.id a) (SourceSelector.id b) = string_eq a b
selector_eq _ _ = false

abbrev pub product_eq : SignalProduct → SignalProduct → Bool
product_eq SignalProduct.waveform SignalProduct.waveform = true
product_eq SignalProduct.levels SignalProduct.levels = true
product_eq SignalProduct.spectrum SignalProduct.spectrum = true
product_eq _ _ = false

pub data SubscriptionRequestError : Type 0 where
  no_sources no_products : SubscriptionRequestError
  duplicate_source : SourceSelector → SubscriptionRequestError
  duplicate_product : SignalProduct → SubscriptionRequestError

pub record SubscriptionRequest : Type 0 where
  pub sources : List SourceSelector
  pub products : List SignalProduct

pub data DiscoveryContractError : Type 0 where
  empty_display_name : DiscoveryContractError
  duplicate_source : SourceId → DiscoveryContractError
  duplicate_product : SignalProduct → DiscoveryContractError
  duplicate_default_role : DefaultSource → DiscoveryContractError

pub record SourceDescriptor : Type 0 where
  pub source_id : SourceId
  pub display_name : Option String
  pub kind : SourceKind
  pub availability : SourceAvailability
  pub supported_products : List SignalProduct
  pub default_roles : List DefaultSource

pub record DiscoverySnapshot : Type 0 where
  pub revision : DiscoveryRevision
  pub sources : List SourceDescriptor

abbrev pub contains {ℓ} : {A : Type ℓ} → (A → A → Bool) → List A → A → Bool
contains eq [] a = false
contains eq (x ∷ xs) a = eq x a || contains eq xs a

-- The first value that occurs among the ones before it; those seen so far come first.
abbrev pub duplicate_after {ℓ} : {A : Type ℓ} → (A → A → Bool) → List A → List A → Option A
duplicate_after eq seen [] = none
duplicate_after eq seen (x ∷ xs) =
    let rest = duplicate_after eq (x ∷ seen) xs in if contains eq seen x then some x else rest

-- `first_duplicate`
unfoldable pub first_duplicate {ℓ} : {A : Type ℓ} → (A → A → Bool) → List A → Option A
first_duplicate eq values = duplicate_after eq [] values

abbrev pub reject {ℓ} : {E A : Type ℓ} → Option A → (A → E) → Result E (Unit {ℓ})
reject none f = ok tt
reject (some a) f = err (f a)

abbrev pub is_empty {ℓ} : {A : Type ℓ} → List A → Bool
is_empty [] = true
is_empty (x ∷ xs) = false

-- `SubscriptionRequest::new`
unfoldable pub subscription_request :
    List SourceSelector → List SignalProduct → Result SubscriptionRequestError SubscriptionRequest
subscription_request sources products = do
  ensure (not (is_empty sources)) no_sources
  ensure (not (is_empty products)) no_products
  reject (first_duplicate selector_eq sources) SubscriptionRequestError.duplicate_source
  reject (first_duplicate product_eq products) SubscriptionRequestError.duplicate_product
  ok (record { sources = sources; products = products })

-- `SourceDescriptor::new`
unfoldable pub source_descriptor : SourceDescriptor → Result DiscoveryContractError SourceDescriptor
source_descriptor d = do
  ensure (not (is_some_and d.display_name is_blank)) empty_display_name
  reject (first_duplicate product_eq d.supported_products) DiscoveryContractError.duplicate_product
  reject (first_duplicate role_eq d.default_roles) duplicate_default_role
  ok d

abbrev pub is_default_playback : SourceDescriptor → Bool
is_default_playback d = contains role_eq d.default_roles DefaultSource.playback

-- The loop of `DiscoverySnapshot::new`; the sources seen so far come first.
abbrev pub check_sources :
    List SourceId → List SourceDescriptor → Result DiscoveryContractError (Unit {0})
check_sources seen [] = ok tt
check_sources seen (s ∷ sources) =
    let rest = check_sources (s.source_id ∷ seen) sources in
    if contains string_eq seen s.source_id
    then err (DiscoveryContractError.duplicate_source s.source_id)
    else rest

-- `DiscoverySnapshot::new`
unfoldable pub discovery_snapshot :
    DiscoveryRevision → List SourceDescriptor → Result DiscoveryContractError DiscoverySnapshot
discovery_snapshot revision sources = do
  check_sources [] sources
  ok (record { revision = revision; sources = sources })

-- The negotiated, fixed format of one stream.
pub record StreamDescriptor : Type 0 where
  pub stream_id : StreamId
  pub source_id : SourceId
  pub source_kind : SourceKind
  pub sample_rate : SampleRate
  pub channels : ChannelLayout

pub data SignalPayload (Sample : Type 0) : Type 0 where
  waveform : AudioFrame Sample → SignalPayload Sample
  levels : LevelFrame Sample → SignalPayload Sample
  spectrum : SpectrumFrame Sample → SignalPayload Sample

pub record SignalPacket (Sample : Type 0) : Type 0 where
  pub stream_id : StreamId
  pub payload : SignalPayload Sample

pub data ErrorKind : Type 0 where
  source_unavailable permission_denied stream_interrupted unsupported_format : ErrorKind
  invalid_request resource_exhausted internal : ErrorKind

pub data ErrorScope : Type 0 where
  subscription : ErrorScope
  source : SourceId → ErrorScope
  stream : StreamId → ErrorScope

pub record ProviderError : Type 0 where
  pub kind : ErrorKind
  pub scope : ErrorScope
  pub retry_hint : RetryHint
  pub message : String

pub data StreamEndReason : Type 0 where
  consumer_cancelled source_ended source_reconfigured provider_shutdown failed : StreamEndReason

-- `signal` is the variant `Data`.
pub data StreamEvent (Sample : Type 0) : Type 0 where
  started : StreamDescriptor → StreamEvent Sample
  signal : SignalPacket Sample → StreamEvent Sample
  error : ProviderError → StreamEvent Sample
  ended : (stream_id : StreamId) → (reason : StreamEndReason) → StreamEvent Sample
