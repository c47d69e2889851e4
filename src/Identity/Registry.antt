-- ===== src/Identity/Registry.antt =====
-- crates/resonance-agent/src/identity.rs: the state of `IdentityRegistry` and what is asked of it. The entries of its map
-- are a list in the order of their ids.
use resonance_signal.Base.{
  ℕ, ◌+◌, Bool, true, false, Option, none, some, List, [], ◌∷◌, ◌++◌, map, not, ◌&&◌, ◌||◌, ◌==◌,
  leb, Result, ok, err, u64_max, string_eq, if◌then◌else◌,
}
use Prim.Native.Nat.{Ordering}
use Prim.Native.String.{String, compare}
use resonance_signal.Identity.{
  ContinuityEvidence, RetiredReason, native_key_reuse, live, absent, retired, is_live, is_retired,
  SourceRecord, KnownSource, ObservedContinuity, stable, ambiguous, unknown, SourceObservation,
  DiscoverySnapshot, SourceResolution, RegistryError, snapshot_stale, unknown_source,
  source_unavailable, source_retired, continuity_eq,
}

pub record IdentityRegistry (Allocator : Type 0) : Type 0 where
  pub namespace : String
  pub revision : ℕ
  pub next_source_sequence : ℕ
  pub allocator : Allocator
  pub entries : List SourceRecord

-- `u64::saturating_add(1)`
abbrev pub saturating_suc : ℕ → ℕ
saturating_suc n = if leb (n + 1) u64_max then n + 1 else u64_max

abbrev pub any : {A : Type 0} → (A → Bool) → List A → Bool
any p [] = false
any p (x ∷ xs) = p x || any p xs

abbrev pub filter : {A : Type 0} → (A → Bool) → List A → List A
filter p [] = []
filter p (x ∷ xs) = let rest = filter p xs in if p x then x ∷ rest else rest

-- `BTreeMap::contains_key` and `get`
abbrev pub contains_key : String → List SourceRecord → Bool
contains_key id [] = false
contains_key id (e ∷ entries) = string_eq e.id id || contains_key id entries

abbrev pub get : String → List SourceRecord → Option SourceRecord
get id [] = none
get id (e ∷ entries) = let rest = get id entries in if string_eq e.id id then some e else rest

-- `BTreeMap::insert`
abbrev pub insert : SourceRecord → List SourceRecord → List SourceRecord
insert r [] = r ∷ []
insert r (e ∷ entries) =
    let rest = insert r entries in
    elim (compare r.id e.id) [
      | Ordering.lt ↦ r ∷ e ∷ entries
      | Ordering.eq ↦ r ∷ entries
      | Ordering.gt ↦ e ∷ rest
    ]

-- `BTreeMap::get_mut`, and a change of what it finds
abbrev pub changed_at : String → (SourceRecord → SourceRecord) → SourceRecord → SourceRecord
changed_at id f e = if string_eq e.id id then f e else e

abbrev pub update : String → (SourceRecord → SourceRecord) → List SourceRecord → List SourceRecord
update id f entries = map (changed_at id f) entries

-- The first entry that has the continuity and is not retired.
abbrev pub find_live : ContinuityEvidence → List SourceRecord → Option SourceRecord
find_live c [] = none
find_live c (e ∷ entries) =
    let rest = find_live c entries in
    if not (is_retired e.state) && continuity_eq e.continuity c then some e else rest

-- The stable observations.
abbrev pub observed_continuities : List SourceObservation → List ContinuityEvidence
observed_continuities [] = []
observed_continuities (o ∷ observations) = elim o.continuity [
  | stable backend_key continuity_token ↦
      record { backend_key = backend_key; continuity_token = continuity_token }
      ∷ observed_continuities observations
  | ambiguous candidates ↦ observed_continuities observations
  | unknown ↦ observed_continuities observations
]

abbrev pub contains : List ContinuityEvidence → ContinuityEvidence → Bool
contains observed c = any (continuity_eq c) observed

-- A live entry that is not observed becomes absent.
abbrev pub goes_absent : List ContinuityEvidence → SourceRecord → Bool
goes_absent observed e = is_live e.state && not (contains observed e.continuity)

abbrev pub mark_absent : List ContinuityEvidence → SourceRecord → SourceRecord
mark_absent observed e = if goes_absent observed e then record e { state = absent } else e

abbrev pub revive : String → SourceRecord → SourceRecord
revive display_name e = record e { state = live; display_name = display_name }

abbrev pub retire_record : RetiredReason → SourceRecord → SourceRecord
retire_record reason e = if is_retired e.state then e else record e { state = retired reason }

-- `retire`
abbrev pub retire : RetiredReason → String → List SourceRecord → List SourceRecord
retire reason id entries = update id (retire_record reason) entries

abbrev pub retire_all : RetiredReason → List String → List SourceRecord → List SourceRecord
retire_all reason [] entries = entries
retire_all reason (id ∷ ids) entries = retire_all reason ids (retire reason id entries)

-- The entry is another source under the same key of the backend, which is not observed.
abbrev pub is_reuse_candidate : List ContinuityEvidence → ContinuityEvidence → SourceRecord → Bool
is_reuse_candidate observed c e =
    not (is_retired e.state)
    && not (continuity_eq e.continuity c)
    && string_eq e.continuity.backend_key c.backend_key
    && not (contains observed e.continuity)

-- One candidate is retired, several are not.
abbrev pub retire_reused :
    List ContinuityEvidence → ContinuityEvidence → List SourceRecord → List SourceRecord
retire_reused observed c entries =
    elim (map (λ e. e.id) (filter (is_reuse_candidate observed c) entries)) [
      | [] ↦ entries
      | id ∷ ids ↦ elim ids [ [] ↦ retire native_key_reuse id entries | _ ∷ _ ↦ entries ]
    ]

-- The entries that an ambiguous observation retires. The source sorts the ids and takes an id once;
-- to retire one again changes nothing.
abbrev pub returning : List ContinuityEvidence → List SourceRecord → List String
returning [] entries = []
returning (c ∷ candidates) entries =
    map (λ e. e.id) (filter (λ e. not (is_retired e.state) && continuity_eq e.continuity c) entries)
    ++ returning candidates entries

abbrev pub is_nonempty : {A : Type 0} → List A → Bool
is_nonempty [] = false
is_nonempty (x ∷ xs) = true

module _ {Allocator : Type 0} where
  abbrev pub snapshot : IdentityRegistry Allocator → DiscoverySnapshot
  snapshot s = record { namespace = s.namespace; revision = s.revision }

  unfoldable pub validate_snapshot :
      DiscoverySnapshot → IdentityRegistry Allocator → Result RegistryError (Unit {0})
  validate_snapshot shown s =
      if not (string_eq shown.namespace s.namespace) || not (shown.revision == s.revision)
      then err (snapshot_stale s.revision shown.revision)
      else ok tt

  unfoldable pub source_id_for_observation :
      ObservedContinuity → IdentityRegistry Allocator → Option String
  source_id_for_observation (stable backend_key continuity_token) s =
      elim (find_live (record { backend_key = backend_key; continuity_token = continuity_token })
        s.entries) [ none ↦ none | some e ↦ some e.id ]
  source_id_for_observation (ambiguous candidates) s = none
  source_id_for_observation unknown s = none

  unfoldable pub known_sources : IdentityRegistry Allocator → List KnownSource
  known_sources s =
      map
        (λ e. record {
          source_id = e.id;
          display_name = e.display_name;
          is_available = is_live e.state;
        })
        (filter (λ e. not (is_retired e.state)) s.entries)

  unfoldable pub resolve :
      String
      → DiscoverySnapshot
      → IdentityRegistry Allocator
      → Result RegistryError SourceResolution
  resolve id shown s = elim (validate_snapshot shown s) [
    | err e ↦ err e
    | ok _ ↦ elim (get id s.entries) [
      | none ↦ err unknown_source
      | some entry ↦ elim entry.state [
        | live ↦ ok (SourceResolution.live entry.id)
        | absent ↦ err source_unavailable
        | retired reason ↦ err source_retired
      ]
    ]
  ]
