-- ===== src/Identity/Observations.antt =====
-- crates/resonance-agent/src/identity.rs: the operations of `IdentityRegistry` that change it. The
-- allocator and the writing of the file are parameters; a method on `&mut self` returns its result and
-- the registry that it leaves.
use resonance_signal.Base.{
  ℕ, zero, suc, Bool, true, false, none, some, List, [], ◌∷◌, map, not, ◌||◌, Result, ok, err, try,
  ◌>>=◌, decimal, string_eq, is_empty_string, if◌then◌else◌,
}
use Prim.Native.String.{String}
use Prim.Native.String.{◌++◌ as text_append}
use resonance_signal.Identity.{
  ContinuityEvidence, ambiguous_return, live, is_live, stable, ambiguous, unknown,
  SourceObservation, DiscoverySnapshot, RegistryError, source_id_allocation_failed, source_id,
}
use resonance_signal.Identity.Registry.{
  IdentityRegistry, saturating_suc, any, contains_key, insert, update, find_live,
  observed_continuities, goes_absent, mark_absent, revive, retire_all, retire_reused, returning,
  is_nonempty, snapshot,
}

-- `CounterSourceIdAllocator`, which has no state
unfoldable pub counter_source_id : Unit {0} → String → ℕ → String × Unit {0}
counter_source_id allocator namespace sequence =
    (text_append "id-" (text_append namespace (text_append "-" (decimal 20 sequence))), allocator)

module _ {Allocator : Type 0} (next_source_id : Allocator → String → ℕ → String × Allocator) where
  -- `allocate_source_id`, with the number of tries that are left
  unfoldable pub allocate_source_id :
      ℕ → IdentityRegistry Allocator → Result RegistryError String × IdentityRegistry Allocator
  allocate_source_id zero s = (err source_id_allocation_failed, s)
  allocate_source_id (suc tries) s =
      let sequence = saturating_suc s.next_source_sequence in
      let (candidate, allocator) = next_source_id s.allocator s.namespace sequence in
      let s' = record s { next_source_sequence = sequence; allocator = allocator } in
      elim (is_empty_string candidate || contains_key candidate s.entries) [
        | true ↦ allocate_source_id tries s'
        | false ↦ (source_id candidate source_id_allocation_failed, s')
      ]

  -- A stable observation: its entry is live again, or a new one is made.
  unfoldable pub observe_stable :
      List ContinuityEvidence
      → ContinuityEvidence
      → String
      → Bool
      → IdentityRegistry Allocator
      → Result RegistryError Bool × IdentityRegistry Allocator
  observe_stable observed c display_name changed s = elim (find_live c s.entries) [
    | some entry ↦ (
      ok (changed || not (is_live entry.state) || not (string_eq entry.display_name display_name)),
      record s { entries = update entry.id (revive display_name) s.entries },
    )
    | none ↦
        let retiring = record s { entries = retire_reused observed c s.entries } in
        let (id, s') = allocate_source_id 4096 retiring in
        try id s' λ new_id. (
          ok true,
          record s' {
            entries =
                insert
                  (record {
                    id = new_id;
                    continuity = c;
                    display_name = display_name;
                    state = live;
                  })
                  s'.entries;
          },
        )
  ]

  -- One observation, and whether anything has changed so far.
  unfoldable pub observe :
      List ContinuityEvidence
      → SourceObservation
      → Bool
      → IdentityRegistry Allocator
      → Result RegistryError Bool × IdentityRegistry Allocator
  observe observed o changed s = elim o.continuity [
    | stable backend_key continuity_token ↦
        observe_stable observed
          (record { backend_key = backend_key; continuity_token = continuity_token }) o.display_name
          changed s
    | ambiguous candidates ↦ (
      ok (changed || is_nonempty (returning candidates s.entries)),
      record s { entries = retire_all ambiguous_return (returning candidates s.entries) s.entries },
    )
    | unknown ↦ (ok changed, s)
  ]

  unfoldable pub observe_all :
      List ContinuityEvidence
      → List SourceObservation
      → Bool
      → IdentityRegistry Allocator
      → Result RegistryError Bool × IdentityRegistry Allocator
  observe_all observed [] changed s = (ok changed, s)
  observe_all observed (o ∷ observations) changed s =
      let (one, s') = observe observed o changed s in
      try one s' λ changed'. observe_all observed observations changed' s'

  module _ (persist : IdentityRegistry Allocator → Result RegistryError (Unit {0})) where
    unfoldable pub apply_observations :
        List SourceObservation
        → IdentityRegistry Allocator
        → Result RegistryError DiscoverySnapshot × IdentityRegistry Allocator
    apply_observations observations s =
        let observed = observed_continuities observations in
        let marked = record s { entries = map (mark_absent observed) s.entries } in
        let (all, s') =
          observe_all observed observations (any (goes_absent observed) s.entries) marked in
        try all s' λ changed.
          let s'' = record s' { revision = saturating_suc s'.revision } in
          if changed
          then (try (persist s'') s'' λ _. (ok (snapshot s''), s''))
          else (ok (snapshot s'), s')

module _ {Allocator : Type 0}
    (persist : IdentityRegistry Allocator → Result RegistryError (Unit {0})) where
  unfoldable pub advance_revision :
      IdentityRegistry Allocator
      → Result RegistryError DiscoverySnapshot × IdentityRegistry Allocator
  advance_revision s =
      let s' = record s { revision = saturating_suc s.revision } in
      try (persist s') s' λ _. (ok (snapshot s'), s')

  -- The new namespace is generated from the time and the process.
  unfoldable pub reset_namespace :
      String
      → IdentityRegistry Allocator
      → Result RegistryError (Unit {0}) × IdentityRegistry Allocator
  reset_namespace generated s =
      let s' = record s {
        namespace = generated;
        revision = saturating_suc s.revision;
        next_source_sequence = 0;
        entries = [];
      } in
      try (persist s') s' λ _. (ok tt, s')

  -- `new_blank`, which writes the registry at once
  unfoldable pub new_blank : String → Allocator → Result RegistryError (IdentityRegistry Allocator)
  new_blank generated allocator =
      let registry : IdentityRegistry Allocator = record {
        namespace = generated;
        revision = 1;
        next_source_sequence = 0;
        allocator = allocator;
        entries = [];
      } in
      persist registry >>= λ _. ok registry
