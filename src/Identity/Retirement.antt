-- ===== src/Identity/Retirement.antt =====
-- What observations do to the entries that are there.
use resonance_signal.Base.{
  ℕ, zero, suc, ◌≡◌, refl, sym, ap, ◌∙◌, Bool, true, false, Bool-cases, Option-cases, inl, inr,
  some, List, [], ◌∷◌, map, ◌||◌, Result, ok, err, try, string_eq, string_eq_iff, is_empty_string,
  is_blank, if◌then◌else◌, arith,
}
use Prim.Native.String.{String}
use mathlib.Core.Option.{some-injective}
use resonance_signal.Identity.{
  ContinuityEvidence, RetiredReason, native_key_reuse, ambiguous_return, SourceState, live, absent,
  retired, is_live, is_retired, SourceRecord, ObservedContinuity, stable, ambiguous, unknown,
  SourceObservation, RegistryError, source_id, source_id_allocation_failed,
}
use resonance_signal.Identity.Registry.{
  IdentityRegistry, saturating_suc, any, filter, contains_key, get, insert, changed_at, update,
  find_live, observed_continuities, goes_absent, mark_absent, revive, retire_record, retire,
  retire_all, is_reuse_candidate, retire_reused, returning, snapshot,
}
use resonance_signal.Identity.Observations.{
  allocate_source_id, observe_stable, observe, observe_all, apply_observations,
}
use resonance_signal.Identity.Entries.{
  Distinct, Evolves, Evolves-refl, Keeps, Keeps-refl, Keeps-trans, get-contains_key, get-same_id,
  Distinct-map, get-map, get-insert, Distinct-insert, find_live-get,
}

-- The ids stay distinct, and every entry is kept.
abbrev pub Safe : List SourceRecord → List SourceRecord → Type 0
Safe entries entries' = Distinct entries' × Keeps entries entries'

Safe-trans : (a b c : List SourceRecord) → Safe a b → (Distinct b → Safe b c) → Safe a c
Safe-trans a b c (d, k) h = ((h d).0, Keeps-trans a b c k (h d).1)

-- A change of the entries one by one.
pub map-Safe :
    (g : SourceRecord → SourceRecord) (entries : List SourceRecord)
    → ((e : SourceRecord) → (g e).id ≡ e.id)
    → ((id : String) (e : SourceRecord) → get id entries ≡ some e → Evolves e (g e))
    → Distinct entries
    → Safe entries (map g entries)
map-Safe g entries same h d =
    (Distinct-map g same entries d, λ id e at. (g e, get-map g same id entries e at, h id e at))

live_not_retired : (state : SourceState) → is_live state ≡ true → is_retired state ≡ true → ⊥
live_not_retired live h k = cc
live_not_retired absent h k = cc
live_not_retired (retired reason) h k = cc

pub mark_absent-Evolves :
    (observed : List ContinuityEvidence) (e : SourceRecord) → Evolves e (mark_absent observed e)
mark_absent-Evolves observed e = elim (Bool-cases (goes_absent observed e)) [
  | inl p ↦ rw p (record {
    id = refl;
    continuity = refl;
    stays_retired = λ r. absurd (live_not_retired e.state (ground arith) r);
  })
  | inr p ↦ rw p (Evolves-refl e)
]

retire-Evolves :
    (reason : RetiredReason) (id : String) (e : SourceRecord)
    → Evolves e (changed_at id (retire_record reason) e)
retire-Evolves reason id e = elim (Bool-cases (string_eq e.id id)) [
  | inl p ↦ elim (Bool-cases (is_retired e.state)) [
    | inl q ↦ rw (p, q) (Evolves-refl e)
    | inr q ↦ rw (p, q) (record { id = refl; continuity = refl; stays_retired = λ r. absurd cc })
  ]
  | inr p ↦ rw p (Evolves-refl e)
]

retire-Safe :
    (reason : RetiredReason) (id : String) (entries : List SourceRecord)
    → Distinct entries
    → Safe entries (retire reason id entries)
retire-Safe reason id entries d =
    map-Safe (changed_at id (retire_record reason)) entries (λ e. (retire-Evolves reason id e).id)
      (λ i e at. retire-Evolves reason id e) d

retire_all-Safe :
    (reason : RetiredReason) (ids : List String) (entries : List SourceRecord)
    → Distinct entries
    → Safe entries (retire_all reason ids entries)
retire_all-Safe reason [] entries d = (d, Keeps-refl entries)
retire_all-Safe reason (id ∷ ids) entries d =
    Safe-trans entries (retire reason id entries) _ (retire-Safe reason id entries d)
      (retire_all-Safe reason ids (retire reason id entries))

retire_reused-Safe :
    (observed : List ContinuityEvidence) (c : ContinuityEvidence) (entries : List SourceRecord)
    → Distinct entries
    → Safe entries (retire_reused observed c entries)
retire_reused-Safe observed c entries d =
    go (map (λ e. e.id) (filter (is_reuse_candidate observed c) entries))
  where
    go :
        (ids : List String)
        → Safe entries (elim ids [
          | [] ↦ entries
          | id ∷ rest ↦ elim rest [ [] ↦ retire native_key_reuse id entries | _ ∷ _ ↦ entries ]
        ])
    go [] = (d, Keeps-refl entries)
    go (id ∷ []) = retire-Safe native_key_reuse id entries d
    go (id ∷ x ∷ rest) = (d, Keeps-refl entries)

revive_id :
    (display_name id : String) (e : SourceRecord)
    → (changed_at id (revive display_name) e).id ≡ e.id
revive_id display_name id e = elim (Bool-cases (string_eq e.id id)) [
  | inl p ↦ rw p refl
  | inr p ↦ rw p refl
]

revive-Safe :
    (c : ContinuityEvidence) (display_name : String) (found : SourceRecord)
    (entries : List SourceRecord)
    → find_live c entries ≡ some found
    → Distinct entries
    → Safe entries (update found.id (revive display_name) entries)
revive-Safe c display_name found entries h d =
    let (at_found, alive, same) = find_live-get c entries found d h in
    map-Safe (changed_at found.id (revive display_name)) entries (revive_id display_name found.id)
      (λ id e at. elim (Bool-cases (string_eq e.id found.id)) [
        | inl p ↦
            let here = (string_eq_iff e.id found.id).0 p in
            let id_here = get-same_id id entries e at in
            let one : some e ≡ some found =
              sym at ∙ ap (λ i. get i entries) (sym id_here ∙ here) ∙ at_found in
            let retired_here =
              ap (λ (y : SourceRecord). is_retired y.state) (some-injective e found one) in
            rw p (record { id = refl; continuity = refl; stays_retired = λ r. absurd cc })
        | inr p ↦ rw p (Evolves-refl e)
      ])
      d

-- A new entry under an id that is not there.
insert-Safe :
    (r : SourceRecord) (entries : List SourceRecord)
    → contains_key r.id entries ≡ false
    → Distinct entries
    → Safe entries (insert r entries)
insert-Safe r entries h d = (
  Distinct-insert r entries h d,
  λ id e at.
      let there = get-contains_key id entries e at in
      (e, get-insert r id entries (other id there) ∙ at, Evolves-refl e),
)
  where
    other : (id : String) → contains_key id entries ≡ true → string_eq r.id id ≡ false
    other id there = elim (Bool-cases (string_eq r.id id)) [
      | inl p ↦
          let same = ap (λ i. contains_key i entries) ((string_eq_iff r.id id).0 p) in absurd cc
      | inr p ↦ p
    ]

module _ {Allocator : Type 0} (next_source_id : Allocator → String → ℕ → String × Allocator) where
  -- An allocated id is new, and the entries stay.
  abbrev Allocated :
      List SourceRecord → Result RegistryError String × IdentityRegistry Allocator → Type 0
  Allocated entries (ok id, t) = (t.entries ≡ entries) × (contains_key id entries ≡ false)
  Allocated entries (err e, t) = (t.entries ≡ entries) × (e ≡ source_id_allocation_failed)

  named-Allocated :
      (candidate : String) (entries : List SourceRecord) (t : IdentityRegistry Allocator)
      → t.entries ≡ entries
      → contains_key candidate entries ≡ false
      → Allocated entries (source_id candidate source_id_allocation_failed, t)
  named-Allocated candidate entries t same new = elim (Bool-cases (is_blank candidate)) [
    | inl p ↦ rw p (same, refl)
    | inr p ↦ rw p (same, new)
  ]

  tried-Allocated :
      (b : Bool) (entries : List SourceRecord)
      (again new : Result RegistryError String × IdentityRegistry Allocator)
      → Allocated entries again
      → (b ≡ false → Allocated entries new)
      → Allocated entries (elim b [ true ↦ again | false ↦ new ])
  tried-Allocated true entries again new h k = h
  tried-Allocated false entries again new h k = k refl

  pub allocate_source_id-Allocated :
      (tries : ℕ) (s : IdentityRegistry Allocator)
      → Allocated s.entries (allocate_source_id next_source_id tries s)
  unfolding allocate_source_id
  allocate_source_id-Allocated zero s = (refl, refl)
  allocate_source_id-Allocated (suc tries) s =
      let next = next_source_id s.allocator s.namespace (saturating_suc s.next_source_sequence) in
      tried-Allocated (is_empty_string next.0 || contains_key next.0 s.entries) s.entries _ _
        (allocate_source_id-Allocated tries _)
        (λ h. named-Allocated next.0 s.entries _ refl (ground arith))

  -- The end of an observation.
  abbrev pub Observed :
      {A : Type 0}
      → List SourceRecord
      → Result RegistryError A × IdentityRegistry Allocator
      → Type 0
  Observed entries (r, t) = Safe entries t.entries

  added-Observed :
      (entries retiring : List SourceRecord) (record_of : String → SourceRecord)
      (out : Result RegistryError String × IdentityRegistry Allocator)
      → ((id : String) → (record_of id).id ≡ id)
      → Safe entries retiring
      → Allocated retiring out
      → Observed entries (
          try out.0 out.1
            λ id. (ok true, record out.1 { entries = insert (record_of id) out.1.entries }))
  added-Observed entries retiring record_of (err e, t) same safe (kept, failed) = rw kept safe
  added-Observed entries retiring record_of (ok id, t) same safe (kept, new) =
      rw kept (
        Safe-trans entries retiring _ safe (insert-Safe (record_of id) retiring (rw (same id) new)))

  found-Observed :
      (observed : List ContinuityEvidence) (c : ContinuityEvidence) (display_name : String)
      (changed : Bool) (s : IdentityRegistry Allocator)
      → Distinct s.entries
      → Observed s.entries (observe_stable next_source_id observed c display_name changed s)
  unfolding observe_stable
  found-Observed observed c display_name changed s d = elim (Option-cases (find_live c s.entries)) [
    | inl h ↦
        let reused = retire_reused observed c s.entries in
        rw (h, observe_stable)
          (added-Observed s.entries reused
            (λ id. record { id = id; continuity = c; display_name = display_name; state = live })
            (allocate_source_id next_source_id 4096 (record s { entries = reused })) (λ id. refl)
            (retire_reused-Safe observed c s.entries d)
            (allocate_source_id-Allocated 4096 (record s { entries = reused })))
    | inr (found, h) ↦ rw (h, observe_stable) (revive-Safe c display_name found s.entries h d)
  ]

  pub observe-Observed :
      (observed : List ContinuityEvidence) (o : SourceObservation) (continuity : ObservedContinuity)
      (changed : Bool) (s : IdentityRegistry Allocator)
      → o.continuity ≡ continuity
      → Distinct s.entries
      → Observed s.entries (observe next_source_id observed o changed s)
  unfolding observe
  observe-Observed observed o (stable backend_key continuity_token) changed s e d =
      rw e (found-Observed observed _ o.display_name changed s d)
  observe-Observed observed o (ambiguous candidates) changed s e d =
      rw e (retire_all-Safe ambiguous_return (returning candidates s.entries) s.entries d)
  observe-Observed observed o unknown changed s e d = rw e (d, Keeps-refl s.entries)

  then-Observed :
      {A B : Type 0} (entries : List SourceRecord)
      (one : Result RegistryError A × IdentityRegistry Allocator)
      (k : A → Result RegistryError B × IdentityRegistry Allocator)
      → Observed entries one
      → ((a : A) → Distinct one.1.entries → Observed one.1.entries (k a))
      → Observed entries (try one.0 one.1 k)
  then-Observed entries (ok a, t) k h g = Safe-trans entries t.entries _ h (g a)
  then-Observed entries (err e, t) k h g = h

  observe_all-Observed :
      (observed : List ContinuityEvidence) (observations : List SourceObservation) (changed : Bool)
      (s : IdentityRegistry Allocator)
      → Distinct s.entries
      → Observed s.entries (observe_all next_source_id observed observations changed s)
  unfolding observe_all
  observe_all-Observed observed [] changed s d = (d, Keeps-refl s.entries)
  observe_all-Observed observed (o ∷ observations) changed s d =
      let one = observe next_source_id observed o changed s in
      then-Observed s.entries one _ (observe-Observed observed o o.continuity changed s refl d)
        (λ changed' d'. observe_all-Observed observed observations changed' one.1 d')

  module _ (persist : IdentityRegistry Allocator → Result RegistryError (Unit {0})) where
    -- The revision and the file are not the entries.
    saved-Safe :
        (changed : Bool) (t : IdentityRegistry Allocator)
        → Distinct t.entries
        → Observed t.entries (
            if changed
            then (try
                (persist (record t { revision = saturating_suc t.revision }))
                (record t { revision = saturating_suc t.revision })
                λ _. (
                  ok (snapshot (record t { revision = saturating_suc t.revision })),
                  record t { revision = saturating_suc t.revision },
                ))
            else (ok (snapshot t), t))
    saved-Safe true t d =
        elim (persist (record t { revision = saturating_suc t.revision }))
          as (λ r. Observed t.entries (
            try r (record t { revision = saturating_suc t.revision })
              λ _. (
                ok (snapshot (record t { revision = saturating_suc t.revision })),
                record t { revision = saturating_suc t.revision },
              ))) [ ok u ↦ (d, Keeps-refl t.entries) | err e ↦ (d, Keeps-refl t.entries) ]
    saved-Safe false t d = (d, Keeps-refl t.entries)

    -- Where the ids are distinct, observations keep them so, whether they succeed or not; every id that
    -- is there stays, with its continuity, and a retired entry does not change at all.
    pub apply_observations-Safe :
        (observations : List SourceObservation) (s : IdentityRegistry Allocator)
        → Distinct s.entries
        → Safe s.entries (apply_observations next_source_id persist observations s).1.entries
    unfolding apply_observations
    apply_observations-Safe observations s d =
        let observed = observed_continuities observations in
        let marking : Safe s.entries (map (mark_absent observed) s.entries) =
          map-Safe (mark_absent observed) s.entries (λ e. (mark_absent-Evolves observed e).id)
            (λ id e at. mark_absent-Evolves observed e) d in
        Safe-trans s.entries (map (mark_absent observed) s.entries) _ marking λ d'.
          then-Observed _
            (observe_all next_source_id observed observations (any (goes_absent observed) s.entries)
              (record s { entries = map (mark_absent observed) s.entries }))
            _ (observe_all-Observed observed observations _ _ d')
            (λ changed d''. saved-Safe changed _ d'')
