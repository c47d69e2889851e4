-- ===== src/Identity/Freshness.antt =====
-- When a snapshot of the registry is still current.
use resonance_signal.Base.{
  ℕ, zero, suc, ◌<◌, ◌≡◌, refl, sym, ap, ◌∙◌, Bool, true, false, Bool-cases, Option-cases, inl, inr,
  some, List, [], ◌∷◌, map, ◌||◌, Result, ok, err, try, u64_max, string_eq, string_eq_iff,
  if◌then◌else◌, arith,
}
use Prim.Native.String.{String}
use mathlib.Core.Option.{some-injective}
use resonance_signal.Identity.{
  ContinuityEvidence, ambiguous_return, SourceState, live, absent, retired, is_live, SourceRecord,
  ObservedContinuity, stable, ambiguous, unknown, SourceObservation, DiscoverySnapshot,
  RegistryError,
}
use resonance_signal.Identity.Registry.{
  IdentityRegistry, saturating_suc, any, contains_key, get, insert, update, find_live,
  observed_continuities, goes_absent, mark_absent, revive, retire_all, retire_reused, returning,
  is_nonempty, snapshot, validate_snapshot,
}
use resonance_signal.Identity.Observations.{
  allocate_source_id, observe_stable, observe, observe_all, apply_observations,
}
use resonance_signal.Identity.Entries.{Distinct, find_live-get}
use resonance_signal.Identity.Retirement.{observe-Observed, map-Safe, mark_absent-Evolves}

update-missing :
    (id : String) (f : SourceRecord → SourceRecord) (entries : List SourceRecord)
    → contains_key id entries ≡ false
    → update id f entries ≡ entries
update-missing id f [] h = refl
update-missing id f (x ∷ entries) h =
    let here : string_eq x.id id ≡ false = ground arith in
    let rest : contains_key id entries ≡ false = ground arith in
    rw (here, update-missing id f entries rest) refl

-- A change that changes nothing where it applies.
update-same :
    (id : String) (f : SourceRecord → SourceRecord) (entries : List SourceRecord) (e : SourceRecord)
    → Distinct entries
    → get id entries ≡ some e
    → f e ≡ e
    → update id f entries ≡ entries
update-same id f [] e d h k = refl
update-same id f (x ∷ entries) e (new, d) h k = elim (Bool-cases (string_eq x.id id)) [
  | inl p ↦
      let here : some x ≡ some e = rw p at h in
      let one = some-injective x e here in
      let missing : contains_key id entries ≡ false =
        ap (λ i. contains_key i entries) (sym ((string_eq_iff x.id id).0 p)) ∙ new in
      rw (p, update-missing id f entries missing, one, k) refl
  | inr p ↦ rw (p, update-same id f entries e d (rw p at h) k) refl
]

is_live_lem : (state : SourceState) → is_live state ≡ true → live ≡ state
is_live_lem live h = refl
is_live_lem absent h = cc
is_live_lem (retired reason) h = cc

revive-same :
    (display_name : String) (e : SourceRecord)
    → is_live e.state ≡ true
    → string_eq e.display_name display_name ≡ true
    → revive display_name e ≡ e
revive-same display_name e h k =
    ap (λ (state : SourceState). record e { state = state; display_name = display_name })
      (is_live_lem e.state h)
    ∙ ap (λ (name : String). record e { display_name = name })
        (sym ((string_eq_iff e.display_name display_name).0 k))

map-mark_absent-same :
    (observed : List ContinuityEvidence) (entries : List SourceRecord)
    → any (goes_absent observed) entries ≡ false
    → map (mark_absent observed) entries ≡ entries
map-mark_absent-same observed [] h = refl
map-mark_absent-same observed (x ∷ entries) h =
    let here : goes_absent observed x ≡ false = ground arith in
    let rest : any (goes_absent observed) entries ≡ false = ground arith in
    rw (here, map-mark_absent-same observed entries rest) refl

module _ {Allocator : Type 0} (next_source_id : Allocator → String → ℕ → String × Allocator) where
  allocated_revision :
      (b : Bool) (x y : Result RegistryError String × IdentityRegistry Allocator) (revision : ℕ)
      → x.1.revision ≡ revision
      → y.1.revision ≡ revision
      → (elim b as (λ _. Result RegistryError String × IdentityRegistry Allocator) [
        | true ↦ x
        | false ↦ y
      ]).1.revision
        ≡ revision
  allocated_revision true x y revision h k = h
  allocated_revision false x y revision h k = k

  revision-allocate_source_id :
      (tries : ℕ) (s : IdentityRegistry Allocator)
      → (allocate_source_id next_source_id tries s).1.revision ≡ s.revision
  unfolding allocate_source_id
  revision-allocate_source_id zero s = refl
  revision-allocate_source_id (suc tries) s =
      allocated_revision _ _ _ s.revision (revision-allocate_source_id tries _) refl

  -- The revision is not touched, and where nothing is reported as changed nothing has changed.
  abbrev Tracks :
      List SourceRecord → ℕ → Bool → Result RegistryError Bool × IdentityRegistry Allocator → Type 0
  Tracks entries revision changed (ok changed', t) =
      (t.revision ≡ revision) × (changed' ≡ false → (changed ≡ false) × (t.entries ≡ entries))
  Tracks entries revision changed (err e, t) = Unit

  added-Tracks :
      (entries : List SourceRecord) (revision : ℕ) (changed : Bool) (r : String → SourceRecord)
      (out : Result RegistryError String × IdentityRegistry Allocator)
      → out.1.revision ≡ revision
      → Tracks entries revision changed
          (try out.0 out.1 λ id. (ok true, record out.1 { entries = insert (r id) out.1.entries }))
  added-Tracks entries revision changed r (err e, t) h = tt
  added-Tracks entries revision changed r (ok id, t) h = (h, λ k. absurd cc)

  observe_stable-Tracks :
      (observed : List ContinuityEvidence) (c : ContinuityEvidence) (display_name : String)
      (changed : Bool) (s : IdentityRegistry Allocator)
      → Distinct s.entries
      → Tracks s.entries s.revision changed
          (observe_stable next_source_id observed c display_name changed s)
  unfolding observe_stable
  observe_stable-Tracks observed c display_name changed s d =
      elim (Option-cases (find_live c s.entries)) [
        | inl h ↦
            let retiring = record s { entries = retire_reused observed c s.entries } in
            rw (h, observe_stable)
              (added-Tracks s.entries s.revision changed _
                (allocate_source_id next_source_id 4096 retiring)
                (revision-allocate_source_id 4096 retiring))
        | inr (found, h) ↦
            rw (h, observe_stable)
              (
                refl,
                λ k. (
                  ground arith,
                  update-same found.id (revive display_name) s.entries found d
                      (find_live-get c s.entries found d h).0
                      (revive-same display_name found (ground arith) (ground arith)),
                ),
              )
      ]

  returning-Tracks :
      (ids : List String) (changed : Bool) (s : IdentityRegistry Allocator)
      → Tracks s.entries s.revision changed (
        ok (changed || is_nonempty ids),
        record s { entries = retire_all ambiguous_return ids s.entries },
      )
  returning-Tracks [] changed s = (refl, λ h. (ground arith, refl))
  returning-Tracks (id ∷ ids) changed s = (refl, λ h. absurd (ground arith))

  observe-Tracks :
      (observed : List ContinuityEvidence) (o : SourceObservation) (continuity : ObservedContinuity)
      (changed : Bool) (s : IdentityRegistry Allocator)
      → o.continuity ≡ continuity
      → Distinct s.entries
      → Tracks s.entries s.revision changed (observe next_source_id observed o changed s)
  unfolding observe
  observe-Tracks observed o (stable backend_key continuity_token) changed s e d =
      rw (e, observe) (observe_stable-Tracks observed _ o.display_name changed s d)
  observe-Tracks observed o (ambiguous candidates) changed s e d =
      rw (e, observe) (returning-Tracks (returning candidates s.entries) changed s)
  observe-Tracks observed o unknown changed s e d = rw (e, observe) (refl, λ h. (h, refl))

  then-Tracks :
      (entries : List SourceRecord) (revision : ℕ) (changed : Bool)
      (one : Result RegistryError Bool × IdentityRegistry Allocator)
      (k : Bool → Result RegistryError Bool × IdentityRegistry Allocator)
      → Tracks entries revision changed one
      → ((changed' : Bool) → Tracks one.1.entries one.1.revision changed' (k changed'))
      → Tracks entries revision changed (try one.0 one.1 k)
  then-Tracks entries revision changed (err e, t) k h g = tt
  then-Tracks entries revision changed (ok changed', t) k h g =
      joined-Tracks entries revision changed changed' t (k changed') h (g changed')
    where
      joined-Tracks :
          (entries : List SourceRecord) (revision : ℕ) (changed changed' : Bool)
          (t : IdentityRegistry Allocator)
          (rest : Result RegistryError Bool × IdentityRegistry Allocator)
          → Tracks entries revision changed (ok changed', t)
          → Tracks t.entries t.revision changed' rest
          → Tracks entries revision changed rest
      joined-Tracks entries revision changed changed' t (err e, u) h g = tt
      joined-Tracks entries revision changed changed' t (ok last, u) h g = (
        g.0 ∙ h.0,
        λ k. let (quiet, kept) = g.1 k in let (quiet', kept') = h.1 quiet in (quiet', kept ∙ kept'),
      )

  observe_all-Tracks :
      (observed : List ContinuityEvidence) (observations : List SourceObservation) (changed : Bool)
      (s : IdentityRegistry Allocator)
      → Distinct s.entries
      → Tracks s.entries s.revision changed
          (observe_all next_source_id observed observations changed s)
  unfolding observe_all
  observe_all-Tracks observed [] changed s d = (refl, λ h. (h, refl))
  observe_all-Tracks observed (o ∷ observations) changed s d =
      let one = observe next_source_id observed o changed s in
      then-Tracks s.entries s.revision changed one _
        (observe-Tracks observed o o.continuity changed s refl d)
        (λ changed'.
          observe_all-Tracks observed observations changed' one.1
            (observe-Observed next_source_id observed o o.continuity changed s refl d).0)

  module _ (persist : IdentityRegistry Allocator → Result RegistryError (Unit {0})) where
    persisted :
        (r : Result RegistryError (Unit {0})) (t t' : IdentityRegistry Allocator)
        (shown : DiscoverySnapshot)
        → (try r t' λ _. (ok (snapshot t'), t')) ≡ (ok shown, t)
        → t'.revision ≡ t.revision
    persisted (ok u) t t' shown h =
        ap
          (λ (p : Result RegistryError DiscoverySnapshot × IdentityRegistry Allocator).
            p.1.revision)
          h
    persisted (err e) t t' shown h =
        ap
          (λ (p : Result RegistryError DiscoverySnapshot × IdentityRegistry Allocator).
            p.1.revision)
          h

    -- The same revision at the end means that nothing was reported as changed.
    saved-Tracks :
        (entries : List SourceRecord) (revision : ℕ) (changed : Bool)
        (out : Result RegistryError Bool × IdentityRegistry Allocator)
        (t : IdentityRegistry Allocator) (shown : DiscoverySnapshot)
        → Tracks entries revision changed out
        → revision < u64_max
        → t.revision ≡ revision
        → (try out.0 out.1 λ changed'.
            if changed'
            then (try
                (persist (record out.1 { revision = saturating_suc out.1.revision }))
                (record out.1 { revision = saturating_suc out.1.revision })
                λ _. (
                  ok (snapshot (record out.1 { revision = saturating_suc out.1.revision })),
                  record out.1 { revision = saturating_suc out.1.revision },
                ))
            else (ok (snapshot out.1), out.1))
          ≡ (ok shown, t)
        → (changed ≡ false) × (t.entries ≡ entries)
    saved-Tracks entries revision changed (err e, t') t shown tracks room same h =
        let failed =
          ap (λ (p : Result RegistryError DiscoverySnapshot × IdentityRegistry Allocator). p.0) h in
        absurd cc
    saved-Tracks entries revision changed (ok true, t') t shown tracks room same h =
        let next = persisted _ t (record t' { revision = saturating_suc t'.revision }) shown h in
        absurd (ground (arith, tracks.0))
    saved-Tracks entries revision changed (ok false, t') t shown tracks room same h =
        let (quiet, kept) = tracks.1 refl in
        (
          quiet,
          ap
                (λ (p : Result RegistryError DiscoverySnapshot × IdentityRegistry Allocator).
                  p.1.entries)
                (sym h)
              ∙ kept,
        )

    -- Where observations are taken in without an error and a snapshot from before them is still valid
    -- after them, they have changed no entry. The ids are distinct, and the revision is not at its limit.
    pub apply_observations-validate_snapshot :
        (observations : List SourceObservation) (s t : IdentityRegistry Allocator)
        (shown : DiscoverySnapshot) (u : Unit {0})
        → Distinct s.entries
        → s.revision < u64_max
        → apply_observations next_source_id persist observations s ≡ (ok shown, t)
        → validate_snapshot (snapshot s) t ≡ ok u
        → t.entries ≡ s.entries
    unfolding apply_observations validate_snapshot
    apply_observations-validate_snapshot observations s t shown u d room h valid =
        let observed = observed_continuities observations in
        let marked = record s { entries = map (mark_absent observed) s.entries } in
        let marking =
          map-Safe (mark_absent observed) s.entries (λ e. (mark_absent-Evolves observed e).id)
            (λ id e at. mark_absent-Evolves observed e) d in
        let current : t.revision ≡ s.revision = ground arith in
        let (quiet, kept) =
          saved-Tracks marked.entries s.revision (any (goes_absent observed) s.entries)
            (observe_all next_source_id observed observations (any (goes_absent observed) s.entries)
              marked)
            t shown (observe_all-Tracks observed observations _ marked marking.0) room current h in
        kept ∙ map-mark_absent-same observed s.entries quiet
