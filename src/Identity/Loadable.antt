-- ===== src/Identity/Loadable.antt =====
-- Which images of a registry are loaded.
use resonance_signal.Base.{
  Absent, ◌≡◌, ◌↔◌, refl, sym, ap, Bool, true, false, Bool-cases, inl, inr, Option, none, some,
  List, [], ◌∷◌, not, ◌||◌, Result, ok, err, string_eq_iff, is_blank, is_empty_string, ensure,
  Result-cases, ◌>>=◌, ◌+◌, length, arith,
}
use Prim.Native.String.{String}
use resonance_signal.Identity.{
  RetiredReason, SourceState, corrupt_registry, source_id, ContinuityEvidence, SourceRecord,
  continuity_eq, RegistryError,
}
use resonance_signal.Identity.Registry.{contains_key, contains, get, insert}
use resonance_signal.Identity.Image.{
  PersistedSourceState, PersistedSourceRecord, load_entries, loaded_state,
}
use resonance_signal.Identity.Inserts.{
  Keys, Keys-insert, get-inserted, length-insert, Finds, Finds-insert,
}

continuity_eq_iff : (a b : ContinuityEvidence) → (continuity_eq a b ≡ true) ↔ (a ≡ b)
continuity_eq_iff a b =
    let key = string_eq_iff a.backend_key b.backend_key in
    let token = string_eq_iff a.continuity_token b.continuity_token in
    (
      λ h.
          let k : a.backend_key ≡ b.backend_key = key.0 (ground arith) in
          let t : a.continuity_token ≡ b.continuity_token = token.0 (ground arith) in cc,
      λ e.
          let k = key.1 (ap (λ (c : ContinuityEvidence). c.backend_key) e) in
          let t = token.1 (ap (λ (c : ContinuityEvidence). c.continuity_token) e) in rw (k, t) refl,
    )

-- A retired entry has its reason.
abbrev pub Reasoned : PersistedSourceState → Option RetiredReason → Type 0
Reasoned PersistedSourceState.live reason = Unit
Reasoned PersistedSourceState.absent reason = Unit
Reasoned PersistedSourceState.retired (some reason) = Unit
Reasoned PersistedSourceState.retired none = ⊥

-- The entry itself: its id is not blank, the two texts of its continuity are not empty.
abbrev pub Sound : PersistedSourceRecord → Type 0
Sound p =
    (is_blank p.source_id ≡ false)
    × (is_empty_string p.continuity.backend_key ≡ false)
    × (is_empty_string p.continuity.continuity_token ≡ false)
    × Reasoned p.state p.retired_reason

-- Every entry is sound, and neither its id nor its continuity occurs before it, the ones that were
-- seen before them all included.
abbrev pub AllSound : List String → List ContinuityEvidence → List PersistedSourceRecord → Type 0
AllSound ids seen [] = Unit
AllSound ids seen (p ∷ persisted) =
    Sound p
    × Absent p.source_id ids
    × Absent p.continuity seen
    × AllSound (p.source_id ∷ ids) (p.continuity ∷ seen) persisted

contains-Absent :
    (seen : List ContinuityEvidence) (c : ContinuityEvidence)
    → (contains seen c ≡ false) ↔ Absent c seen
contains-Absent [] c = (λ h. tt, λ h. refl)
contains-Absent (y ∷ seen) c =
    let rest = contains-Absent seen c in
    let same = continuity_eq_iff c y in
    elim (Bool-cases (continuity_eq c y)) [
      | inl e ↦ (λ h. absurd (ground arith), λ (n, h). absurd (n (sym (same.0 e))))
      | inr e ↦
          (λ h. (λ p. let q = same.1 (sym p) in cc, rest.0 (rw e at h)), λ (n, h). rw e (rest.1 h))
    ]

ensure-cases :
    {E A : Type 0} (Q : Result E A → Type 0) (test : Bool) (e : E) (k : Unit → Result E A)
    → (test ≡ true → Q (k tt))
    → (test ≡ false → Q (err e))
    → Q (ensure test e >>= k)
ensure-cases Q true e k a b = a refl
ensure-cases Q false e k a b = b refl

source_id-cases :
    {A : Type 0} (Q : Result RegistryError A → Type 0) (value : String) (e : RegistryError)
    (k : String → Result RegistryError A)
    → (is_blank value ≡ false → Q (k value))
    → (is_blank value ≡ true → Q (err e))
    → Q (source_id value e >>= k)
source_id-cases Q value e k a b = elim (Bool-cases (is_blank value)) [
  | inl h ↦ rw h (b h)
  | inr h ↦ rw h (a h)
]

reasoned :
    (state : PersistedSourceState) (reason : Option RetiredReason) (s : SourceState)
    → elim state [
      | PersistedSourceState.live ↦ ok SourceState.live
      | PersistedSourceState.absent ↦ ok SourceState.absent
      | PersistedSourceState.retired ↦ elim reason [
        | none ↦ err corrupt_registry
        | some r ↦ ok (SourceState.retired r)
      ]
    ]
      ≡ ok s
    → Reasoned state reason
reasoned PersistedSourceState.live reason s h = tt
reasoned PersistedSourceState.absent reason s h = tt
reasoned PersistedSourceState.retired none s h = cc
reasoned PersistedSourceState.retired (some r) s h = tt

unreasoned :
    (state : PersistedSourceState) (reason : Option RetiredReason) (e : RegistryError)
    → elim state [
      | PersistedSourceState.live ↦ ok SourceState.live
      | PersistedSourceState.absent ↦ ok SourceState.absent
      | PersistedSourceState.retired ↦ elim reason [
        | none ↦ err corrupt_registry
        | some r ↦ ok (SourceState.retired r)
      ]
    ]
      ≡ err e
    → ¬ Reasoned state reason
unreasoned PersistedSourceState.live reason e h n = cc
unreasoned PersistedSourceState.absent reason e h n = cc
unreasoned PersistedSourceState.retired none e h n = n
unreasoned PersistedSourceState.retired (some r) e h n = cc

loaded_state-cases :
    {A : Type 0} (Q : Result RegistryError A → Type 0) (p : PersistedSourceRecord)
    (k : SourceState → Result RegistryError A)
    → ((s : SourceState) → loaded_state p ≡ ok s → Reasoned p.state p.retired_reason → Q (k s))
    → ((e : RegistryError) → ¬ Reasoned p.state p.retired_reason → Q (err e))
    → Q (loaded_state p >>= k)
loaded_state-cases Q p k a b = elim (Result-cases (loaded_state p)) [
  | inl (s, h) ↦ rw h (a s h (reasoned p.state p.retired_reason s h))
  | inr (e, h) ↦ rw h (b e (unreasoned p.state p.retired_reason e h))
]

-- The entry that is loaded of a persisted one, in its state.
abbrev pub entry_of : PersistedSourceRecord → SourceState → SourceRecord
entry_of p state = record {
  id = p.source_id;
  continuity = p.continuity;
  display_name = p.display_name;
  state = state;
}

-- Every persisted entry is found under its id, as it was, in the state that it was persisted in.
abbrev pub Loaded : List PersistedSourceRecord → List SourceRecord → Type 0
Loaded [] entries = Unit
Loaded (p ∷ persisted) entries =
    ((state : SourceState) × (loaded_state p ≡ ok state)
      × (get p.source_id entries ≡ some (entry_of p state)))
    × Loaded persisted entries

abbrev pub LoopOutcome :
    List String
    → List ContinuityEvidence
    → List PersistedSourceRecord
    → List SourceRecord
    → Result RegistryError (List SourceRecord)
    → Type 0
LoopOutcome ids seen persisted entries (ok out) =
    AllSound ids seen persisted
    × Loaded persisted out
    × Finds entries out
    × (length out ≡ length entries + length persisted)
LoopOutcome ids seen persisted entries (err e) = ¬ AllSound ids seen persisted

LoopOutcome-step :
    (ids : List String) (seen : List ContinuityEvidence) (p : PersistedSourceRecord)
    (persisted : List PersistedSourceRecord) (entries : List SourceRecord) (state : SourceState)
    (result : Result RegistryError (List SourceRecord))
    → Sound p
    → Absent p.source_id ids
    → Absent p.continuity seen
    → contains_key p.source_id entries ≡ false
    → loaded_state p ≡ ok state
    → LoopOutcome
        (p.source_id ∷ ids)
        (p.continuity ∷ seen)
        persisted
        (insert (entry_of p state) entries)
        result
    → LoopOutcome ids seen (p ∷ persisted) entries result
LoopOutcome-step ids seen p persisted entries state (ok out) sound a c new made
      (all, loaded, finds, size) =
    let r = entry_of p state in
    (
      (sound, a, c, all),
      ((state, made, finds p.source_id r (get-inserted r entries new)), loaded),
      λ id e h. finds id e (Finds-insert r entries new id e h),
      omega (arith, length-insert r entries new),
    )
LoopOutcome-step ids seen p persisted entries state (err e) sound a c new made none_of =
    λ (s, a', c', all). none_of all

pub load_entries-LoopOutcome :
    (ids : List String) (seen : List ContinuityEvidence) (persisted : List PersistedSourceRecord)
    (entries : List SourceRecord)
    → Keys ids entries
    → LoopOutcome ids seen persisted entries (load_entries persisted seen entries)
unfolding load_entries
load_entries-LoopOutcome ids seen [] entries keys = (tt, tt, λ id e h. h, omega arith)
load_entries-LoopOutcome ids seen (p ∷ persisted) entries keys =
    let Q = LoopOutcome ids seen (p ∷ persisted) entries in
    let key = keys p.source_id in
    let continuity = contains-Absent seen p.continuity in
    source_id-cases Q p.source_id corrupt_registry _
      (λ named.
        ensure-cases Q (not (contains_key p.source_id entries)) corrupt_registry _
          (λ new.
            ensure-cases Q
              (not (
                is_empty_string p.continuity.backend_key
                || is_empty_string p.continuity.continuity_token))
              corrupt_registry _
              (λ texts.
                ensure-cases Q (not (contains seen p.continuity)) corrupt_registry _
                  (λ apart.
                    loaded_state-cases Q p _
                      (λ state made reason.
                        let fresh : contains_key p.source_id entries ≡ false = ground arith in
                        LoopOutcome-step ids seen p persisted entries state _
                          (named, ground arith, ground arith, reason) (key.0 fresh)
                          (continuity.0 (ground arith)) fresh made
                          (load_entries-LoopOutcome (p.source_id ∷ ids) (p.continuity ∷ seen)
                            persisted (insert (entry_of p state) entries)
                            (Keys-insert (entry_of p state) ids entries keys)))
                      (λ e n. λ ((i, b, t, reason), a, c, rest). n reason))
                  (λ twice. λ (s, a, c, rest). let f = continuity.1 c in cc))
              (λ blank. λ ((i, b, t, reason), a, c, rest). absurd (ground arith)))
          (λ twice. λ (s, a, c, rest). let f = key.1 a in cc))
      (λ blank. λ ((i, b, t, reason), a, c, rest). cc)
