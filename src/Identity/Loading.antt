-- ===== src/Identity/Loading.antt =====
-- What the load of an image gives: the registry with the entries of the image, or an error.
use resonance_signal.Base.{
  ◌≡◌, refl, sym, ap, ◌∙◌, Bool, false, Bool-cases, inl, inr, List, [], ◌∷◌, not, ◌||◌, ok, ensure,
  length, Result, Result-cases, err, ◌>>=◌, ◌≢◌, ensure-false, bind-ok, ok-injective, string_eq,
  string_eq_iff, is_empty_string, arith,
}
use Prim.Native.String.{String}
use mathlib.Core.Path.{subst}
use resonance_signal.Identity.{
  RegistryError, ContinuityEvidence, SourceRecord, corrupt_registry, continuity_eq, source_id,
}
use resonance_signal.Identity.Registry.{IdentityRegistry, contains_key, contains, insert}
use resonance_signal.Identity.Image.{
  PersistedSourceRecord, PersistedRegistry, into_current_schema, loaded_state, load_entries,
  next_sequence, from_persisted,
}
use resonance_signal.Identity.Loadable.{AllSound, Loaded, LoopOutcome, load_entries-LoopOutcome}
use resonance_signal.Identity.Entries.{Distinct, Distinct-insert, insert-cases, string_eq-sym}

abbrev pub has_continuity : ContinuityEvidence → List SourceRecord → Bool
has_continuity c [] = false
has_continuity c (e ∷ entries) = continuity_eq c e.continuity || has_continuity c entries

-- No two entries have the same continuity, retired or not.
abbrev pub Separate : List SourceRecord → Type 0
Separate [] = Unit
Separate (e ∷ entries) = (has_continuity e.continuity entries ≡ false) × Separate entries

or_false : (a b : Bool) → a ≡ false → b ≡ false → a || b ≡ false
or_false a b h k = cc

or_swap : (a b c : Bool) → a || (b || c) ≡ b || (a || c)
or_swap a b c = ground arith

or_congr : (a b c : Bool) → b ≡ c → a || b ≡ a || c
or_congr a b c h = ap (λ x. a || x) h

has_continuity-insert :
    (c : ContinuityEvidence) (r : SourceRecord) (entries : List SourceRecord)
    → contains_key r.id entries ≡ false
    → has_continuity c (insert r entries) ≡ continuity_eq c r.continuity || has_continuity c entries
has_continuity-insert c r [] h = refl
has_continuity-insert c r (x ∷ entries) h =
    let other : string_eq x.id r.id ≡ false = ground arith in
    let rest : contains_key r.id entries ≡ false = ground arith in
    insert-cases
      (λ es. has_continuity c es ≡ continuity_eq c r.continuity || has_continuity c (x ∷ entries)) r
      x entries refl (λ e. let found = (string_eq_iff x.id r.id).1 (sym e) in absurd cc)
      (or_congr _ _ _ (has_continuity-insert c r entries rest)
        ∙ or_swap (continuity_eq c x.continuity) (continuity_eq c r.continuity)
            (has_continuity c entries))

string_eq_comm : (s t : String) → string_eq s t ≡ string_eq t s
string_eq_comm s t = elim (Bool-cases (string_eq t s)) [
  | inl p ↦ let same = (string_eq_iff t s).0 p in let found = (string_eq_iff s t).1 (sym same) in cc
  | inr p ↦ string_eq-sym t s p ∙ sym p
]

continuity_eq-sym :
    (a b : ContinuityEvidence) → continuity_eq a b ≡ false → continuity_eq b a ≡ false
continuity_eq-sym a b h =
    rw
      (
        string_eq_comm b.backend_key a.backend_key,
        string_eq_comm b.continuity_token a.continuity_token,
      )
      h

Separate-insert :
    (r : SourceRecord) (entries : List SourceRecord)
    → contains_key r.id entries ≡ false
    → has_continuity r.continuity entries ≡ false
    → Separate entries
    → Separate (insert r entries)
Separate-insert r [] h k s = (refl, tt)
Separate-insert r (x ∷ entries) h k (new, s) =
    let rest : contains_key r.id entries ≡ false = ground arith in
    let apart : continuity_eq r.continuity x.continuity ≡ false = ground arith in
    let rest' : has_continuity r.continuity entries ≡ false = ground arith in
    let apart' = continuity_eq-sym r.continuity x.continuity apart in
    insert-cases Separate r x entries (k, (new, s)) (λ e. (rest', s))
      (
        has_continuity-insert x.continuity r entries rest ∙ or_false _ _ apart' new,
        Separate-insert r entries rest rest' s,
      )

-- What the loop has seen is in its index.
abbrev Indexed : List ContinuityEvidence → List SourceRecord → Type 0
Indexed index entries =
    (c : ContinuityEvidence) → contains index c ≡ false → has_continuity c entries ≡ false

load_entries-Separate :
    (persisted : List PersistedSourceRecord) (index : List ContinuityEvidence)
    (entries out : List SourceRecord)
    → Distinct entries
    → Separate entries
    → Indexed index entries
    → load_entries persisted index entries ≡ ok out
    → Distinct out × Separate out
unfolding load_entries
load_entries-Separate [] index entries out d s i h =
    subst (λ es. Distinct es × Separate es) (ok-injective entries out h) (d, s)
load_entries-Separate (p ∷ persisted) index entries out d s i h =
    let (id, named, h1) = bind-ok (source_id p.source_id corrupt_registry) _ out h in
    let (u1, a, h2) = bind-ok (ensure (not (contains_key id entries)) corrupt_registry) _ out h1 in
    let (u2, b, h3) =
      bind-ok
        (ensure
          (not (
            is_empty_string p.continuity.backend_key
            || is_empty_string p.continuity.continuity_token))
          corrupt_registry)
        _ out h2 in
    let (u3, c, h4) =
      bind-ok (ensure (not (contains index p.continuity)) corrupt_registry) _ out h3 in
    let (state, made, rest) = bind-ok (loaded_state p) _ out h4 in
    let new = ensure-false (contains_key id entries) corrupt_registry u1 a in
    let apart = ensure-false (contains index p.continuity) corrupt_registry u3 c in
    let r : SourceRecord = record {
      id = id;
      continuity = p.continuity;
      display_name = p.display_name;
      state = state;
    } in
    load_entries-Separate persisted (p.continuity ∷ index) (insert r entries) out
      (Distinct-insert r entries new d) (Separate-insert r entries new (i p.continuity apart) s)
      (λ c out_of.
        let other : continuity_eq c p.continuity ≡ false = ground arith in
        let rest_of : contains index c ≡ false = ground arith in
        has_continuity-insert c r entries new ∙ or_false _ _ other (i c rest_of))
      rest

-- An image that can be loaded: its two versions are the current ones, every entry is sound, and no id
-- and no continuity occurs in it twice.
abbrev pub Loadable : PersistedRegistry → Type 0
Loadable image =
    (image.schema_version ≡ 1) × (image.evidence_schema_version ≡ 1) × AllSound [] [] image.entries

into_current_schema-ok :
    (image current : PersistedRegistry)
    → into_current_schema image ≡ ok current
    → (image.schema_version ≡ 1)
      × (image.evidence_schema_version ≡ 1)
      × (current.entries ≡ image.entries)
unfolding into_current_schema
into_current_schema-ok image current h = ground arith

into_current_schema-err :
    (image : PersistedRegistry) (e : RegistryError)
    → into_current_schema image ≡ err e
    → image.schema_version ≡ 1
    → image.evidence_schema_version ≢ 1
unfolding into_current_schema
into_current_schema-err image e h v w = ground arith

module _ {Allocator : Type 0} where
  -- What the load of an image gives.
  abbrev pub LoadOutcome :
      PersistedRegistry → Result RegistryError (IdentityRegistry Allocator) → Type 0
  LoadOutcome image (ok s) =
      Loadable image
      × Distinct s.entries
      × Separate s.entries
      × Loaded image.entries s.entries
      × (length s.entries ≡ length image.entries)
  LoadOutcome image (err e) = ¬ Loadable image

  entries-LoadOutcome :
      (image current : PersistedRegistry) (allocator : Allocator)
      → image.schema_version ≡ 1
      → image.evidence_schema_version ≡ 1
      → current.entries ≡ image.entries
      → LoadOutcome image (
          load_entries current.entries [] [] >>= λ entries. ok (record {
            namespace = current.namespace;
            revision = current.revision;
            next_source_sequence = next_sequence current.next_source_sequence entries;
            allocator = allocator;
            entries = entries;
          }))
  entries-LoadOutcome image current allocator v w same =
      let loop = load_entries-LoopOutcome [] [] current.entries [] (λ id. (λ h. tt, λ h. refl)) in
      elim (Result-cases (load_entries current.entries [] [])) [
        | inl (entries, h) ↦
            let (sound, loaded, finds, size) =
              subst (LoopOutcome [] [] current.entries []) h loop in
            let (distinct, separate) =
              load_entries-Separate current.entries [] [] entries tt tt (λ c out_of. refl) h in
            rw h (
              (v, w, subst (AllSound [] []) same sound),
              distinct,
              separate,
              subst (λ ps. Loaded ps entries) same loaded,
              omega (arith, size, ap (λ (ps : List PersistedSourceRecord). length ps) same),
            )
        | inr (e, h) ↦
            let none_of = subst (LoopOutcome [] [] current.entries []) h loop in
            rw h (λ (v', w', sound). none_of (subst (AllSound [] []) (sym same) sound))
      ]

  -- An image is loaded exactly where its two versions are the current ones, every id is not blank,
  -- every continuity has both of its texts, every retired entry has its reason, and no id and no
  -- continuity occurs twice, also where an entry is retired; any other image gives an error. What is
  -- loaded are the entries of the image, all and no others, each found under its id, with the
  -- continuity, the display name and the state that it was persisted with; their ids are distinct, and
  -- so are their continuities.
  pub from_persisted-LoadOutcome :
      (image : PersistedRegistry) (allocator : Allocator)
      → LoadOutcome image (from_persisted image allocator)
  unfolding from_persisted
  from_persisted-LoadOutcome image allocator = elim (Result-cases (into_current_schema image)) [
    | inl (current, h) ↦
        let (v, w, same) = into_current_schema-ok image current h in
        rw h (entries-LoadOutcome image current allocator v w same)
    | inr (e, h) ↦ rw h (λ (v, w, sound). into_current_schema-err image e h v w)
  ]
