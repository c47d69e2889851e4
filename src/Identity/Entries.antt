-- ===== src/Identity/Entries.antt =====
-- The entries of the registry as a map: the ids are distinct, and each operation keeps an entry under
-- its id.
use resonance_signal.Base.{
  ◌≡◌, refl, sym, ap, ◌∙◌, true, false, Bool-cases, inl, inr, some, List, [], ◌∷◌, map, not, ◌&&◌,
  ◌||◌, string_eq, string_eq_iff, arith,
}
use Prim.Native.Nat.{Ordering}
use Prim.Native.String.{String, compare}
use mathlib.Core.Path.{subst}
use mathlib.Core.Option.{some-injective}
use text.Mathlib.TextEquality.{path_by_compare}
use resonance_signal.Identity.{ContinuityEvidence, is_retired, SourceRecord, continuity_eq}
use resonance_signal.Identity.Registry.{contains_key, get, insert, find_live}

-- No id is there twice.
abbrev pub Distinct : List SourceRecord → Type 0
Distinct [] = Unit
Distinct (e ∷ entries) = (contains_key e.id entries ≡ false) × Distinct entries

-- A later state of an entry: the same source, and a retired one is as it was.
pub record Evolves (e e' : SourceRecord) : Type 0 where
  pub id : e'.id ≡ e.id
  pub continuity : e'.continuity ≡ e.continuity
  pub stays_retired : is_retired e.state ≡ true → e' ≡ e

pub Evolves-refl : (e : SourceRecord) → Evolves e e
Evolves-refl e = record { id = refl; continuity = refl; stays_retired = λ h. refl }

pub Evolves-trans : (a b c : SourceRecord) → Evolves a b → Evolves b c → Evolves a c
Evolves-trans a b c h k = record {
  id = k.id ∙ h.id;
  continuity = k.continuity ∙ h.continuity;
  stays_retired = λ r.
      k.stays_retired (ap (λ (e : SourceRecord). is_retired e.state) (h.stays_retired r) ∙ r)
      ∙ h.stays_retired r;
}

-- Every entry is still there, under its id.
abbrev pub Keeps : List SourceRecord → List SourceRecord → Type 0
Keeps entries entries' =
    (id : String) (e : SourceRecord)
    → get id entries ≡ some e
    → (e' : SourceRecord) × (get id entries' ≡ some e') × Evolves e e'

pub Keeps-refl : (entries : List SourceRecord) → Keeps entries entries
Keeps-refl entries id e h = (e, h, Evolves-refl e)

pub Keeps-trans : (a b c : List SourceRecord) → Keeps a b → Keeps b c → Keeps a c
Keeps-trans a b c h k id e at =
    let (e', at', one) = h id e at in
    let (e'', at'', two) = k id e' at' in (e'', at'', Evolves-trans e e' e'' one two)

string_refl : (s : String) → string_eq s s ≡ true
string_refl s = (string_eq_iff s s).1 refl

pub get-contains_key :
    (id : String) (entries : List SourceRecord) (e : SourceRecord)
    → get id entries ≡ some e
    → contains_key id entries ≡ true
get-contains_key id [] e h = cc
get-contains_key id (x ∷ entries) e h = elim (Bool-cases (string_eq x.id id)) [
  | inl p ↦ rw p refl
  | inr p ↦ rw p (get-contains_key id entries e (rw p at h))
]

pub get-same_id :
    (id : String) (entries : List SourceRecord) (e : SourceRecord)
    → get id entries ≡ some e
    → e.id ≡ id
get-same_id id [] e h = cc
get-same_id id (x ∷ entries) e h = elim (Bool-cases (string_eq x.id id)) [
  | inl p ↦
      let here : some x ≡ some e = rw p at h in
      ap (λ (y : SourceRecord). y.id) (sym (some-injective x e here)) ∙ (string_eq_iff x.id id).0 p
  | inr p ↦ get-same_id id entries e (rw p at h)
]

module _ (g : SourceRecord → SourceRecord) (same_id : (e : SourceRecord) → (g e).id ≡ e.id) where
  pub contains_key-map :
      (id : String) (entries : List SourceRecord)
      → contains_key id (map g entries) ≡ contains_key id entries
  contains_key-map id [] = refl
  contains_key-map id (x ∷ entries) = rw (same_id x, contains_key-map id entries) refl

  pub Distinct-map : (entries : List SourceRecord) → Distinct entries → Distinct (map g entries)
  Distinct-map [] h = tt
  Distinct-map (x ∷ entries) (h, k) = (
    contains_key-map (g x).id entries ∙ ap (λ (i : String). contains_key i entries) (same_id x) ∙ h,
    Distinct-map entries k,
  )

  pub get-map :
      (id : String) (entries : List SourceRecord) (e : SourceRecord)
      → get id entries ≡ some e
      → get id (map g entries) ≡ some (g e)
  get-map id [] e h = cc
  get-map id (x ∷ entries) e h =
      let test = ap (λ (i : String). string_eq i id) (same_id x) in
      elim (Bool-cases (string_eq x.id id)) [
        | inl p ↦
            let here : some x ≡ some e = rw p at h in
            rw (test ∙ p) (ap (λ (y : SourceRecord). some (g y)) (some-injective x e here))
        | inr p ↦ rw (test ∙ p) (get-map id entries e (rw p at h))
      ]

module _ {ℓ} (Q : List SourceRecord → Type ℓ) (r x : SourceRecord)
    (entries : List SourceRecord) where
  ordered_cases :
      (o : Ordering)
      → (o ≡ Ordering.eq → r.id ≡ x.id)
      → Q (r ∷ x ∷ entries)
      → (r.id ≡ x.id → Q (r ∷ entries))
      → Q (x ∷ insert r entries)
      → Q (elim o [
        | Ordering.lt ↦ r ∷ x ∷ entries
        | Ordering.eq ↦ r ∷ entries
        | Ordering.gt ↦ x ∷ insert r entries
      ])
  ordered_cases Ordering.lt same a b c = a
  ordered_cases Ordering.eq same a b c = b (same refl)
  ordered_cases Ordering.gt same a b c = c

  -- Where an entry is inserted.
  pub insert-cases :
      Q (r ∷ x ∷ entries)
      → (r.id ≡ x.id → Q (r ∷ entries))
      → Q (x ∷ insert r entries)
      → Q (insert r (x ∷ entries))
  insert-cases = ordered_cases (compare r.id x.id) (path_by_compare r.id x.id)

pub string_eq-sym : (s t : String) → string_eq s t ≡ false → string_eq t s ≡ false
string_eq-sym s t h = elim (Bool-cases (string_eq t s)) [
  | inl p ↦ let same = (string_eq_iff t s).0 p in let found = (string_eq_iff s t).1 (sym same) in cc
  | inr p ↦ p
]

pub contains_key-insert :
    (r : SourceRecord) (id : String) (entries : List SourceRecord)
    → string_eq r.id id ≡ false
    → contains_key id (insert r entries) ≡ contains_key id entries
contains_key-insert r id [] h = rw h refl
contains_key-insert r id (x ∷ entries) h =
    insert-cases (λ es. contains_key id es ≡ contains_key id (x ∷ entries)) r x entries (rw h refl)
      (λ e. ap (λ (i : String). string_eq i id || contains_key id entries) e)
      (rw (contains_key-insert r id entries h) refl)

pub get-insert :
    (r : SourceRecord) (id : String) (entries : List SourceRecord)
    → string_eq r.id id ≡ false
    → get id (insert r entries) ≡ get id entries
get-insert r id [] h = rw h refl
get-insert r id (x ∷ entries) h =
    insert-cases (λ es. get id es ≡ get id (x ∷ entries)) r x entries (rw h refl)
      (λ e. let other = ap (λ (i : String). string_eq i id) e in rw (h, ← other, h) refl)
      (rw (get-insert r id entries h) refl)

pub Distinct-insert :
    (r : SourceRecord) (entries : List SourceRecord)
    → contains_key r.id entries ≡ false
    → Distinct entries
    → Distinct (insert r entries)
Distinct-insert r [] h d = (refl, tt)
Distinct-insert r (x ∷ entries) h (k, d) =
    let other : string_eq x.id r.id ≡ false = ground arith in
    let rest : contains_key r.id entries ≡ false = ground arith in
    insert-cases Distinct r x entries (h, (k, d)) (λ e. (rest, d))
      (
        contains_key-insert r x.id entries (string_eq-sym x.id r.id other) ∙ k,
        Distinct-insert r entries rest d,
      )

pub find_live-get :
    (c : ContinuityEvidence) (entries : List SourceRecord) (e : SourceRecord)
    → Distinct entries
    → find_live c entries ≡ some e
    → (get e.id entries ≡ some e)
      × (is_retired e.state ≡ false)
      × (continuity_eq e.continuity c ≡ true)
find_live-get c [] e d h = cc
find_live-get c (x ∷ entries) e (k, d) h =
    elim (Bool-cases (not (is_retired x.state) && continuity_eq x.continuity c)) [
      | inl p ↦
          let here : some x ≡ some e = rw p at h in
          subst
            (λ (y : SourceRecord).
              (get y.id (x ∷ entries) ≡ some y)
              × (is_retired y.state ≡ false)
              × (continuity_eq y.continuity c ≡ true))
            (some-injective x e here) (rw (string_refl x.id) refl, ground arith, ground arith)
      | inr p ↦
          let (at, alive, same) = find_live-get c entries e d (rw p at h) in
          let there = get-contains_key e.id entries e at in
          let other : string_eq x.id e.id ≡ false = elim (Bool-cases (string_eq x.id e.id)) [
            | inl q ↦
                let one =
                  ap (λ (i : String). contains_key i entries) ((string_eq_iff x.id e.id).0 q) in
                cc
            | inr q ↦ q
          ] in
          (rw other at, alive, same)
    ]
