-- ===== src/Identity/Inserts.antt =====
-- An entry inserted under a new key: it is found, what was found still is, and the keys and the
-- entries are one more.
use resonance_signal.Base.{
  Absent, ◌≡◌, ◌↔◌, refl, sym, ap, ◌∙◌, true, false, Bool-cases, inl, inr, some, List, [], ◌∷◌, ◌+◌,
  length, string_eq, string_eq_iff, arith,
}
use Prim.Native.String.{String}
use resonance_signal.Identity.{SourceRecord}
use resonance_signal.Identity.Registry.{contains_key, get, insert}
use resonance_signal.Identity.Entries.{
  contains_key-insert, insert-cases, get-insert, get-contains_key,
}

-- The ids of the entries are those of the list.
abbrev pub Keys : List String → List SourceRecord → Type 0
Keys ids entries = (id : String) → (contains_key id entries ≡ false) ↔ Absent id ids

contains_key-inserted :
    (r : SourceRecord) (entries : List SourceRecord) → contains_key r.id (insert r entries) ≡ true
contains_key-inserted r [] = rw ((string_eq_iff r.id r.id).1 refl) refl
contains_key-inserted r (x ∷ entries) =
    let here = (string_eq_iff r.id r.id).1 refl in
    let rest = contains_key-inserted r entries in
    insert-cases (λ es. contains_key r.id es ≡ true) r x entries (rw here refl) (λ e. rw here refl)
      (ground arith)

pub Keys-insert :
    (r : SourceRecord) (ids : List String) (entries : List SourceRecord)
    → Keys ids entries
    → Keys (r.id ∷ ids) (insert r entries)
Keys-insert r ids entries k id = elim (Bool-cases (string_eq r.id id)) [
  | inl e ↦
      let same = (string_eq_iff r.id id).0 e in
      let there =
        ap (λ i. contains_key i (insert r entries)) (sym same) ∙ contains_key-inserted r entries in
      (λ h. absurd cc, λ (n, h). absurd (n same))
  | inr e ↦
      let other = contains_key-insert r id entries e in
      let rest = k id in
      (
        λ h. (λ p. let q = (string_eq_iff r.id id).1 p in cc, rest.0 (sym other ∙ h)),
        λ (n, h). other ∙ rest.1 h,
      )
]

-- Under a new key, the entry is found.
pub get-inserted :
    (r : SourceRecord) (entries : List SourceRecord)
    → contains_key r.id entries ≡ false
    → get r.id (insert r entries) ≡ some r
get-inserted r [] h = rw ((string_eq_iff r.id r.id).1 refl) refl
get-inserted r (x ∷ entries) h =
    let here = (string_eq_iff r.id r.id).1 refl in
    let rest : contains_key r.id entries ≡ false = ground arith in
    let other : string_eq x.id r.id ≡ false = ground arith in
    insert-cases (λ es. get r.id es ≡ some r) r x entries (rw here refl) (λ q. rw here refl)
      (rw other (get-inserted r entries rest))

-- A new key: the entries are one more.
pub length-insert :
    (r : SourceRecord) (entries : List SourceRecord)
    → contains_key r.id entries ≡ false
    → length (insert r entries) ≡ length entries + 1
length-insert r [] h = refl
length-insert r (x ∷ entries) h =
    let rest : contains_key r.id entries ≡ false = ground arith in
    let other : string_eq x.id r.id ≡ false = ground arith in
    insert-cases (λ es. length es ≡ length (x ∷ entries) + 1) r x entries (omega arith)
      (λ e. let found = (string_eq_iff x.id r.id).1 (sym e) in absurd cc)
      (omega (arith, length-insert r entries rest))

-- What is found among the first is found among the second.
abbrev pub Finds : List SourceRecord → List SourceRecord → Type 0
Finds entries out = (id : String) (e : SourceRecord) → get id entries ≡ some e → get id out ≡ some e

pub Finds-insert :
    (r : SourceRecord) (entries : List SourceRecord)
    → contains_key r.id entries ≡ false
    → Finds entries (insert r entries)
Finds-insert r entries new id e h = elim (Bool-cases (string_eq r.id id)) [
  | inl p ↦
      let there = get-contains_key id entries e h in
      let same = ap (λ i. contains_key i entries) ((string_eq_iff r.id id).0 p) in absurd cc
  | inr p ↦ get-insert r id entries p ∙ h
]
