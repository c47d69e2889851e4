-- ===== src/Contract/Requests.antt =====
-- What a subscription request accepts.
use resonance_signal.Base.{
  Absent, ◌≡◌, ◌≢◌, ◌↔◌, refl, sym, Bool, true, false, Bool-cases, inl, inr, none, List, [], ◌∷◌,
  ok, string_eq_iff, arith,
}
use resonance_signal.Contract.{
  DefaultSource, SourceSelector, SignalProduct, role_eq, selector_eq, product_eq, contains,
  duplicate_after, first_duplicate, SubscriptionRequest, subscription_request,
}

-- No value of the list occurs in it again.
abbrev pub Distinct : {A : Type 0} → List A → Type 0
Distinct [] = Unit
Distinct (x ∷ xs) = Absent x xs × Distinct xs

abbrev AllAbsent : {A : Type 0} → List A → List A → Type 0
AllAbsent seen [] = Unit
AllAbsent seen (x ∷ xs) = Absent x seen × AllAbsent seen xs

AllAbsent-nil : {A : Type 0} (xs : List A) → AllAbsent [] xs
AllAbsent-nil [] = tt
AllAbsent-nil (x ∷ xs) = (tt, AllAbsent-nil xs)

AllAbsent-cons :
    {A : Type 0} (x : A) (seen xs : List A)
    → AllAbsent (x ∷ seen) xs ↔ (AllAbsent seen xs × Absent x xs)
AllAbsent-cons x seen [] = (λ h. (tt, tt), λ h. tt)
AllAbsent-cons x seen (y ∷ ys) =
    let rest = AllAbsent-cons x seen ys in
    (
      λ (a, h). let (s, b) = rest.0 h in ((a.1, s), (λ e. a.0 (sym e), b)),
      λ ((a, s), (n, b)). ((λ e. n (sym e), a), rest.1 (s, b)),
    )

module _ {A : Type 0} (eq : A → A → Bool) (eq_iff : (a b : A) → (eq a b ≡ true) ↔ (a ≡ b)) where
  contains-Absent : (xs : List A) (x : A) → (contains eq xs x ≡ false) ↔ Absent x xs
  contains-Absent [] x = (λ h. tt, λ h. refl)
  contains-Absent (y ∷ ys) x =
      let rest = contains-Absent ys x in
      elim (Bool-cases (eq y x)) [
        | inl e ↦ (λ h. absurd (ground arith), λ (n, h). absurd (n ((eq_iff y x).0 e)))
        | inr e ↦ (
          λ h. (λ p. let q = (eq_iff y x).1 p in cc, rest.0 (rw e at h)),
          λ (n, h). rw e (rest.1 h),
        )
      ]

  duplicate_after-none :
      (seen xs : List A) → (duplicate_after eq seen xs ≡ none) ↔ (AllAbsent seen xs × Distinct xs)
  duplicate_after-none seen [] = (λ h. (tt, tt), λ h. refl)
  duplicate_after-none seen (x ∷ xs) =
      let rest = duplicate_after-none (x ∷ seen) xs in
      let here = contains-Absent seen x in
      let split = AllAbsent-cons x seen xs in
      elim (Bool-cases (contains eq seen x)) [
        | inl e ↦ (λ h. absurd (ground arith), λ ((a, s), (b, d)). let f = here.1 a in cc)
        | inr e ↦ (
          λ h.
              let (all, d) = rest.0 (rw e at h) in
              let (s, b) = split.0 all in ((here.0 e, s), (b, d)),
          λ ((a, s), (b, d)). rw e (rest.1 (split.1 (s, b), d)),
        )
      ]

  pub first_duplicate-none : (xs : List A) → (first_duplicate eq xs ≡ none) ↔ Distinct xs
  unfolding first_duplicate
  first_duplicate-none xs =
      let both = duplicate_after-none [] xs in
      (λ h. (both.0 h).1, λ d. both.1 (AllAbsent-nil xs, d))

role_eq_iff : (a b : DefaultSource) → (role_eq a b ≡ true) ↔ (a ≡ b)
role_eq_iff DefaultSource.playback DefaultSource.playback = (λ h. refl, λ h. refl)
role_eq_iff DefaultSource.playback DefaultSource.capture = (λ h. cc, λ h. cc)
role_eq_iff DefaultSource.capture DefaultSource.playback = (λ h. cc, λ h. cc)
role_eq_iff DefaultSource.capture DefaultSource.capture = (λ h. refl, λ h. refl)

product_eq_iff : (a b : SignalProduct) → (product_eq a b ≡ true) ↔ (a ≡ b)
product_eq_iff a b = (λ h. ground arith, λ h. ground arith)

selector_eq_iff : (a b : SourceSelector) → (selector_eq a b ≡ true) ↔ (a ≡ b)
selector_eq_iff (SourceSelector.default a) (SourceSelector.default b) =
    (λ h. let e = (role_eq_iff a b).0 h in cc, λ h. (role_eq_iff a b).1 cc)
selector_eq_iff (SourceSelector.id a) (SourceSelector.id b) =
    (λ h. let e = (string_eq_iff a b).0 h in cc, λ h. (string_eq_iff a b).1 cc)
selector_eq_iff (SourceSelector.default a) (SourceSelector.id b) = (λ h. cc, λ h. cc)
selector_eq_iff (SourceSelector.id a) (SourceSelector.default b) = (λ h. cc, λ h. cc)

-- A subscription request is made exactly from sources and products of which there is at least one and
-- none occurs twice, and it holds them in their order.
pub subscription_request_iff :
    (sources : List SourceSelector) (products : List SignalProduct) (r : SubscriptionRequest)
    → (subscription_request sources products ≡ ok r) ↔ (
        (sources ≢ [])
        × (products ≢ [])
        × Distinct sources
        × Distinct products
        × (r ≡ record { sources = sources; products = products }))
unfolding subscription_request
subscription_request_iff [] products r =
    (λ h. absurd (ground arith), λ (n, m, d, e, q). absurd (n refl))
subscription_request_iff (s ∷ sources) [] r =
    (λ h. absurd (ground arith), λ (m, n, d, e, q). absurd (n refl))
subscription_request_iff (s ∷ sources) (p ∷ products) r =
    let no_source = first_duplicate-none selector_eq selector_eq_iff (s ∷ sources) in
    let no_product = first_duplicate-none product_eq product_eq_iff (p ∷ products) in
    (
      λ h.
          let e : first_duplicate selector_eq (s ∷ sources) ≡ none = ground arith in
          let f : first_duplicate product_eq (p ∷ products) ≡ none = ground arith in
          ((λ q. cc), (λ q. cc), no_source.0 e, no_product.0 f, ground arith),
      λ (m, n, d, e, q). rw (no_source.1 d, no_product.1 e, q) refl,
    )
