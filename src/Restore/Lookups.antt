-- ===== src/Restore/Lookups.antt =====
-- Lemmas on the lists of names that a verification compares (domain/organizations/export_verification.py).
use signalscope.Shared.{
  ◌≡◌, refl, inl, inr, Bool, true, false, not, Bool-cases, some, List, [], ◌∷◌, ◌++◌, map, All,
  arith, Option-cases,
}
use signalscope.Shared.Text.{Text, text_eq}
use signalscope.Shared.Rows.{select}
use signalscope.Restore.Archive.{Member, in_texts}
use signalscope.Restore.Verify.{names_of, get_info, difference, sorted_texts, add_text}

pub ++-none {ℓ} : {A : Type ℓ} (xs ys : List A) → xs ++ ys ≡ [] → (xs ≡ []) × (ys ≡ [])
++-none [] ys h = (refl, h)
++-none (x ∷ xs) ys h = absurd (ground arith)

pub map-none {ℓ κ} : {A : Type ℓ} {B : Type κ} (f : A → B) (xs : List A) → map f xs ≡ [] → xs ≡ []
map-none f [] h = refl
map-none f (x ∷ xs) h = absurd (ground arith)

pub select-none {ℓ} :
    {A : Type ℓ} (p : A → Bool) (xs : List A) → select p xs ≡ [] → All (λ x. p x ≡ false) xs
unfolding select
select-none p [] h = tt
select-none p (x ∷ xs) h = elim (Bool-cases (p x)) [
  | inl y ↦ absurd (ground arith)
  | inr n ↦ (n, select-none p xs (ground arith))
]

add_text-some : (t : Text) (texts : List Text) → add_text t texts ≡ [] → ⊥
unfolding add_text
add_text-some t [] h = ground arith
add_text-some t (s ∷ texts) h = ground arith

pub sorted_texts-none : (texts : List Text) → sorted_texts texts ≡ [] → texts ≡ []
unfolding sorted_texts
sorted_texts-none [] h = refl
sorted_texts-none (t ∷ texts) h = absurd (add_text-some t (sorted_texts texts) h)

pub difference-none :
    (names others : List Text)
    → difference names others ≡ []
    → All (λ t. in_texts t others ≡ true) names
unfolding difference
difference-none names others h =
    all names (select-none (λ t. not (in_texts t others)) names (sorted_texts-none _ h))
  where
    all :
        (ts : List Text)
        → All (λ t. not (in_texts t others) ≡ false) ts
        → All (λ t. in_texts t others ≡ true) ts
    all [] h = tt
    all (t ∷ ts) (n, h) = (ground arith, all ts h)

pub in_texts-select :
    (p : Text → Bool) (t : Text) (texts : List Text)
    → in_texts t (select p texts) ≡ true
    → in_texts t texts ≡ true
unfolding in_texts select
in_texts-select p t [] h = h
in_texts-select p t (s ∷ texts) h =
    let ih = in_texts-select p t texts in
    elim (Bool-cases (p s)) [
      | inl y ↦ elim (Bool-cases (text_eq s t)) [ inl e ↦ ground arith | inr n ↦ ground arith ]
      | inr n ↦ elim (Bool-cases (text_eq s t)) [ inl e ↦ ground arith | inr n ↦ ground arith ]
    ]

pub get_info-some :
    (path : Text) (infos : List Member)
    → in_texts path (names_of infos) ≡ true
    → (m : Member) × (get_info path infos ≡ some m)
unfolding get_info in_texts
get_info-some path [] h = absurd (ground arith)
get_info-some path (m ∷ infos) h = elim (Option-cases (get_info path infos)) [
  | inr (i, e) ↦ (i, rw e refl)
  | inl e ↦ elim (Bool-cases (text_eq m.filename path)) [
    | inl y ↦ (m, rw (e, y) refl)
    | inr n ↦ let (i, g) = get_info-some path infos (ground arith) in absurd (ground arith)
  ]
]
