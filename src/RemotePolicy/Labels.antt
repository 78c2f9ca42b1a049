-- ===== src/RemotePolicy/Labels.antt =====
-- The label that `_source_label` of src/shared_mind/remote_policy.py gives to a reference.
use mathlib.Core.List.{Memᴰ}
use mathlib.Core.List.Memᴰ.{head, tail}
use shared_mind.Base.{
  ◌≤◌, String, true, false, ◌≡◌, refl, sym, subst, ap, ◌∙◌, none, some, List, [], ◌∷◌, arith, inl,
  inr, Bool-cases, Option-cases, if◌then◌else◌, ltb, starts_with, text_length, sorted, ◌⊎◌,
}
use shared_mind.Kernel.Json.{Fields}
use shared_mind.RemotePolicy.Values.{Library, read, string_or_none, string_values, mapping_values}
use shared_mind.RemotePolicy.SourceRef.{
  source_ref_is_safe, source_label, add_match, matching_labels, label_of, longest, Label, no_label,
}

abbrev pub Pair : Type 0
Pair = String × Fields

longest-Memᴰ : (best : Pair) (xs : List Pair) → Memᴰ (longest best xs) (best ∷ xs)
unfolding longest
longest-Memᴰ best [] = head refl
longest-Memᴰ best (x ∷ xs) = elim (Bool-cases (ltb (text_length best.0) (text_length x.0))) [
  | inl shorter ↦
      tail (subst (λ y. Memᴰ (longest y xs) (x ∷ xs)) (sym (rw shorter refl)) (longest-Memᴰ x xs))
  | inr longer ↦
      kept
        (subst (λ y. Memᴰ (longest y xs) (best ∷ xs)) (sym (rw longer refl)) (longest-Memᴰ best xs))
]
  where
    kept : {y : Pair} → Memᴰ y (best ∷ xs) → Memᴰ y (best ∷ x ∷ xs)
    kept (head e) = head e
    kept (tail m) = tail (tail m)

longest-le-best :
    (best : Pair) (xs : List Pair) → text_length best.0 ≤ text_length (longest best xs).0
unfolding longest
longest-le-best best [] = omega arith
longest-le-best best (x ∷ xs) = ground (arith, longest-le-best x xs, longest-le-best best xs)

longest-le :
    (best : Pair) (xs : List Pair) (y : Pair)
    → Memᴰ y xs
    → text_length y.0 ≤ text_length (longest best xs).0
unfolding longest
longest-le best [] y m = elim m [ ]
longest-le best (x ∷ xs) y (head e) =
    subst (λ z. text_length z.0 ≤ text_length (longest best (x ∷ xs)).0) (sym e)
      (ground (arith, longest-le-best x xs, longest-le-best best xs))
longest-le best (x ∷ xs) y (tail m) =
    longest-le (if ltb (text_length best.0) (text_length x.0) then x else best) xs y m

-- A label with a root above the reference.
abbrev pub IsMatch : String → List Fields → Pair → Type 0
IsMatch ref labels (root, label) =
    Memᴰ label labels
    × (string_or_none (read "source_root" label) ≡ some root)
    × (starts_with root ref ≡ true)

weaken :
    (ref : String) (l : Fields) (labels : List Fields) (p : Pair)
    → IsMatch ref labels p
    → IsMatch ref (l ∷ labels) p
weaken ref l labels p (m, r, s) = (tail m, r, s)

matching_labels-none :
    (ref : String) (l : Fields) (labels : List Fields)
    → string_or_none (read "source_root" l) ≡ none
    → matching_labels ref (l ∷ labels) ≡ matching_labels ref labels
unfolding matching_labels add_match
matching_labels-none ref l labels h = ap (λ o. add_match ref l o (matching_labels ref labels)) h

matching_labels-some :
    (ref : String) (l : Fields) (labels : List Fields) (root : String)
    → string_or_none (read "source_root" l) ≡ some root
    → matching_labels ref (l ∷ labels) ≡ (
        if starts_with root ref
        then (root, l) ∷ matching_labels ref labels
        else matching_labels ref labels)
unfolding matching_labels add_match
matching_labels-some ref l labels root h =
    ap (λ o. add_match ref l o (matching_labels ref labels)) h

matched :
    (ref : String) (l : Fields) (labels : List Fields) (p : Pair) (root : String)
    → string_or_none (read "source_root" l) ≡ some root
    → starts_with root ref ≡ true
    → (Memᴰ p (matching_labels ref labels) → IsMatch ref labels p)
    → Memᴰ p ((root, l) ∷ matching_labels ref labels)
    → IsMatch ref (l ∷ labels) p
matched ref l labels p root named above ih (head e) =
    subst (IsMatch ref (l ∷ labels)) (sym e) (head refl, named, above)
matched ref l labels p root named above ih (tail m) = weaken ref l labels p (ih m)

matching_labels-IsMatch :
    (ref : String) (labels : List Fields) (p : Pair)
    → Memᴰ p (matching_labels ref labels)
    → IsMatch ref labels p
unfolding matching_labels
matching_labels-IsMatch ref [] p m = elim m [ ]
matching_labels-IsMatch ref (l ∷ labels) p m =
    elim (Option-cases (string_or_none (read "source_root" l))) [
      | inl nothing ↦ weaken ref l labels p (
          matching_labels-IsMatch ref labels p
            (subst (Memᴰ p) (matching_labels-none ref l labels nothing) m))
      | inr (root, named) ↦
          let step = matching_labels-some ref l labels root named in
          elim (Bool-cases (starts_with root ref)) [
            | inr other ↦
                weaken ref l labels p
                  (matching_labels-IsMatch ref labels p (subst (Memᴰ p) (step ∙ rw other refl) m))
            | inl above ↦
                matched ref l labels p root named above
                  (λ m. matching_labels-IsMatch ref labels p m)
                  (subst (Memᴰ p) (step ∙ rw above refl) m)
          ]
    ]

IsMatch-matching_labels :
    (ref : String) (labels : List Fields) (p : Pair)
    → IsMatch ref labels p
    → Memᴰ p (matching_labels ref labels)
IsMatch-matching_labels ref [] p (m, named, above) = elim m [ ]
IsMatch-matching_labels ref (l ∷ labels) p (head e, named, above) =
    let step =
      matching_labels-some ref l labels p.0
        (subst (λ x. string_or_none (read "source_root" x) ≡ some p.0) e named) in
    let first : Memᴰ p ((p.0, l) ∷ matching_labels ref labels) = head (ap (λ x. (p.0, x)) e) in
    subst (Memᴰ p) (sym (step ∙ rw above refl)) first
IsMatch-matching_labels ref (l ∷ labels) p (tail m, named, above) =
    let rest = IsMatch-matching_labels ref labels p (m, named, above) in
    elim (Option-cases (string_or_none (read "source_root" l))) [
      | inl nothing ↦ subst (Memᴰ p) (sym (matching_labels-none ref l labels nothing)) rest
      | inr (root, found) ↦
          let step = matching_labels-some ref l labels root found in
          let later : Memᴰ p ((root, l) ∷ matching_labels ref labels) = tail rest in
          elim (Bool-cases (starts_with root ref)) [
            | inr other ↦ subst (Memᴰ p) (sym (step ∙ rw other refl)) rest
            | inl over ↦ subst (Memᴰ p) (sym (step ∙ rw over refl)) later
          ]
    ]

-- What a reference gets of a label: its root, its sensitivity and its data classes.
abbrev pub label_from : Pair → Label
label_from p = record {
  source_root = some p.0;
  sensitivity = string_or_none (read "sensitivity" p.1);
  data_classes = sorted (string_values (read "data_classes" p.1));
}

-- All that is found is that of a label whose root is above the reference, and no such root is longer.
abbrev pub IsLongest : String → List Fields → Label → Type 0
IsLongest ref labels found =
    (chosen : Pair) × IsMatch ref labels chosen
    × (found ≡ label_from chosen)
    × ((other : Pair) → IsMatch ref labels other → text_length other.0 ≤ text_length chosen.0)

-- Nothing is found, and no root is above the reference.
abbrev pub IsUnlabelled : String → List Fields → Label → Type 0
IsUnlabelled ref labels found = (found ≡ no_label) × ((p : Pair) → ¬ IsMatch ref labels p)

label_of-IsLongest :
    (ref : String) (labels : List Fields) (ms : List Pair)
    → ms ≡ matching_labels ref labels
    → IsLongest ref labels (label_of ms) ⊎ IsUnlabelled ref labels (label_of ms)
unfolding label_of
label_of-IsLongest ref labels [] same = inr (
  refl,
  λ p match. elim (subst (Memᴰ p) (sym same) (IsMatch-matching_labels ref labels p match)) [ ],
)
label_of-IsLongest ref labels (x ∷ xs) same =
    let chosen = longest x xs in
    inl (
      chosen,
      matching_labels-IsMatch ref labels chosen (subst (Memᴰ chosen) same (longest-Memᴰ x xs)),
      refl,
      λ other match.
          bounded other
            (subst (Memᴰ other) (sym same) (IsMatch-matching_labels ref labels other match)),
    )
  where
    bounded : (p : Pair) → Memᴰ p (x ∷ xs) → text_length p.0 ≤ text_length (longest x xs).0
    bounded p (head e) =
        subst (λ z. text_length z.0 ≤ text_length (longest x xs).0) (sym e) (longest-le-best x xs)
    bounded p (tail m) = longest-le x xs p m

-- A safe reference gets the root, the sensitivity and the data classes of one label, whose root is above
-- it and is no shorter than any other such root; it gets no label where no root is above it. An unsafe
-- reference gets no label.
pub source_label-IsLongest :
    (lib : Library) (document : Fields) (ref : String)
    → (let labels = mapping_values (read "source_labels" document) in
        let found = source_label lib document (some ref) in
        ((source_ref_is_safe lib ref ≡ true)
          × (IsLongest ref labels found ⊎ IsUnlabelled ref labels found))
        ⊎ ((source_ref_is_safe lib ref ≡ false) × (found ≡ no_label)))
unfolding source_label
source_label-IsLongest lib document ref = elim (Bool-cases (source_ref_is_safe lib ref)) [
  | inr unsafe ↦ inr (unsafe, rw unsafe refl)
  | inl safe ↦
      let labels = mapping_values (read "source_labels" document) in
      let ms = matching_labels ref labels in
      let given : Path Label (source_label lib document (some ref)) (label_of ms) = rw safe refl in
      inl (
        safe,
        subst (λ found. IsLongest ref labels found ⊎ IsUnlabelled ref labels found) (sym given)
            (label_of-IsLongest ref labels ms refl),
      )
]
