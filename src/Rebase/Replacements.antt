-- ===== src/Rebase/Replacements.antt =====
-- The replacement preconditions of a hint of src/shared_mind/rebase.py.
use shared_mind.Base.{
  Bool, true, false, not, ◌≡◌, refl, ap, subst, Option, none, some, List, [], ◌∷◌, equal,
  equal_self, Every, Bool-cases, arith, ◌⊎◌, inl, inr, if◌then◌else◌, ◌&&◌,
}
use shared_mind.Documents.{Registry, Proposal}
use shared_mind.Continuity.Errors.{Code}
use shared_mind.Kernel.Host.{Host}
use shared_mind.Kernel.State.{Database, Receipt, Outcome}
use shared_mind.Rebase.{
  Value, Place, Target, Precondition, Hint, Target-discrete, Place-discrete, has_place,
  replacements, proposal_preconditions, build_rebase_hint, hint_by_reason, hint_for, hint_of,
  first_failed,
}
use shared_mind.Rebase.Staleness.{not-equal, some-eq}

module _ (target : Target) where
  -- A place and a value are those of a precondition on the target.
  abbrev pub Held : List Precondition → Place × Option Value → Type 0
  Held [] x = ⊥
  Held (item ∷ items) x =
      ((item.target ≡ target) × (item.path ≡ x.0) × (item.actual ≡ x.1)) ⊎ Held items x

  -- Each is held by the preconditions, and no place comes twice or has been seen.
  abbrev pub Replaces : List Precondition → List Place → List (Place × Option Value) → Type 0
  Replaces all seen [] = Unit
  Replaces all seen (x ∷ xs) =
      Held all x × (has_place x.0 seen ≡ false) × Replaces all (x.0 ∷ seen) xs

  chosen-Replaces :
      (all : List Precondition) (item : Precondition) (seen : List Place)
      (taken rest : List (Place × Option Value)) (a b : Bool)
      → equal Target-discrete item.target target ≡ a
      → has_place item.path seen ≡ b
      → (item.target ≡ target → Held all (item.path, item.actual))
      → Replaces all (item.path ∷ seen) taken
      → Replaces all seen rest
      → Replaces all seen (if a && not b then (item.path, item.actual) ∷ taken else rest)
  chosen-Replaces all item seen taken rest true true same found held more others = others
  chosen-Replaces all item seen taken rest true false same found held more others =
      (held ((not-equal Target-discrete item.target target).0 (ap not same)), found, more)
  chosen-Replaces all item seen taken rest false b same found held more others = others

  replacements-Replaces :
      (all items : List Precondition) (seen : List Place)
      → ((x : Place × Option Value) → Held items x → Held all x)
      → Replaces all seen (replacements target seen items)
  unfolding replacements
  replacements-Replaces all [] seen held = tt
  replacements-Replaces all (item ∷ items) seen held =
      chosen-Replaces all item seen (replacements target (item.path ∷ seen) items)
        (replacements target seen items) (equal Target-discrete item.target target)
        (has_place item.path seen) refl refl
        (λ same. held (item.path, item.actual) (inl (same, refl, refl)))
        (replacements-Replaces all items (item.path ∷ seen) (λ x h. held x (inr h)))
        (replacements-Replaces all items seen (λ x h. held x (inr h)))

  abbrev places : List (Place × Option Value) → List Place
  places [] = []
  places (x ∷ xs) = x.0 ∷ places xs

  -- Each precondition on the target is on a place that has been seen or that a replacement names.
  abbrev pub Covers : List Place → List (Place × Option Value) → List Precondition → Type 0
  Covers seen xs = Every (λ item.
      item.target ≡ target
      → (has_place item.path seen ≡ true) ⊎ (has_place item.path (places xs) ≡ true))

  has_place-cons :
      (path p : Place) (seen : List Place)
      → has_place path (p ∷ seen) ≡ true
      → (p ≡ path) ⊎ (has_place path seen ≡ true)
  unfolding has_place
  has_place-cons path p seen e = elim (Bool-cases (equal Place-discrete p path)) [
    | inl same ↦ inl ((not-equal Place-discrete p path).0 (ap not same))
    | inr other ↦ inr (rw (other, has_place) at e)
  ]

  has_place-first :
      (path p : Place) (seen : List Place) → p ≡ path → has_place path (p ∷ seen) ≡ true
  unfolding has_place
  has_place-first path p seen e =
      subst (λ q. has_place q (p ∷ seen) ≡ true) e (rw (equal_self Place-discrete p) refl)

  has_place-later :
      (path p : Place) (seen : List Place)
      → has_place path seen ≡ true
      → has_place path (p ∷ seen) ≡ true
  unfolding has_place
  has_place-later path p seen e = elim (Bool-cases (equal Place-discrete p path)) [
    | inl same ↦ rw same refl
    | inr other ↦ rw other e
  ]

  Covers-cons :
      (seen : List Place) (x : Place × Option Value) (xs : List (Place × Option Value))
      (items : List Precondition)
      → Covers (x.0 ∷ seen) xs items
      → Covers seen (x ∷ xs) items
  Covers-cons seen x xs [] c = tt
  Covers-cons seen x xs (item ∷ items) c =
      (λ on. moved item (c.0 on), Covers-cons seen x xs items c.1)
    where
      moved :
          (item : Precondition)
          → (has_place item.path (x.0 ∷ seen) ≡ true) ⊎ (has_place item.path (places xs) ≡ true)
          → (has_place item.path seen ≡ true) ⊎ (has_place item.path (places (x ∷ xs)) ≡ true)
      moved item (inl e) = elim (has_place-cons item.path x.0 seen e) [
        | inl same ↦ inr (has_place-first item.path x.0 (places xs) same)
        | inr old ↦ inl old
      ]
      moved item (inr e) = inr (has_place-later item.path x.0 (places xs) e)

  chosen-Covers :
      (item : Precondition) (items : List Precondition) (seen : List Place)
      (taken rest : List (Place × Option Value)) (a b : Bool)
      → equal Target-discrete item.target target ≡ a
      → has_place item.path seen ≡ b
      → Covers (item.path ∷ seen) taken items
      → Covers seen rest items
      → Covers seen (if a && not b then (item.path, item.actual) ∷ taken else rest) (item ∷ items)
  chosen-Covers item items seen taken rest true true same found more others =
      (λ on. inl found, others)
  chosen-Covers item items seen taken rest true false same found more others = (
    λ on. inr (has_place-first item.path item.path (places taken) refl),
    Covers-cons seen (item.path, item.actual) taken items more,
  )
  chosen-Covers item items seen taken rest false b same found more others =
      (λ on. absurd (cc (same, (not-equal Target-discrete item.target target).1 on)), others)

  replacements-Covers :
      (items : List Precondition) (seen : List Place)
      → Covers seen (replacements target seen items) items
  unfolding replacements
  replacements-Covers [] seen = tt
  replacements-Covers (item ∷ items) seen =
      chosen-Covers item items seen (replacements target (item.path ∷ seen) items)
        (replacements target seen items) (equal Target-discrete item.target target)
        (has_place item.path seen) refl refl (replacements-Covers items (item.path ∷ seen))
        (replacements-Covers items seen)

module _ (h : Host) (reg : Registry) (db : Database) (p : Proposal) where
  -- What the replacements of a hint are.
  abbrev pub IsReplaced : Hint → Type 0
  IsReplaced hint =
      Replaces hint.failed_precondition.target (proposal_preconditions h reg db.tables p) []
        hint.replacement_preconditions
      × Covers hint.failed_precondition.target [] hint.replacement_preconditions
          (proposal_preconditions h reg db.tables p)

  hint_for-IsReplaced :
      (receipt : Receipt) (code : Code) (failed : Option Precondition) (hint : Hint)
      → hint_for h reg db p receipt code failed ≡ some hint
      → IsReplaced hint
  unfolding hint_for hint_of
  hint_for-IsReplaced receipt code none hint e = absurd (ground (arith, e))
  hint_for-IsReplaced receipt code (some failed) hint e =
      let items = proposal_preconditions h reg db.tables p in
      subst IsReplaced (some-eq (hint_of h reg db p receipt code failed) hint e) (
        replacements-Replaces failed.target items items [] (λ x held. held),
        replacements-Covers failed.target items [],
      )

  hint_by_reason-IsReplaced :
      (receipt : Receipt) (codes : List Code) (hint : Hint)
      → hint_by_reason h reg db p receipt codes ≡ some hint
      → IsReplaced hint
  unfolding hint_by_reason
  hint_by_reason-IsReplaced receipt [] hint e = absurd (cc e)
  hint_by_reason-IsReplaced receipt (code ∷ codes) hint e =
      hint_for-IsReplaced receipt code
        (first_failed code (proposal_preconditions h reg db.tables p)) hint e

  by_outcome-IsReplaced :
      (receipt : Receipt) (outcome : Outcome) (hint : Hint)
      → receipt.outcome ≡ outcome
      → build_rebase_hint h reg db p receipt ≡ some hint
      → IsReplaced hint
  unfolding build_rebase_hint
  by_outcome-IsReplaced receipt Outcome.transaction_conflict hint same e =
      hint_by_reason-IsReplaced receipt receipt.reason_codes hint (rw same at e)
  by_outcome-IsReplaced receipt _ hint same e = absurd (cc (rw same at e))

  -- The replacements of a hint name the place of every precondition of the proposal on the record or the
  -- family of the failed one, each place once, and with a value that such a precondition at that place
  -- has now; and they name no other place.
  pub build_rebase_hint-IsReplaced :
      (receipt : Receipt) (hint : Hint)
      → build_rebase_hint h reg db p receipt ≡ some hint
      → IsReplaced hint
  build_rebase_hint-IsReplaced receipt hint e =
      by_outcome-IsReplaced receipt receipt.outcome hint refl e
