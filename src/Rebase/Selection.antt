-- ===== src/Rebase/Selection.antt =====
-- The first unmet precondition with a reason (src/shared_mind/rebase.py) beside a chain of checks
-- that stops at the first one that fails.
use shared_mind.Base.{
  ℕ, ◌+◌, Bool, not, true, false, ◌≡◌, refl, sym, ap, ◌∙◌, subst, Option, none, some, List, [], ◌∷◌,
  ◌++◌, equal, equal_self, arith, ok, err, ◌>>◌, for_each, Every, ◌⊎◌, inl, inr, if◌then◌else◌,
  ◌&&◌,
}
use shared_mind.Continuity.Errors.{Code, Checked, transaction_conflict}
use shared_mind.Rebase.{Precondition, enumerated, is_stale, first_failed, Code-discrete}
use shared_mind.Rebase.Staleness.{
  IsMet, Judged, is_stale-false, is_stale-true, is_stale-unmet, not-equal,
}

first_failed-met :
    (code : Code) (item : Precondition) (items : List Precondition)
    → IsMet item
    → first_failed code (item ∷ items) ≡ first_failed code items
unfolding first_failed
first_failed-met code item items met =
    ap
      (λ b.
        if equal Code-discrete item.reason_code code && b
        then some item
        else first_failed code items)
      (is_stale-false item met)
    ∙ dropped (equal Code-discrete item.reason_code code)
  where
    dropped :
        (b : Bool)
        → (if b && false then some item else first_failed code items) ≡ first_failed code items
    dropped true = refl
    dropped false = refl

first_failed-unmet :
    (item : Precondition) (items : List Precondition)
    → ¬ IsMet item
    → first_failed item.reason_code (item ∷ items) ≡ some item
unfolding first_failed
first_failed-unmet item items unmet =
    rw (equal_self Code-discrete item.reason_code, is_stale-true item unmet) refl

pub first_failed-all :
    (code : Code) (items more : List Precondition)
    → Every IsMet items
    → first_failed code (items ++ more) ≡ first_failed code more
first_failed-all code [] more met = refl
first_failed-all code (item ∷ items) more met =
    first_failed-met code item (items ++ more) met.0 ∙ first_failed-all code items more met.1

unfoldable pub IsFailed : Code → Precondition → Type 0
IsFailed code failed = (failed.reason_code ≡ code) × ¬ IsMet failed

chosen-IsFailed :
    (code : Code) (item failed : Precondition) (rest : Option Precondition) (a b : Bool)
    → equal Code-discrete item.reason_code code ≡ a
    → is_stale item ≡ b
    → (rest ≡ some failed → IsFailed code failed)
    → (if a && b then some item else rest) ≡ some failed
    → IsFailed code failed
unfolding IsFailed
chosen-IsFailed code item failed rest true true same stale older found =
    let it : item ≡ failed = ground (arith, found) in
    subst (λ x. (x.reason_code ≡ code) × ¬ IsMet x) it
      ((not-equal Code-discrete item.reason_code code).0 (ap not same), is_stale-unmet item stale)
chosen-IsFailed code item failed rest true false same stale older found = older found
chosen-IsFailed code item failed rest false b same stale older found = older found

-- The selected precondition has the reason that is looked for, and is not met.
pub first_failed-IsFailed :
    (code : Code) (items : List Precondition) (failed : Precondition)
    → first_failed code items ≡ some failed
    → IsFailed code failed
unfolding first_failed
first_failed-IsFailed code [] failed e = absurd (ground (arith, e))
first_failed-IsFailed code (item ∷ items) failed e =
    chosen-IsFailed code item failed (first_failed code items)
      (equal Code-discrete item.reason_code code) (is_stale item) refl refl
      (first_failed-IsFailed code items failed) e

chosen-longer :
    (item failed : Precondition) (rest longer : Option Precondition) (b : Bool)
    → (rest ≡ some failed → longer ≡ some failed)
    → (if b then some item else rest) ≡ some failed
    → (if b then some item else longer) ≡ some failed
chosen-longer item failed rest longer true next found = found
chosen-longer item failed rest longer false next found = next found

pub first_failed-append :
    (code : Code) (items more : List Precondition) (failed : Precondition)
    → first_failed code items ≡ some failed
    → first_failed code (items ++ more) ≡ some failed
unfolding first_failed
first_failed-append code [] more failed e = absurd (ground (arith, e))
first_failed-append code (item ∷ items) more failed e =
    chosen-longer item failed (first_failed code items) (first_failed code (items ++ more))
      (equal Code-discrete item.reason_code code && is_stale item)
      (first_failed-append code items more failed) e

none_failed : (code : Code) → first_failed code [] ≡ none
unfolding first_failed
none_failed code = refl

pub met-unfailed :
    (code : Code) (items : List Precondition) (failed : Precondition)
    → Every IsMet items
    → first_failed code items ≡ some failed
    → ⊥
met-unfailed code items failed met found =
    let same =
      sym (first_failed-append code items [] failed found)
      ∙ first_failed-all code items [] met
      ∙ none_failed code in
    ground (arith, same)

-- A chain of checks passes where every precondition is met, and else raises a reason that the first
-- unmet precondition with it explains.
abbrev pub Explained : List Precondition → Checked → Type 0
Explained items r =
    (Every IsMet items × (r ≡ ok tt))
    ⊎ ((code : Code) × (failed : Precondition) × (first_failed code items ≡ some failed)
        × (r ≡ err (transaction_conflict code)))

Explained-cons :
    (item : Precondition) (items : List Precondition) (r r' : Checked)
    → Judged item r
    → Explained items r'
    → Explained (item ∷ items) (r >> r')
Explained-cons item items r r' (inl (met, e)) (inl (all, e')) =
    inl ((met, all), ap (λ x. x >> r') e ∙ e')
Explained-cons item items r r' (inl (met, e)) (inr (code, failed, found, e')) =
    inr (code, failed, first_failed-met code item items met ∙ found, ap (λ x. x >> r') e ∙ e')
Explained-cons item items r r' (inr (unmet, e)) rest =
    inr (item.reason_code, item, first_failed-unmet item items unmet, ap (λ x. x >> r') e)

every_append :
    (xs ys : List Precondition) → Every IsMet xs → Every IsMet ys → Every IsMet (xs ++ ys)
every_append [] ys p q = q
every_append (x ∷ xs) ys p q = (p.0, every_append xs ys p.1 q)

pub Explained-append :
    (items more : List Precondition) (r r' : Checked)
    → Explained items r
    → Explained more r'
    → Explained (items ++ more) (r >> r')
Explained-append items more r r' (inl (met, e)) (inl (all, e')) =
    inl (every_append items more met all, ap (λ x. x >> r') e ∙ e')
Explained-append items more r r' (inl (met, e)) (inr (code, failed, found, e')) =
    inr (code, failed, first_failed-all code items more met ∙ found, ap (λ x. x >> r') e ∙ e')
Explained-append items more r r' (inr (code, failed, found, e)) rest =
    inr (code, failed, first_failed-append code items more failed found, ap (λ x. x >> r') e)

module _ {A : Type 0} (f : ℕ → A → List Precondition) (check : A → Checked) (P : A → Type 0) where
  pub Explained-enumerated :
      ((index : ℕ) (x : A)
        → P x
        → (item : Precondition) × (f index x ≡ item ∷ []) × Judged item (check x))
      → (index : ℕ) (xs : List A) → Every P xs
      → Explained (enumerated f index xs) (for_each check xs)
  unfolding enumerated for_each
  Explained-enumerated judged index [] all = inl (tt, refl)
  Explained-enumerated judged index (x ∷ xs) all =
      let j = judged index x all.0 in
      subst
        (λ items. Explained (items ++ enumerated f (index + 1) xs) (check x >> for_each check xs))
        (sym j.1)
        (Explained-cons j.0 (enumerated f (index + 1) xs) (check x) (for_each check xs) j.2
          (Explained-enumerated judged (index + 1) xs all.1))
