-- ===== src/Base/Results.antt =====
-- Results of code that may raise, with `do` blocks. What SQLite has written when a raise happens is
-- rolled back by the caller, so no state stands beside an error.
use mathlib.Core.Path.{◌≡◌, refl}
use mathlib.Core.Bool.{Bool, true, false}
use mathlib.Core.Option.{Option, none, some}
use mathlib.Core.List.{List, [], ◌∷◌, ◌++◌}

pub data Result {ℓ κ} (E : Type κ) (A : Type ℓ) : Type (ℓ ⊔ κ) where
  ok : A → Result E A
  err : E → Result E A

-- What follows a result that is there; a raise skips it.
infixl 5 ◌>>=◌ ◌>>◌
abbrev pub ◌>>=◌ {κ ℓ ι} :
    {E : Type κ} {S : Type ℓ} {T : Type ι} → Result E S → (S → Result E T) → Result E T
err raised >>= next = err raised
ok value >>= next = next value

-- `if test: raise e`
abbrev pub raise_if {κ} : {E : Type κ} → Bool → E → Result E (Unit {0})
raise_if false _ = ok tt
raise_if true raised = err raised

abbrev pub ◌>>◌ {κ ℓ} : {E : Type κ} {T : Type ℓ} → Result E (Unit {0}) → Result E T → Result E T
check >> next = check >>= (λ _. next)

abbrev pub or_raise {ℓ κ} : {E : Type κ} {A : Type ℓ} → Option A → E → Result E A
or_raise none e = err e
or_raise (some a) e = ok a

-- `for x in xs: ...` over a state, stopped by the first raise.
unfoldable pub fold_result {ℓ ι κ} :
    {E : Type κ} {A : Type ℓ} {S : Type ι} → (A → S → Result E S) → List A → S → Result E S
fold_result f [] s = ok s
fold_result f (x ∷ xs) s = f x s >>= fold_result f xs

unfoldable pub for_each {ℓ κ} :
    {E : Type κ} {A : Type ℓ} → (A → Result E (Unit {0})) → List A → Result E (Unit {0})
for_each f [] = ok tt
for_each f (x ∷ xs) = f x >> for_each f xs

-- A chain that has not raised: the value between its two steps.
pub >>=-eq-ok {κ ℓ ι} :
    {E : Type κ} {S : Type ℓ} {T : Type ι} (r : Result E S) (next : S → Result E T) {t : T}
    → (r >>= next) ≡ ok t
    → (value : S) × (r ≡ ok value) × (next value ≡ ok t)
>>=-eq-ok (err raised) next e = cc
>>=-eq-ok (ok value) next e = (value, refl, e)

pub fold_result-append {ℓ ι κ} :
    {E : Type κ} {A : Type ℓ} {S : Type ι} (f : A → S → Result E S) (xs ys : List A) (s : S)
    → fold_result f (xs ++ ys) s ≡ (fold_result f xs s >>= fold_result f ys)
unfolding fold_result
fold_result-append f [] ys s = refl
fold_result-append {E} f (x ∷ xs) ys s = after (f x s) (λ s'. fold_result-append f xs ys s')
  where
    after :
        (r : Result E _)
        → ((s' : _) → fold_result f (xs ++ ys) s' ≡ (fold_result f xs s' >>= fold_result f ys))
        → (r >>= fold_result f (xs ++ ys)) ≡ (r >>= fold_result f xs >>= fold_result f ys)
    after (ok s') ih = ih s'
    after (err e) ih = refl

-- A list built by a loop whose body may raise.
unfoldable pub collect {ℓ ι κ} :
    {E : Type κ} {A : Type ℓ} {B : Type ι} → (A → Result E B) → List A → Result E (List B)
collect f [] = ok []
collect f (x ∷ xs) = f x >>= λ y. collect f xs >>= λ ys. ok (y ∷ ys)

-- A guard that has not raised, before what follows it.
pub guard-eq-ok {κ ℓ} :
    {E : Type κ} {T : Type ℓ} (test : Bool) (e : E) (next : Result E T) {t : T}
    → (raise_if test e >> next) ≡ ok t
    → (test ≡ false) × (next ≡ ok t)
guard-eq-ok true e next h = cc
guard-eq-ok false e next h = (refl, h)
