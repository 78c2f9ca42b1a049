-- ===== src/RemotePolicy/Lists.antt =====
-- The lists that `_required_object_list` and `_required_string_list` of
-- src/shared_mind/remote_policy.py let pass.
use shared_mind.Base.{
  String, Bool, true, false, ◌≡◌, sym, subst, ap, ◌∙◌, List, [], ◌∷◌, map, ◌==◌, Result, ok,
  raise_if, collect, >>=-eq-ok, Every,
}
use shared_mind.Kernel.Json.{
  Json, null, literal, text, foreign, array, object, Items, nil, cons, Fields,
}
use shared_mind.RemotePolicy.Values.{
  Library, Refusal, value_error, read, required_object_list, object_list_of, string_list_of,
  as_mapping, elements, mappings_of, mapping_values, string_values, strings_of, non_empty_string,
  reject_duplicates,
}

-- The texts under a key.
unfoldable add_text : Json → List String → List String
add_text (text t) ts = t ∷ ts
add_text _ ts = ts

unfoldable pub named : String → List Fields → List String
unfolding add_text read
named key [] = []
named key (m ∷ ms) = add_text (read key m) (named key ms)

pub ok-injective {ℓ κ} :
    {E : Type κ} {A : Type ℓ} {a b : A} → Path (Result E A) (ok a) (ok b) → a ≡ b
ok-injective h = cc

collect-cons {ℓ ι} :
    {A : Type ℓ} {B : Type ι} (f : A → Result Refusal B) (x : A) (xs : List A) (ys : List B)
    → collect f (x ∷ xs) ≡ ok ys
    → (y : B) × (zs : List B) × (f x ≡ ok y) × (collect f xs ≡ ok zs) × (y ∷ zs ≡ ys)
unfolding collect
collect-cons f x xs ys h =
    let first = >>=-eq-ok (f x) _ h in
    let rest = >>=-eq-ok (collect f xs) _ first.2 in
    (first.0, rest.0, first.1, rest.1, ok-injective rest.2)

pub collect-named :
    (f : Fields → Result Refusal (String × String)) (k : String × String → String) (key : String)
    → ((m : Fields) (p : String × String) → f m ≡ ok p → read key m ≡ text (k p))
    → (ms : List Fields) (ps : List (String × String)) → collect f ms ≡ ok ps
    → map k ps ≡ named key ms
unfolding named add_text collect
collect-named f k key step [] ps h = sym (ap (map k) (ok-injective h))
collect-named f k key step (m ∷ ms) ps h =
    let (p, rest, first, later, whole) = collect-cons f m ms ps h in
    sym (ap (map k) whole)
    ∙ ap (◌∷◌ (k p)) (collect-named f k key step ms rest later)
    ∙ sym (ap (λ v. add_text v (named key ms)) (step m p first))

-- Each element of the list passes the check.
pub collect-Every {ι} :
    {B : Type ι} (f : Fields → Result Refusal B) (P : Fields → Type 0)
    → ((m : Fields) (p : B) → f m ≡ ok p → P m)
    → (ms : List Fields) (ps : List B) → collect f ms ≡ ok ps
    → Every P ms
collect-Every f P step [] ps h = tt
collect-Every f P step (m ∷ ms) ps h =
    let (p, rest, first, later, whole) = collect-cons f m ms ps h in
    (step m p first, collect-Every f P step ms rest later)

collect-as_mapping :
    (vs : Items) (ms : List Fields) → collect as_mapping (elements vs) ≡ ok ms → mappings_of vs ≡ ms
unfolding collect elements mappings_of as_mapping
collect-as_mapping nil ms h = ok-injective h
collect-as_mapping (cons (object m) vs) ms h =
    let (p, rest, first, later, whole) = collect-cons as_mapping (object m) (elements vs) ms h in
    rw (collect-as_mapping vs rest later) (ap (λ x. x ∷ rest) (ok-injective first) ∙ whole)
collect-as_mapping (cons null vs) ms h = absurd (cc h)
collect-as_mapping (cons (text _) vs) ms h = absurd (cc h)
collect-as_mapping (cons (literal _) vs) ms h = absurd (cc h)
collect-as_mapping (cons (foreign _) vs) ms h = absurd (cc h)
collect-as_mapping (cons (array _) vs) ms h = absurd (cc h)

object_list-mapping_values :
    (v : Json) (ms : List Fields) → object_list_of v ≡ ok ms → mapping_values v ≡ ms
unfolding object_list_of mapping_values elements
object_list-mapping_values (array (cons v vs)) ms h = collect-as_mapping (cons v vs) ms h
object_list-mapping_values (array nil) ms h = absurd (cc h)
object_list-mapping_values null ms h = absurd (cc h)
object_list-mapping_values (text _) ms h = absurd (cc h)
object_list-mapping_values (literal _) ms h = absurd (cc h)
object_list-mapping_values (foreign _) ms h = absurd (cc h)
object_list-mapping_values (object _) ms h = absurd (cc h)

pub required_object_list-mapping_values :
    (m : Fields) (name : String) (ms : List Fields)
    → required_object_list m name ≡ ok ms
    → mapping_values (read name m) ≡ ms
unfolding required_object_list object_list_of
required_object_list-mapping_values m name ms h = object_list-mapping_values (read name m) ms h

module _ (lib : Library) where
  pub require-text : (v : Json) (t : String) → non_empty_string lib v ≡ ok t → v ≡ text t
  unfolding non_empty_string
  require-text (text s) t h =
      let checked =
        >>=-eq-ok (raise_if (lib.strip s == "") (value_error "must be a non-empty string")) _ h in
      ap text (ok-injective checked.2)
  require-text null t h = absurd (cc h)
  require-text (literal _) t h = absurd (cc h)
  require-text (foreign _) t h = absurd (cc h)
  require-text (array _) t h = absurd (cc h)
  require-text (object _) t h = absurd (cc h)

  collect-strings :
      (vs : Items) (ts : List String)
      → collect (non_empty_string lib) (elements vs) ≡ ok ts
      → strings_of vs ≡ ts
  unfolding strings_of elements collect
  collect-strings nil ts h = ok-injective h
  collect-strings (cons v vs) ts h =
      let (t, rest, first, later, whole) =
        collect-cons (non_empty_string lib) v (elements vs) ts h in
      subst (λ x. strings_of (cons x vs) ≡ ts) (sym (require-text v t first))
        (rw (collect-strings vs rest later) whole)

  pub string_list-string_values :
      (b : Bool) (v : Json) (ts : List String)
      → string_list_of lib b v ≡ ok ts
      → string_values v ≡ ts
  unfolding string_list_of string_values strings_of
  string_list-string_values true (array nil) ts h = ok-injective h
  string_list-string_values false (array nil) ts h = absurd (cc h)
  string_list-string_values b (array (cons v vs)) ts h =
      let listed = >>=-eq-ok (collect (non_empty_string lib) (elements (cons v vs))) _ h in
      let single = >>=-eq-ok (reject_duplicates listed.0) _ listed.2 in
      collect-strings (cons v vs) listed.0 listed.1 ∙ ok-injective single.2
  string_list-string_values b null ts h = absurd (cc h)
  string_list-string_values b (text _) ts h = absurd (cc h)
  string_list-string_values b (literal _) ts h = absurd (cc h)
  string_list-string_values b (foreign _) ts h = absurd (cc h)
  string_list-string_values b (object _) ts h = absurd (cc h)
