-- ===== src/Kernel/Replay/Separation.antt =====
-- `_family_key` of src/shared_mind/kernel.py under registries whose family keys hold the predicate.
use shared_mind.Base.{
  String, ◌≡◌, refl, sym, subst, ◌∙◌, ◌⊎◌, inl, inr, some, List, [], ◌∷◌, map, arith,
}
use shared_mind.Documents.{Proposition, Predicate, Registry}
use shared_mind.Kernel.Json.{Json, text, proposition_json, walk}
use shared_mind.Kernel.Host.{Host, sha256_json, family_values}
use shared_mind.Kernel.Semantics.{predicate_of, family_key}
use shared_mind.Kernel.Replay.Families.{Separates}

-- `path` is one of the fields of a family key.
unfoldable pub Has : List String → List (List String) → Type 0
Has path [] = ⊥
Has path (p ∷ ps) = (p ≡ path) ⊎ Has path ps

-- Hashes of the values of family keys do not collide.
unfoldable pub IsCollisionFree : Host → Type 0
IsCollisionFree h =
    (xs ys : List Json)
    → sha256_json h (family_values xs) ≡ sha256_json h (family_values ys)
    → xs ≡ ys

map_at :
    (f g : List String → Json) (path : List String) (ps : List (List String))
    → Has path ps
    → map f ps ≡ map g ps
    → f path ≡ g path
unfolding Has
map_at f g path [] none_there q = absurd none_there
map_at f g path (p ∷ ps) (inl e) q = subst (λ x. f x ≡ g x) e (ground (arith, q))
map_at f g path (p ∷ ps) (inr later) q = map_at f g path ps later (ground (arith, q))

walk_predicate : (p : Proposition) → walk (proposition_json p) ("predicate" ∷ []) ≡ text p.predicate
unfolding walk proposition_json
walk_predicate p = refl

-- Where the family key of every predicate holds the field `predicate` and the hashes of family values
-- do not collide, two claims that share a family under the predicate of one share it under the
-- predicate of the other.
pub family_key-Separates :
    (h : Host) (reg : Registry)
    → IsCollisionFree h
    → ((key : String) (d : Predicate)
        → predicate_of reg key ≡ some d
        → Has ("predicate" ∷ []) d.family_key_fields)
    → Separates h reg
unfolding family_key IsCollisionFree
family_key-Separates h reg free has p q d e known known' same =
    let values = free _ _ same in
    let texts =
      map_at (walk (proposition_json q)) (walk (proposition_json p)) ("predicate" ∷ [])
        d.family_key_fields (has p.predicate d known) values in
    let same_text : text q.predicate ≡ text p.predicate =
      sym (walk_predicate q) ∙ texts ∙ walk_predicate p in
    let same_name : q.predicate ≡ p.predicate = ground (arith, same_text) in
    let one : d ≡ e = ground (arith, known, rw same_name at known') in
    subst (λ x. family_key h q x ≡ family_key h p d) one same
