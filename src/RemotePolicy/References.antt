-- ===== src/RemotePolicy/References.antt =====
-- What `_source_ref_is_safe` and `_source_label` of src/shared_mind/remote_policy.py promise of a
-- reference.
use shared_mind.Base.{
  ℕ, zero, suc, ◌<◌, String, true, false, ◌≡◌, refl, sym, subst, ap, ◌∙◌, Every, Option, none, some,
  List, [], ◌∷◌, arith, ◌↔◌, inl, inr, ◌==◌, eq_iff, Bool-cases, split_on, has_char,
}
use shared_mind.RemotePolicy.Values.{Library}
use shared_mind.RemotePolicy.SourceRef.{
  decoded, source_ref_is_safe, is_safe_text, plain_segments, path_part,
}

module _ (lib : Library) where
  -- The text after a number of decodings.
  abbrev pub decodings : ℕ → String → String
  decodings zero s = s
  decodings (suc k) s = decodings k (lib.unquote s)

  -- Decoding has come to an end.
  abbrev pub IsDecoded : String → Type 0
  IsDecoded s = lib.unquote s ≡ s

  decodings-IsDecoded : (k : ℕ) (s : String) → IsDecoded s → decodings k s ≡ s
  decodings-IsDecoded zero s h = refl
  decodings-IsDecoded (suc k) s h = ap (decodings k) h ∙ decodings-IsDecoded k s h

  decoded-some :
      (rounds : ℕ) (s t : String)
      → decoded lib rounds s ≡ some t
      → (k : ℕ) × (k < rounds) × (decodings k s ≡ t) × IsDecoded t
  unfolding decoded
  decoded-some zero s t h = absurd (ground (arith, h))
  decoded-some (suc rounds) s t h = elim (Bool-cases (lib.unquote s == s)) [
    | inl fixed ↦
        let same_text : Path String s t = ground (arith, h, fixed) in
        (0, omega arith, same_text, subst (λ u. lib.unquote u ≡ u) same_text ((eq_iff _ s).0 fixed))
    | inr moved ↦
        let rest = decoded-some rounds (lib.unquote s) t (ground (arith, h, moved)) in
        (suc rest.0, ground (arith, rest.1), rest.2, rest.3)
  ]

  decoded-fixed :
      (rounds k : ℕ) (s : String)
      → k < rounds
      → IsDecoded (decodings k s)
      → (t : String) × (decoded lib rounds s ≡ some t) × (t ≡ decodings k s)
  unfolding decoded
  decoded-fixed zero k s bound fixed = absurd (omega (arith, bound))
  decoded-fixed (suc rounds) zero s bound fixed =
      (s, ground (arith, eq_iff (lib.unquote s) s, fixed), refl)
  decoded-fixed (suc rounds) (suc k) s bound fixed =
      let rest = decoded-fixed rounds k (lib.unquote s) (omega (arith, bound)) fixed in
      elim (Bool-cases (lib.unquote s == s)) [
        | inl same_text ↦
            let stays = (eq_iff (lib.unquote s) s).0 same_text in
            (s, rw same_text refl, sym (ap (decodings k) stays ∙ decodings-IsDecoded k s stays))
        | inr moved ↦ (rest.0, ground (arith, moved, rest.1), rest.2)
      ]

  -- No segment steps to the same or to the parent directory.
  abbrev IsStep : String → Type 0
  IsStep segment = (segment == "." ≡ false) × (segment == ".." ≡ false)

  plain_segments-Every :
      (segments : List String) → (plain_segments segments ≡ true) ↔ Every IsStep segments
  unfolding plain_segments
  plain_segments-Every [] = (λ h. tt, λ h. refl)
  plain_segments-Every (x ∷ xs) = ground (arith, plain_segments-Every xs)

  -- A reference that is decoded within seven rounds to a text without backslashes and dot segments.
  abbrev pub IsSafe : String → Type 0
  IsSafe ref =
      (k : ℕ) × (k < 8)
      × IsDecoded (decodings k ref)
      × (has_char b'\\' (decodings k ref) ≡ false)
      × Every IsStep (split_on b'/' (path_part (decodings k ref)))

  safe_text :
      (o : Option String)
      → is_safe_text o ≡ true
      → (t : String) × (o ≡ some t)
        × (has_char b'\\' t ≡ false)
        × Every IsStep (split_on b'/' (path_part t))
  unfolding is_safe_text
  safe_text none h = absurd (ground (arith, h))
  safe_text (some t) h = (
    t,
    refl,
    ground (arith, h),
    (plain_segments-Every (split_on b'/' (path_part t))).0 (ground (arith, h)),
  )

  -- The test says exactly whether a reference is safe, on the eight rounds that it allows.
  pub source_ref_is_safe-IsSafe : (ref : String) → (source_ref_is_safe lib ref ≡ true) ↔ IsSafe ref
  unfolding source_ref_is_safe is_safe_text
  source_ref_is_safe-IsSafe ref = (to, from)
    where
      to : source_ref_is_safe lib ref ≡ true → IsSafe ref
      to h =
          let (t, found, slash, steps) = safe_text (decoded lib 8 ref) h in
          let (k, bound, reached, fixed) = decoded-some 8 ref t found in
          (
            k,
            bound,
            subst IsDecoded (sym reached) fixed,
            subst (λ u. has_char b'\\' u ≡ false) (sym reached) slash,
            subst (λ u. Every IsStep (split_on b'/' (path_part u))) (sym reached) steps,
          )

      from : IsSafe ref → source_ref_is_safe lib ref ≡ true
      from (k, bound, fixed, slash, steps) =
          let (t, found, reached) = decoded-fixed 8 k ref bound fixed in
          rw (found, reached, slash)
            ((plain_segments-Every (split_on b'/' (path_part (decodings k ref)))).1 steps)
