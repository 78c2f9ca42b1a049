-- ===== src/RemotePolicy/SourceRef.antt =====
-- Source references of src/shared_mind/remote_policy.py: `_source_ref_is_safe`,
-- `_validate_source_root`, and the label and the scope that a reference falls under.
use shared_mind.Base.{
  ℕ, zero, suc, String, Bool, true, false, not, ◌&&◌, ◌||◌, Option, none, some, List, [], ◌∷◌, ◌==◌,
  ltb, if◌then◌else◌, sorted, Result, err, raise_if, starts_with, after_first, split_on, has_char,
  text_length,
}
use shared_mind.Kernel.Json.{Fields}
use shared_mind.RemotePolicy.Values.{
  Library, Url, Refusal, value_error, read, string_or_none, string_values, mapping_values,
}

-- all(segment not in (".", "..") for segment in segments)
unfoldable pub plain_segments : List String → Bool
plain_segments [] = true
plain_segments (x ∷ xs) = not (x == "." || x == "..") && plain_segments xs

-- path_part
unfoldable pub path_part : String → String
unfolding after_first
path_part s = elim (after_first "://" s) [ none ↦ s | some rest ↦ rest ]

-- What follows the loop of `_source_ref_is_safe`; none where the loop has run out of rounds.
unfoldable pub is_safe_text : Option String → Bool
unfolding plain_segments path_part split_on has_char
is_safe_text none = false
is_safe_text (some normalized) =
    not (has_char b'\\' normalized) && plain_segments (split_on b'/' (path_part normalized))

-- any(source_ref.startswith(root) for root in roots)
unfoldable pub below_any : String → List String → Bool
unfolding starts_with
below_any ref [] = false
below_any ref (root ∷ roots) = starts_with root ref || below_any ref roots

-- What a source label says of a reference.
pub record Label : Type 0 where
  pub source_root : Option String
  pub sensitivity : Option String
  pub data_classes : List String

abbrev pub no_label : Label
no_label = record { source_root = none; sensitivity = none; data_classes = [] }

unfoldable pub add_match :
    String → Fields → Option String → List (String × Fields) → List (String × Fields)
unfolding starts_with
add_match ref label none rest = rest
add_match ref label (some root) rest = if starts_with root ref then (root, label) ∷ rest else rest

-- [label for label in labels if ... source_ref.startswith(label["source_root"])], with the roots
unfoldable pub matching_labels : String → List Fields → List (String × Fields)
unfolding add_match string_or_none read
matching_labels ref [] = []
matching_labels ref (label ∷ labels) =
    add_match ref label (string_or_none (read "source_root" label)) (matching_labels ref labels)

-- max(matches, key=lambda item: len(item["source_root"])): the first of the longest
unfoldable pub longest : String × Fields → List (String × Fields) → String × Fields
unfolding text_length
longest best [] = best
longest best (x ∷ xs) = longest (if ltb (text_length best.0) (text_length x.0) then x else best) xs

-- the label of the selected match, and no label where nothing matches
unfoldable pub label_of : List (String × Fields) → Label
unfolding longest string_or_none string_values read sorted
label_of [] = no_label
label_of (x ∷ xs) =
    let selected = longest x xs in
    record {
      source_root = some selected.0;
      sensitivity = string_or_none (read "sensitivity" selected.1);
      data_classes = sorted (string_values (read "data_classes" selected.1));
    }

-- path.endswith("/")
unfoldable pub ends_with_slash : String → Bool
ends_with_slash String.[] = false
ends_with_slash (String.◌∷◌ c s) = String.◌∷◌ c s == "/" || ends_with_slash s

module _ (lib : Library) where
  -- The loop over at most `rounds` decodings; none where the text still changes after the last.
  unfoldable pub decoded : ℕ → String → Option String
  decoded zero s = none
  decoded (suc rounds) s =
      let rest = decoded rounds (lib.unquote s) in if lib.unquote s == s then some s else rest

  unfoldable pub source_ref_is_safe : String → Bool
  unfolding decoded is_safe_text
  source_ref_is_safe ref = is_safe_text (decoded 8 ref)

  -- path.startswith("/") and path.endswith("/")
  abbrev pub is_absolute : Url → Bool
  is_absolute url = starts_with "/" url.path && ends_with_slash url.path

  -- The checks on a parsed root; none where urlsplit has raised.
  unfoldable pub check_url : String → Option Url → Result Refusal (Unit {0})
  unfolding source_ref_is_safe
  check_url root none = err (value_error "not a url")
  check_url root (some url) =
      raise_if
        (url.scheme == ""
          || url.netloc == ""
          || not (is_absolute url)
          || not (url.query == "")
          || not (url.fragment == "")
          || not (source_ref_is_safe root))
        (value_error "must be an absolute, slash-terminated safe source root")

  unfoldable pub validate_source_root : String → Result Refusal (Unit {0})
  unfolding check_url
  validate_source_root root = check_url root (lib.urlsplit root)

  unfoldable pub source_is_allowed : Fields → Option String → Bool
  unfolding source_ref_is_safe below_any string_values read
  source_is_allowed scope none = false
  source_is_allowed scope (some ref) =
      source_ref_is_safe ref && below_any ref (string_values (read "source_roots" scope))

  unfoldable pub source_label : Fields → Option String → Label
  unfolding source_ref_is_safe matching_labels label_of mapping_values read
  source_label document none = no_label
  source_label document (some ref) =
      if source_ref_is_safe ref
      then label_of (matching_labels ref (mapping_values (read "source_labels" document)))
      else no_label
