-- ===== src/Evidence/Document/Ranking.antt =====
-- The scan of a payload reaches the keys of every depth.
use oratoria_engine.Prelude.{
  ℕ, suc, String, Bool, true, false, ◌||◌, List, [], ◌∷◌, ◌++◌, All, ◌≡◌, ◌↔◌, refl, sym, ap, ◌∙◌,
  arith, if◌then◌else◌,
}
use oratoria_engine.Shared.Errors.{ok}
use oratoria_engine.Evidence.Document.{
  Node, Entries, Elements, Hop, leaf, mapping, sequence, no_entry, entry, no_element, element,
  at_key, at_index, is_forbidden, forbidden_keys_in, forbidden_in_entries, forbidden_in_elements,
  assert_carries_no_ranking, is_filled,
}

-- The keys of a payload, whatever their depth.
unfoldable mutual
  pub keys_of : Node → List String
  keys_of (leaf text) = []
  keys_of (mapping entries) = keys_of_entries entries
  keys_of (sequence elements) = keys_of_elements elements

  pub keys_of_entries : Entries → List String
  keys_of_entries no_entry = []
  keys_of_entries (entry key value rest) = key ∷ keys_of value ++ keys_of_entries rest

  pub keys_of_elements : Elements → List String
  keys_of_elements no_element = []
  keys_of_elements (element value rest) = keys_of value ++ keys_of_elements rest

-- Two lists are empty exactly when their concatenation is.
is_filled-append :
    {A : Type 0} (xs ys : List A) → is_filled (xs ++ ys) ≡ (is_filled xs || is_filled ys)
is_filled-append [] ys = refl
is_filled-append (x ∷ xs) ys = refl

-- An entry whose own key may be an offender.
filled_entry :
    (b : Bool) (p : List Hop) (xs ys : List (List Hop))
    → is_filled ((if b then p ∷ [] else []) ++ xs ++ ys) ≡ (b || (is_filled xs || is_filled ys))
filled_entry true p xs ys = refl
filled_entry false p xs ys = is_filled-append xs ys

module _ (lower : String → String) where
  abbrev some_forbidden : List String → Bool
  some_forbidden [] = false
  some_forbidden (k ∷ ks) = is_forbidden lower k || some_forbidden ks

  some_forbidden-append :
      (xs ys : List String) → some_forbidden (xs ++ ys) ≡ (some_forbidden xs || some_forbidden ys)
  some_forbidden-append [] ys = refl
  some_forbidden-append (x ∷ xs) ys = ground (arith, some_forbidden-append xs ys)

  mutual
    unfolding forbidden_keys_in keys_of

    found_in :
        (node : Node) (path : List Hop)
        → is_filled (forbidden_keys_in lower node path) ≡ some_forbidden (keys_of node)
    found_in (leaf text) path = refl
    found_in (mapping entries) path = found_in_entries entries path
    found_in (sequence elements) path = found_in_elements elements 0 path

    found_in_entries :
        (entries : Entries) (path : List Hop)
        → is_filled (forbidden_in_entries lower entries path)
          ≡ some_forbidden (keys_of_entries entries)
    found_in_entries no_entry path = refl
    found_in_entries (entry key value rest) path =
        let here = path ++ at_key key ∷ [] in
        filled_entry (is_forbidden lower key) here (forbidden_keys_in lower value here)
          (forbidden_in_entries lower rest path)
        ∙ ap (λ x. is_forbidden lower key || x)
            (rw (found_in value here, found_in_entries rest path)
              (sym (some_forbidden-append (keys_of value) (keys_of_entries rest))))

    found_in_elements :
        (elements : Elements) (index : ℕ) (path : List Hop)
        → is_filled (forbidden_in_elements lower elements index path)
          ≡ some_forbidden (keys_of_elements elements)
    found_in_elements no_element index path = refl
    found_in_elements (element value rest) index path =
        let here = path ++ at_index index ∷ [] in
        is_filled-append (forbidden_keys_in lower value here)
          (forbidden_in_elements lower rest (suc index) path)
        ∙ rw (found_in value here, found_in_elements rest (suc index) path)
            (sym (some_forbidden-append (keys_of value) (keys_of_elements rest)))

  none_forbidden_iff :
      (ks : List String) → (some_forbidden ks ≡ false) ↔ All (λ k. is_forbidden lower k ≡ false) ks
  none_forbidden_iff [] = (λ h. tt, λ h. refl)
  none_forbidden_iff (k ∷ ks) = (
    λ h. (ground arith, (none_forbidden_iff ks).0 (ground arith)),
    λ (h, hs). ground (arith, h, (none_forbidden_iff ks).1 hs),
  )

  -- A payload passes the check exactly when none of its keys, at whatever depth of mappings and sequences, is in
  -- lower case one of the forbidden ones.
  pub assert_carries_no_ranking_iff :
      (payload : Entries)
      → (assert_carries_no_ranking lower payload ≡ ok tt)
        ↔ All (λ k. is_forbidden lower k ≡ false) (keys_of (mapping payload))
  unfolding assert_carries_no_ranking
  assert_carries_no_ranking_iff payload =
      let found = found_in (mapping payload) [] in
      let allowed = none_forbidden_iff (keys_of (mapping payload)) in
      (λ h. allowed.0 (ground (arith, found)), λ h. ground (arith, found, allowed.1 h))
