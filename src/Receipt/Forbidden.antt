-- ===== src/Receipt/Forbidden.antt =====
-- The scan of a JSON value for fields that must not reach evidence or tool output:
-- src/core/action/forbiddenFields.ts. `lower` stands for JavaScript's `toLowerCase`.
pub mod Clean
use Prim.Native.Char.{code}
use Prim.Native.String.{◌++◌}
use say_ur_intent.Prelude.{
  ℕ, zero, suc, ◌+◌, String, Bool, true, false, ◌&&◌, ◌||◌, ◌==◌, eqb, if◌then◌else◌, List, [], ◌∷◌,
  ◌≡◌, ◌↔◌, refl, arith, Bool-cases, inl, inr,
}
use say_ur_intent.Numeric.Text.{to_decimal}

mutual
  pub data Json : Type 0 where
    null : Json
    boolean : Bool → Json
    number : ℕ → Json
    text : String → Json
    array : Items → Json
    object : Fields → Json

  pub data Items : Type 0 where
    no_items : Items
    item : Json → Items → Items

  pub data Fields : Type 0 where
    no_fields : Fields
    field : String → Json → Fields → Fields

-- `startsWith` and `endsWith`.
unfoldable pub starts_with : String → String → Bool
starts_with s String.[] = true
starts_with String.[] (String.◌∷◌ t term) = false
starts_with (String.◌∷◌ c s) (String.◌∷◌ t term) = eqb (code c) (code t) && starts_with s term

unfoldable pub ends_with : String → String → Bool
ends_with String.[] term = String.[] == term
ends_with (String.◌∷◌ c s) term = String.◌∷◌ c s == term || ends_with s term

-- `normalized === term || normalized.endsWith(term)` for some term, and with `startsWith`.
unfoldable pub any_edge : String → List String → Bool
unfolding ends_with
any_edge key [] = false
any_edge key (term ∷ terms) = key == term || ends_with key term || any_edge key terms

unfoldable pub any_prefix_or_suffix : String → List String → Bool
unfolding starts_with ends_with
any_prefix_or_suffix key [] = false
any_prefix_or_suffix key (term ∷ terms) =
    key == term || starts_with key term || ends_with key term || any_prefix_or_suffix key terms

abbrev pub forbidden_edge_terms : List String
forbidden_edge_terms =
    "bytes" ∷ "signature" ∷ "sessiontoken" ∷ "reviewtoken" ∷ "wallettoken" ∷ "fragmenttoken"
    ∷ "tokenhash" ∷ "privatekey" ∷ "secretkey" ∷ "seed" ∷ "mnemonic" ∷ []

abbrev pub forbidden_prefix_or_suffix_terms : List String
forbidden_prefix_or_suffix_terms = "serialized" ∷ "signable" ∷ []

unfoldable pub is_forbidden_field_key : (String → String) → String → Bool
unfolding any_edge any_prefix_or_suffix
is_forbidden_field_key lower key =
    any_edge (lower key) forbidden_edge_terms
    || any_prefix_or_suffix (lower key) forbidden_prefix_or_suffix_terms

unfoldable pub concat : List String → List String → List String
concat [] ys = ys
concat (x ∷ xs) ys = x ∷ concat xs ys

-- `findForbiddenMcpFields`: the paths of the forbidden fields, in order.
unfoldable mutual
  unfolding concat

  pub find_forbidden : (String → String) → Json → String → List String
  find_forbidden lower (array items) path = find_in_items lower items path 0
  find_forbidden lower (object fields) path = find_in_fields lower fields path
  find_forbidden lower _ path = []

  pub find_in_items : (String → String) → Items → String → ℕ → List String
  find_in_items lower no_items path index = []
  find_in_items lower (item value rest) path index =
      concat (find_forbidden lower value (path ++ "[" ++ to_decimal index ++ "]"))
        (find_in_items lower rest path (suc index))

  pub find_in_fields : (String → String) → Fields → String → List String
  find_in_fields lower no_fields path = []
  find_in_fields lower (field key nested rest) path =
      let current = path ++ "." ++ key in
      let here = if is_forbidden_field_key lower (lower key) then current ∷ [] else [] in
      concat (concat here (find_forbidden lower nested current)) (find_in_fields lower rest path)

abbrev pub is_empty : List String → Bool
is_empty [] = true
is_empty (x ∷ xs) = false

-- `assertNoForbiddenMcpFields`: whether it passes.
unfoldable pub no_forbidden_fields : (String → String) → Json → Bool
no_forbidden_fields lower value = is_empty (find_forbidden lower value "$")
