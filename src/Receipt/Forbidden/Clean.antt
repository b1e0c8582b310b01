-- ===== src/Receipt/Forbidden/Clean.antt =====
-- What passes the scan for forbidden fields.
use Prim.Native.String.{◌++◌}
use say_ur_intent.Prelude.{
  ℕ, suc, String, true, false, List, [], ◌∷◌, ◌≡◌, ◌↔◌, refl, arith, Bool-cases, inl, inr,
}
use say_ur_intent.Numeric.Text.{to_decimal}
use say_ur_intent.Receipt.Forbidden.{
  Json, null, boolean, number, text, array, object, Items, no_items, item, Fields, no_fields, field,
  is_forbidden_field_key, find_forbidden, find_in_items, find_in_fields, concat, is_empty,
  no_forbidden_fields,
}

-- No key at any depth is forbidden.
abbrev mutual
  pub IsClean : (String → String) → Json → Type 0
  IsClean lower (array items) = AreClean lower items
  IsClean lower (object fields) = HasCleanFields lower fields
  IsClean lower _ = Unit {0}

  pub AreClean : (String → String) → Items → Type 0
  AreClean lower no_items = Unit {0}
  AreClean lower (item value rest) = IsClean lower value × AreClean lower rest

  pub HasCleanFields : (String → String) → Fields → Type 0
  HasCleanFields lower no_fields = Unit {0}
  HasCleanFields lower (field key nested rest) =
      (is_forbidden_field_key lower (lower key) ≡ false)
      × IsClean lower nested
      × HasCleanFields lower rest

is_empty_iff : (xs : List String) → (is_empty xs ≡ true) ↔ (xs ≡ [])
is_empty_iff [] = ground arith
is_empty_iff (x ∷ xs) = ground arith

concat_nil : (xs ys : List String) → (concat xs ys ≡ []) ↔ ((xs ≡ []) × (ys ≡ []))
unfolding concat
concat_nil [] ys = ground arith
concat_nil (x ∷ xs) ys = ground arith

module _ (lower : String → String) where
  mutual
    unfolding find_forbidden

    find-IsClean : (v : Json) (path : String) → (find_forbidden lower v path ≡ []) ↔ IsClean lower v
    find-IsClean null path = (λ e. tt, λ c. refl)
    find-IsClean (boolean b) path = (λ e. tt, λ c. refl)
    find-IsClean (number n) path = (λ e. tt, λ c. refl)
    find-IsClean (text s) path = (λ e. tt, λ c. refl)
    find-IsClean (array items) path = items-AreClean items path 0
    find-IsClean (object fields) path = fields-HasCleanFields fields path

    items-AreClean :
        (items : Items) (path : String) (index : ℕ)
        → (find_in_items lower items path index ≡ []) ↔ AreClean lower items
    items-AreClean no_items path index = (λ e. tt, λ c. refl)
    items-AreClean (item value rest) path index =
        let at = path ++ "[" ++ to_decimal index ++ "]" in
        let this = find-IsClean value at in
        let others = items-AreClean rest path (suc index) in
        let both =
          concat_nil (find_forbidden lower value at) (find_in_items lower rest path (suc index)) in
        ground arith

    fields-HasCleanFields :
        (fields : Fields) (path : String)
        → (find_in_fields lower fields path ≡ []) ↔ HasCleanFields lower fields
    fields-HasCleanFields no_fields path = (λ e. tt, λ c. refl)
    fields-HasCleanFields (field key nested rest) path =
        let current = path ++ "." ++ key in
        let this = find-IsClean nested current in
        let others = fields-HasCleanFields rest path in
        elim (Bool-cases (is_forbidden_field_key lower (lower key))) [
          | inl bad ↦
              let both =
                concat_nil (concat (current ∷ []) (find_forbidden lower nested current))
                  (find_in_fields lower rest path) in
              let front = concat_nil (current ∷ []) (find_forbidden lower nested current) in
              ground arith
          | inr good ↦
              let both =
                concat_nil (concat [] (find_forbidden lower nested current))
                  (find_in_fields lower rest path) in
              ground arith
        ]

  -- A value passes the scan exactly where no key in it, at any depth, is forbidden.
  pub no_forbidden_fields-IsClean :
      (v : Json) → (no_forbidden_fields lower v ≡ true) ↔ IsClean lower v
  unfolding no_forbidden_fields
  no_forbidden_fields-IsClean v =
      let (empty, full) = is_empty_iff (find_forbidden lower v "$") in
      let (clean, unclean) = find-IsClean v "$" in (λ e. clean (empty e), λ c. full (unclean c))
