-- ===== src/Generator/Preferences.antt =====
-- tools/io_elements_gen.go: the comparisons of two definitions with the same number.
use teltonika.Prelude.{
  ℕ, ◌+◌, ◌≡◌, refl, Bool, true, false, ◌&&◌, not, Option, none, some, List, [], ltb, ◌==◌,
  if◌then◌else◌,
}
use teltonika.IoElements.{Text, same_text, IoElementDefinition}
use teltonika.Generator.{Preference, prefer_first, prefer_second, prefer_none, Float, same_int}

-- One of the three comparisons of `isDefinitionsEqualExceptMinMaxMultiplier`: whether the values
-- are equal, what is tested first, and whether the first has a value of its own; `none` is its
-- early return, and the numbers are what is added to the costs.
unfoldable pub field_costs : Bool → Bool → Bool → Option (ℕ × ℕ)
field_costs same both first_has =
    if not same
    then if both then none else if first_has then some (1, 0) else some (0, 1)
    else some (0, 0)

unfoldable pub add_costs : Option (ℕ × ℕ) → Option (ℕ × ℕ) → Option (ℕ × ℕ)
add_costs none d = none
add_costs (some c) none = none
add_costs (some (a, b)) (some (c, d)) = some (a + c, b + d)

unfoldable pub by_costs : Option (ℕ × ℕ) → Preference
by_costs none = prefer_none
by_costs (some (a, b)) =
    if a == b then prefer_none else if ltb b a then prefer_first else prefer_second

module _ {V : Type 0} ⦃fl : Float V⦄ where
  unfoldable pub is_definitions_equal_except_supported_models :
      IoElementDefinition V → IoElementDefinition V → Bool
  is_definitions_equal_except_supported_models a b =
      a.type == b.type
      && same_int a.num_bytes b.num_bytes
      && fl.equal a.multiplier b.multiplier
      && fl.equal a.min b.min
      && fl.equal a.max b.max
      && same_text a.units b.units

  unfoldable pub prefer_one_that_has_multiplier_and_max_and_min_and_description_and_units :
      IoElementDefinition V → IoElementDefinition V → Bool × Preference
  prefer_one_that_has_multiplier_and_max_and_min_and_description_and_units a b =
      let zero_max = λ (d : IoElementDefinition V). fl.equal d.max (fl.of_nat 0) in
      let bare = λ (d : IoElementDefinition V).
        zero_max d && same_text d.units [] && same_text d.description [] in
      let full = λ (d : IoElementDefinition V).
        not (zero_max d) && not (same_text d.units []) && not (same_text d.description []) in
      if not (a.type == b.type && same_int a.num_bytes b.num_bytes)
      then (false, prefer_none)
      else if full a && bare b
      then (true, prefer_first)
      else if full b && bare a
      then (true, prefer_second)
      else (false, prefer_none)

  -- The third test looks at the minimum of the first, as in the source.
  unfoldable pub all_costs : IoElementDefinition V → IoElementDefinition V → Option (ℕ × ℕ)
  all_costs a b =
      let has = λ (x : V) (n : ℕ). not (fl.equal x (fl.of_nat n)) in
      add_costs
        (add_costs
          (field_costs (fl.equal a.multiplier b.multiplier)
            (has a.multiplier 1 && has b.multiplier 1) (has a.multiplier 1))
          (field_costs (fl.equal a.min b.min) (has a.min 0 && has b.min 0) (has a.min 0)))
        (field_costs (fl.equal a.max b.max) (has a.min 0 && has b.max 0) (has a.max 0))

  -- go-cmp's Equal on lists of models.
  module _ (cmp_equal : List Text → List Text → Bool) where
    unfoldable pub is_definitions_equal : IoElementDefinition V → IoElementDefinition V → Bool
    is_definitions_equal a b =
        is_definitions_equal_except_supported_models a b
        && cmp_equal a.supported_models b.supported_models

    -- The test around the costs.
    unfoldable pub is_comparable : IoElementDefinition V → IoElementDefinition V → Bool
    is_comparable a b =
        a.type == b.type
        && same_int a.num_bytes b.num_bytes
        && same_text a.units b.units
        && cmp_equal a.supported_models b.supported_models

    unfoldable pub is_definitions_equal_except_min_max_multiplier :
        IoElementDefinition V → IoElementDefinition V → Bool × Preference
    is_definitions_equal_except_min_max_multiplier a b =
        if is_comparable a b then (true, by_costs (all_costs a b)) else (false, prefer_none)

    -- Two definitions that can be compared and have the same multiplier and minimum, which is not 0;
    -- the first has no maximum, the second has one.
    pub record DifferInMax (a b : IoElementDefinition V) : Type 0 where
      pub comparable : is_comparable a b ≡ true
      pub comparable_back : is_comparable b a ≡ true
      pub multiplier : fl.equal a.multiplier b.multiplier ≡ true
      pub multiplier_back : fl.equal b.multiplier a.multiplier ≡ true
      pub min : fl.equal a.min b.min ≡ true
      pub min_back : fl.equal b.min a.min ≡ true
      pub max : fl.equal a.max b.max ≡ false
      pub max_back : fl.equal b.max a.max ≡ false
      pub first_min : fl.equal a.min (fl.of_nat 0) ≡ false
      pub second_min : fl.equal b.min (fl.of_nat 0) ≡ false
      pub first_max : fl.equal a.max (fl.of_nat 0) ≡ true
      pub second_max : fl.equal b.max (fl.of_nat 0) ≡ false

    -- Of two definitions that differ in the maximum alone, which only the second has, while both have
    -- the same minimum, which is not 0, the one with the maximum is preferred if it is passed first,
    -- and none if it is passed second: the preference depends on the order of the arguments.
    is_definitions_equal_except_min_max_multiplier_order :
        (a b : IoElementDefinition V)
        → DifferInMax a b
        → (is_definitions_equal_except_min_max_multiplier b a ≡ (true, prefer_first))
          × (is_definitions_equal_except_min_max_multiplier a b ≡ (true, prefer_none))
    unfolding is_definitions_equal_except_min_max_multiplier all_costs field_costs add_costs
        by_costs
    is_definitions_equal_except_min_max_multiplier_order a b h = (
      rw
          (
            h.comparable_back, h.multiplier_back, h.min_back, h.max_back, h.second_min, h.first_max,
            h.second_max,
          )
          refl,
      rw (h.comparable, h.multiplier, h.min, h.max, h.first_min, h.second_max) refl,
    )
