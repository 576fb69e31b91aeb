-- ===== src/Tests/Elements.antt =====
-- The theorems on I/O elements, at concrete definitions.
use teltonika.Prelude.{zero, suc, ◌≡◌, refl, arith, true, false, inl, inr, List, [], ◌∷◌, ok}
use teltonika.Prelude.Int.{ℤ, pos, negsuc, to_unsigned}
use teltonika.IoElements.{
  Number, IoElementDefinition, int64, element_unsigned, element_signed, any_model, new_decoder,
  find_definition, get_element_info, decode_by_definition, same_text, supports, add_model,
  add_models, all_models,
}
use teltonika.IoElements.Lookup.{IsFound, get_element_info-IsFound, get_element_info-finds}
use teltonika.IoElements.Values.{big_endian, two_bytes, decode_by_definition-int64}

-- Whole numbers in place of float64.
instance abbrev pub whole : Number ℤ
whole = record {
  of_unsigned = λ n. pos n;
  of_signed = λ z. z;
  times = λ a b. a;
  is_zero = λ z. elim z [ pos zero ↦ true | pos (suc n) ↦ false | negsuc n ↦ false ];
  is_one = λ z. elim z [
    | pos zero ↦ false
    | pos (suc zero) ↦ true
    | pos (suc (suc n)) ↦ false
    | negsuc n ↦ false
  ];
}

abbrev axis_x : IoElementDefinition ℤ
axis_x = record {
  id = 17;
  name = b'X' ∷ [];
  num_bytes = pos 2;
  type = element_signed;
  min = negsuc 7999;
  max = pos 8000;
  multiplier = pos 1;
  units = [];
  description = [];
  supported_models = (b'F' ∷ b'M' ∷ []) ∷ [];
  groups = [];
}

abbrev speed : IoElementDefinition ℤ
speed = record axis_x { id = 24; type = element_unsigned; min = pos 0; max = pos 350 }

abbrev pub all_definitions : List (IoElementDefinition ℤ)
all_definitions = axis_x ∷ speed ∷ []

lookup_speed : get_element_info (new_decoder all_definitions) (b'F' ∷ b'M' ∷ []) 24 ≡ ok speed
unfolding get_element_info new_decoder find_definition same_text supports add_model add_models
    all_models
lookup_speed = refl

get_element_info-IsFound_example : IsFound (b'F' ∷ b'M' ∷ []) 24 all_definitions speed
get_element_info-IsFound_example =
    get_element_info-IsFound all_definitions (b'F' ∷ b'M' ∷ []) 24 speed lookup_speed

get_element_info-finds_example :
    (d : IoElementDefinition ℤ) × (get_element_info (new_decoder all_definitions) any_model 24
      ≡ ok d)
get_element_info-finds_example =
    get_element_info-finds all_definitions any_model 24 speed (inr (inl refl)) refl (inl refl)

decode_by_definition-int64_example :
    decode_by_definition axis_x (big_endian 2 (to_unsigned 32768 (negsuc 41)))
    ≡ ok (record { id = 17; value = int64 (negsuc 41); definition = axis_x })
decode_by_definition-int64_example =
    decode_by_definition-int64 axis_x 2 32768 (negsuc 41) two_bytes (omega arith) refl refl
