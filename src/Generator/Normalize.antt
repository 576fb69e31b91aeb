-- ===== src/Generator/Normalize.antt =====
-- tools/io_elements_gen.go: `normalize`, the corrections of definitions that the pages have wrong.
pub mod Stable
use teltonika.Prelude.{ℕ, Bool, true, false, ◌&&◌, ◌||◌, List, [], ◌∷◌, ◌==◌, if◌then◌else◌}
use teltonika.Prelude.Int.{ℤ, pos}
use teltonika.IoElements.{Text, same_text, IoElementDefinition, element_unsigned, element_ascii}
use teltonika.Generator.{Float, same_int, slice_any}

-- `sliceAny` over a list of numbers.
unfoldable pub is_among : List ℕ → ℕ → Bool
is_among ids id = slice_any ids (λ i. i == id)

abbrev pub quads : List ℕ
quads =
    478 ∷ 477 ∷ 476 ∷ 475 ∷ 474 ∷ 473 ∷ 472 ∷ 471 ∷ 470 ∷ 469 ∷ 468 ∷ 467 ∷ 466 ∷ 465 ∷ 464 ∷ 463
    ∷ []

abbrev pub flags : List ℕ
flags = 10812 ∷ 10813 ∷ 10814 ∷ 10815 ∷ []

abbrev pub unlimited : List ℕ
unlimited = 10824 ∷ 10825 ∷ 10826 ∷ 10827 ∷ 10836 ∷ 10837 ∷ 10838 ∷ 10839 ∷ []

abbrev pub limited : List ℕ
limited = 10839 ∷ 10838 ∷ 10837 ∷ 10836 ∷ 10839 ∷ 10838 ∷ 10837 ∷ 10836 ∷ []

abbrev pub doubled : List ℕ
doubled = 463 ∷ 467 ∷ 471 ∷ 475 ∷ []

abbrev pub millivolts : Text
millivolts = b'm' ∷ b'V' ∷ []

abbrev pub volts : Text
volts = b'V' ∷ []

abbrev pub minus_millilitres : Text
minus_millilitres = b'-' ∷ b'm' ∷ b'l' ∷ []

abbrev pub millilitres : Text
millilitres = b'm' ∷ b'l' ∷ []

abbrev pub bit_field : Text
bit_field =
    b'e' ∷ b'n' ∷ b'u' ∷ b'm' ∷ b' ' ∷ b'(' ∷ b'b' ∷ b'i' ∷ b't' ∷ b' ' ∷ b'f' ∷ b'i' ∷ b'e' ∷ b'l'
    ∷ b'd' ∷ b')' ∷ []

abbrev pub string_units : Text
string_units = b'S' ∷ b't' ∷ b'r' ∷ b'i' ∷ b'n' ∷ b'g' ∷ []

abbrev pub long_minutes : Text
long_minutes = b'm' ∷ b'i' ∷ b'n' ∷ b'u' ∷ b't' ∷ b'e' ∷ b's' ∷ []

abbrev pub minutes : Text
minutes = b'm' ∷ b'i' ∷ b'n' ∷ b'.' ∷ []

-- The corrections of each field, in the order of the source; strings.ToLower is a parameter.
unfoldable pub normal_units : (Text → Text) → ℕ → Text → Text
normal_units to_lower id units =
    let u₁ = if (id == 9 || id == 6) && same_text units millivolts then volts else units in
    let u₂ = if same_text u₁ minus_millilitres then millilitres else u₁ in
    let u₃ = if same_text u₂ bit_field || same_text u₂ string_units then [] else u₂ in
    if same_text (to_lower u₃) long_minutes then minutes else u₃

unfoldable pub normal_type : ℕ → ℕ → ℕ
normal_type id type = if id == 30 && type == element_ascii then element_unsigned else type

unfoldable pub shorter : ℕ → ℤ → ℤ
shorter id n =
    let n₁ =
      if (id == 278 || id == 275 || id == 272 || id == 269) && same_int n (pos 2)
      then pos 1
      else n in
    if is_among quads id && same_int n₁ (pos 8) then pos 4 else n₁

module _ {V : Type 0} ⦃fl : Float V⦄ where
  abbrev pub is_number : V → ℕ → Bool
  is_number x n = fl.equal x (fl.of_nat n)

  unfoldable pub limits : ℕ → V → V
  limits id max =
      let m₁ = if id == 89 && is_number max 65535 then fl.of_nat 100 else max in
      let m₂ = if id == 168 && is_number m₁ 6553 then fl.of_nat 65535 else m₁ in
      let m₃ = if id == 103 && is_number m₂ 1677215 then fl.of_nat 16777215 else m₂ in
      let m₄ = if is_among flags id && is_number m₃ 1 then fl.of_nat 0 else m₃ in
      let m₅ = if is_among unlimited id && is_number m₄ 65535 then fl.of_nat 0 else m₄ in
      if is_among limited id && is_number m₅ 0 then fl.of_nat 32767 else m₅

  -- The test of the last correction, which sets both the maximum and the number of bytes.
  unfoldable pub is_doubled : ℕ → V → ℤ → Bool
  is_doubled id max n = is_among doubled id && is_number max 4294967295 && same_int n (pos 256)

  unfoldable pub normal_max : ℕ → V → ℤ → V
  normal_max id max n =
      if is_doubled id (limits id max) (shorter id n) then fl.of_nat 0 else limits id max

  unfoldable pub normal_bytes : ℕ → V → ℤ → ℤ
  normal_bytes id max n =
      if is_doubled id (limits id max) (shorter id n) then pos 2 else shorter id n

  unfoldable pub normalize : (Text → Text) → IoElementDefinition V → IoElementDefinition V
  normalize to_lower it = record it {
    units = normal_units to_lower it.id it.units;
    max = normal_max it.id it.max it.num_bytes;
    type = normal_type it.id it.type;
    num_bytes = normal_bytes it.id it.max it.num_bytes;
  }
