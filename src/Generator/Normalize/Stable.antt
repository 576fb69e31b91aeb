-- ===== src/Generator/Normalize/Stable.antt =====
-- tools/io_elements_gen.go: `normalize` leaves a definition alone that it has normalized.
use teltonika.Prelude.{ℕ, ◌<◌, ◌^◌, ◌≡◌, refl, arith, inl, inr, true, false, ◌==◌, Bool-cases}
use teltonika.Prelude.Int.{ℤ}
use teltonika.IoElements.{Text, same_text, IoElementDefinition}
use teltonika.Generator.{Float, same_int, slice_any}
use teltonika.Generator.Normalize.{
  is_among, quads, flags, unlimited, limited, doubled, long_minutes, minutes, normal_units,
  normal_type, shorter, limits, is_doubled, normal_max, normal_bytes, normalize,
}

normal_type_twice : (id type : ℕ) → normal_type id (normal_type id type) ≡ normal_type id type
unfolding normal_type
normal_type_twice id type = ground arith

normal_units_twice :
    (to_lower : Text → Text) (id : ℕ) (units : Text)
    → same_text (to_lower minutes) long_minutes ≡ false
    → normal_units to_lower id (normal_units to_lower id units) ≡ normal_units to_lower id units
unfolding normal_units same_text
normal_units_twice to_lower id units h = ground arith

-- The numbers of a later correction of an earlier one.
limited-unlimited : (id : ℕ) → is_among unlimited id ≡ false → is_among limited id ≡ false
unfolding is_among slice_any
limited-unlimited id h = ground arith

doubled-quads : (id : ℕ) → is_among quads id ≡ false → is_among doubled id ≡ false
unfolding is_among slice_any
doubled-quads id h = ground arith

module _ (V : Type 0) ⦃fl : Float V⦄ where
  -- The literals of the source are compared as the numbers they are.
  abbrev pub IsExact : Type 0
  IsExact = (a b : ℕ) → a < 2 ^ 53 → b < 2 ^ 53 → fl.equal (fl.of_nat a) (fl.of_nat b) ≡ (a == b)

  -- A second correction of maximum and number of bytes changes nothing.
  abbrev IsStable : ℕ → Type 0
  IsStable id =
      (m : V) (n : ℤ)
      → (normal_max id (normal_max id m n) (normal_bytes id m n) ≡ normal_max id m n)
        × (normal_bytes id (normal_max id m n) (normal_bytes id m n) ≡ normal_bytes id m n)

  module _ (exact : IsExact) where
    flags-IsStable : (id : ℕ) → is_among flags id ≡ true → IsStable id
    unfolding normal_max normal_bytes is_doubled limits shorter is_among slice_any
    flags-IsStable id h m n = ground (arith, exact 0 1)

    unlimited-IsStable : (id : ℕ) → is_among unlimited id ≡ true → IsStable id
    unfolding normal_max normal_bytes is_doubled limits shorter is_among slice_any
    unlimited-IsStable id h m n = ground (arith, exact 0 65535, exact 32767 65535, exact 32767 0)

    quads-IsStable : (id : ℕ) → is_among quads id ≡ true → IsStable id
    unfolding normal_max normal_bytes is_doubled limits shorter is_among slice_any same_int
    quads-IsStable id h m n = ground (arith, exact 0 4294967295)

    others-IsStable :
        (id : ℕ)
        → is_among flags id ≡ false
        → is_among unlimited id ≡ false
        → is_among limited id ≡ false
        → is_among quads id ≡ false
        → is_among doubled id ≡ false
        → IsStable id
    unfolding normal_max normal_bytes is_doubled limits shorter same_int
    others-IsStable id a b c d e m n =
        ground (arith, exact 100 65535, exact 65535 6553, exact 16777215 1677215)

    corrections-IsStable : (id : ℕ) → IsStable id
    corrections-IsStable id = elim (Bool-cases (is_among flags id)) [
      | inl flag ↦ flags-IsStable id flag
      | inr a ↦ elim (Bool-cases (is_among unlimited id)) [
        | inl free ↦ unlimited-IsStable id free
        | inr b ↦ elim (Bool-cases (is_among quads id)) [
          | inl quad ↦ quads-IsStable id quad
          | inr c ↦ others-IsStable id a b (limited-unlimited id b) c (doubled-quads id c)
        ]
      ]
    ]

    -- Normalizing a definition that was normalized changes nothing: the corrections do not undo each
    -- other. The literals of the source are assumed to be compared as the whole numbers they are, and
    -- strings.ToLower not to turn "min." into "minutes".
    pub normalize_twice :
        (to_lower : Text → Text) (it : IoElementDefinition V)
        → same_text (to_lower minutes) long_minutes ≡ false
        → normalize to_lower (normalize to_lower it) ≡ normalize to_lower it
    unfolding normalize
    normalize_twice to_lower it h =
        let (max, bytes) = corrections-IsStable it.id it.max it.num_bytes in
        rw
          (
            max,
            bytes,
            normal_units_twice to_lower it.id it.units h,
            normal_type_twice it.id it.type,
          )
          refl
