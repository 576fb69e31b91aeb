-- ===== src/Generator/Rows/Models.antt =====
-- tools/io_elements_gen.go: what the definitions of a row say of their number and their models.
use teltonika.Prelude.{
  ◌<◌, ◌≡◌, refl, inl, inr, true, Option, none, some, List, [], ◌∷◌, All, Bool-cases, Result, ok,
  err, panic,
}
use teltonika.Prelude.Int.{ℤ, to_unsigned_lt_16}
use teltonika.IoElements.{Text, IoElementDefinition}
use teltonika.IoElements.Lookup.{Among}
use teltonika.Generator.{Float}
use teltonika.Generator.Slices.{unique-IsOnce}
use teltonika.Generator.Normalize.{normalize}
use teltonika.Generator.Rows.{
  Library, Scanner, first_port, second_port, is_prefix, split_behind, remove_all, nonempty,
  row_models, with_id, port_id, both_ports, numbered, row_definition, numbered_row, row_groups,
  parse_table_row,
}

module _ {V : Type 0} where
  -- The number fits a uint16, and the model is one of the supported ones.
  abbrev pub IsOf : Text → IoElementDefinition V → Type 0
  IsOf model d = (d.id < 65536) × Among model d.supported_models

  -- A row with this number was read: no definitions, or such as are of the model; a panic is only
  -- possible for the number of two ports.
  abbrev pub IsRead : Text → Text → Result (Option (List (IoElementDefinition V))) → Type 0
  IsRead model raw_id (ok none) = Unit {0}
  IsRead model raw_id (ok (some ds)) = All (IsOf model) ds
  IsRead model raw_id (err e) = Unit {0}
  IsRead model raw_id panic = is_prefix first_port raw_id ≡ true

module _ ⦃lib : Library⦄ {V : Type 0} ⦃fl : Float V⦄ (model : Text) where
  with_id-IsOf :
      (def : IoElementDefinition V) (name : Text) (id : ℤ)
      → Among model def.supported_models
      → IsOf model (with_id def name id)
  unfolding with_id normalize
  with_id-IsOf def name id h = (to_unsigned_lt_16 id, h)

  both_ports-IsRead :
      (raw_id : Text) (def : IoElementDefinition V) (ids : List Text)
      → is_prefix first_port raw_id ≡ true
      → Among model def.supported_models
      → IsRead model raw_id (both_ports def ids)
  unfolding both_ports
  both_ports-IsRead raw_id def [] e h = e
  both_ports-IsRead raw_id def (id1 ∷ []) e h = e
  both_ports-IsRead raw_id def (id1 ∷ id2 ∷ more) e h =
      (with_id-IsOf def _ (port_id id1) h, (with_id-IsOf def _ (port_id id2) h, tt))

  numbered-IsRead :
      (raw_id : Text) (def : IoElementDefinition V)
      → Among model def.supported_models
      → IsRead model raw_id (numbered raw_id def)
  unfolding numbered
  numbered-IsRead raw_id def h = elim (Bool-cases (is_prefix first_port raw_id)) [
    | inl ports ↦ rw ports (
        both_ports-IsRead raw_id def (split_behind second_port 0 (remove_all first_port raw_id))
          ports h)
    | inr one ↦ rw one (with_id-IsOf def def.name (lib.atoi raw_id) h, tt)
  ]

  numbered_row-IsRead :
      (raw_id name raw_bytes raw_type units description : Text) (models groups : List Text)
      (min max multiplier : Option V)
      → Among model models
      → IsRead model raw_id (
          numbered_row raw_id (
            row_definition name raw_bytes raw_type units description models groups min max
              multiplier))
  unfolding numbered_row row_definition
  numbered_row-IsRead raw_id name bytes type units desc models groups (some min) (some max)
        (some mult) h =
      numbered-IsRead raw_id _ h
  numbered_row-IsRead raw_id name bytes type units desc models groups (some min) (some max) none h =
      tt
  numbered_row-IsRead raw_id name bytes type units desc models groups (some min) none mult h = tt
  numbered_row-IsRead raw_id name bytes type units desc models groups none max mult h = tt

module _ ⦃lib : Library⦄ (V : Type 0) ⦃fl : Float V⦄ ⦃sn : Scanner V⦄ where
  -- The definitions that `parseTableRow` makes of a row with at least nine cells have numbers of 16
  -- bits, and the model of the page among their models; it panics on no row but one whose number
  -- starts with "COM1". Sort is assumed to keep the elements.
  parse_table_row-IsRead :
      (model id name bytes type min max mult units desc : Text) (more links : List Text)
      → ((xs : List Text) (y : Text) → Among y xs → Among y (lib.sort xs))
      → IsRead {V = V} model id (
          parse_table_row model
            (id ∷ name ∷ bytes ∷ type ∷ min ∷ max ∷ mult ∷ units ∷ desc ∷ more)
            links)
  unfolding parse_table_row row_models
  parse_table_row-IsRead model id name bytes type min max mult units desc more links keeps =
      numbered_row-IsRead model id name bytes type units desc (row_models model links)
        (row_groups more) _ _ _
        (keeps _ model (((unique-IsOnce (model ∷ nonempty links)).1 model).1 (inl refl)))
