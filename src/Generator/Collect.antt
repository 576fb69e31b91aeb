-- ===== src/Generator/Collect.antt =====
-- tools/io_elements_gen.go: `collectDefinitionsNetwork`, which takes in one definition after another.
pub mod Replacing
use teltonika.Prelude.{
  ℕ, zero, suc, ◌+◌, Bool, true, false, ◌&&◌, not, List, [], ◌∷◌, ◌++◌, length, take, drop, leb,
  ◌==◌, if◌then◌else◌, Result, ok, panic, and_then,
}
use teltonika.IoElements.{Text, IoElementDefinition}
use teltonika.Generator.{
  Preference, prefer_first, prefer_second, prefer_none, Float, overlap, contains_all, unique,
}
use teltonika.Generator.Preferences.{
  is_definitions_equal_except_supported_models,
  prefer_one_that_has_multiplier_and_max_and_min_and_description_and_units, is_definitions_equal,
  is_definitions_equal_except_min_max_multiplier,
}

-- What a round of the loop over `result` does: go on, return, mark the definition for replacement
-- and go on; the last two also after a merge of the models of both.
pub data Verdict : Type 0 where
  skips : Verdict
  returns : Verdict
  merges : Verdict
  replaces : Verdict
  merges_and_replaces : Verdict

-- `almostEqual && preference != PreferNone`, and what follows; `rest` is what follows otherwise.
unfoldable pub preferred : Bool × Preference → Verdict → Verdict
preferred (false, p) rest = rest
preferred (true, prefer_none) rest = rest
preferred (true, prefer_second) rest = merges_and_replaces
preferred (true, prefer_first) rest = merges

-- `result = append(result[:i], result[i+1:]...)`
unfoldable pub delete_at : {A : Type 0} → ℕ → List A → Result (List A)
delete_at i xs = if leb (i + 1) (length xs) then ok (take i xs ++ drop (i + 1) xs) else panic

-- The loop over `toReplace`.
unfoldable pub delete_all : {A : Type 0} → List ℕ → List A → Result (List A)
delete_all [] xs = ok xs
delete_all (i ∷ is) xs = and_then (delete_at i xs) (λ ys. delete_all is ys)

-- The loop over `result` returned, with what it changed, or it came to the end with the positions
-- in `toReplace` and the definition that is taken in.
pub data Scanned (V : Type 0) : Type 0 where
  returned : List (IoElementDefinition V) → Scanned V
  finished : List (IoElementDefinition V) → List ℕ → IoElementDefinition V → Scanned V

-- `mergeSupportedModels`, which stores the same list in both; sort.Strings is a parameter.
unfoldable pub merge_supported_models :
    {V : Type 0}
    → (List Text → List Text)
    → IoElementDefinition V
    → IoElementDefinition V
    → List Text
merge_supported_models sort a b = sort (unique (a.supported_models ++ b.supported_models))

-- A definition that was passed over, and whether its position is marked.
unfoldable pub passed : {V : Type 0} → IoElementDefinition V → Bool → ℕ → Scanned V → Scanned V
passed d marked i (returned ds) = returned (d ∷ ds)
passed d marked i (finished ds is c) = finished (d ∷ ds) (if marked then i ∷ is else is) c

module _ {V : Type 0} ⦃fl : Float V⦄ (cmp_equal : List Text → List Text → Bool)
    (sort : List Text → List Text) where
  -- The special case of element 90, and the log message.
  unfoldable pub normalized : IoElementDefinition V → IoElementDefinition V → Verdict
  normalized definition current =
      if current.id == 90
        && fl.equal current.max (fl.of_nat 32512)
        && fl.equal definition.max (fl.of_nat 16128)
      then replaces
      else returns

  unfoldable pub verdict : IoElementDefinition V → IoElementDefinition V → Verdict
  verdict definition current =
      if not (definition.id == current.id)
      then skips
      else if is_definitions_equal cmp_equal definition current
      then returns
      else if is_definitions_equal_except_supported_models definition current
      then merges
      else if not (overlap definition.supported_models current.supported_models)
      then skips
      else if contains_all definition.supported_models current.supported_models
      then returns
      else if contains_all current.supported_models definition.supported_models
      then replaces
      else preferred (is_definitions_equal_except_min_max_multiplier cmp_equal definition current) (
          preferred
            (prefer_one_that_has_multiplier_and_max_and_min_and_description_and_units definition
              current)
            (normalized definition current))

  -- A round of the loop, by its verdict, and the rounds after it. The definitions are pointers: a
  -- merge changes the one in `result` and the one that is taken in.
  unfoldable pub round :
      Verdict
      → ℕ
      → IoElementDefinition V
      → IoElementDefinition V
      → List (IoElementDefinition V)
      → (IoElementDefinition V → Scanned V)
      → Scanned V
  round skips i current d ds rest = passed d false i (rest current)
  round returns i current d ds rest = returned (d ∷ ds)
  round merges i current d ds rest =
      returned (record d { supported_models = merge_supported_models sort d current } ∷ ds)
  round replaces i current d ds rest = passed d true i (rest current)
  round merges_and_replaces i current d ds rest =
      let models = merge_supported_models sort d current in
      passed (record d { supported_models = models }) true i
        (rest (record current { supported_models = models }))

  unfoldable pub scan : ℕ → IoElementDefinition V → List (IoElementDefinition V) → Scanned V
  scan i current [] = finished [] [] current
  scan i current (d ∷ ds) = round (verdict d current) i current d ds (λ c. scan (i + 1) c ds)

  unfoldable pub replaced : Scanned V → Result (List (IoElementDefinition V))
  replaced (returned ds) = ok ds
  replaced (finished ds is c) = and_then (delete_all is ds) (λ rest. ok (rest ++ c ∷ []))

  -- The function that `collectDefinitionsNetwork` gives to `loadPagesRecursively`.
  unfoldable pub on_definition :
      List (IoElementDefinition V) → IoElementDefinition V → Result (List (IoElementDefinition V))
  on_definition result current = replaced (scan 0 current result)

  -- Its calls; the result is sorted by number afterwards.
  unfoldable pub collect :
      List (IoElementDefinition V)
      → List (IoElementDefinition V)
      → Result (List (IoElementDefinition V))
  collect result [] = ok result
  collect result (c ∷ cs) = and_then (on_definition result c) (λ result'. collect result' cs)
