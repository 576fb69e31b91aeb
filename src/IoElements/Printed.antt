-- ===== src/IoElements/Printed.antt =====
-- ioelements.go: `IOElement.String`; and how the example servers print the elements of a data frame
-- that they received, which is the same code in both.
use teltonika.Prelude.{
  ℕ, ◌≡◌, refl, ap, inl, inr, List, [], ◌∷◌, ◌++◌, map, Result, ok, err, panic, and_then, Error,
  Returns, Returns-and_then, Result-cases, ◌==◌, not, ◌&&◌,
}
use teltonika.Packet
use teltonika.IoElements.{
  Number, Text, Value, bool, uint64, int64, float64, string, IoElement, Decoder, any_model, decode,
  same_text, supports, IoElementDefinition, find_definition, get_element_info,
}
use teltonika.IoElements.Values.{both-Returns, decode_by_definition-Returns}

-- What fmt.Sprintf makes of a value, by "%.3f" and "%v".
pub record Formats (V : Type 0) : Type 0 where
  pub fixed : V → Text
  pub plain : Value V → Text

abbrev pub colon : Text
colon = b':' ∷ b' ' ∷ []

-- The zero value of each entry of `elements`.
unfoldable pub blanks : List Packet.IoElement → List Text
blanks es = map (λ e. []) es

find_definition-Returns :
    {V : Type 0} (model : Text) (id : ℕ) (defs : List (IoElementDefinition V))
    → Returns (find_definition model id defs)
unfolding find_definition
find_definition-Returns model id [] = tt
find_definition-Returns model id (d ∷ ds) =
    let rest = find_definition-Returns model id ds in
    both-Returns (not (d.id == id)) _ _ (λ e. rest)
      λ e.
        both-Returns (same_text model any_model) _ _ (λ e₁. tt)
          λ e₁. both-Returns (supports model d.supported_models) _ _ (λ e₂. tt) λ e₂. rest

get_element_info-Returns :
    {V : Type 0} (r : Decoder V) (model : Text) (id : ℕ) → Returns (get_element_info r model id)
unfolding get_element_info
get_element_info-Returns r model id =
    both-Returns (not (same_text model any_model) && not (r.supported_models model)) _ _ (λ e. tt)
      λ e. find_definition-Returns model id r.definitions

module _ {V : Type 0} ⦃fm : Formats V⦄ where
  unfoldable pub value_text : Value V → Text
  value_text (float64 v) = fm.fixed v
  value_text (bool b) = fm.plain (bool b)
  value_text (uint64 n) = fm.plain (uint64 n)
  value_text (int64 z) = fm.plain (int64 z)
  value_text (string t) = fm.plain (string t)

  unfoldable pub element_string : IoElement V → Text
  element_string r = r.definition.name ++ colon ++ value_text r.value ++ r.definition.units

  -- `elements` from an entry on, of what Decode made of it and of the entries behind it.
  unfoldable pub entered :
      Result (IoElement V) → List Packet.IoElement → Result (List Text) → Result (List Text)
  entered (ok it) es rest = and_then rest (λ ts. ok (element_string it ∷ ts))
  entered (err e) es rest = ok ([] ∷ blanks es)
  entered panic es rest = panic

  module _ ⦃num : Number V⦄ (decoder : Decoder V) where
    -- `elements`, of which an element that cannot be decoded leaves the rest empty.
    unfoldable pub element_strings : List Packet.IoElement → Result (List Text)
    element_strings [] = ok []
    element_strings (e ∷ es) =
        entered (decode decoder any_model e.id e.value) es (element_strings es)

    -- The elements are decoded one by one.
    pub data Decodes : List Packet.IoElement → List (IoElement V) → Type 0 where
      nothing : Decodes [] []
      another :
          {e : Packet.IoElement} {it : IoElement V} {es : List Packet.IoElement}
          {its : List (IoElement V)}
          → decode decoder any_model e.id e.value ≡ ok it
          → Decodes es its
          → Decodes (e ∷ es) (it ∷ its)

    -- There is no element, or the first one cannot be decoded.
    pub data Stops : List Packet.IoElement → Type 0 where
      at_end : Stops []
      at_error :
          {e : Packet.IoElement} {es : List Packet.IoElement} (x : Error)
          → decode decoder any_model e.id e.value ≡ err x
          → Stops (e ∷ es)

    -- The elements in front of the first that cannot be decoded are shown, the others are blank.
    pub record IsShown (es : List Packet.IoElement) (ts : List Text) : Type 0 where
      pub front : List Packet.IoElement
      pub shown : List (IoElement V)
      pub rest : List Packet.IoElement
      pub parts : es ≡ front ++ rest
      pub decodes : Decodes front shown
      pub stops : Stops rest
      pub texts : ts ≡ map element_string shown ++ blanks rest

    decode-Returns : (id : ℕ) (buffer : List ℕ) → Returns (decode decoder any_model id buffer)
    unfolding decode
    decode-Returns id buffer =
        Returns-and_then (get_element_info decoder any_model id) _
          (get_element_info-Returns decoder any_model id)
          λ def e. decode_by_definition-Returns def buffer

    more-IsShown :
        {e : Packet.IoElement} {it : IoElement V} {es : List Packet.IoElement} {ts : List Text}
        → decode decoder any_model e.id e.value ≡ ok it
        → IsShown es ts
        → IsShown (e ∷ es) (element_string it ∷ ts)
    more-IsShown {e} {it} h s = record {
      front = e ∷ s.front;
      shown = it ∷ s.shown;
      rest = s.rest;
      parts = ap (λ l. e ∷ l) s.parts;
      decodes = another h s.decodes;
      stops = s.stops;
      texts = ap (λ l. element_string it ∷ l) s.texts;
    }

    pub element_strings-IsShown :
        (es : List Packet.IoElement)
        → (ts : List Text) × (element_strings es ≡ ok ts) × IsShown es ts
    unfolding element_strings blanks entered
    element_strings-IsShown [] = (
      [],
      refl,
      record {
        front = [];
        shown = [];
        rest = [];
        parts = refl;
        decodes = nothing;
        stops = at_end;
        texts = refl;
      },
    )
    element_strings-IsShown (e ∷ es) = elim (Result-cases (decode decoder any_model e.id e.value)) [
      | inl (it, h) ↦
          let (ts, runs, s) = element_strings-IsShown es in
          (element_string it ∷ ts, rw (h, runs) refl, more-IsShown h s)
      | inr (inl (x, h)) ↦ (
        blanks (e ∷ es),
        rw h refl,
        record {
          front = [];
          shown = [];
          rest = e ∷ es;
          parts = refl;
          decodes = nothing;
          stops = at_error x h;
          texts = refl;
        },
      )
      | inr (inr h) ↦ absurd (rw h at (decode-Returns e.id e.value))
    ]
