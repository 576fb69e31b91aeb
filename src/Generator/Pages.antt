-- ===== src/Generator/Pages.antt =====
-- tools/io_elements_gen.go: `loadPagesRecursively`, which goes from page to page by their links.
pub mod Queue
pub mod Reached
pub mod Ends
use teltonika.Prelude.{
  ℕ, zero, suc, ◌+◌, Bool, true, false, ◌&&◌, ◌||◌, not, Option, none, some, List, [], ◌∷◌, ◌++◌,
  map, length, get_or, ltb, ◌==◌, if◌then◌else◌, Result, ok, err, panic, and_then,
}
use teltonika.IoElements.{Text, same_text, IoElementDefinition}
use teltonika.Texts.{join_with}
use teltonika.Generator.{Float, contains}
use teltonika.Generator.Cells.{as_text}
use teltonika.Generator.Collect.{collect}
use teltonika.Generator.Csv.{add_first}
use teltonika.Generator.Fetch.{World, load_page}
use teltonika.Generator.Rows.{Library, Scanner, is_empty, split_behind, concat, parse_table_row}

-- What goquery finds in a document: the text of the heading and the rows of its tables. A row has
-- the texts of its cells and the links in the tenth one. An attribute that is not there is empty.
pub record Link : Type 0 where
  pub href : Text
  pub label : Text

pub record Row : Type 0 where
  pub cells : List Text
  pub links : List Link

pub record Document : Type 0 where
  pub heading : Text
  pub tables : List (List Row)

-- A parsed address: its path, and the value of "title" in its query.
pub record Url : Type 0 where
  pub path : Text
  pub title : Text

-- goquery and net/url, where `none` is an error.
pub record Parsers : Type 0 where
  pub parse_document : Text → Option Document
  pub parse_url : Text → Option Url

-- The command line's options.
pub record Options : Type 0 where
  pub no_cache : Bool
  pub no_follow : Bool
  pub url_pattern : Text

abbrev pub model_place : Text
model_place = b'{' ∷ b'm' ∷ b'o' ∷ b'd' ∷ b'e' ∷ b'l' ∷ b'}' ∷ []

abbrev pub long_ending : Text
long_ending =
    b'_' ∷ b'T' ∷ b'e' ∷ b'l' ∷ b't' ∷ b'o' ∷ b'n' ∷ b'i' ∷ b'k' ∷ b'a' ∷ b'_' ∷ b'D' ∷ b'a' ∷ b't'
    ∷ b'a' ∷ b'_' ∷ b'S' ∷ b'e' ∷ b'n' ∷ b'd' ∷ b'i' ∷ b'n' ∷ b'g' ∷ b'_' ∷ b'P' ∷ b'a' ∷ b'r'
    ∷ b'a' ∷ b'm' ∷ b'e' ∷ b't' ∷ b'e' ∷ b'r' ∷ b's' ∷ b'_' ∷ b'I' ∷ b'D' ∷ []

abbrev pub short_ending : Text
short_ending =
    b'_' ∷ b'A' ∷ b'V' ∷ b'L' ∷ b'_' ∷ b'I' ∷ b'D' ∷ b'_' ∷ b'L' ∷ b'i' ∷ b's' ∷ b't' ∷ []

abbrev pub index_page : Text
index_page = b'/' ∷ b'i' ∷ b'n' ∷ b'd' ∷ b'e' ∷ b'x' ∷ b'.' ∷ b'p' ∷ b'h' ∷ b'p' ∷ []

-- The models whose pages have other names.
abbrev pub listed_models : List Text
listed_models =
    (b'T' ∷ b'M' ∷ b'T' ∷ b'2' ∷ b'5' ∷ b'0' ∷ [])
    ∷ (b'G' ∷ b'H' ∷ b'5' ∷ b'2' ∷ b'0' ∷ b'0' ∷ [])
    ∷ (b'T' ∷ b'F' ∷ b'T' ∷ b'1' ∷ b'0' ∷ b'0' ∷ [])
    ∷ (b'T' ∷ b'S' ∷ b'T' ∷ b'1' ∷ b'0' ∷ b'0' ∷ [])
    ∷ (b'T' ∷ b'A' ∷ b'T' ∷ b'1' ∷ b'0' ∷ b'0' ∷ [])
    ∷ (b'T' ∷ b'A' ∷ b'T' ∷ b'1' ∷ b'4' ∷ b'0' ∷ [])
    ∷ (b'T' ∷ b'A' ∷ b'T' ∷ b'1' ∷ b'4' ∷ b'1' ∷ [])
    ∷ (b'T' ∷ b'A' ∷ b'T' ∷ b'2' ∷ b'4' ∷ b'0' ∷ [])
    ∷ []

-- `strings.ReplaceAll` of a text that is not empty.
unfoldable pub replace_all : Text → Text → Text → Text
replace_all old by t = join_with by (split_behind old 0 t)

unfoldable pub model_name_to_url : Text → Text → Text
model_name_to_url pattern model =
    let res = replace_all model_place model pattern in
    if contains listed_models model then replace_all long_ending short_ending res else res

-- The last element of a slice that is not empty.
unfoldable pub last_of : Text → List Text → Text
last_of default [] = default
last_of default (t ∷ ts) = last_of t ts

-- The rows that have cells, table by table: what `processPageTable` goes through.
unfoldable pub table_rows : List Row → List Row
table_rows [] = []
table_rows (r ∷ rs) = let rest = table_rows rs in if length r.cells == 0 then rest else r ∷ rest

unfoldable pub document_rows : List (List Row) → List Row
document_rows [] = []
document_rows (t ∷ ts) = table_rows t ++ document_rows ts

-- The first word of the heading.
unfoldable pub first_word : Text → Text
first_word [] = []
first_word (c ∷ cs) = let rest = first_word cs in if c == b' ' then [] else c ∷ rest

-- The loop over `otherPages`.
unfoldable pub add_link : List Text → Text → List Text
add_link urls link =
    if not (is_empty link) && not (contains urls link) then urls ++ link ∷ [] else urls

unfoldable pub add_links : List Text → List Text → List Text
add_links urls [] = urls
add_links urls (l ∷ ls) = add_links (add_link urls l) ls

module _ ⦃ps : Parsers⦄ (o : Options) where
  -- The address that a link leads to; an empty text if it leads to no page.
  unfoldable pub other_page : Link → Text
  other_page link = if is_empty link.href then [] else elim (ps.parse_url link.href) [
    | none ↦ []
    | some url ↦
        if same_text url.path index_page
        then if not (is_empty url.title) then model_name_to_url o.url_pattern url.title else []
        else model_name_to_url o.url_pattern (last_of [] (split_behind (b'/' ∷ []) 0 url.path))
  ]

  -- `urlsToProcess` behind a row.
  unfoldable pub follow : Row → List Text → List Text
  follow row urls = if not o.no_follow then add_links urls (map other_page row.links) else urls

-- What stays between two rounds of the loop over the addresses. The pages that were loaded are for
-- the proofs.
pub record Crawl (S V : Type 0) : Type 0 where
  pub urls : List Text
  pub world : S
  pub result : List (IoElementDefinition V)
  pub visited : List (Text × Option Text)

module _ {V : Type 0} ⦃fl : Float V⦄ (cmp_equal : List Text → List Text → Bool)
    (sort : List Text → List Text) where
  -- The calls of `onDefinition` for what a row gave.
  unfoldable pub take_in :
      List (IoElementDefinition V)
      → Option (List (IoElementDefinition V))
      → Result (List (IoElementDefinition V))
  take_in result none = ok result
  take_in result (some items) = collect cmp_equal sort result items

module _ {S V : Type 0} ⦃w : World S⦄ ⦃ps : Parsers⦄ ⦃lib : Library⦄ ⦃fl : Float V⦄ ⦃sn : Scanner V⦄
    (cmp_equal : List Text → List Text → Bool) (o : Options) where
  -- The rows of a page, with `modelName`.
  unfoldable pub process_rows : Text → Text → List Row → Crawl S V → Result (Crawl S V)
  process_rows heading model [] s = ok s
  process_rows heading model (row ∷ rows) s =
      let name = if is_empty model then first_word heading else model in
      let labels = map (λ (l : Link). as_text l.label) row.links in
      and_then (parse_table_row name (map as_text row.cells) labels) λ items.
        and_then (take_in cmp_equal lib.sort s.result items) λ result.
          process_rows heading name rows (record s { urls = follow o row s.urls; result = result })

  -- The callback of `loadPage`; a document that is not parsed is a nil pointer.
  unfoldable pub on_page : Option Text → Crawl S V → Result (Crawl S V)
  on_page none s = ok s
  on_page (some page) s = elim (ps.parse_document page) [
    | none ↦ panic
    | some d ↦ process_rows d.heading [] (document_rows d.tables) s
  ]

  unfoldable pub visit : Text → Crawl S V → Result (Crawl S V)
  visit url s =
      and_then (load_page o.no_cache s.world url)
        λ r. on_page r.0 (record s { world = r.1; visited = s.visited ++ (url, r.0) ∷ [] })

  -- The loop over `urlsToProcess`, which its rounds lengthen, from position `i` on.
  unfoldable pub load_pages : ℕ → ℕ → Crawl S V → Option (Result (Crawl S V))
  load_pages zero i s = none
  load_pages (suc fuel) i s = elim (ltb i (length s.urls)) [
    | false ↦ some (ok s)
    | true ↦ elim (visit (get_or s.urls i []) s) [
      | ok s' ↦ load_pages fuel (suc i) s'
      | err e ↦ some (err e)
      | panic ↦ some panic
    ]
  ]

  unfoldable pub load_pages_recursively : ℕ → List Text → S → Option (Result (Crawl S V))
  load_pages_recursively fuel models s = load_pages fuel 0 (record {
    urls = map (model_name_to_url o.url_pattern) models;
    world = s;
    result = [];
    visited = [];
  })

  -- Behind it the definitions are sorted by number; slices.SortStableFunc is a parameter.
  unfoldable pub collect_definitions_network :
      (List (IoElementDefinition V) → List (IoElementDefinition V))
      → ℕ
      → List Text
      → S
      → Option (Result (List (IoElementDefinition V)))
  collect_definitions_network sort_by_id fuel models s =
      elim (load_pages_recursively fuel models s) [
        | none ↦ none
        | some r ↦ some (and_then r (λ c. ok (sort_by_id c.result)))
      ]
