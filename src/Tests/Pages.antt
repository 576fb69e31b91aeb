-- ===== src/Tests/Pages.antt =====
-- The theorems on the generator's pages, at concrete pages.
use teltonika.Prelude.{
  ℕ, ◌≡◌, ◌⊎◌, refl, sym, Bool-cases, List, if◌then◌else◌, arith, inl, inr, true, false, Option,
  none, some, [], ◌∷◌, ◌++◌, map, length, ◌==◌, Result, ok, Ensures,
}
use teltonika.Prelude.Int.{pos}
use teltonika.IoElements.{Text, same_text}
use teltonika.IoElements.Lookup.{Among, same_text_eq}
use teltonika.Generator.{Float, contains}
use teltonika.Generator.Cells.{quote, is_trimmed, as_text}
use teltonika.Generator.Cells.Quoted.{IsPlain, as_text-quoted}
use teltonika.Generator.Fetch.{
  Pages, CacheFile, missing, holding, World, store_page, opened, stored, fetched, load_page,
  load_all,
}
use teltonika.Generator.Fetch.Kept.{IsLasting, load_page-load_all}
use teltonika.Generator.Rows.{Library, Scanner, split_behind, is_prefix, is_empty}
use teltonika.Texts.{join_with}
use teltonika.Generator.Pages.{
  Parsers, Options, model_name_to_url, replace_all, last_of, other_page, document_rows, table_rows,
  Crawl, load_pages_recursively,
}
use teltonika.Generator.Pages.Reached.{row_links, rows_links, links_of, IsCrawl}
use teltonika.Generator.Pages.Ends.{IsKnown, IsSite, load_pages_recursively-IsCrawl}

instance abbrev whole : Float ℕ
whole = record { equal = λ a b. a == b; of_nat = λ n. n }

instance abbrev library : Library
library = record {
  scan_int = λ t. some (pos (length t));
  atoi = λ t. pos (length t);
  to_lower = λ t. t;
  trim = λ t. t;
  sort = λ ts. ts;
}

instance abbrev scanner : Scanner ℕ
scanner = record { scan_float = λ t. some (length t) }

-- A web in which each address has a page, and a file that gives back what was written to it.
instance abbrev web : World CacheFile
web = record {
  get = λ s u. (some (record { status = 200; body = some (b'p' ∷ u) }), s);
  cache = λ s. s;
  save = λ s pages. some (holding pages);
}

web-IsLasting : IsLasting web
web-IsLasting = record {
  untouched = λ s u. refl;
  decoded = λ s t pages h. (pages, cc, λ u c cs k. k);
}

abbrev first : Text
first = b'/' ∷ b'a' ∷ []

abbrev second : Text
second = b'/' ∷ b'b' ∷ []

abbrev with_first : Pages
with_first = store_page first (b'p' ∷ first) (λ u. none)

abbrev with_both : Pages
with_both = store_page second (b'p' ∷ second) with_first

first_loads : load_page false missing first ≡ ok (some (b'p' ∷ first), holding with_first)
unfolding load_page opened fetched stored
first_loads = refl

second_loads : load_all false (holding with_first) (second ∷ []) ≡ ok (holding with_both)
unfolding load_all load_page opened fetched stored store_page same_text
second_loads = refl

-- The first page is requested, and not requested again behind the load of another.
load_page-load_all_example :
    load_page false (holding with_both) first ≡ ok (some (b'p' ∷ first), holding with_both)
load_page-load_all_example =
    load_page-load_all web-IsLasting missing (holding with_first) (holding with_both) first b'p'
      first (second ∷ []) first_loads second_loads

abbrev url_a : Text
url_a = b'A' ∷ []

abbrev url_b : Text
url_b = b'B' ∷ []

abbrev url_c : Text
url_c = b'C' ∷ []

-- The first page links to the second, twice, and the second back; of the others, each links to one
-- that no page before had.
abbrev targets : Text → List Text
targets page =
    if same_text page (b'p' ∷ url_a)
    then url_b ∷ [] ∷ url_b ∷ []
    else if same_text page (b'p' ∷ url_b)
    then url_a ∷ []
    else if same_text page (b'p' ∷ url_c)
    then []
    else page ∷ []

instance abbrev parsers : Parsers
parsers = record {
  parse_document = λ page. some (record {
    heading = b'B' ∷ b' ' ∷ b'x' ∷ [];
    tables =
        (record {
          cells = [] ∷ [] ∷ [] ∷ [] ∷ [] ∷ [] ∷ [] ∷ [] ∷ [] ∷ [];
          links = map (λ t. record { href = t; label = [] }) (targets page);
        }
          ∷ [])
        ∷ [];
  });
  parse_url = λ t. some (record { path = b'/' ∷ t; title = [] });
}

abbrev options : Options
options = record {
  no_cache = true;
  no_follow = false;
  url_pattern = b'{' ∷ b'm' ∷ b'o' ∷ b'd' ∷ b'e' ∷ b'l' ∷ b'}' ∷ [];
}

abbrev models : List Text
models = url_a ∷ url_c ∷ []

abbrev start : List Text
start = map (model_name_to_url options.url_pattern) models

abbrev universe : List Text
universe = url_a ∷ url_b ∷ []

start_is : start ≡ models
unfolding model_name_to_url replace_all join_with split_behind is_prefix same_text contains
start_is = refl

known_url :
    (url : Text) → IsKnown models universe url → (url ≡ url_a) ⊎ (url ≡ url_b) ⊎ (url ≡ url_c)
unfolding contains
known_url url known = elim (Bool-cases (same_text url_a url)) [
  | inl a ↦ inl (sym (same_text_eq url_a url a))
  | inr not_a ↦ elim (Bool-cases (same_text url_b url)) [
    | inl b ↦ inr (inl (sym (same_text_eq url_b url b)))
    | inr not_b ↦ elim (Bool-cases (same_text url_c url)) [
      | inl c ↦ inr (inr (sym (same_text_eq url_c url c)))
      | inr not_c ↦ elim known [
        | inl m ↦ absurd (cc (rw (not_a, not_c) at m))
        | inr m ↦ absurd (cc (rw (not_a, not_b) at m))
      ]
    ]
  ]
]

links_a : links_of options (some (b'p' ∷ url_a)) ≡ url_b ∷ [] ∷ url_b ∷ []
unfolding links_of rows_links row_links document_rows table_rows other_page model_name_to_url
    replace_all join_with last_of split_behind is_prefix same_text contains
links_a = refl

links_b : links_of options (some (b'p' ∷ url_b)) ≡ url_a ∷ []
unfolding links_of rows_links row_links document_rows table_rows other_page model_name_to_url
    replace_all join_with last_of split_behind is_prefix same_text contains
links_b = refl

links_c : links_of options (some (b'p' ∷ url_c)) ≡ []
unfolding links_of rows_links row_links document_rows table_rows other_page model_name_to_url
    replace_all join_with last_of split_behind is_prefix same_text contains
links_c = refl

-- What is loaded from a known address links to known ones.
within :
    (url u : Text)
    → (url ≡ url_a) ⊎ (url ≡ url_b) ⊎ (url ≡ url_c)
    → Among u (links_of options (some (b'p' ∷ url)))
    → is_empty u ≡ false
    → contains universe u ≡ true
unfolding contains same_text
within url u (inl a) m full = elim (rw (a, links_a) at m) [
  | inl same ↦ rw same refl
  | inr (inl empty) ↦ absurd (cc (rw empty at full))
  | inr (inr (inl same)) ↦ rw same refl
  | inr (inr (inr h)) ↦ elim h [ ]
]
within url u (inr (inl b)) m full = elim (rw (b, links_b) at m) [
  | inl same ↦ rw same refl
  | inr h ↦ elim h [ ]
]
within url u (inr (inr c)) m full = absurd (rw (c, links_c) at m)

loaded :
    (s s' : CacheFile) (url : Text) (page : Option Text)
    → load_page true s url ≡ ok (page, s')
    → page ≡ some (b'p' ∷ url)
unfolding load_page opened fetched stored
loaded s s' url page e = cc

site : IsSite {S = CacheFile} options start universe (λ s. Unit {0})
site = record {
  loads = λ s s' url page h known e. (
    tt,
    λ u m. within url u (known_url url (rw start_is at known)) (rw (loaded s s' url page e) at m),
  );
}

-- Two models, from one of whose pages a third page is reached.
load_pages_recursively-IsCrawl_example :
    (r : Result (Crawl CacheFile ℕ)) × (load_pages_recursively
        (λ a b. true)
        options
        5
        models
        missing
      ≡ some r)
    × Ensures (λ c. IsCrawl (links_of options) start c.urls c) r
load_pages_recursively-IsCrawl_example =
    load_pages_recursively-IsCrawl (λ a b. true) options universe models (λ s. Unit {0}) 5 missing
      site tt (omega arith)

o-IsPlain : IsPlain b'o'
unfolding is_trimmed
o-IsPlain = record { trimmed = refl; narrow = refl; wide = refl; unmarked = refl }

n-IsPlain : IsPlain b'n'
unfolding is_trimmed
n-IsPlain = record { trimmed = refl; narrow = refl; wide = refl; unmarked = refl }

as_text-quoted_example : as_text (quote ∷ ((b'o' ∷ []) ++ b'n' ∷ []) ++ quote ∷ []) ≡ b'o' ∷ []
as_text-quoted_example = as_text-quoted (b'o' ∷ []) b'n' (o-IsPlain, (n-IsPlain, tt))
