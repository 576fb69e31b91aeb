-- ===== src/Generator/Pages/Ends.antt =====
-- tools/io_elements_gen.go: which pages `loadPagesRecursively` goes to, and that it ends.
use teltonika.Prelude.{
  take_all, Option-cases, Result-cases, ℕ, zero, suc, ◌+◌, ◌≤◌, ◌<◌, ◌≡◌, refl, sym, ap, ◌∙◌, arith,
  inl, inr, Bool, true, false, Option, none, some, List, [], ◌∷◌, ◌++◌, ◌⊎◌, All, map, length, take,
  get_or, ltb, length-append, Bool-cases, if◌then◌else◌, length-map, Result, ok, err, Ensures,
  panic, and_then-eq-ok,
}
use teltonika.IoElements.{Text, same_text}
use teltonika.IoElements.Lookup.{Among, same_text_refl}
use teltonika.Generator.{Float, contains}
use teltonika.Generator.Cells.{as_text}
use teltonika.Generator.Fetch.{World, load_page}
use teltonika.Generator.Rows.{Library, Scanner, is_empty, parse_table_row}
use teltonika.Generator.Pages.{
  Link, Row, Parsers, Options, model_name_to_url, first_word, document_rows, add_links, follow,
  Crawl, take_in, process_rows, on_page, visit, load_pages, load_pages_recursively,
}
use teltonika.Generator.Pages.Queue.{
  Grows-same, Grows-add_links, add_links_rule, missing, missing_bound, add_links-missing,
}
use teltonika.Generator.Pages.Reached.{
  row_links, rows_links, links_of, follow-add_links, add_links-append, IsCrawl, IsVisited,
  IsVisited-IsCrawl, start-IsCrawl,
}

-- An address of the models, or one of the universe.
abbrev pub IsKnown : List Text → List Text → Text → Type 0
IsKnown start universe url = (contains start url ≡ true) ⊎ (contains universe url ≡ true)

All-get_or :
    (P : Text → Type 0) (us : List Text) (i : ℕ) → All P us → i < length us → P (get_or us i [])
All-get_or P [] i h at_i = absurd (omega arith)
All-get_or P (u ∷ us) zero (h, hs) at_i = h
All-get_or P (u ∷ us) (suc i) (h, hs) at_i = All-get_or P us i hs (omega arith)

All-last : (P : Text → Type 0) (us : List Text) (u : Text) → All P us → P u → All P (us ++ u ∷ [])
All-last P [] u hs h = (h, tt)
All-last P (v ∷ us) u (k, hs) h = (k, All-last P us u hs h)

All-contains :
    (P : Text → Type 0) (us : List Text) → ((u : Text) → contains us u ≡ true → P u) → All P us
unfolding contains
All-contains P [] h = tt
All-contains P (u ∷ us) h = (
  h u (rw (same_text_refl u) refl),
  All-contains P us λ v m.
      h v (elim (Bool-cases (same_text u v)) [
        | inl same ↦ rw same refl
        | inr differs ↦ rw differs m
      ]),
)

add_links-IsKnown :
    (start universe urls ls : List Text)
    → ((u : Text) → Among u ls → is_empty u ≡ false → contains universe u ≡ true)
    → All (IsKnown start universe) urls
    → All (IsKnown start universe) (add_links urls ls)
add_links-IsKnown start universe urls ls within =
    add_links_rule (All (IsKnown start universe)) urls ls
      λ us u m full new hs. All-last _ us u hs (inr (within u m full))

-- The part of the web that can be reached: what is loaded from an address of the models or of the
-- universe links only to the universe. `Holds` is what is known of net/http and the cache file.
pub record IsSite {S : Type 0} ⦃w : World S⦄ ⦃ps : Parsers⦄ (o : Options)
    (start universe : List Text) (Holds : S → Type 0) : Type 0 where
  pub loads :
      (s s' : S) (url : Text) (page : Option Text)
      → Holds s
      → IsKnown start universe url
      → load_page o.no_cache s url ≡ ok (page, s')
      → Holds s'
        × ((u : Text) → Among u (links_of o page) → is_empty u ≡ false → contains universe u ≡ true)

module _ {S V : Type 0} ⦃w : World S⦄ ⦃ps : Parsers⦄ ⦃lib : Library⦄ ⦃fl : Float V⦄ ⦃sn : Scanner V⦄
    (cmp_equal : List Text → List Text → Bool) (o : Options) where
  process_rows-links :
      (heading model : Text) (rows : List Row) (c c' : Crawl S V)
      → process_rows cmp_equal o heading model rows c ≡ ok c'
      → (c'.visited ≡ c.visited)
        × (c'.world ≡ c.world)
        × (c'.urls ≡ add_links c.urls (rows_links o rows))
  unfolding process_rows rows_links add_links
  process_rows-links heading model [] c c' h = (cc, cc, cc)
  process_rows-links heading model (row ∷ rows) c c' h =
      let name = if is_empty model then first_word heading else model in
      let labels = map (λ (l : Link). as_text l.label) row.links in
      let (items, read, h') =
        and_then-eq-ok (parse_table_row name (map as_text row.cells) labels) _ h in
      let (result, taken, h'') = and_then-eq-ok (take_in cmp_equal lib.sort c.result items) _ h' in
      let (same, unmoved, added) =
        process_rows-links heading name rows
          (record c { urls = follow o row c.urls; result = result }) c' h'' in
      (
        same,
        unmoved,
        added
            ∙ ap (λ us. add_links us (rows_links o rows)) (follow-add_links o row c.urls)
            ∙ sym (add_links-append c.urls (row_links o row) (rows_links o rows)),
      )

  on_page-links :
      (page : Option Text) (c c' : Crawl S V)
      → on_page cmp_equal o page c ≡ ok c'
      → (c'.visited ≡ c.visited)
        × (c'.world ≡ c.world)
        × (c'.urls ≡ add_links c.urls (links_of o page))
  unfolding on_page links_of add_links
  on_page-links none c c' h = (cc, cc, cc)
  on_page-links (some page) c c' h = elim (Option-cases (ps.parse_document page)) [
    | inl unparsed ↦ absurd (cc (rw (unparsed, on_page) at h))
    | inr (d, parsed) ↦
        rw (parsed, links_of)
          (process_rows-links d.heading [] (document_rows d.tables) c c'
            (rw (parsed, on_page) at h))
  ]

  visit-IsVisited :
      (url : Text) (c c' : Crawl S V)
      → visit cmp_equal o url c ≡ ok c'
      → (v : IsVisited (links_of o) url c c') × (load_page o.no_cache c.world url
          ≡ ok (v.page, c'.world))
  unfolding visit
  visit-IsVisited url c c' h =
      let ((page, world), loaded, h') = and_then-eq-ok (load_page o.no_cache c.world url) _ h in
      let (same, unmoved, added) = on_page-links page _ c' h' in
      (record { page = page; visited = same; urls = added }, rw unmoved loaded)

  load_pages_more :
      (fuel i : ℕ) (c c' : Crawl S V)
      → ltb i (length c.urls) ≡ true
      → visit cmp_equal o (get_or c.urls i []) c ≡ ok c'
      → load_pages cmp_equal o (suc fuel) i c ≡ load_pages cmp_equal o fuel (suc i) c'
  unfolding load_pages
  load_pages_more fuel i c c' more visited = rw (more, visited, load_pages) refl

  -- The loop over the addresses from position `i` on, with a bound on what can be added.
  load_pages-IsCrawl :
      (start universe : List Text) (Holds : S → Type 0) (fuel i : ℕ) (c : Crawl S V)
      → IsSite o start universe Holds
      → Holds c.world
      → All (IsKnown start universe) c.urls
      → length c.urls + missing universe c.urls < fuel + i
      → i ≤ length c.urls
      → IsCrawl (links_of o) start (take i c.urls) c
      → (r : Result (Crawl S V)) × (load_pages cmp_equal o fuel i c ≡ some r)
        × Ensures (λ c'. IsCrawl (links_of o) start c'.urls c') r
  unfolding load_pages
  load_pages-IsCrawl start universe Holds zero i c site holds known enough h at_i =
      absurd (omega arith)
  load_pages-IsCrawl start universe Holds (suc fuel) i c site holds known enough h at_i =
      elim (Bool-cases (ltb i (length c.urls))) [
        | inl more ↦ elim (Result-cases (visit cmp_equal o (get_or c.urls i []) c)) [
          | inl (c', visited) ↦
              let (v, loaded) = visit-IsVisited (get_or c.urls i []) c c' visited in
              let in_range : i < length c.urls = ground arith in
              let (holds', within) =
                site.loads c.world c'.world (get_or c.urls i []) v.page holds
                  (All-get_or _ c.urls i known in_range) loaded in
              let more_urls =
                Grows-add_links c.urls c.urls (links_of o v.page) (Grows-same c.urls) in
              let size : length c.urls ≤ length c'.urls =
                rw (v.urls, more_urls.shape)
                  (omega (arith, length-append c.urls more_urls.extra)) in
              let bound : length c'.urls + missing universe c'.urls
                  ≤ length c.urls + missing universe c.urls =
                rw v.urls
                  (add_links-missing universe c.urls (links_of o v.page) _ within (omega arith)) in
              let known' : All (IsKnown start universe) c'.urls =
                rw v.urls
                  (add_links-IsKnown start universe c.urls (links_of o v.page) within known) in
              let (r, ends, crawled) =
                load_pages-IsCrawl start universe Holds fuel (suc i) c' site holds' known'
                  (omega arith) (omega arith)
                  (IsVisited-IsCrawl (links_of o) start i c c' in_range v at_i) in
              (r, load_pages_more fuel i c c' more visited ∙ ends, crawled)
          | inr (inl (e, failed)) ↦ (err e, rw (more, failed, load_pages) refl, tt)
          | inr (inr panicked) ↦ (panic, rw (more, panicked, load_pages) refl, tt)
        ]
        | inr done ↦
            (ok c, rw (done, load_pages) refl, rw (take_all c.urls i (ground arith)) at at_i)
      ]

  -- From the addresses of the given models on, where the pages that can be loaded from there, one
  -- after another, link to finitely many addresses, the loop ends after at most as many rounds as
  -- there are models and such addresses. If no page stops the program, the addresses of the models
  -- were visited in order, and then others, each of them once, which are linked from pages that were
  -- loaded; every link on such a page that leads to a page leads to one of the addresses that were
  -- visited.
  pub load_pages_recursively-IsCrawl :
      (universe models : List Text) (Holds : S → Type 0) (fuel : ℕ) (s : S)
      → IsSite o (map (model_name_to_url o.url_pattern) models) universe Holds
      → Holds s
      → length models + length universe < fuel
      → (r : Result (Crawl S V)) × (load_pages_recursively cmp_equal o fuel models s ≡ some r)
        × Ensures
            (λ c. IsCrawl (links_of o) (map (model_name_to_url o.url_pattern) models) c.urls c)
            r
  unfolding load_pages_recursively
  load_pages_recursively-IsCrawl universe models Holds fuel s site holds enough =
      let start = map (model_name_to_url o.url_pattern) models in
      load_pages-IsCrawl start universe Holds fuel 0 _ site holds
        (All-contains _ start λ u m. inl m)
        (omega (
          arith,
          missing_bound universe start,
          length-map (model_name_to_url o.url_pattern) models,
        ))
        (omega arith) (start-IsCrawl (links_of o) start _ refl refl)
