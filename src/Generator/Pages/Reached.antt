-- ===== src/Generator/Pages/Reached.antt =====
-- tools/io_elements_gen.go: what a visit of `loadPagesRecursively` to a page adds to its list.
use teltonika.Prelude.{
  ℕ, zero, suc, ◌<◌, ◌≡◌, ◌⊎◌, refl, ap, arith, inl, inr, true, false, not, Option, none, some,
  List, [], ◌∷◌, ◌++◌, map, length, take, get_or, Bool-cases, if◌then◌else◌,
}
use teltonika.IoElements.{Text}
use teltonika.IoElements.Lookup.{Among}
use teltonika.Generator.{contains}
use teltonika.Generator.Slices.{Among-last, Among-first, Among-added}
use teltonika.Generator.Rows.{is_empty}
use teltonika.Generator.Pages.{
  Row, Parsers, Options, document_rows, add_link, add_links, other_page, follow, Crawl,
}
use teltonika.Generator.Pages.Queue.{
  Grows, Grows-same, Grows-add_links, contains-add_links, add_links-contains, add_links_origin,
}

module _ ⦃ps : Parsers⦄ (o : Options) where
  -- The addresses that the rows of a page link to, in order, empty ones where a link leads nowhere.
  unfoldable pub row_links : Row → List Text
  row_links row = if not o.no_follow then map (other_page o) row.links else []

  unfoldable pub rows_links : List Row → List Text
  rows_links [] = []
  rows_links (row ∷ rows) = row_links row ++ rows_links rows

  -- Those of a page that was handed to the callback, if one was.
  unfoldable pub links_of : Option Text → List Text
  links_of none = []
  links_of (some page) = elim (ps.parse_document page) [
    | none ↦ []
    | some d ↦ rows_links (document_rows d.tables)
  ]

  pub follow-add_links :
      (row : Row) (urls : List Text) → follow o row urls ≡ add_links urls (row_links row)
  unfolding follow row_links add_links
  follow-add_links row urls = elim (Bool-cases o.no_follow) [
    | inl off ↦ rw off refl
    | inr on ↦ rw on refl
  ]

pub add_links-append :
    (urls ls ms : List Text) → add_links urls (ls ++ ms) ≡ add_links (add_links urls ls) ms
unfolding add_links
add_links-append urls [] ms = refl
add_links-append urls (l ∷ ls) ms = add_links-append (add_link urls l) ls ms

-- Behind visits to `seen`: what they left, by the list that they started from and the links.
pub record IsCrawl {S V : Type 0} (links : Option Text → List Text) (start seen : List Text)
    (c : Crawl S V) : Type 0 where
  -- The list is what it was, and addresses that stand in it once.
  pub grown : Grows start c.urls
  -- The visits, in order.
  pub order : map (λ (v : Text × Option Text). v.0) c.visited ≡ seen
  -- Each link on a page that was loaded leads to an address in the list.
  pub closed :
      (v : Text × Option Text) (u : Text)
      → Among v c.visited
      → Among u (links v.1)
      → is_empty u ≡ false
      → contains c.urls u ≡ true
  -- Each address was there at the start, or it is linked from a page that was loaded.
  pub origin :
      (u : Text)
      → contains c.urls u ≡ true
      → (contains start u ≡ true)
        ⊎ ((v : Text × Option Text) × Among v c.visited × Among u (links v.1))

-- What a visit did: it loaded a page, or none, and added its links.
pub record IsVisited {S V : Type 0} (links : Option Text → List Text) (url : Text)
    (c c' : Crawl S V) : Type 0 where
  pub page : Option Text
  pub visited : c'.visited ≡ c.visited ++ (url, page) ∷ []
  pub urls : c'.urls ≡ add_links c.urls (links page)

take-suc :
    (i : ℕ) (us vs : List Text)
    → i < length us
    → take (suc i) (us ++ vs) ≡ take i us ++ get_or us i [] ∷ []
take-suc i [] vs h = absurd (omega arith)
take-suc zero (u ∷ us) vs h = refl
take-suc (suc i) (u ∷ us) vs h = ap (λ (r : List Text). u ∷ r) (take-suc i us vs (omega arith))

map-last :
    {A B : Type 0} (f : A → B) (xs : List A) (x : A) → map f (xs ++ x ∷ []) ≡ map f xs ++ f x ∷ []
map-last f [] x = refl
map-last f (y ∷ ys) x = ap (λ (r : List _). f y ∷ r) (map-last f ys x)

module _ {S V : Type 0} (links : Option Text → List Text) (start : List Text) where
  pub IsVisited-IsCrawl :
      (i : ℕ) (c c' : Crawl S V)
      → i < length c.urls
      → IsVisited links (get_or c.urls i []) c c'
      → IsCrawl links start (take i c.urls) c
      → IsCrawl links start (take (suc i) c'.urls) c'
  IsVisited-IsCrawl i c c' h v at_i =
      let more = Grows-add_links c.urls c.urls (links v.page) (Grows-same c.urls) in
      record {
        grown = rw v.urls (Grows-add_links start c.urls (links v.page) at_i.grown);
        order =
            rw (v.visited, v.urls, map-last, more.shape, take-suc i c.urls more.extra h)
              (ap (λ (r : List Text). r ++ get_or c.urls i [] ∷ []) at_i.order);
        closed = λ w u m l full. elim (Among-last c.visited (rw v.visited at m)) [
          | inl old ↦
              rw v.urls (contains-add_links c.urls (links v.page) u (at_i.closed w u old l full))
          | inr now ↦ rw v.urls (add_links-contains c.urls (links v.page) u (rw now at l) full)
        ];
        origin = λ u m. elim (add_links_origin c.urls (links v.page) u (rw v.urls at m)) [
          | inl old ↦ elim (at_i.origin u old) [
            | inl first ↦ inl first
            | inr (w, seen, l) ↦ inr (w, rw v.visited (Among-first w _ c.visited seen), l)
          ]
          | inr linked ↦
              inr ((get_or c.urls i [], v.page), rw v.visited (Among-added _ c.visited), linked)
        ];
      }

  pub start-IsCrawl :
      (c : Crawl S V) → c.urls ≡ start → c.visited ≡ [] → IsCrawl links start (take 0 c.urls) c
  start-IsCrawl c first fresh = record {
    grown = rw first (Grows-same start);
    order = rw fresh refl;
    closed = λ v u m. absurd (rw fresh at m);
    origin = λ u m. inl (rw first at m);
  }
