-- ===== src/Generator/Fetch/Kept.antt =====
-- tools/io_elements_gen.go: a page in the cache file is not requested again.
use teltonika.Prelude.{
  Option-cases, ℕ, ◌≡◌, ◌⊎◌, refl, sym, ap, ◌∙◌, inl, inr, false, Option, none, some, List, [], ◌∷◌,
  ◌==◌, Bool-cases, Result, ok, and_then-eq-ok,
}
use teltonika.IoElements.{Text, same_text}
use teltonika.IoElements.Lookup.{same_text_refl, same_text_eq}
use teltonika.Generator.Fetch.{
  Pages, CacheFile, missing, unreadable, holding, Response, World, store_page, no_page, opened,
  stored, fetched, load_page, load_all,
}

-- What is relied on: a request leaves the file alone, and what was written to it is decoded from it,
-- of slices those that are not empty.
pub record IsLasting {S : Type 0} (w : World S) : Type 0 where
  pub untouched : (s : S) (u : Text) → w.cache (w.get s u).1 ≡ w.cache s
  pub decoded :
      (s t : S) (pages : Pages)
      → w.save s pages ≡ some t
      → (read : Pages) × (w.cache t ≡ holding read)
        × ((u : Text) (c : ℕ) (cs : Text) → pages u ≡ some (c ∷ cs) → read u ≡ some (c ∷ cs))

ok_pair :
    {A B : Type 0} (a b : A) (c d : B)
    → ◌≡◌ {A = Result (A × B)} (ok (a, c)) (ok (b, d))
    → (a ≡ b) × (c ≡ d)
ok_pair a b c d h = (cc, cc)

ok_same : {A : Type 0} (a b : A) → ok a ≡ ok b → a ≡ b
ok_same a b h = cc

-- A page that is stored for the first time is stored elsewhere.
store_page_new :
    (u v new : Text) (pages : Pages) (page : Text)
    → pages v ≡ none
    → pages u ≡ some page
    → store_page v new pages u ≡ some page
unfolding store_page
store_page_new u v new pages page absent has = elim (Bool-cases (same_text u v)) [
  | inl same ↦ absurd (cc (ap pages (same_text_eq u v same)))
  | inr differs ↦ rw differs has
]

-- A map that has a page comes from the file.
opened-holding :
    (file : CacheFile) (pages : Pages) (u page : Text)
    → opened false file ≡ ok pages
    → pages u ≡ some page
    → file ≡ holding pages
unfolding opened
opened-holding missing pages u page h has =
    absurd (cc (ap (λ (q : Pages). q u) (ok_same (λ u. none) pages h)))
opened-holding unreadable pages u page h has = absurd (cc h)
opened-holding (holding kept) pages u page h has = ap holding (ok_same kept pages h)

module _ {S : Type 0} ⦃w : World S⦄ (lasting : IsLasting w) where
  -- The file has the page.
  Keeps : Text → Text → S → Type 0
  Keeps u page s = (pages : Pages) × (w.cache s ≡ holding pages) × (pages u ≡ some page)

  -- A request for a page that was not kept: none came, or the map was saved with it.
  IsFetched : Pages → Text → S → Option Text → S → Type 0
  IsFetched pages v s r t =
      ((r ≡ none) × (t ≡ s))
      ⊎ ((new : Text) × (r ≡ some new) × (w.save s (store_page v new pages) ≡ some t))

  stored-IsFetched :
      (s t : S) (pages : Pages) (v new : Text) (r : Option Text)
      → stored false pages v s new ≡ ok (r, t)
      → IsFetched pages v s r t
  unfolding stored IsFetched
  stored-IsFetched s t pages v new r h = elim (Option-cases (w.save s (store_page v new pages))) [
    | inl none_saved ↦ absurd (cc (rw none_saved at h))
    | inr (s', saved) ↦
        let (is_new, after) = ok_pair (some new) r s' t (rw saved at h) in
        inr (new, sym is_new, saved ∙ ap some after)
  ]

  fetched-IsFetched :
      (s t : S) (pages : Pages) (v : Text) (o : Option Response) (r : Option Text)
      → fetched false pages v (o, s) ≡ ok (r, t)
      → IsFetched pages v s r t
  unfolding fetched IsFetched
  fetched-IsFetched s t pages v none r h =
      let (is_none, same) = ok_pair none r s t h in inl (sym is_none, sym same)
  fetched-IsFetched s t pages v (some o) r h = elim (Bool-cases (o.status == 200)) [
    | inl found ↦ elim (Option-cases o.body) [
      | inl unread ↦
          let (is_none, same) = ok_pair none r s t (rw (found, unread) at h) in
          inl (sym is_none, sym same)
      | inr (page, read) ↦ stored-IsFetched s t pages v page r (rw (found, read) at h)
    ]
    | inr other ↦ stored-IsFetched s t pages v no_page r (rw other at h)
  ]

  -- What a load did: the page was kept, or it was requested.
  record IsLoaded (s : S) (v : Text) (r : Option Text) (t : S) : Type 0 where
    pages : Pages
    read : opened false (w.cache s) ≡ ok pages
    outcome :
        ((page : Text) × (pages v ≡ some page) × (r ≡ some page) × (t ≡ s))
        ⊎ ((pages v ≡ none) × IsFetched pages v (w.get s v).1 r t)

  load_page-IsLoaded :
      (s t : S) (v : Text) (r : Option Text) → load_page false s v ≡ ok (r, t) → IsLoaded s v r t
  unfolding load_page
  load_page-IsLoaded s t v r h =
      let (pages, read, e) = and_then-eq-ok (opened false (w.cache s)) _ h in
      elim (Option-cases (pages v)) [
        | inl absent ↦ record {
          pages = pages;
          read = read;
          outcome =
              inr (
                absent,
                fetched-IsFetched (w.get s v).1 t pages v (w.get s v).0 r (rw absent at e),
              );
        }
        | inr (page, kept) ↦
            let (is_page, same) = ok_pair (some page) r s t (rw kept at e) in
            record { pages = pages; read = read; outcome = inl (page, kept, sym is_page, sym same) }
      ]

  -- What is saved keeps the pages that are not empty.
  saved-Keeps :
      (s t : S) (pages : Pages) (u : Text) (c : ℕ) (cs : Text)
      → w.save s pages ≡ some t
      → pages u ≡ some (c ∷ cs)
      → Keeps u (c ∷ cs) t
  unfolding Keeps
  saved-Keeps s t pages u c cs saved has =
      let (read, held, kept) = lasting.decoded s t pages saved in (read, held, kept u c cs has)

  load_page-Keeps :
      (s t : S) (u v : Text) (c : ℕ) (cs : Text) (r : Option Text)
      → load_page false s v ≡ ok (r, t)
      → Keeps u (c ∷ cs) s
      → Keeps u (c ∷ cs) t
  unfolding Keeps IsFetched opened
  load_page-Keeps s t u v c cs r h (pages, held, has) =
      let l = load_page-IsLoaded s t v r h in
      let same : pages ≡ l.pages = ok_same pages l.pages (rw held at l.read) in
      elim l.outcome [
        | inl (page, kept, is_page, unchanged) ↦ (pages, rw unchanged held, has)
        | inr (absent, inl (nothing, unchanged)) ↦
            (pages, rw unchanged (lasting.untouched s v ∙ held), has)
        | inr (absent, inr (new, is_new, saved)) ↦ saved-Keeps _ t _ u c cs saved (
            store_page_new u v new l.pages (c ∷ cs) absent
              (ap (λ (q : Pages). q u) (sym same) ∙ has))
      ]

  load_all-Keeps :
      (s t : S) (u : Text) (c : ℕ) (cs : Text) (vs : List Text)
      → load_all false s vs ≡ ok t
      → Keeps u (c ∷ cs) s
      → Keeps u (c ∷ cs) t
  unfolding load_all
  load_all-Keeps s t u c cs [] h k = rw (← ok_same s t h) k
  load_all-Keeps s t u c cs (v ∷ vs) h k =
      let ((r, s'), loaded, rest) = and_then-eq-ok (load_page false s v) _ h in
      load_all-Keeps s' t u c cs vs rest (load_page-Keeps s s' u v c cs r loaded k)

  -- The page that was handed on is kept.
  loaded-Keeps :
      (s t : S) (u : Text) (c : ℕ) (cs : Text)
      → load_page false s u ≡ ok (some (c ∷ cs), t)
      → Keeps u (c ∷ cs) t
  unfolding Keeps IsFetched store_page
  loaded-Keeps s t u c cs h =
      let l = load_page-IsLoaded s t u (some (c ∷ cs)) h in
      elim l.outcome [
        | inl (page, kept, is_page, unchanged) ↦ (
          l.pages,
          ap w.cache unchanged ∙ opened-holding (w.cache s) l.pages u page l.read kept,
          kept ∙ sym is_page,
        )
        | inr (absent, inl (nothing, unchanged)) ↦ absurd (cc nothing)
        | inr (absent, inr (new, is_new, saved)) ↦
            saved-Keeps _ t _ u c cs saved (rw (same_text_refl u) (sym is_new))
      ]

  kept-load_page :
      (s : S) (u page : Text) → Keeps u page s → load_page false s u ≡ ok (some page, s)
  unfolding Keeps load_page opened
  kept-load_page s u page (pages, held, has) = rw (held, has) refl

  -- A page that was once handed to the callback, if it is not empty, is handed to it again after any
  -- other loads, without a request: the state is left as it is. The cache is in use, and the file is
  -- assumed to give back what was written to it, and to be left alone by requests.
  pub load_page-load_all :
      (s s' t : S) (u : Text) (c : ℕ) (cs : Text) (vs : List Text)
      → load_page false s u ≡ ok (some (c ∷ cs), s')
      → load_all false s' vs ≡ ok t
      → load_page false t u ≡ ok (some (c ∷ cs), t)
  load_page-load_all s s' t u c cs vs first others =
      kept-load_page t u (c ∷ cs)
        (load_all-Keeps s' t u c cs vs others (loaded-Keeps s s' u c cs first))
