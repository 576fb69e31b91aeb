-- ===== src/Generator/Fetch.antt =====
-- tools/io_elements_gen.go: `loadPage`, which keeps pages in a file.
pub mod Kept
use teltonika.Prelude.{
  ℕ, Bool, true, false, not, Option, none, some, List, [], ◌∷◌, ◌==◌, if◌then◌else◌, Result, ok,
  err, and_then, cache_unusable,
}
use teltonika.IoElements.{Text, same_text}

-- `decodedMap`: the function of its lookups.
abbrev pub Pages : Type 0
Pages = Text → Option Text

-- The cache file: not there, not to be opened or decoded, or what is decoded from it.
pub data CacheFile : Type 0 where
  missing : CacheFile
  unreadable : CacheFile
  holding : Pages → CacheFile

-- A response, whose body may fail to be read.
pub record Response : Type 0 where
  pub status : ℕ
  pub body : Option Text

-- net/http and the file system, on a state of both. A request that gets no response is `none`, and
-- so is a file that is not written.
pub record World (S : Type 0) : Type 0 where
  pub get : S → Text → Option Response × S
  pub cache : S → CacheFile
  pub save : S → Pages → Option S

-- `decodedMap[url] = data`
unfoldable pub store_page : Text → Text → Pages → Pages
store_page url page pages u = if same_text u url then some page else pages u

abbrev pub no_page : Text
no_page =
    b'<' ∷ b'h' ∷ b't' ∷ b'm' ∷ b'l' ∷ b'>' ∷ b'<' ∷ b'/' ∷ b'h' ∷ b't' ∷ b'm' ∷ b'l' ∷ b'>' ∷ []

-- The map is read, unless the option says otherwise or there is no file; log.Fatal is an error here.
unfoldable pub opened : Bool → CacheFile → Result Pages
opened true file = ok (λ u. none)
opened false missing = ok (λ u. none)
opened false unreadable = err cache_unusable
opened false (holding pages) = ok pages

module _ {S : Type 0} ⦃w : World S⦄ (no_cache : Bool) where
  -- A new page is stored and handed to the callback.
  unfoldable pub stored : Pages → Text → S → Text → Result (Option Text × S)
  stored pages url s page =
      if no_cache then ok (some page, s) else elim (w.save s (store_page url page pages)) [
        | none ↦ err cache_unusable
        | some s' ↦ ok (some page, s')
      ]

  unfoldable pub fetched : Pages → Text → Option Response × S → Result (Option Text × S)
  fetched pages url (none, s) = ok (none, s)
  fetched pages url (some r, s) =
      if not (r.status == 200)
      then stored pages url s no_page
      else elim r.body [ none ↦ ok (none, s) | some page ↦ stored pages url s page ]

  -- The page that the callback is given, if there is one, and the state behind the call.
  unfoldable pub load_page : S → Text → Result (Option Text × S)
  load_page s url = and_then (opened no_cache (w.cache s)) λ pages. elim (pages url) [
    | some page ↦ ok (some page, s)
    | none ↦ fetched pages url (w.get s url)
  ]

  -- One load after another, for what they leave behind.
  unfoldable pub load_all : S → List Text → Result S
  load_all s [] = ok s
  load_all s (u ∷ us) = and_then (load_page s u) (λ r. load_all r.1 us)
