-- ===== src/Server/Uri.antt =====
-- server/uri.go. `path.Join`, `url.Values.Encode`, `url.Parse` and `url.URL.String` are of Go's library; the
-- last is taken as a function of the path and the raw query.
use myrpc.Base.{
  Bytes, codes, List, [], ◌∷◌, ◌++◌, has_prefix, is_empty, Option, none, some, if◌then◌else◌,
}
use myrpc.Common.Errors.{Error, message}
use myrpc.Common.Names.{snake_string}
use myrpc.Server.Context.{Query}
use myrpc.Server.Slices.{Slice, Heap, elements, map_in_place}

pub record Urls : Type 0 where
  pub join : List Bytes → Bytes
  pub encode : Query → Bytes
  pub string : Bytes → Bytes → Bytes

module _ (urls : Urls) where
  abbrev pub rooted : Bytes → Bytes
  rooted path = if has_prefix path (codes "/") then path else codes "/" ++ path

  -- The URI of the segments, which have been spelled.
  abbrev pub uri_of : Query → List Bytes → Bytes
  uri_of [] segments = urls.string (rooted (urls.join segments)) []
  uri_of (q ∷ query) segments = urls.string (rooted (urls.join segments)) (urls.encode (q ∷ query))

  -- `(*URLFormat).URIEncode`, which spells the segments in the array of its caller. Its loop goes
  -- through them from the last, each on its own.
  unfoldable pub uri_encode : Query → Slice → Heap → Bytes × Heap
  uri_encode query segments h =
      let h' = map_in_place snake_string segments h in (uri_of query (elements h' segments), h')

-- `(*URLFormat).URIParse`; `parse` is what `url.Parse` gives, as the path and the query of its URL.
unfoldable pub uri_parse : (Bytes → Option (Bytes × Query)) → Bytes → Bytes × Query × Option Error
uri_parse parse uri = if is_empty uri then ([], [], none) else elim (parse uri) [
  | none ↦
      ([], [], some (message (codes "The URI '" ++ (uri ++ codes "' is not formatted correctly"))))
  | some (path, query) ↦ (path, query, none)
]
