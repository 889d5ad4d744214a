-- ===== src/Links/Cache.antt =====
-- The cache of previews, and the texts of a preview, of linkpreview.rs.
use lqxp.Common.{
  ℕ, zero, suc, ◌-◌, ◌*◌, Bool, ◌&&◌, ◌||◌, Option, none, some, List, [], ◌∷◌, ◌++◌, ltb, leb,
  nat_beq, if◌then◌else◌, ◌==◌, length, is_empty, drop, filter, find, contains, unwrap_or, Text,
  text, to_ascii_lowercase, text_Eq,
}
use Prim.Native.String.{String}
use lqxp.Common.Chars.{take_chars, strip_prefix}
use lqxp.Chat.Record.{LinkPreview}

-- Five minutes, in milliseconds.
abbrev pub cache_ttl : ℕ
cache_ttl = 5 * 60 * 1000

abbrev pub max_cached : ℕ
max_cached = 256

-- An entry: the address, when it was fetched, and what came of it.
pub record Entry : Type 0 where
  pub url : Text
  pub at : ℕ
  pub preview : Option LinkPreview

abbrev is_live : ℕ → Entry → Bool
is_live now e = ltb (now - e.at) cache_ttl

-- `Cache::get`, with the entries that stay.
unfoldable pub cache_get : Text → ℕ → List Entry → Option (Option LinkPreview) × List Entry
unfolding find filter
cache_get url now entries =
    let live = filter (λ e. is_live now e) entries in
    (elim (find (λ (e : Entry). e.url == url) live) [ none ↦ none | some e ↦ some e.preview ], live)

-- `Cache::put`
unfoldable pub cache_put : Text → Option LinkPreview → ℕ → List Entry → List Entry
unfolding filter
cache_put url preview now entries =
    let live = filter (λ e. is_live now e) entries in
    let kept = if leb max_cached (length live) then drop 1 live else live in
    kept ++ record { url = url; at = now; preview = preview } ∷ []

-- `str::replace`; `skip` counts the bytes of a match that are still to be passed over.
replace_from : ℕ → Text → Text → Text → Text
replace_from skip from to [] = []
replace_from (suc skip) from to (c ∷ s) = replace_from skip from to s
replace_from zero from to (c ∷ s) =
    let after_match = replace_from (length from - 1) from to s in
    let after_char = replace_from zero from to s in
    elim (strip_prefix from (c ∷ s)) [ none ↦ c ∷ after_char | some _ ↦ to ++ after_match ]

replace : String → Text → Text → Text
unfolding replace_from text
replace from to s = replace_from 0 (text from) to s

unfoldable pub decode_html_entities : Text → Text
unfolding replace
decode_html_entities s =
    let amp = replace "&amp;" (b'&' ∷ []) s in
    let lt = replace "&lt;" (b'<' ∷ []) amp in
    let gt = replace "&gt;" (b'>' ∷ []) lt in
    let quot = replace "&quot;" (b'"' ∷ []) gt in
    let n39 = replace "&#39;" (39 ∷ []) quot in
    let x27 = replace "&#x27;" (39 ∷ []) n39 in
    let apos = replace "&apos;" (39 ∷ []) x27 in replace "&nbsp;" (b' ' ∷ []) apos

-- What follows the first occurrence of a text.
after_first : Text → Text → Text → Option Text
after_first needle [] original = strip_prefix needle []
after_first needle (c ∷ s) original =
    let later = after_first needle s (drop 1 original) in
    elim (strip_prefix needle (c ∷ s)) [
      | none ↦ later
      | some _ ↦ some (drop (length needle) original)
    ]

until : ℕ → Text → Option Text
until q [] = none
until q (c ∷ s) =
    let rest = until q s in
    if nat_beq c q then some [] else elim rest [ none ↦ none | some found ↦ some (c ∷ found) ]

quoted : (Text → Text) → Option Text → Option Text
unfolding decode_html_entities until
quoted trim none = none
quoted trim (some []) = none
quoted trim (some (q ∷ value)) =
    if nat_beq q b'"' || nat_beq q 39
    then elim (until q value) [
      | none ↦ none
      | some inner ↦ some (trim (decode_html_entities inner))
    ]
    else none

-- The attribute is looked for in the tag in lower case, and read in the tag itself.
unfoldable pub extract_attr : (Text → Text) → Text → Text → Option Text
unfolding quoted after_first
extract_attr trim tag attr =
    quoted trim (after_first (attr ++ b'=' ∷ []) (to_ascii_lowercase tag) tag)

abbrev pub truncate : Text → ℕ → Text
truncate s max_chars = take_chars max_chars s

-- What one `<meta>` tag adds: its property, its content, and the content as an address.
is_one_of : Text → List Text → Bool
is_one_of s names = contains names s

module _ (trim : Text → Text) (join : Text → Option Text) where
  tag_property : Text → Text
  unfolding extract_attr text
  tag_property tag = to_ascii_lowercase (
      unwrap_or
        (elim (extract_attr trim tag (text "property")) [
          | some p ↦ some p
          | none ↦ extract_attr trim tag (text "name")
        ])
        [])

  with_content : Text → Text → LinkPreview → LinkPreview
  unfolding is_one_of text
  with_content prop content preview =
      if is_one_of prop (text "og:title" ∷ text "twitter:title" ∷ []) && is_empty preview.title
      then record preview { title = truncate content 300 }
      else if is_one_of prop
            (text "og:description" ∷ text "twitter:description" ∷ text "description" ∷ [])
          && is_empty preview.description
      then record preview { description = truncate content 500 }
      else if is_one_of prop
            (text "og:image" ∷ text "twitter:image" ∷ text "twitter:image:src" ∷ [])
          && is_empty preview.image
      then elim (join content) [
        | none ↦ preview
        | some resolved ↦ record preview { image = truncate resolved 600 }
      ]
      else if (prop == text "og:site_name") && is_empty preview.site_name
      then record preview { site_name = truncate content 80 }
      else preview

  add_tags : List Text → LinkPreview → LinkPreview
  unfolding with_content tag_property extract_attr text
  add_tags [] preview = preview
  add_tags (tag ∷ tags) preview =
      let content = unwrap_or (extract_attr trim tag (text "content")) [] in
      if is_empty content
      then add_tags tags preview
      else add_tags tags (with_content (tag_property tag) content preview)

  -- `parse_og`: `tags` are the matches of the pattern for a `<meta>` tag, `title` is what the pattern
  -- for `<title>` captures, `join` resolves an address on the page and keeps http and https ones.
  unfoldable pub parse_og : Text → Text → List Text → Option Text → Option LinkPreview
  unfolding add_tags decode_html_entities
  parse_og url host tags title =
      let empty : LinkPreview = record {
        url = url;
        title = [];
        description = [];
        image = [];
        site_name = [];
      } in
      let read = add_tags tags empty in
      let titled =
        if is_empty read.title
        then elim title [
          | none ↦ read
          | some t ↦ record read { title = truncate (decode_html_entities (trim t)) 300 }
        ]
        else read in
      let named =
        if is_empty titled.site_name then record titled { site_name = host } else titled in
      if is_empty named.title && (is_empty named.description && is_empty named.image)
      then none
      else some named
