-- ===== src/Crawler/Fetches.antt =====
-- gurtd/src/crawler/robots.rs and sitemap.rs: robots.txt and the site map of a domain, fetched by the
-- crawler client with one retry.
use google_co.Base.{ℕ, List, [], ◌++◌, if◌then◌else◌, ltb, leb, Bool, ◌&&◌, Option, none, some}
use google_co.Base.Results.{Result, ok, err}
use google_co.Str.Ascii.{Str, Bytes, codes}
use google_co.Str.Utf8.{from_utf8}
use google_co.Crawler.Client.{ClientError, ClientResponse, fetch_with_retries}
use google_co.Crawler.Robots.{Duration, RobotsTxt, parse}
use google_co.Crawler.Sitemap.{parse_sitemap_xml}

abbrev is_found : ClientResponse → Bool
is_found r = leb 200 r.code && ltb r.code 300

-- `String::from_utf8(body).unwrap_or_default()`
abbrev text_of : Bytes → Str
text_of body = elim (from_utf8 body) [ none ↦ [] | some t ↦ t ]

abbrev found_text : Result ClientError ClientResponse → Option Str
found_text (err e) = none
found_text (ok r) = if is_found r then some (text_of r.body) else none

-- What each attempt at an address returns, by the client.
abbrev pub Client : Type 0
Client = Str → ℕ → Result ClientError ClientResponse

abbrev pub gurt_url : Str → Str → Str
gurt_url domain path = codes "gurt://" ++ domain ++ path

abbrev fetched_text : Client → Str → Option Str
fetched_text client url = found_text (fetch_with_retries (client url) 1).result

-- `secs_f64` is the parser of seconds in floating point.
module _ (secs_f64 : Str → Option (Option Duration)) where
  abbrev robots_of : Option Str → Option (Option RobotsTxt)
  robots_of none = some none
  robots_of (some body) = elim (parse secs_f64 body) [ none ↦ none | some r ↦ some (some r) ]

  -- `none` is a panic of the parser, `some none` a missing file.
  unfoldable pub fetch_for_domain : Client → Str → Option (Option RobotsTxt)
  unfolding fetch_with_retries
  fetch_for_domain client domain =
      robots_of (fetched_text client (gurt_url domain (codes "/robots.txt")))

abbrev urls_of : Option Str → Option (List Str)
urls_of none = some []
urls_of (some body) = parse_sitemap_xml body

-- `none` is fuel that ran out.
unfoldable pub fetch_sitemap_urls : Client → Str → Option (List Str)
unfolding fetch_with_retries
fetch_sitemap_urls client domain =
    urls_of (fetched_text client (gurt_url domain (codes "/sitemap.xml")))
