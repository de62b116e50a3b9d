-- ===== src/Router/Page.antt =====
-- gurtd/src/router/ui.rs: the page of results, which the server renders itself.
pub mod Template
pub mod BuiltIn
pub mod Markup
use google_co.Base.{List, [], ◌∷◌, ◌++◌, if◌then◌else◌, unwrap_or, is_empty}
use google_co.Str.Ascii.{Str, trim}
use google_co.Str.Utf8.{as_bytes}
use google_co.Query.{parse_query}
use google_co.Search.Merge.{SearchResultItem}
use google_co.Api.Status.{okay}
use google_co.Api.Message.{Response}
use google_co.Router.Util.{escape_html}
use google_co.Router.Ui.{html_response}
use google_co.Router.Results.{Backend}
use google_co.Router.Page.Template.{
  item_start, item_link, item_title, item_end, page_start, page_list, page_end,
}

-- An entry, from the texts for its holes.
abbrev pub item_markup : Str → Str → Str
item_markup url etitle =
    item_start ++ (url ++ (item_link ++ (etitle ++ (item_title ++ (url ++ item_end)))))

-- The page, from the text for the query and the entries.
abbrev pub page_markup : Str → Str → Str
page_markup sq items = page_start ++ (sq ++ (page_list ++ (items ++ page_end)))

module _ {Score : Type 0} where
  abbrev pub shown_title : SearchResultItem Score → Str
  shown_title r = if is_empty (trim r.title) then r.url else r.title

  unfoldable pub items_text : List (SearchResultItem Score) → Str
  items_text [] = []
  items_text (r ∷ rs) =
      item_markup (escape_html r.url) (escape_html (shown_title r)) ++ items_text rs

  abbrev pub page_results : Backend Score → Str → List (SearchResultItem Score)
  page_results backend q =
      backend.rescore_and_convert (unwrap_or (backend.search (parse_query q) 1 10) []) 10

  unfoldable pub render_search_ssr : Backend Score → Str → Response
  unfolding html_response items_text
  render_search_ssr backend q =
      html_response okay
        (as_bytes (page_markup (escape_html q) (items_text (page_results backend q))))
