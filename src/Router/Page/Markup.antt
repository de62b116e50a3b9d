-- ===== src/Router/Page/Markup.antt =====
-- The query and the hits add no markup to the page of results.
use google_co.Base.{
  ℕ, ◌+◌, ◌*◌, ◌≡◌, refl, ◌∙◌, ap, arith, Bool, true, false, ◌==◌, ◌||◌, List, [], ◌∷◌, ◌++◌,
  length, All,
}
use google_co.Str.Ascii.{Str}
use google_co.Str.Bag.{tick}
use google_co.Str.Utf8.{as_bytes}
use google_co.Search.Merge.{SearchResultItem}
use google_co.Router.Util.{IsInert, escape_html, escape_html-All}
use google_co.Router.Ui.{html_response}
use google_co.Router.Results.{Backend}
use google_co.Router.Page.Template.{
  item_start, item_link, item_title, item_end, page_start, page_list, page_end,
}
use google_co.Router.Page.{
  item_markup, page_markup, shown_title, items_text, page_results, render_search_ssr,
}

-- How often a character stands in a text.
unfoldable pub occurrences : ℕ → Str → ℕ
occurrences c [] = 0
occurrences c (d ∷ s) = tick (d == c) + occurrences c s

-- A character that opens or closes a tag, or ends an attribute value.
abbrev pub is_markup : ℕ → Bool
is_markup c = (c == b'<') || (c == b'>') || (c == b'"') || (c == 39)

occurrences-append :
    (c : ℕ) (s t : Str) → occurrences c (s ++ t) ≡ occurrences c s + occurrences c t
unfolding occurrences
occurrences-append c [] t = omega arith
occurrences-append c (d ∷ s) t = omega (arith, occurrences-append c s t)

inert_not : (c d : ℕ) → is_markup c ≡ true → IsInert d → (d == c) ≡ false
inert_not c d h k = ground arith

inert-occurrences : (c : ℕ) (s : Str) → is_markup c ≡ true → All IsInert s → occurrences c s ≡ 0
unfolding occurrences
inert-occurrences c [] h k = refl
inert-occurrences c (d ∷ s) h (k, l) = rw (inert_not c d h k, inert-occurrences c s h l) refl

module _ (c : ℕ) (h : is_markup c ≡ true) where
  escaped : (s : Str) → occurrences c (escape_html s) ≡ 0
  escaped s = inert-occurrences c (escape_html s) h (escape_html-All s)

  occurrences-item_markup :
      (url etitle : Str)
      → occurrences c url ≡ 0
      → occurrences c etitle ≡ 0
      → occurrences c (item_markup url etitle) ≡ occurrences c (item_markup [] [])
  occurrences-item_markup url etitle u t = omega (
    arith,
    u,
    t,
    occurrences-append c item_start
        (url ++ (item_link ++ (etitle ++ (item_title ++ (url ++ item_end))))),
    occurrences-append c url (item_link ++ (etitle ++ (item_title ++ (url ++ item_end)))),
    occurrences-append c item_link (etitle ++ (item_title ++ (url ++ item_end))),
    occurrences-append c etitle (item_title ++ (url ++ item_end)),
    occurrences-append c item_title (url ++ item_end),
    occurrences-append c url item_end,
    occurrences-append c item_start (item_link ++ (item_title ++ item_end)),
    occurrences-append c item_link (item_title ++ item_end),
    occurrences-append c item_title item_end,
  )

  occurrences-page_markup :
      (sq items : Str)
      → occurrences c sq ≡ 0
      → occurrences c (page_markup sq items)
        ≡ occurrences c (page_markup [] []) + occurrences c items
  occurrences-page_markup sq items s = omega (
    arith,
    s,
    occurrences-append c page_start (sq ++ (page_list ++ (items ++ page_end))),
    occurrences-append c sq (page_list ++ (items ++ page_end)),
    occurrences-append c page_list (items ++ page_end),
    occurrences-append c items page_end,
    occurrences-append c page_start (page_list ++ page_end),
    occurrences-append c page_list page_end,
  )

  module _ {Score : Type 0} where
    occurrences-items_text :
        (rs : List (SearchResultItem Score))
        → occurrences c (items_text rs) ≡ length rs * occurrences c (item_markup [] [])
    unfolding items_text occurrences
    occurrences-items_text [] = omega arith
    occurrences-items_text (r ∷ rs) =
        let item =
          occurrences-item_markup (escape_html r.url) (escape_html (shown_title r)) (escaped r.url)
            (escaped (shown_title r)) in
        occurrences-append c (item_markup (escape_html r.url) (escape_html (shown_title r)))
          (items_text rs)
        ∙ grind (arith, item, occurrences-items_text rs)

-- The body of the page of results is a text with as many characters that open or close a tag or end an
-- attribute value, of each kind, as the empty page, and an empty entry for each result, have together;
-- whatever the query, the titles and the URLs are.
pub render_search_ssr-markup :
    {Score : Type 0} (backend : Backend Score) (q : Str) (c : ℕ)
    → is_markup c ≡ true
    → (text : Str) × ((render_search_ssr backend q).body ≡ as_bytes text)
      × (occurrences c text
          ≡ occurrences c (page_markup [] [])
            + length (page_results backend q) * occurrences c (item_markup [] []))
unfolding render_search_ssr html_response
render_search_ssr-markup backend q c h = (
  page_markup (escape_html q) (items_text (page_results backend q)),
  refl,
  occurrences-page_markup c h (escape_html q) (items_text (page_results backend q)) (escaped c h q)
      ∙ ap (λ n. occurrences c (page_markup [] []) + n)
          (occurrences-items_text c h (page_results backend q)),
)
