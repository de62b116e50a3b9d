-- ===== src/Tests/Crawler.antt =====
-- gurtd/src/crawler and gurtd/src/link: robots.txt, sitemaps, links, fetching and rendering.
use google_co.Base.{
  ℕ, zero, suc, ◌≡◌, ◌≢◌, refl, arith, true, false, List, [], ◌∷◌, ◌++◌, Option, none, some, All,
  ◌>>=◌, leb, ◌==◌,
}
use google_co.Base.Results.{Result, ok, err}
use google_co.Str.Ascii.{Str, codes, to_ascii_lowercase}
use google_co.Str.Length.{str_len}
use google_co.Crawler.Robots.{
  AgentGroup, ParseState, Duration, directive, best_group, applies, most_specific_rule, verdict,
  is_allowed, crawl_delay,
}
use google_co.Crawler.Robots.Rules.{longest, verdict-most_specific_rule}
use google_co.Crawler.Robots.Choice.{NoneLonger, NoneApplies, best_group_lem, is_allowed_unnamed}
use google_co.Crawler.Robots.Groups.{has_text, DisallowsFor, later_record_leaks}
use google_co.Crawler.Sitemap.{parse_sitemap_xml}
use google_co.Crawler.Sitemap.Laws.{IsPlain, print_locs, parse_sitemap_xml-print_locs}
use google_co.Crawler.Client.{ClientError, timeout, ClientResponse, fetch_with_retries}
use google_co.Crawler.Client.Retries.{StoppedAt, fetch_with_retries-StoppedAt}
use google_co.Link.Extract.{extract_links, panicked, out_of_fuel}
use google_co.Link.Extract.Laws.{extract_links_total, extract_links_open_quote}

abbrev all_agents : AgentGroup
all_agents = record {
  agent = codes "*";
  allow = codes "/private/open" ∷ [];
  disallow = codes "/private" ∷ [];
  crawl_delay = none;
}

abbrev one_agent : AgentGroup
one_agent = record {
  agent = codes "gurtbot";
  allow = [];
  disallow = codes "/" ∷ [];
  crawl_delay = none;
}

verdict-most_specific_rule_example :
    verdict (most_specific_rule all_agents (codes "/private/open/x"))
    ≡ leb
        (longest (codes "/private/open/x") all_agents.disallow)
        (longest (codes "/private/open/x") all_agents.allow)
verdict-most_specific_rule_example = verdict-most_specific_rule all_agents (codes "/private/open/x")

abbrev bot : Str
bot = codes "gurtbot/1.0"

abbrev both : List AgentGroup
both = all_agents ∷ one_agent ∷ []

bot_group : best_group bot both none ≡ some one_agent
unfolding best_group google_co.Str.Ascii.eq google_co.Str.Search.contains str_len
bot_group = refl

best_group_lem_example :
    (applies bot one_agent ≡ true) × NoneLonger bot (str_len one_agent.agent) both
best_group_lem_example = best_group_lem bot both one_agent bot_group

none_applies : NoneApplies (to_ascii_lowercase (codes "Other")) (one_agent ∷ [])
unfolding google_co.Str.Ascii.eq google_co.Str.Search.contains to_ascii_lowercase
none_applies = (refl, tt)

is_allowed_unnamed_example :
    (is_allowed (record { groups = one_agent ∷ [] }) (codes "Other") (codes "/x")
      ≡ some (leb (longest (codes "/x") one_agent.disallow) (longest (codes "/x") one_agent.allow)))
    × (crawl_delay (record { groups = one_agent ∷ [] }) (codes "Other") ≡ none)
is_allowed_unnamed_example =
    is_allowed_unnamed one_agent [] (codes "Other") (codes "/x") none_applies

abbrev no_fraction : Str → Option (Option Duration)
no_fraction s = none

abbrev named_a : ParseState
named_a = record { groups = []; current_agents = codes "a" ∷ [] }

a_is_named : has_text (codes "a") named_a.current_agents ≡ true
unfolding google_co.Str.Ascii.eq
a_is_named = refl

later_record_leaks_example :
    (st' : ParseState) × ((directive no_fraction (codes "user-agent") (codes "b") named_a
        >>= directive no_fraction (codes "disallow") (codes "/x"))
      ≡ some st')
    × DisallowsFor (codes "a") (codes "/x") st'.groups
later_record_leaks_example =
    later_record_leaks no_fraction (codes "a") (codes "b") (codes "/x") named_a a_is_named

abbrev two_pages : List Str
two_pages = codes "/a" ∷ codes "/b" ∷ []

two_pages-IsPlain : All IsPlain two_pages
unfolding google_co.Str.Ascii.trim
two_pages-IsPlain = (
  (refl, refl, ((λ e. omega arith), ((λ e. omega arith), tt))),
  ((refl, refl, ((λ e. omega arith), ((λ e. omega arith), tt))), tt),
)

parse_sitemap_xml-print_locs_example : parse_sitemap_xml (print_locs two_pages) ≡ some two_pages
parse_sitemap_xml-print_locs_example = parse_sitemap_xml-print_locs two_pages two_pages-IsPlain

extract_links_total_example : extract_links (codes "<a href='gurt://a'>") ≢ out_of_fuel
extract_links_total_example = extract_links_total (codes "<a href='gurt://a'>")

no_quote : All (λ c. c == b'"' ≡ false) (codes "gur")
no_quote = (refl, (refl, (refl, tt)))

extract_links_open_quote_example : extract_links (codes "<a href=\"" ++ codes "gur") ≡ panicked
extract_links_open_quote_example = extract_links_open_quote (codes "gur") no_quote

abbrev page_response : ClientResponse
page_response = record { code = 200; headers = []; body = codes "ok" }

-- The first attempt is late, the second succeeds.
abbrev attempts : ℕ → Result ClientError ClientResponse
attempts zero = err timeout
attempts (suc n) = ok page_response

fetch_with_retries-StoppedAt_example :
    (k : ℕ) × StoppedAt attempts 0 2 k (fetch_with_retries attempts 2)
fetch_with_retries-StoppedAt_example = fetch_with_retries-StoppedAt attempts 2
