-- ===== src/Router/Page/Template.antt =====
-- gurtd/src/router/ui.rs: the template of the page of results, in the parts between its holes.
use google_co.Base.{List, [], ◌∷◌, ◌++◌}
use google_co.Str.Ascii.{Str, codes}
use google_co.Str.Split.{join}

abbrev in_lines : List Str → Str
in_lines ls = join ls (10 ∷ [])

unfoldable pub item_start : Str
item_start = in_lines (
    (codes "<li style=\"w-full rounded border border-[#202637] bg-[#0f1526] "
      ++ codes "hover:bg-[#111a2e] p-3 flex flex-col\">")
    ∷ codes "                <a href=\""
    ∷ [])

unfoldable pub item_link : Str
item_link = codes "\" style=\"text-[#e6e6f0] hover:text-[#6366f1] font-bold\">"

unfoldable pub item_title : Str
item_title =
    in_lines (codes "</a>" ∷ codes "                <p style=\"text-sm text-[#808080] mt-1\">" ∷ [])

unfoldable pub item_end : Str
item_end = in_lines (codes "</p>" ∷ codes "            </li>" ∷ [])

unfoldable pub page_start : Str
page_start = in_lines (
    codes "<head><meta charset=\"utf-8\"/>"
    ∷ (codes "  <font name=\"playfair\" "
        ++ codes "src=\"https://fonts.gstatic.com/l/font?kit=nuFiD-vYSZviVYUb_rj3ij__anPXPT7KnEkQ"
        ++ codes "2Fo0XcXumgW2Kb6JkDjEdDrmYdycAeI\" /><title>Results - ")
    ∷ [])

unfoldable pub page_list : Str
page_list = in_lines (
    codes "</title></head>"
    ∷ codes "                "
    ∷ codes "<body style=\"bg-[#1a1a1a] text-[#d9d9d9] font-sans\">"
    ∷ (codes "  <div style=\"max-w-[1600px] mx-auto p-8 flex flex-col items-center "
        ++ codes "justify-center gap-16 h-full\">")
    ∷ codes "    <h1 style=\"text-4xl font-bold font-playfair\">google.co</h1>"
    ∷ codes "    <form id=\"qform\" style=\"flex items-center gap-2\">"
    ∷ (codes "      <input id=\"value\" name=\"q\" type=\"text\" placeholder=\"Search...\" "
        ++ codes "autofocus autocomplete=\"off\" style=\"w-30 flex-1 min-w-0 p-3 bg-[#303030] "
        ++ codes "text-[#e6e6f0] rounded border border-[#353535]\" />")
    ∷ (codes "      <button type=\"submit\" id=\"submit\" style=\"bg-[#a0a0a0] text-[#1a1a1a] "
        ++ codes "rounded px-5 py-3\">Search</button>")
    ∷ codes "    </form>"
    ∷ (codes "    <ul id=\"results\" style=\"mt-4 flex flex-col gap-2 items-stretch w-full "
        ++ codes "list-none m-0 p-0\">")
    ∷ [])

unfoldable pub page_end : Str
page_end = in_lines (
    codes "</ul>"
    ∷ codes "    <div style=\"inline-flex gap-4 text-xs text-[#808080] mt-40\">"
    ∷ (codes "      <a href=\"/domains\" style=\"hover:text-[#6366f1] text-xs "
        ++ codes "text-[#808080]\">Submit a domain</a>")
    ∷ codes "      <span style=\"text-xs text-[#808080]\">•</span>"
    ∷ (codes "      <a href=\"/domains\" style=\"hover:text-[#6366f1] text-xs "
        ++ codes "text-[#808080]\">ToS</a>")
    ∷ codes "      <span style=\"text-xs text-[#808080]\">•</span>"
    ∷ (codes "      <a href=\"/domains\" style=\"hover:text-[#6366f1] text-xs "
        ++ codes "text-[#808080]\">Help</a>")
    ∷ codes "      <span style=\"text-xs text-[#808080]\">•</span>"
    ∷ (codes "      <a href=\"/domains\" style=\"hover:text-[#6366f1] text-xs "
        ++ codes "text-[#808080]\">Docs</a>")
    ∷ codes "      <span style=\"text-xs text-[#808080]\">•</span>"
    ∷ (codes "      <a href=\"/domains\" style=\"hover:text-[#6366f1] text-xs "
        ++ codes "text-[#808080]\">Stats</a>")
    ∷ codes "      <span style=\"text-xs text-[#808080]\">•</span>"
    ∷ (codes "      <a href=\"/domains\" style=\"hover:text-[#6366f1] text-xs "
        ++ codes "text-[#808080]\">Platform Status</a>")
    ∷ codes "    </div>"
    ∷ codes "  </div>"
    ∷ codes "  <script type=\"text/lua\" src=\"/assets/utils.lua\"></script>"
    ∷ codes "  <script type=\"text/lua\" src=\"/assets/app.lua\"></script>"
    ∷ codes "</body>"
    ∷ [])
