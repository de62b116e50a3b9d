-- ===== src/Router/Page/BuiltIn.antt =====
-- gurtd/src/router/ui.rs: the pages that are built in. The literals are raw, so the backslashes before the
-- quotes are part of the pages.
use google_co.Base.{List, [], ◌∷◌, ◌++◌}
use google_co.Str.Ascii.{Str, codes}
use google_co.Str.Split.{join}

abbrev in_lines : List Str → Str
in_lines ls = join ls (10 ∷ [])

unfoldable pub default_index_html : Str
default_index_html = in_lines (
    codes "<head>"
    ∷ codes "  <meta charset=\\\"utf-8\\\" />"
    ∷ codes "  <title>Gurted Search</title>"
    ∷ codes "  <style>"
    ∷ codes "    body { bg-[#0b0f19] text-[#e6e6f0] font-sans }"
    ∷ codes "    a { text-[#e6e6f0] hover:text-[#6366f1] }"
    ∷ codes "    ul { list-none }"
    ∷ codes "  </style>"
    ∷ codes "  </head>"
    ∷ codes "  <body style=\\\"bg-[#0b0f19] text-[#e6e6f0]\\\">"
    ∷ codes "  <div style=\\\"max-w-[800px] mx-auto p-4 flex flex-col gap-4\\\">"
    ∷ codes "    <h1 style=\\\"text-3xl text-[#6366f1] font-bold\\\">Gurted Search</h1>"
    ∷ codes "    <form id=\\\"qform\\\" style=\\\"flex gap-2\\\">"
    ∷ (codes "      <input id=\\\"q\\\" type=\\\"text\\\" placeholder=\\\"Search...\\\" autofocus "
        ++ codes "style=\\\"flex w-full p-2 bg-[#0f1526] text-[#e6e6f0] rounded border "
        ++ codes "border-[#202637]\\\" />")
    ∷ (codes "      <button type=\\\"submit\\\" style=\\\"bg-[#6366f1] text-white rounded px-4 "
        ++ codes "py-2 hover:bg-[#4f46e5]\\\">Search</button>")
    ∷ codes "    </form>"
    ∷ codes "  </div>"
    ∷ codes "  <script type=\\\"text/lua\\\" src=\\\"/assets/app.lua\\\"></script>"
    ∷ codes "  </body>"
    ∷ []
    ∷ [])

unfoldable pub default_search_html : Str
default_search_html = in_lines (
    codes "<head>"
    ∷ codes "  <meta charset=\\\"utf-8\\\" />"
    ∷ codes "  <title>Gurted Search - Results</title>"
    ∷ codes "  <style>"
    ∷ codes "    body { bg-[#0b0f19] text-[#e6e6f0] font-sans }"
    ∷ codes "    a { text-[#e6e6f0] hover:text-[#6366f1] }"
    ∷ codes "    ul { list-none }"
    ∷ codes "  </style>"
    ∷ codes "</head>"
    ∷ codes "<body style=\\\"bg-[#0b0f19] text-[#e6e6f0]\\\">"
    ∷ codes "  <div style=\\\"max-w-[800px] mx-auto p-4 flex flex-col gap-4\\\">"
    ∷ codes "    <h1 style=\\\"text-3xl text-[#6366f1] font-bold\\\">Results</h1>"
    ∷ codes "    <form id=\\\"qform\\\" style=\\\"flex gap-2\\\">"
    ∷ (codes "      <input id=\\\"q\\\" type=\\\"text\\\" placeholder=\\\"Search...\\\" autofocus "
        ++ codes "style=\\\"flex w-full p-2 bg-[#0f1526] text-[#e6e6f0] rounded border "
        ++ codes "border-[#202637]\\\" />")
    ∷ (codes "      <button type=\\\"submit\\\" style=\\\"bg-[#6366f1] text-white rounded px-4 "
        ++ codes "py-2 hover:bg-[#4f46e5]\\\">Search</button>")
    ∷ codes "    </form>"
    ∷ codes "    <ul id=\\\"results\\\" style=\\\"mt-4 flex flex-col gap-2\\\"></ul>"
    ∷ codes "  </div>"
    ∷ codes "  <script type=\\\"text/lua\\\" src=\\\"/assets/app.lua\\\"></script>"
    ∷ codes "  </body>"
    ∷ []
    ∷ [])

unfoldable pub default_domains_html : Str
default_domains_html = in_lines (
    codes "<head>"
    ∷ codes "  <meta charset=\\\"utf-8\\\" />"
    ∷ codes "  <title>Submit Domain - Gurted Search</title>"
    ∷ codes "  <style>"
    ∷ codes "    body { bg-[#0b0f19] text-[#e6e6f0] font-sans }"
    ∷ codes "    a { text-[#e6e6f0] hover:text-[#6366f1] }"
    ∷ codes "    input { bg-[#0f1526] text-[#e6e6f0] }"
    ∷ codes "  </style>"
    ∷ codes "</head>"
    ∷ codes "<body style=\\\"bg-[#0b0f19] text-[#e6e6f0]\\\">"
    ∷ codes "  <div style=\\\"max-w-[720px] mx-auto p-4 flex flex-col gap-4\\\">"
    ∷ codes "    <h1 style=\\\"text-3xl text-[#6366f1] font-bold\\\">Submit a Domain</h1>"
    ∷ codes "    <p>Share a gurt:// domain to enqueue it for indexing.</p>"
    ∷ codes "    <form id=\\\"domain-form\\\" style=\\\"flex gap-2 items-center\\\">"
    ∷ (codes "      <input id=\\\"domain\\\" type=\\\"text\\\" placeholder=\\\"example.real\\\" "
        ++ codes "autocomplete=\\\"off\\\" style=\\\"flex-1 min-w-0 p-2 rounded border "
        ++ codes "border-[#202637] focus:ring-2 ring-[#4f46e5]\\\" />")
    ∷ (codes "      <button type=\\\"submit\\\" style=\\\"bg-[#6366f1] text-white rounded px-4 "
        ++ codes "py-2 hover:bg-[#4f46e5]\\\">Submit</button>")
    ∷ codes "    </form>"
    ∷ codes "    <div id=\\\"status\\\" style=\\\"min-h-[24px]\\\"></div>"
    ∷ codes "    <a href=\\\"/\\\" style=\\\"text-sm text-[#9ca3af]\\\">Back to search</a>"
    ∷ codes "  </div>"
    ∷ codes "  <script type=\\\"text/lua\\\" src=\\\"/assets/utils.lua\\\"></script>"
    ∷ codes "  <script type=\\\"text/lua\\\" src=\\\"/assets/domains.lua\\\"></script>"
    ∷ codes "</body>"
    ∷ []
    ∷ [])
