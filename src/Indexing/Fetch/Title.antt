-- ===== src/Indexing/Fetch/Title.antt =====
-- gurtd/src/indexing/fetch.rs: the title of a page. The lower-case text has the same positions.
use google_co.Base.{
  ℕ, ◌+◌, ◌≡◌, sym, ◌∙◌, List, [], ◌∷◌, if◌then◌else◌, Option, none, some, is_empty, take, drop,
  All, eq_of_some, none≢some,
}
use google_co.Str.Ascii.{Str, codes, trim, to_ascii_lowercase}
use google_co.Str.Search.{find, find_char}
use google_co.Str.Split.{split_whitespace, join, split_whitespace-NoSpace}
use google_co.Str.Split.Words.{IsWord, join_cons, trim-join}

abbrev title_text : Str → Option Str
title_text slice =
    let trimmed = trim (join (split_whitespace slice) (32 ∷ [])) in
    if is_empty trimmed then none else some trimmed

abbrev title_end : Str → ℕ → Option ℕ → Option Str
title_end html content_start none = none
title_end html content_start (some end_rel) = title_text (take end_rel (drop content_start html))

abbrev title_content : Str → Str → ℕ → Option ℕ → Option Str
title_content html low start none = none
title_content html low start (some gt) =
    let content_start = start + gt + 1 in
    title_end html content_start (find (drop content_start low) (codes "</title>"))

abbrev title_start : Str → Str → Option ℕ → Option Str
title_start html low none = none
title_start html low (some start) = title_content html low start (find_char (drop start low) b'>')

unfoldable pub extract_title : Str → Option Str
extract_title html =
    let low = to_ascii_lowercase html in title_start html low (find low (codes "<title"))

-- A title: words joined by single spaces, one word at least.
abbrev pub IsTitle : Str → Type 0
IsTitle t = (w : Str) × (ws : List Str) × All IsWord (w ∷ ws) × (t ≡ join (w ∷ ws) (32 ∷ []))

title_text-IsTitle : (slice t : Str) → title_text slice ≡ some t → IsTitle t
unfolding join trim
title_text-IsTitle slice t = by_words (split_whitespace slice) (split_whitespace-NoSpace slice)
  where
    by_words :
        (ws : List Str)
        → All IsWord ws
        → (if is_empty (trim (join ws (32 ∷ []))) then none else some (trim (join ws (32 ∷ []))))
          ≡ some t
        → IsTitle t
    by_words [] h = λ e. absurd (none≢some e)
    by_words ((c ∷ w) ∷ ws) h =
        let (rest, e) = join_cons c w ws in
        rw (trim-join c w ws h, e) (λ k. (c ∷ w, ws, h, sym (eq_of_some k) ∙ sym e))
    by_words ([] ∷ ws) h = cc h.0.1

-- A title that is found is made of words without whitespace, joined by single spaces, and has at least
-- one; whatever the page is.
pub extract_title-IsTitle : (html t : Str) → extract_title html ≡ some t → IsTitle t
unfolding extract_title
extract_title-IsTitle html t = started (find (to_ascii_lowercase html) (codes "<title"))
  where
    low : Str
    low = to_ascii_lowercase html

    ended : (at : ℕ) (o : Option ℕ) → title_end html at o ≡ some t → IsTitle t
    ended at none = λ e. absurd (none≢some e)
    ended at (some n) = title_text-IsTitle (take n (drop at html)) t

    opened : (at : ℕ) (o : Option ℕ) → title_content html low at o ≡ some t → IsTitle t
    opened at none = λ e. absurd (none≢some e)
    opened at (some n) = ended (at + n + 1) (find (drop (at + n + 1) low) (codes "</title>"))

    started : (o : Option ℕ) → title_start html low o ≡ some t → IsTitle t
    started none = λ e. absurd (none≢some e)
    started (some n) = opened n (find_char (drop n low) b'>')
