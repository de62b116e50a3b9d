-- ===== src/Crawler/Robots/Rules.antt =====
-- The longest matching rule decides, and at equal length the one that allows.
use google_co.Base.{
  ℕ, ◌<◌, ◌≡◌, refl, ap, ◌∙◌, arith, true, false, ◌&&◌, List, [], ◌∷◌, leb, if◌then◌else◌, Option,
  none, some, is_empty, length, max, length-append,
}
use google_co.Str.Ascii.{Str}
use google_co.Str.Search.{starts_with}
use google_co.Str.Length.{str_len}
use google_co.Str.Utf8.{as_bytes, utf8}
use google_co.Crawler.Robots.{
  AgentGroup, Rule, allow, disallow, pattern_of, test_rule, test_rules, most_specific_rule, verdict,
}

-- The length of a pattern that is not empty and with which the path begins.
abbrev pub matching_len : Str → Str → ℕ
matching_len path p = if is_empty p then 0 else if starts_with path p then str_len p else 0

-- The length of the longest of these patterns that match.
unfoldable pub longest : Str → List Str → ℕ
longest path [] = 0
longest path (p ∷ ps) = max (matching_len path p) (longest path ps)

abbrev len_of : Option Rule → ℕ
len_of none = 0
len_of (some r) = str_len (pattern_of r)

str_len_pos : (s : Str) → is_empty s ≡ false → 0 < str_len s
unfolding str_len
str_len_pos [] h = cc
str_len_pos (c ∷ s) h = omega (arith, one_byte, length-append (utf8 c) (as_bytes s))
  where
    one_byte : 0 < length (utf8 c)
    one_byte = unfold utf8 in ground arith

module _ (path : Str) where
  len_of-test_allow :
      (p : Str) (best : Option Rule)
      → len_of (test_rule path (allow p) best) ≡ max (len_of best) (matching_len path p)
  unfolding test_rule
  len_of-test_allow p none = ground arith
  len_of-test_allow p (some (allow q)) = ground arith
  len_of-test_allow p (some (disallow q)) = ground arith

  verdict-test_allow :
      (p : Str) (best : Option Rule)
      → verdict best ≡ true
      → verdict (test_rule path (allow p) best) ≡ true
  unfolding test_rule
  verdict-test_allow p best h = ground arith

  test_allows :
      (ps : List Str) (best : Option Rule)
      → verdict best ≡ true
      → (verdict (test_rules path allow ps best) ≡ true)
        × (len_of (test_rules path allow ps best) ≡ max (len_of best) (longest path ps))
  unfolding test_rules longest
  test_allows [] best h = (h, omega arith)
  test_allows (p ∷ ps) best h =
      let (v, l) = test_allows ps (test_rule path (allow p) best) (verdict-test_allow p best h) in
      (v, omega (arith, l, len_of-test_allow p best))

  -- One rule that disallows: either it loses, or it ends the verdict.
  test_disallow :
      (p : Str) (best : Option Rule) (n : ℕ)
      → (verdict (test_rule path (disallow p) best)
          && leb n (len_of (test_rule path (disallow p) best)))
        ≡ (verdict best && leb (max (matching_len path p) n) (len_of best))
  unfolding test_rule
  test_disallow p none n = ground (arith, str_len_pos p)
  test_disallow p (some (allow q)) n = ground (arith)
  test_disallow p (some (disallow q)) n = ground arith

  test_disallows :
      (ps : List Str) (best : Option Rule)
      → verdict (test_rules path disallow ps best)
        ≡ (verdict best && leb (longest path ps) (len_of best))
  unfolding test_rules longest
  test_disallows [] best = ground arith
  test_disallows (p ∷ ps) best =
      test_disallows ps (test_rule path (disallow p) best) ∙ test_disallow p best (longest path ps)

-- A group allows a path exactly when no matching `Disallow` is longer than every matching `Allow`.
pub verdict-most_specific_rule :
    (g : AgentGroup) (path : Str)
    → verdict (most_specific_rule g path) ≡ leb (longest path g.disallow) (longest path g.allow)
unfolding most_specific_rule
verdict-most_specific_rule g path =
    let (v, l) = test_allows path g.allow none refl in
    test_disallows path g.disallow (test_rules path allow g.allow none)
    ∙ (rw (v, l) (ap (leb (longest path g.disallow)) (omega arith)))
