-- ===== src/Crawler/Sitemap/Laws.antt =====
-- The scan ends, a printed sitemap is read back, and prioritising only reorders.
use mathlib.Core.List.{Perm, perm_middle}
use mathlib.Core.List.Perm
use google_co.Base.{
  ℕ, zero, suc, ◌+◌, ◌≤◌, ◌<◌, ◌≡◌, ◌≢◌, refl, ap, arith, Bool, true, false, ◌||◌, List, [], ◌∷◌,
  ◌++◌, append-nil, append_assoc, some, is_empty, length, drop, All, any, Option-cases, Bool-cases,
  inl, inr, length-drop, length-append, take-append, All-append, eq_of_some,
}
use google_co.Str.Ascii.{Str, codes, eq, trim}
use google_co.Str.Search.{find, find_char, find-le, find_char-lt, starts_with}
use google_co.Crawler.Sitemap.{
  next_loc, push_url, scan_locs, parse_sitemap_xml, part_by, prioritize_with_sitemap,
}

next_loc_shorter : (s url rest : Str) → next_loc s ≡ some (url, rest) → length rest < length s
unfolding next_loc
next_loc_shorter s url rest e = elim (Option-cases (find s (codes "<loc"))) [
  | inl a ↦ cc (rw a at e)
  | inr (start, a) ↦ elim (Option-cases (find_char (drop start s) b'>')) [
    | inl b ↦ cc (rw (a, b) at e)
    | inr (gt, b) ↦
        let tag = drop (gt + 1) (drop start s) in
        elim (Option-cases (find tag (codes "</loc>"))) [
          | inl c ↦ cc (rw (a, b, c) at e)
          | inr (end, c) ↦
              let same : drop (end + 6) tag ≡ rest =
                ap (λ p. p.1) (eq_of_some (rw (a, b, c) at e)) in
              omega (
                arith,
                ap length same,
                find-le s (codes "<loc") start a,
                find_char-lt (drop start s) b'>' gt b,
                find-le tag (codes "</loc>") end c,
                length-drop start s,
                length-drop (gt + 1) (drop start s),
                length-drop (end + 6) tag,
              )
        ]
  ]
]

push_url-some : (u : Str) (us : List Str) → (vs : List Str) × (push_url u (some us) ≡ some vs)
push_url-some [] us = (us, refl)
push_url-some (c ∷ u) us = ((c ∷ u) ∷ us, refl)

scan_locs_total : (f : ℕ) (s : Str) → length s < f → (us : List Str) × (scan_locs f s ≡ some us)
unfolding scan_locs
scan_locs_total zero s h = absurd (omega arith)
scan_locs_total (suc f) s h = elim (Option-cases (next_loc s)) [
  | inl e ↦ ([], rw e refl)
  | inr ((url, rest), e) ↦
      let (us, q) = scan_locs_total f rest (omega (arith, next_loc_shorter s url rest e)) in
      let (vs, p) = push_url-some (trim url) us in (vs, rw (e, q) p)
]

-- The scan of a sitemap ends with a list, whatever the text is.
pub parse_sitemap_xml_total : (xml : Str) → (us : List Str) × (parse_sitemap_xml xml ≡ some us)
unfolding parse_sitemap_xml
parse_sitemap_xml_total xml = scan_locs_total (suc (length xml)) xml (omega arith)

-- A sitemap with one element for each address.
pub print_locs : List Str → Str
print_locs [] = []
print_locs (u ∷ us) = codes "<loc>" ++ (u ++ (codes "</loc>" ++ print_locs us))

-- An address that stands in a sitemap as it is: with no `<`, and not changed by trimming.
abbrev pub IsPlain : Str → Type 0
IsPlain u = (is_empty u ≡ false) × (trim u ≡ u) × All (λ c. c ≢ b'<') u

find_close :
    (u rest : Str)
    → All (λ c. c ≢ b'<') u
    → find (u ++ (codes "</loc>" ++ rest)) (codes "</loc>") ≡ some (length u)
unfolding find starts_with
find_close [] rest h = refl
find_close (c ∷ u) rest (h, k) = rw (find_close u rest k) (ground arith)

drop_element : (u rest : Str) → drop (length u + 6) (u ++ (codes "</loc>" ++ rest)) ≡ rest
drop_element [] rest = refl
drop_element (c ∷ u) rest =
    let e : suc (length u) + 6 ≡ suc (length u + 6) = omega arith in rw e (drop_element u rest)

next_loc_printed :
    (u rest : Str)
    → All (λ c. c ≢ b'<') u
    → next_loc (codes "<loc>" ++ (u ++ (codes "</loc>" ++ rest))) ≡ some (u, rest)
unfolding next_loc find find_char starts_with
next_loc_printed u rest h =
    rw (find_close u rest h)
      (λ i. some (take-append u (codes "</loc>" ++ rest) i, drop_element u rest i))

scan_locs_printed :
    (us : List Str) (f : ℕ) → All IsPlain us → length us < f → scan_locs f (print_locs us) ≡ some us
unfolding scan_locs print_locs
scan_locs_printed us zero h le = absurd (omega arith)
scan_locs_printed [] (suc f) h le = unfold next_loc find starts_with in refl
scan_locs_printed ([] ∷ us) (suc f) (h, k) le = cc h.0
scan_locs_printed ((c ∷ u) ∷ us) (suc f) ((_, trimmed, open_free), k) le =
    rw
      (
        next_loc_printed (c ∷ u) (print_locs us) open_free,
        scan_locs_printed us f k (omega arith),
        trimmed,
      )
      refl

length-print_locs : (us : List Str) → length us ≤ length (print_locs us)
unfolding print_locs
length-print_locs [] = omega arith
length-print_locs (u ∷ us) = omega (
  arith,
  length-print_locs us,
  length-append u (codes "</loc>" ++ print_locs us),
  length-append (codes "</loc>") (print_locs us),
)

-- A printed sitemap of plain addresses is read back, address by address and in order.
pub parse_sitemap_xml-print_locs :
    (us : List Str) → All IsPlain us → parse_sitemap_xml (print_locs us) ≡ some us
unfolding parse_sitemap_xml
parse_sitemap_xml-print_locs us h =
    scan_locs_printed us (suc (length (print_locs us))) h (omega (arith, length-print_locs us))

part_by-perm : (sm us a b : List Str) → Perm (part_by sm us a b) (a ++ (b ++ us))
unfolding part_by
part_by-perm sm [] a b = rw (append-nil b) (Perm.refl _)
part_by-perm sm (u ∷ us) a b = elim (Bool-cases (any (λ s. eq s u) sm)) [
  | inl e ↦ rw e (
      Perm.trans (part_by-perm sm us (a ++ u ∷ []) b) (
        rw (append_assoc a (u ∷ []) (b ++ us)) (Perm.append_left a (Perm.symm (perm_middle b us)))))
  | inr e ↦ rw e (
      Perm.trans (part_by-perm sm us a (b ++ u ∷ []))
        (rw (append_assoc b (u ∷ []) us) (Perm.refl _)))
]

-- Prioritising reorders the candidates: none is lost and none is added.
pub prioritize_with_sitemap-perm :
    (candidates sm : List Str) → Perm (prioritize_with_sitemap candidates sm) candidates
unfolding prioritize_with_sitemap
prioritize_with_sitemap-perm candidates sm =
    elim (Bool-cases (is_empty sm || is_empty candidates)) [
      | inl e ↦ rw e (Perm.refl candidates)
      | inr e ↦ rw e (part_by-perm sm candidates [] [])
    ]

abbrev pub is_listed : List Str → Str → Bool
is_listed sm u = any (λ s. eq s u) sm

-- All candidates of the sitemap stand before all others.
abbrev pub ListedFirst : List Str → List Str → Type 0
ListedFirst sm us =
    (a : List Str) × (b : List Str) × (us ≡ a ++ b)
    × All (λ u. is_listed sm u ≡ true) a
    × All (λ u. is_listed sm u ≡ false) b

part_by-ListedFirst :
    (sm us a b : List Str)
    → All (λ u. is_listed sm u ≡ true) a
    → All (λ u. is_listed sm u ≡ false) b
    → ListedFirst sm (part_by sm us a b)
unfolding part_by
part_by-ListedFirst sm [] a b h k = (a, b, refl, h, k)
part_by-ListedFirst sm (u ∷ us) a b h k = elim (Bool-cases (is_listed sm u)) [
  | inl e ↦ rw e (part_by-ListedFirst sm us (a ++ u ∷ []) b (All-append _ a (u ∷ []) h (e, tt)) k)
  | inr e ↦ rw e (part_by-ListedFirst sm us a (b ++ u ∷ []) h (All-append _ b (u ∷ []) k (e, tt)))
]

-- With a sitemap that is not empty, the candidates that it lists come first.
pub prioritize_with_sitemap-ListedFirst :
    (candidates sm : List Str)
    → is_empty sm ≡ false
    → ListedFirst sm (prioritize_with_sitemap candidates sm)
unfolding prioritize_with_sitemap
prioritize_with_sitemap-ListedFirst [] sm h = rw h ([], [], refl, tt, tt)
prioritize_with_sitemap-ListedFirst (u ∷ us) sm h =
    rw h (part_by-ListedFirst sm (u ∷ us) [] [] tt tt)
