-- ===== src/Str/Split/Words.antt =====
-- The words of a text that is put together from words.
use google_co.Base.{
  ℕ, ◌≡◌, refl, ap, ◌∙◌, Bool, true, false, List, [], ◌∷◌, ◌++◌, is_empty, All, Bool-cases, inl,
  inr,
}
use google_co.Str.Ascii.{Str, is_whitespace, NoSpace, trim, trim_start, trim_end, trim_end_by}
use google_co.Str.Split.{split_by, keep_all, split_whitespace, join}

pub split_by-cons : (p : ℕ → Bool) (s : Str) → (q : Str) × (qs : List Str) × (split_by p s ≡ q ∷ qs)
unfolding split_by
split_by-cons p [] = ([], [], refl)
split_by-cons p (c ∷ s) =
    let (q, qs, e) = split_by-cons p s in
    elim (Bool-cases (p c)) [
      | inl t ↦ ([], q ∷ qs, rw (e, t) refl)
      | inr f ↦ (c ∷ q, qs, rw (e, f) refl)
    ]

pub split_by-append :
    (p : ℕ → Bool) (s : Str) (c : ℕ) (t : Str)
    → p c ≡ true
    → split_by p (s ++ c ∷ t) ≡ split_by p s ++ split_by p t
unfolding split_by
split_by-append p [] c t h = let (q, qs, e) = split_by-cons p t in rw (h, e) refl
split_by-append p (d ∷ s) c t h =
    let (q, qs, e) = split_by-cons p s in
    rw (split_by-append p s c t h, e)
      (elim (Bool-cases (p d)) [ inl a ↦ rw a refl | inr b ↦ rw b refl ])

pub split_by_whole : (p : ℕ → Bool) (s : Str) → All (λ c. p c ≡ false) s → split_by p s ≡ s ∷ []
unfolding split_by
split_by_whole p [] h = refl
split_by_whole p (c ∷ s) (h, k) = rw (split_by_whole p s k, h) refl

keep_all-append : (ps qs : List Str) → keep_all (ps ++ qs) ≡ keep_all ps ++ keep_all qs
keep_all-append [] qs = refl
keep_all-append ([] ∷ ps) qs = keep_all-append ps qs
keep_all-append ((c ∷ s) ∷ ps) qs = ap (◌∷◌ (c ∷ s)) (keep_all-append ps qs)

-- A space separates the words before it from those behind it.
pub split_whitespace-append :
    (s t : Str) → split_whitespace (s ++ 32 ∷ t) ≡ split_whitespace s ++ split_whitespace t
unfolding split_whitespace
split_whitespace-append s t =
    ap keep_all (split_by-append is_whitespace s 32 t space)
    ∙ keep_all-append (split_by is_whitespace s) (split_by is_whitespace t)
  where
    space : is_whitespace 32 ≡ true
    space = unfold is_whitespace in refl

abbrev pub IsWord : Str → Type 0
IsWord w = NoSpace w × (is_empty w ≡ false)

pub split_whitespace_word : (w : Str) → IsWord w → split_whitespace w ≡ w ∷ []
unfolding split_whitespace
split_whitespace_word [] (h, k) = cc
split_whitespace_word (c ∷ w) (h, k) = rw (split_by_whole is_whitespace (c ∷ w) h) refl

-- Words that are joined by spaces are the words of the text.
pub split_whitespace-join :
    (ws : List Str) → All IsWord ws → split_whitespace (join ws (32 ∷ [])) ≡ ws
unfolding join
split_whitespace-join [] h = unfold split_whitespace split_by in refl
split_whitespace-join (w ∷ []) (h, k) = split_whitespace_word w h
split_whitespace-join (w ∷ v ∷ ws) (h, k) =
    split_whitespace-append w (join (v ∷ ws) (32 ∷ []))
    ∙ (rw (split_whitespace_word w h, split_whitespace-join (v ∷ ws) k) refl)

trim_end_behind :
    (s : Str) (d : ℕ) (t : Str)
    → trim_end_by is_whitespace (d ∷ t) ≡ d ∷ t
    → trim_end_by is_whitespace (s ++ d ∷ t) ≡ s ++ d ∷ t
unfolding trim_end_by
trim_end_behind [] d t h = h
trim_end_behind (c ∷ []) d t h = rw h refl
trim_end_behind (c ∷ e ∷ s) d t h = rw (trim_end_behind (e ∷ s) d t h) refl

trim_end_word : (c : ℕ) (w : Str) → NoSpace (c ∷ w) → trim_end_by is_whitespace (c ∷ w) ≡ c ∷ w
unfolding trim_end_by
trim_end_word c [] (h, k) = rw h refl
trim_end_word c (d ∷ w) (h, k) = rw (trim_end_word d w k) refl

pub join_cons :
    (c : ℕ) (w : Str) (ws : List Str) → (t : Str) × (join ((c ∷ w) ∷ ws) (32 ∷ []) ≡ c ∷ t)
unfolding join
join_cons c w [] = (w, refl)
join_cons c w (v ∷ ws) = (_, refl)

trim_end-join :
    (c : ℕ) (w : Str) (ws : List Str)
    → All IsWord ((c ∷ w) ∷ ws)
    → trim_end_by is_whitespace (join ((c ∷ w) ∷ ws) (32 ∷ [])) ≡ join ((c ∷ w) ∷ ws) (32 ∷ [])
unfolding join
trim_end-join c w [] ((h, _), _) = trim_end_word c w h
trim_end-join c w ([] ∷ ws) (_, (h, k)) = cc h.1
trim_end-join c w ((d ∷ v) ∷ ws) (_, k) =
    let (t, e) = join_cons d v ws in
    let last = trim_end-join d v ws k in
    rw e (trim_end_behind (c ∷ w) 32 (d ∷ t) (trim_end_behind (32 ∷ []) d t (rw e at last)))

-- Words that are joined by spaces begin and end with a word: there is nothing to trim.
pub trim-join :
    (c : ℕ) (w : Str) (ws : List Str)
    → All IsWord ((c ∷ w) ∷ ws)
    → trim (join ((c ∷ w) ∷ ws) (32 ∷ [])) ≡ join ((c ∷ w) ∷ ws) (32 ∷ [])
unfolding trim trim_start trim_end
trim-join c w ws h =
    let (t, e) = join_cons c w ws in
    let last = trim_end-join c w ws h in rw (e, h.0.0.0) (rw e at last)
