-- ===== src/Api/Handshake/Opening.antt =====
-- What a handshake that is answered was, and what it is answered with.
use google_co.Base.{
  ℕ, ◌≤◌, ◌≡◌, refl, sym, ap, ◌∙◌, arith, true, false, ◌||◌, not, List, [], ◌∷◌, ◌++◌, append_assoc,
  append-nil, ltb, if◌then◌else◌, length, inl, inr, Bool-cases, not_ltb→le,
}
use mathlib.Core.Path.{subst}
use Prim.Native.String.{String}
use google_co.Base.Results.{Result, ok, err, >>=-eq-ok, eq_of_ok, err≢ok}
use google_co.Str.Ascii.{Str, Bytes, codes, eq, eq→≡}
use google_co.Str.Search.{contains}
use google_co.Str.Split.{lines, split_whitespace, nth_or_empty}
use google_co.Str.Utf8.{from_utf8_lossy}
use google_co.Api.Stream.{got, failed, Stream, chunks}
use google_co.Api.Headers.{crlfcrlf}
use google_co.Api.Handshake.{
  HandshakeError, read_handshake, is_start_line, handshake_response, read_and_respond_handshake,
}

-- The bytes of some reads, one read behind the other.
abbrev pub joined : List Bytes → Bytes
joined [] = []
joined (b ∷ bs) = b ++ joined bs

-- What was read, from a buffer on: the reads `before`, without an empty line, and one that completes it.
pub record IsRead (start : Bytes) (s : Stream) (buf : Bytes) (unread : Stream) : Type 0 where
  pub before : List Bytes
  pub last : Bytes
  pub all_reads : s ≡ chunks before ++ got last ∷ unread
  pub all_bytes : buf ≡ start ++ (joined before ++ last)
  pub no_end_before : contains (start ++ joined before) crlfcrlf ≡ false
  pub ends : contains buf crlfcrlf ≡ true
  pub is_short : length buf ≤ 8192

module _ (buf : Bytes) (c : ℕ) (cs : Bytes) (s : Stream) where
  IsRead-last :
      contains buf crlfcrlf ≡ false
      → length (buf ++ c ∷ cs) ≤ 8192
      → contains (buf ++ c ∷ cs) crlfcrlf ≡ true
      → IsRead buf (got (c ∷ cs) ∷ s) (buf ++ c ∷ cs) s
  IsRead-last missing short e = record {
    before = [];
    last = c ∷ cs;
    all_reads = refl;
    all_bytes = refl;
    no_end_before = rw (append-nil buf) missing;
    ends = e;
    is_short = short;
  }

  IsRead-more :
      (b : Bytes) (s' : Stream) → IsRead (buf ++ c ∷ cs) s b s' → IsRead buf (got (c ∷ cs) ∷ s) b s'
  IsRead-more b s' r = record {
    before = (c ∷ cs) ∷ r.before;
    last = r.last;
    all_reads = ap (λ s. got (c ∷ cs) ∷ s) r.all_reads;
    all_bytes =
        r.all_bytes
        ∙ append_assoc buf (c ∷ cs) (joined r.before ++ r.last)
        ∙ ap (λ t. buf ++ t) (sym (append_assoc (c ∷ cs) (joined r.before) r.last));
    no_end_before =
        ap (λ t. contains t crlfcrlf) (sym (append_assoc buf (c ∷ cs) (joined r.before)))
        ∙ r.no_end_before;
    ends = r.ends;
    is_short = r.is_short;
  }

read_handshake-IsRead :
    (buf : Bytes) (s : Stream) (b : Bytes) (s' : Stream)
    → contains buf crlfcrlf ≡ false
    → read_handshake buf s ≡ ok (b, s')
    → IsRead buf s b s'
unfolding read_handshake
read_handshake-IsRead buf [] b s' m = λ h. absurd (err≢ok h)
read_handshake-IsRead buf (failed ∷ s) b s' m = λ h. absurd (err≢ok h)
read_handshake-IsRead buf (got [] ∷ s) b s' m = λ h. absurd (err≢ok h)
read_handshake-IsRead buf (got (c ∷ cs) ∷ s) b s' m =
    elim (Bool-cases (ltb 8192 (length (buf ++ c ∷ cs)))) [
      | inl e ↦ rw e (λ h. absurd (err≢ok h))
      | inr e ↦ elim (Bool-cases (contains (buf ++ c ∷ cs) crlfcrlf)) [
        | inl k ↦
            rw (e, k)
              (λ h.
                subst (λ p. IsRead buf (got (c ∷ cs) ∷ s) p.0 p.1) (eq_of_ok h)
                  (IsRead-last buf c cs s m (not_ltb→le (length (buf ++ c ∷ cs)) 8192 e) k))
        | inr k ↦
            rw (e, k)
              (λ h. IsRead-more buf c cs s b s' (read_handshake-IsRead (buf ++ c ∷ cs) s b s' k h))
      ]
    ]

-- The first three words of a line of words, as the protocol has them.
abbrev pub Opens : List Str → Type 0
Opens words =
    (more : List Str) × (words ≡ codes "HANDSHAKE" ∷ codes "/" ∷ codes "GURT/1.0.0" ∷ more)

three_words :
    (words : List Str)
    → not (
        not (eq (nth_or_empty words 0) (codes "HANDSHAKE"))
        || not (eq (nth_or_empty words 1) (codes "/"))
        || not (eq (nth_or_empty words 2) (codes "GURT/1.0.0")))
      ≡ true
    → Opens words
three_words [] h =
    let no : eq [] (codes "HANDSHAKE") ≡ false = unfold eq in refl in absurd (ground (arith, h, no))
three_words (u ∷ []) h =
    let no : eq [] (codes "/") ≡ false = unfold eq in refl in absurd (ground (arith, h, no))
three_words (u ∷ v ∷ []) h =
    let no : eq [] (codes "GURT/1.0.0") ≡ false = unfold eq in refl in
    absurd (ground (arith, h, no))
three_words (u ∷ v ∷ w ∷ more) h =
    let first : eq u (codes "HANDSHAKE") ≡ true = ground (arith, h) in
    let second : eq v (codes "/") ≡ true = ground (arith, h) in
    let third : eq w (codes "GURT/1.0.0") ≡ true = ground (arith, h) in
    (
      more,
      ap (λ t. t ∷ v ∷ w ∷ more) (eq→≡ u (codes "HANDSHAKE") first)
          ∙ ap (λ t. codes "HANDSHAKE" ∷ t ∷ w ∷ more) (eq→≡ v (codes "/") second)
          ∙ ap (λ t. codes "HANDSHAKE" ∷ codes "/" ∷ t ∷ more) (eq→≡ w (codes "GURT/1.0.0") third),
    )

is_start_line-Opens : (line : Str) → is_start_line line ≡ true → Opens (split_whitespace line)
unfolding is_start_line
is_start_line-Opens line = three_words (split_whitespace line)

abbrev crlf_line : String → Str
crlf_line s = codes s ++ 13 ∷ 10 ∷ []

-- The answer of the protocol: the switch of protocols, five fields, and an empty line.
abbrev pub switch_answer : Str → Str
switch_answer date =
    crlf_line "GURT/1.0.0 101 SWITCHING_PROTOCOLS"
    ++ crlf_line "gurt-version: 1.0.0"
    ++ crlf_line "encryption: TLS/1.3"
    ++ crlf_line "alpn: GURT/1.0"
    ++ crlf_line "server: GURT/1.0.0"
    ++ codes "date: "
    ++ date
    ++ 13 ∷ 10 ∷ 13 ∷ 10 ∷ []

-- A handshake that is answered: what was read, the words of its first line, and the answer.
pub record Opened (date : Str) (s : Stream) (r : Str × Stream) : Type 0 where
  pub buf : Bytes
  pub is_read : IsRead [] s buf r.1
  pub opens : Opens (split_whitespace (nth_or_empty (lines (from_utf8_lossy buf)) 0))
  pub answer : r.0 ≡ switch_answer date

handshake_response-switch_answer : (date : Str) → handshake_response date ≡ switch_answer date
unfolding handshake_response
handshake_response-switch_answer date = refl

answered-Opened :
    (date : Str) (s : Stream) (buf : Bytes) (s1 : Stream) (r : Str × Stream)
    → IsRead [] s buf s1
    → ◌≡◌ {A = Result HandshakeError (Str × Stream)}
        (if is_start_line (nth_or_empty (lines (from_utf8_lossy buf)) 0)
          then ok (handshake_response date, s1)
          else err HandshakeError.invalid_start_line)
        (ok r)
    → Opened date s r
answered-Opened date s buf s1 r h =
    let first = nth_or_empty (lines (from_utf8_lossy buf)) 0 in
    elim (Bool-cases (is_start_line first)) [
      | inl e ↦ rw e (λ k. subst (Opened date s) (eq_of_ok k) (record {
        buf = buf;
        is_read = h;
        opens = is_start_line-Opens first e;
        answer = handshake_response-switch_answer date;
      }))
      | inr e ↦ rw e (λ k. absurd (err≢ok k))
    ]

-- A handshake that is answered was read up to and with the first read that completes an empty line, in at
-- most 8 KB; its first line has `HANDSHAKE`, `/` and `GURT/1.0.0` as its first three words; the answer is
-- the switch of protocols with its fields and the date; and the reads behind are left.
pub read_and_respond_handshake-Opened :
    (date : Str) (s : Stream) (r : Str × Stream)
    → read_and_respond_handshake date s ≡ ok r
    → Opened date s r
unfolding read_and_respond_handshake contains
read_and_respond_handshake-Opened date s r h =
    let step = >>=-eq-ok (read_handshake [] s) _ h in
    answered-Opened date s step.0.0 step.0.1 r
      (read_handshake-IsRead [] s step.0.0 step.0.1 refl step.1) step.2
