-- ===== src/Account/UserCode/Reading.antt =====
-- What is read of a code that a user types in.
use mathlib.Core.List.{append-nil}
use django_allauth.Prelude.{
  is_ascii, compare_digest, ℕ, ◌+◌, ◌≤◌, ◌≡◌, refl, ◌∙◌, ap, sym, Bool, true, false, not, ◌&&◌,
  some, if◌then◌else◌, List, [], ◌∷◌, ◌++◌, arith, inl, inr, ◌⊎◌, Bool-cases, leb, Text, nat_eq,
  text_eq, text_eqb_iff, ◌==◌, join, ◌↔◌,
}
use django_allauth.Account.UserCode.{
  lower, lower_char, is_ignored, is_empty, strip_punctuation, compare_user_code,
}

strip-append :
    (s t : Text) → strip_punctuation (s ++ t) ≡ strip_punctuation s ++ strip_punctuation t
unfolding strip_punctuation
strip-append [] t = refl
strip-append (c ∷ s) t = ground (arith, strip-append s t)

abbrev pub concat : List Text → Text
concat [] = []
concat (w ∷ ws) = w ++ concat ws

strip-dash : (s : Text) → strip_punctuation (b'-' ∷ s) ≡ strip_punctuation s
unfolding strip_punctuation
strip-dash s = refl

-- The dashes that are put between the chunks are not read.
strip-join : (ws : List Text) → strip_punctuation (join b'-' ws) ≡ strip_punctuation (concat ws)
unfolding join
strip-join [] = refl
strip-join (w ∷ []) = ap strip_punctuation (sym (append-nil w))
strip-join (w ∷ (v ∷ ws)) =
    strip-append w (b'-' ∷ join b'-' (v ∷ ws))
    ∙ ap (◌++◌ (strip_punctuation w)) (strip-dash (join b'-' (v ∷ ws)) ∙ strip-join (v ∷ ws))
    ∙ sym (strip-append w (concat (v ∷ ws)))

-- The dashes that `generate_user_code` puts between the chunks of a code may be left out by the user
-- or put elsewhere: only the joined chunks count.
pub compare-join :
    (typed shown : List Text) (actual expected : Text)
    → (compare_user_code (join b'-' typed) expected ≡ compare_user_code (concat typed) expected)
      × (compare_user_code actual (join b'-' shown) ≡ compare_user_code actual (concat shown))
unfolding compare_user_code
compare-join typed shown actual expected = (rw (strip-join typed), rw (strip-join shown))

abbrev IsUpper : ℕ → Type 0
IsUpper c = (b'A' ≤ c) × (c ≤ b'Z')

-- One letter, in either case.
abbrev pub SameLetter : ℕ → ℕ → Type 0
SameLetter c d = (c ≡ d) ⊎ (IsUpper c × (d ≡ c + 32)) ⊎ (IsUpper d × (c ≡ d + 32))

-- What is typed reads as what is shown: the same letters, in either case, in the same order, whatever
-- punctuation and white space stands between them.
pub data ReadsAs : Text → Text → Type 0 where
  at_end : ReadsAs [] []
  typed_extra : (c : ℕ) {t s : Text} → is_ignored c ≡ true → ReadsAs t s → ReadsAs (c ∷ t) s
  shown_extra : (c : ℕ) {t s : Text} → is_ignored c ≡ true → ReadsAs t s → ReadsAs t (c ∷ s)
  letter :
      (c d : ℕ) {t s : Text}
      → is_ignored c ≡ false
      → is_ignored d ≡ false
      → SameLetter c d
      → ReadsAs t s
      → ReadsAs (c ∷ t) (d ∷ s)

abbrev read : Text → Text
read s = lower (strip_punctuation s)

read-ignored : (c : ℕ) (s : Text) → is_ignored c ≡ true → read (c ∷ s) ≡ read s
unfolding strip_punctuation
read-ignored c s h = rw h refl

read-letter : (c : ℕ) (s : Text) → is_ignored c ≡ false → read (c ∷ s) ≡ lower_char c ∷ read s
unfolding strip_punctuation
read-letter c s h = rw h refl

same_letter : (c d : ℕ) → c ≤ 127 → d ≤ 127 → SameLetter c d → lower_char c ≡ lower_char d
same_letter c d hc hd (inl e) = ground arith
same_letter c d hc hd (inr (inl (u, e))) = ground arith
same_letter c d hc hd (inr (inr (u, e))) = ground arith

letter_same : (c d : ℕ) → c ≤ 127 → d ≤ 127 → lower_char c ≡ lower_char d → SameLetter c d
letter_same c d hc hd e = elim (Bool-cases (c == d)) [
  | inl same ↦ inl (ground (arith, same))
  | inr other ↦ elim (Bool-cases (leb b'A' c && leb c b'Z')) [
    | inl upper ↦ inr (inl (ground (arith, e, other, upper), ground (arith, e, other, upper)))
    | inr not_upper ↦
        inr (inr (ground (arith, e, other, not_upper), ground (arith, e, other, not_upper)))
  ]
]

ReadsAs-eq : {t s : Text} → ReadsAs t s → is_ascii t ≡ true → is_ascii s ≡ true → read t ≡ read s
ReadsAs-eq at_end ht hs = refl
ReadsAs-eq (typed_extra c {t} {s} h r) ht hs = read-ignored c t h ∙ ReadsAs-eq r (ground arith) hs
ReadsAs-eq (shown_extra c {t} {s} h r) ht hs =
    ReadsAs-eq r ht (ground arith) ∙ sym (read-ignored c s h)
ReadsAs-eq (letter c d {t} {s} hc hd same r) ht hs =
    let head : lower_char c ≡ lower_char d = same_letter c d (ground arith) (ground arith) same in
    let tail : read t ≡ read s = ReadsAs-eq r (ground arith) (ground arith) in
    read-letter c t hc ∙ (λ i. head i ∷ tail i) ∙ sym (read-letter d s hd)

heads : {c d : ℕ} {t s : Text} → c ∷ t ≡ d ∷ s → c ≡ d
heads h = cc

tails : {c d : ℕ} {t s : Text} → c ∷ t ≡ d ∷ s → t ≡ s
tails h = cc

of_read : (t s : Text) → is_ascii t ≡ true → is_ascii s ≡ true → read t ≡ read s → ReadsAs t s
unfolding strip_punctuation
of_read [] [] ht hs e = at_end
of_read [] (d ∷ s) ht hs e = elim (Bool-cases (is_ignored d)) [
  | inl extra ↦ shown_extra d extra (of_read [] s ht (ground arith) (e ∙ read-ignored d s extra))
  | inr counts ↦ absurd (ground (arith, e ∙ read-letter d s counts))
]
of_read (c ∷ t) [] ht hs e = elim (Bool-cases (is_ignored c)) [
  | inl extra ↦
      typed_extra c extra (of_read t [] (ground arith) hs (sym (read-ignored c t extra) ∙ e))
  | inr counts ↦ absurd (ground (arith, sym (read-letter c t counts) ∙ e))
]
of_read (c ∷ t) (d ∷ s) ht hs e = elim (Bool-cases (is_ignored c)) [
  | inl extra ↦
      typed_extra c extra (of_read t (d ∷ s) (ground arith) hs (sym (read-ignored c t extra) ∙ e))
  | inr counts ↦ elim (Bool-cases (is_ignored d)) [
    | inl extra ↦
        shown_extra d extra (of_read (c ∷ t) s ht (ground arith) (e ∙ read-ignored d s extra))
    | inr shown ↦
        let both : lower_char c ∷ read t ≡ lower_char d ∷ read s =
          sym (read-letter c t counts) ∙ e ∙ read-letter d s shown in
        letter c d counts shown
          (letter_same c d (ground (arith, ht)) (ground (arith, hs)) (heads both))
          (of_read t s (ground arith) (ground arith) (tails both))
  ]
]

-- Some character of the text is read.
pub data IsReadable : Text → Type 0 where
  here : (c : ℕ) {s : Text} → is_ignored c ≡ false → IsReadable (c ∷ s)
  there : (c : ℕ) {s : Text} → IsReadable s → IsReadable (c ∷ s)

IsReadable-full : {s : Text} → IsReadable s → is_empty (read s) ≡ false
IsReadable-full (here c {s} h) = ap is_empty (read-letter c s h)
IsReadable-full (there c {s} r) = elim (Bool-cases (is_ignored c)) [
  | inl extra ↦ ap is_empty (read-ignored c s extra) ∙ IsReadable-full r
  | inr counts ↦ ap is_empty (read-letter c s counts)
]

full-IsReadable : (s : Text) → is_empty (read s) ≡ false → IsReadable s
unfolding strip_punctuation
full-IsReadable [] h = cc
full-IsReadable (c ∷ s) h = elim (Bool-cases (is_ignored c)) [
  | inl extra ↦ there c (full-IsReadable s (sym (ap is_empty (read-ignored c s extra)) ∙ h))
  | inr counts ↦ here c counts
]

read-ascii : (s : Text) → is_ascii s ≡ true → is_ascii (read s) ≡ true
unfolding strip_punctuation
read-ascii [] h = refl
read-ascii (c ∷ s) h = ground (arith, read-ascii s)

on_ascii :
    (a e : Text)
    → is_ascii a ≡ true
    → is_ascii e ≡ true
    → (if is_empty e then some false else compare_digest a e) ≡ some (not (is_empty e) && a == e)
on_ascii a e ha he = ground arith

some_iff : (b : Bool) → (some b ≡ some true) ↔ (b ≡ true)
some_iff b = (λ h. cc, λ h. ap some h)

-- On codes in ASCII the comparison does not raise. It holds exactly when something of the code that is
-- shown is to be read, and what is typed reads as it: the same letters and digits in the same order,
-- in either case, whatever punctuation and white space stands between them. Else it fails.
pub compare_user_code_iff :
    (actual expected : Text)
    → is_ascii actual ≡ true
    → is_ascii expected ≡ true
    → ((compare_user_code actual expected ≡ some true)
        ↔ (IsReadable expected × ReadsAs actual expected))
      × ((compare_user_code actual expected ≡ some true)
          ⊎ (compare_user_code actual expected ≡ some false))
unfolding compare_user_code
compare_user_code_iff actual expected ha he =
    let defined =
      on_ascii (read actual) (read expected) (read-ascii actual ha) (read-ascii expected he) in
    let texts = text_eqb_iff (read actual) (read expected) in
    (
      (
        λ h.
            let both : (not (is_empty (read expected)) && read actual == read expected) ≡ true =
              (some_iff _).0 (sym defined ∙ h) in
            (
              full-IsReadable expected (ground (arith, both)),
              of_read actual expected ha he (texts.0 (ground (arith, both))),
            ),
        λ h.
            let same = texts.1 (ReadsAs-eq h.1 ha he) in
            let full = IsReadable-full h.0 in defined ∙ rw (full, same) refl,
      ),
      elim (Bool-cases (not (is_empty (read expected)) && read actual == read expected)) [
        | inl yes_ ↦ inl (defined ∙ ap some yes_)
        | inr no_ ↦ inr (defined ∙ ap some no_)
      ],
    )
