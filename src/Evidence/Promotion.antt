-- ===== src/Evidence/Promotion.antt =====
-- `promotion_reason` of apps/evidence/models.py, as far as it finds any words: the pattern
-- PROMOTION_MARKS, matched without regard to the case of ASCII letters.
use trend_engine_backend.Base.{
  ℕ, Bool, true, false, ◌||◌, ◌&&◌, not, List, [], ◌∷◌, Text, codes, eq_text, is_empty, any,
  starts_with, is_alnum, lower, contains, ◌==◌, if◌then◌else◌, drop, length,
}

-- `\w`
abbrev is_word : ℕ → Bool
is_word c = is_alnum c || (c == b'_')

-- The characters of `\w*` from a place on, all of them.
abbrev pub word_run : Text → Text
word_run [] = []
word_run (x ∷ xs) = let rest = word_run xs in if is_word x then x ∷ rest else []

abbrev ends_with : Text → Text → Bool
ends_with suffix [] = is_empty suffix
ends_with suffix (x ∷ xs) = eq_text suffix (x ∷ xs) || ends_with suffix xs

-- What may follow `#` up to a word's end. All of it is word characters and `\b` follows, so it is the
-- whole run.
abbrev pub is_paid_tag : Text → Bool
is_paid_tag w =
    any (eq_text w) (
      codes "ad"
      ∷ codes "ads"
      ∷ codes "affiliate"
      ∷ codes "sponsored"
      ∷ codes "paidpartnership"
      ∷ codes "gifted"
      ∷ codes "tiktokmademebuyit"
      ∷ [])
    || (ends_with (codes "partner") w
        || (ends_with (codes "ambassador") w || starts_with (codes "tiktokshop") w))

abbrev ends_word : Text → Bool
ends_word [] = true
ends_word (x ∷ xs) = not (is_word x)

-- A phrase, and `\b` after it.
abbrev phrase_here : Text → Text → Bool
phrase_here phrase s = starts_with phrase s && ends_word (drop (length phrase) s)

abbrev tag_here : Text → Bool
tag_here [] = false
tag_here (x ∷ xs) = (x == b'#') && is_paid_tag (word_run xs)

-- The tags and the codes, which look at what follows them.
abbrev pub mark_at : Text → Bool
mark_at s = tag_here s || (phrase_here (codes "use code") s || phrase_here (codes "use my code") s)

abbrev mark_in : Text → Bool
mark_in [] = false
mark_in (x ∷ xs) = mark_at (x ∷ xs) || mark_in xs

-- The phrases that stand for themselves, `earn(?:s)? (?:a )?(?:small )?commission` spelled out.
abbrev phrases : List Text
phrases =
    codes "affiliate link"
    ∷ codes "amazon associate"
    ∷ codes "earn commission"
    ∷ codes "earns commission"
    ∷ codes "earn a commission"
    ∷ codes "earns a commission"
    ∷ codes "earn small commission"
    ∷ codes "earns small commission"
    ∷ codes "earn a small commission"
    ∷ codes "earns a small commission"
    ∷ codes "from qualifying purchases"
    ∷ codes "sponsored by"
    ∷ codes "paid partnership"
    ∷ []

-- `PROMOTION_MARKS.search`
abbrev pub is_marked : Text → Bool
is_marked s = mark_in (lower s) || any (λ phrase. contains phrase (lower s)) phrases

-- `bool(promotion_reason(*texts))`
unfoldable pub is_promotional : List Text → Bool
is_promotional texts = any is_marked texts
