-- ===== src/Handshake/Command/Words.antt =====
-- Splitting a line of zbus/src/connection/handshake/command.rs into words.
use zbus.Prelude.{
  ℕ, ◌≡◌, refl, sym, ap, ◌∙◌, Bool, true, false, not, all, List, [], ◌∷◌, ◌++◌, All, inl, inr,
  Bool-cases, append-nil, append_assoc, arith,
}
use zbus.Text.{is_ascii_hexdigit}
use zbus.Guid.Digits.{AreHexDigits}
use zbus.Handshake.Command.{is_ascii_whitespace, flush, words_from}

abbrev pub IsWord : List ℕ → Type 0
IsWord w = All (λ c. is_ascii_whitespace c ≡ false) w

abbrev pub IsBlank : List ℕ → Type 0
IsBlank s = All (λ c. is_ascii_whitespace c ≡ true) s

pub digits-IsWord : (s : List ℕ) → AreHexDigits s → IsWord s
digits-IsWord [] h = tt
digits-IsWord (c ∷ cs) (h, hs) = (digit c h, digits-IsWord cs hs)
  where
    digit : (c : ℕ) → is_ascii_hexdigit c ≡ true → is_ascii_whitespace c ≡ false
    digit c h = ground arith

words_from-word :
    (begun w s : List ℕ) → IsWord w → words_from begun (w ++ s) ≡ words_from (begun ++ w) s
unfolding words_from
words_from-word begun [] s h = ap (λ b. words_from b s) (sym (append-nil begun))
words_from-word begun (c ∷ cs) s (h, hs) =
    plain (is_ascii_whitespace c) h
    ∙ words_from-word (begun ++ (c ∷ [])) cs s hs
    ∙ ap (λ b. words_from b s) (append_assoc begun (c ∷ []) cs)
  where
    plain :
        (b : Bool)
        → b ≡ false
        → elim b [
          | true ↦ flush begun (words_from [] (cs ++ s))
          | false ↦ words_from (begun ++ (c ∷ [])) (cs ++ s)
        ]
          ≡ words_from (begun ++ (c ∷ [])) (cs ++ s)
    plain true e = absurd (cc e)
    plain false e = refl

-- A word that a space follows, and a word at the end of a line.
pub words_from-space :
    (w s : List ℕ) → IsWord w → words_from [] (w ++ (32 ∷ s)) ≡ flush w (words_from [] s)
unfolding words_from
words_from-space w s h = words_from-word [] w (32 ∷ s) h

words_from-blank : (begun s : List ℕ) → IsBlank s → words_from begun s ≡ flush begun []
unfolding words_from
words_from-blank begun [] h = refl
words_from-blank begun (c ∷ cs) (h, hs) =
    blank (is_ascii_whitespace c) h ∙ ap (λ ws. flush begun ws) (words_from-blank [] cs hs)
  where
    blank :
        (b : Bool)
        → b ≡ true
        → elim b [
          | true ↦ flush begun (words_from [] cs)
          | false ↦ words_from (begun ++ (c ∷ [])) cs
        ]
          ≡ flush begun (words_from [] cs)
    blank true e = refl
    blank false e = absurd (cc e)

pub words_from-last : (w s : List ℕ) → IsWord w → IsBlank s → words_from [] (w ++ s) ≡ flush w []
words_from-last w s h blank = words_from-word [] w s h ∙ words_from-blank w s blank

-- A literal word, by its test.
pub literal-IsWord : (w : List ℕ) → all (λ c. not (is_ascii_whitespace c)) w ≡ true → IsWord w
literal-IsWord [] h = tt
literal-IsWord (c ∷ cs) h = elim (Bool-cases (is_ascii_whitespace c)) [
  | inl space ↦ absurd (cc (rw space at h))
  | inr plain ↦ (plain, literal-IsWord cs (rw plain at h))
]
