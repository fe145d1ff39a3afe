-- ===== src/Handshake/Command/RoundTrip.antt =====
-- The text of a command in zbus/src/connection/handshake/command.rs parses back to it.
use zbus.Prelude.{
  ℕ, ◌≡◌, ◌≢◌, refl, ap, ◌∙◌, true, none, some, List, [], ◌∷◌, ◌++◌, ok, length, not, all, All,
  append-nil, arith,
}
use zbus.Text.{codes, IsByte}
use zbus.Guid.{validate_guid}
use zbus.Guid.Digits.{validate_guid_iff}
use zbus.Handshake.Command.{
  AuthMechanism, external, anonymous, Command, auth, cancel, begin, data_, error, negotiate_unix_fd,
  rejected, ok_, agree_unix_fd, Hex, is_ascii_whitespace, flush, words_from, as_str,
  mechanism_from_str, concat, display, next_bytes, auth_from_words, ok_from_words, from_words,
  from_str,
}
use zbus.Handshake.Command.Words.{
  IsWord, IsBlank, digits-IsWord, literal-IsWord, words_from-space, words_from-last,
}

-- Some bytes.
abbrev pub IsData : List ℕ → Type 0
IsData bytes = (bytes ≢ []) × All IsByte bytes

-- The commands that their text tells: not an error, whose text is the whole line when it is read,
-- nor a response without a mechanism or without data, nor several mechanisms.
abbrev pub IsCanonical : Command → Type 0
IsCanonical (auth (some mech) (some resp)) = IsData resp
IsCanonical (auth none (some resp)) = ⊥
IsCanonical (data_ (some bytes)) = IsData bytes
IsCanonical (error expl) = ⊥
IsCanonical (rejected mechs) = IsWord mechs
IsCanonical (ok_ guid) = validate_guid guid ≡ ok tt
IsCanonical _ = Unit {0}

flush-filled : (w : List ℕ) (ws : List (List ℕ)) → w ≢ [] → flush w ws ≡ w ∷ ws
flush-filled [] ws h = absurd (h refl)
flush-filled (c ∷ cs) ws h = refl

validate_guid-ok : (guid : List ℕ) → validate_guid guid ≡ ok tt → IsWord guid × (guid ≢ [])
validate_guid-ok guid h =
    let (len, digits) = (validate_guid_iff guid).0 h in
    (digits-IsWord guid digits, λ e. absurd (filled guid len e))
  where
    filled : (guid : List ℕ) → length guid ≡ 32 → guid ≢ []
    filled [] len e = omega arith
    filled (c ∷ cs) len e = cc e

concat-flush : (w : List ℕ) → concat (flush w []) ≡ w
unfolding concat
concat-flush [] = refl
concat-flush (c ∷ cs) = append-nil (c ∷ cs)

module _ (hex : Hex) where
  next_bytes-encode :
      (bytes : List ℕ) → All IsByte bytes → next_bytes hex (hex.encode bytes ∷ []) ≡ ok (some bytes)
  unfolding next_bytes
  next_bytes-encode bytes are = rw (next_bytes, hex.decode-encode bytes are) refl

  encode-filled : (bytes : List ℕ) → bytes ≢ [] → hex.encode bytes ≢ []
  encode-filled [] h e = h refl
  encode-filled (b ∷ bs) h e =
      let len = hex.length-encode (b ∷ bs) in
      let none_left : length (hex.encode (b ∷ bs)) ≡ 0 = ap length e in omega arith

  -- The words of an encoding at the end of a line.
  words_from-encode :
      (bytes tail : List ℕ)
      → IsData bytes
      → IsBlank tail
      → words_from [] (hex.encode bytes ++ tail) ≡ hex.encode bytes ∷ []
  words_from-encode bytes tail (filled, are) blank =
      words_from-last (hex.encode bytes) tail
        (digits-IsWord (hex.encode bytes) (hex.encode-AreHexDigits bytes are)) blank
      ∙ flush-filled (hex.encode bytes) [] (encode-filled bytes filled)

  -- One word on the line; a word and more; and three words.
  one_word :
      (w tail : List ℕ)
      → all (λ c. not (is_ascii_whitespace c)) w ≡ true
      → IsBlank tail
      → from_str hex (w ++ tail) ≡ from_words hex (w ++ tail) (flush w [])
  unfolding from_str
  one_word w tail h blank =
      ap (from_words hex (w ++ tail)) (words_from-last w tail (literal-IsWord w h) blank)

  more_words :
      (w s : List ℕ) (ws : List (List ℕ))
      → all (λ c. not (is_ascii_whitespace c)) w ≡ true
      → words_from [] s ≡ ws
      → from_str hex (w ++ (32 ∷ s)) ≡ from_words hex (w ++ (32 ∷ s)) (flush w ws)
  unfolding from_str
  more_words w s ws h e =
      ap (from_words hex (w ++ (32 ∷ s)))
        (words_from-space w s (literal-IsWord w h) ∙ ap (flush w) e)

  mechanism-as_str : (m : AuthMechanism) → mechanism_from_str (as_str m) ≡ ok m
  unfolding mechanism_from_str
  mechanism-as_str external = refl
  mechanism-as_str anonymous = refl

  as_str_word : (m : AuthMechanism) → all (λ c. not (is_ascii_whitespace c)) (as_str m) ≡ true
  as_str_word external = refl
  as_str_word anonymous = refl

  flush-as_str : (m : AuthMechanism) (ws : List (List ℕ)) → flush (as_str m) ws ≡ as_str m ∷ ws
  flush-as_str external ws = refl
  flush-as_str anonymous ws = refl

  auth_words :
      (m : AuthMechanism) (resp tail : List ℕ)
      → IsData resp
      → IsBlank tail
      → words_from [] (as_str m ++ (32 ∷ (hex.encode resp ++ tail)))
        ≡ as_str m ∷ hex.encode resp ∷ []
  auth_words m resp tail h blank =
      words_from-space (as_str m) (hex.encode resp ++ tail)
        (literal-IsWord (as_str m) (as_str_word m))
      ∙ flush-as_str m (words_from [] (hex.encode resp ++ tail))
      ∙ ap (λ ws. as_str m ∷ ws) (words_from-encode resp tail h blank)

  auth_from_words_full :
      (m : AuthMechanism) (resp : List ℕ)
      → All IsByte resp
      → auth_from_words hex (as_str m ∷ hex.encode resp ∷ []) ≡ ok (auth (some m) (some resp))
  unfolding auth_from_words
  auth_from_words_full m resp are = rw (mechanism-as_str m, next_bytes-encode resp are) refl

  auth_from_words-mechanism :
      (m : AuthMechanism) → auth_from_words hex (as_str m ∷ []) ≡ ok (auth (some m) none)
  unfolding auth_from_words next_bytes
  auth_from_words-mechanism m = rw (mechanism-as_str m) refl

  ok_from_words-valid :
      (guid : List ℕ) → validate_guid guid ≡ ok tt → ok_from_words hex (guid ∷ []) ≡ ok (ok_ guid)
  unfolding ok_from_words
  ok_from_words-valid guid h = rw (ok_from_words, h) refl

  -- The text of a command that is not an error, does not respond with no data or without a
  -- mechanism, has no empty data, rejects for at most one mechanism and has a valid GUID, parses
  -- back to it, whatever white space ends the line.
  pub from_str-display :
      (c : Command) (tail : List ℕ)
      → IsCanonical c
      → IsBlank tail
      → from_str hex (display hex c ++ tail) ≡ ok c
  unfolding display from_words auth_from_words next_bytes concat
  from_str-display (auth none none) tail h blank = one_word (codes "AUTH") tail refl blank
  from_str-display (auth none (some resp)) tail h blank = absurd h
  from_str-display (auth (some external) none) tail h blank =
      more_words (codes "AUTH") (codes "EXTERNAL" ++ tail) _ refl
        (words_from-last (codes "EXTERNAL") tail (literal-IsWord (codes "EXTERNAL") refl) blank)
      ∙ auth_from_words-mechanism external
  from_str-display (auth (some anonymous) none) tail h blank =
      more_words (codes "AUTH") (codes "ANONYMOUS" ++ tail) _ refl
        (words_from-last (codes "ANONYMOUS") tail (literal-IsWord (codes "ANONYMOUS") refl) blank)
      ∙ auth_from_words-mechanism anonymous
  from_str-display (auth (some external) (some resp)) tail h blank =
      more_words (codes "AUTH") (as_str external ++ (32 ∷ (hex.encode resp ++ tail))) _ refl
        (auth_words external resp tail h blank)
      ∙ auth_from_words_full external resp h.1
  from_str-display (auth (some anonymous) (some resp)) tail h blank =
      more_words (codes "AUTH") (as_str anonymous ++ (32 ∷ (hex.encode resp ++ tail))) _ refl
        (auth_words anonymous resp tail h blank)
      ∙ auth_from_words_full anonymous resp h.1
  from_str-display cancel tail h blank = one_word (codes "CANCEL") tail refl blank
  from_str-display begin tail h blank = one_word (codes "BEGIN") tail refl blank
  from_str-display (data_ none) tail h blank = one_word (codes "DATA") tail refl blank
  from_str-display (data_ (some bytes)) tail h blank =
      more_words (codes "DATA") (hex.encode bytes ++ tail) _ refl
        (words_from-encode bytes tail h blank)
      ∙ rw (next_bytes-encode bytes h.1) refl
  from_str-display (error expl) tail h blank = absurd h
  from_str-display negotiate_unix_fd tail h blank =
      one_word (codes "NEGOTIATE_UNIX_FD") tail refl blank
  from_str-display (rejected mechs) tail h blank =
      more_words (codes "REJECTED") (mechs ++ tail) _ refl (words_from-last mechs tail h blank)
      ∙ ap (λ m. ok (rejected m)) (concat-flush mechs)
  from_str-display (ok_ guid) tail h blank =
      let (word, filled) = validate_guid-ok guid h in
      more_words (codes "OK") (guid ++ tail) _ refl
        (words_from-last guid tail word blank ∙ flush-filled guid [] filled)
      ∙ ok_from_words-valid guid h
  from_str-display agree_unix_fd tail h blank = one_word (codes "AGREE_UNIX_FD") tail refl blank
