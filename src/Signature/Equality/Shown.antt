-- ===== src/Signature/Equality/Shown.antt =====
-- A signature and its own displayed string (zvariant_utils/src/signature/mod.rs).
use zbus.Prelude.{
  ℕ, ◌+◌, ◌-◌, ◌≤◌, ◌≡◌, refl, sym, ap, subst, ◌∙◌, true, false, some, List, [], ◌∷◌, ◌++◌, false,
  append-nil, length, drop, All, All-append, arith, length-append, drop-append, append_assoc, ltb,
  ==_refl,
}
use zbus.Text.{IsAscii}
use zbus.Signature.{
  Signature, Fields, no_fields, field, string_len, display, write_as_string, to_string_no_parens,
  write_fields, IsComplete, AllComplete,
}
use zbus.Signature.Layout.{string_len-length, string_len_fields-length}
use zbus.Signature.Letters.{IsLetter, display_letters, fields_letters}
use zbus.Signature.Equality.{equals, equals_fields, str_slice, fields_str, ends_with_brace}
use zbus.Signature.Equality.Slices.{
  str_slice-append, str_slice-first, str_slice-tail, equals-structure,
}

-- The key of every dict has a signature of one character.
unfoldable mutual
  pub HasShortKeys : Signature → Type 0
  HasShortKeys (Signature.array child) = HasShortKeys child
  HasShortKeys (Signature.maybe child) = HasShortKeys child
  HasShortKeys (Signature.dict key value) =
      (length (display key) ≡ 1) × HasShortKeys key × HasShortKeys value
  HasShortKeys (Signature.structure fields) = AllShortKeys fields
  HasShortKeys _ = Unit {0}

  pub AllShortKeys : Fields → Type 0
  AllShortKeys no_fields = Unit {0}
  AllShortKeys (field s fs) = HasShortKeys s × AllShortKeys fs

letters-IsAscii : (s : List ℕ) → All IsLetter s → All IsAscii s
letters-IsAscii [] h = tt
letters-IsAscii (c ∷ s) ((ascii, _), h) = (ascii, letters-IsAscii s h)

pub display-IsAscii : (x : Signature) → All IsAscii (display x)
display-IsAscii x = letters-IsAscii (display x) (display_letters x)

fields-IsAscii : (fs : Fields) → All IsAscii (write_fields fs)
fields-IsAscii fs = letters-IsAscii (write_fields fs) (fields_letters fs)

ends_with_brace-append : (s : List ℕ) → ends_with_brace (s ++ (b'}' ∷ [])) ≡ true
ends_with_brace-append s =
    let size : length (s ++ (b'}' ∷ [])) - 1 ≡ length s =
      omega (arith, length-append s (b'}' ∷ [])) in
    rw (size, drop-append s (b'}' ∷ [])) refl

display_filled : (x : Signature) → IsComplete x → 1 ≤ length (display x)
unfolding write_as_string IsComplete
display_filled Signature.unit h = absurd h
display_filled (Signature.structure fs) h = omega arith
display_filled (Signature.array child) h = omega arith
display_filled (Signature.maybe child) h = omega arith
display_filled (Signature.dict key value) h = omega arith
display_filled x h = omega arith

abbrev braced : List ℕ → List ℕ → List ℕ
braced k v = b'a' ∷ b'{' ∷ (k ++ (v ++ (b'}' ∷ [])))

braced_inner : (k v : List ℕ) → braced k v ≡ (b'a' ∷ b'{' ∷ []) ++ ((k ++ v) ++ (b'}' ∷ []))
braced_inner k v = ap (λ t. b'a' ∷ b'{' ∷ t) (sym (append_assoc k v (b'}' ∷ [])))

length-braced : (k v : List ℕ) → length (braced k v) ≡ length k + length v + 3
length-braced k v =
    let outer = length-append k (v ++ (b'}' ∷ [])) in
    let inner = length-append v (b'}' ∷ []) in omega arith

ends_with_brace-braced : (k v : List ℕ) → ends_with_brace (braced k v) ≡ true
ends_with_brace-braced k v =
    ap ends_with_brace (braced_inner k v) ∙ ends_with_brace-append (b'a' ∷ b'{' ∷ (k ++ v))

str_slice-braced :
    (k v : List ℕ)
    → All IsAscii (braced k v)
    → str_slice 2 (length (braced k v) - 1) (braced k v) ≡ some (k ++ v)
str_slice-braced k v ascii =
    let size : length (braced k v) - 1 ≡ 2 + length (k ++ v) =
      omega (arith, length-braced k v, length-append k v) in
    rw (size, braced_inner k v)
      (str_slice-append (b'a' ∷ b'{' ∷ []) (k ++ v) (b'}' ∷ [])
        (subst (All IsAscii) (braced_inner k v) ascii))

fields_str-parens :
    (s : List ℕ) (n : ℕ)
    → n ≡ 2 + length s
    → All IsAscii (b'(' ∷ (s ++ (b')' ∷ [])))
    → fields_str n (b'(' ∷ (s ++ (b')' ∷ []))) ≡ some (some s)
unfolding fields_str
fields_str-parens s n size ascii =
    let long : length (b'(' ∷ (s ++ (b')' ∷ []))) ≡ n =
      omega (arith, length-append s (b')' ∷ [])) in
    let no_longer : ltb n n ≡ false = ground arith in
    let inner : n - 1 ≡ 1 + length s = omega arith in
    rw (long, no_longer, ==_refl n, inner, str_slice-append (b'(' ∷ []) s (b')' ∷ []) ascii) refl

mutual
  unfolding equals HasShortKeys IsComplete write_as_string string_len

  equals_shown : (x : Signature) → IsComplete x → HasShortKeys x → equals x (display x) ≡ some true
  equals_shown Signature.unit h k = absurd h
  equals_shown Signature.u8 h k = refl
  equals_shown Signature.bool h k = refl
  equals_shown Signature.i16 h k = refl
  equals_shown Signature.u16 h k = refl
  equals_shown Signature.i32 h k = refl
  equals_shown Signature.u32 h k = refl
  equals_shown Signature.i64 h k = refl
  equals_shown Signature.u64 h k = refl
  equals_shown Signature.f64 h k = refl
  equals_shown Signature.str h k = refl
  equals_shown Signature.signature h k = refl
  equals_shown Signature.object_path h k = refl
  equals_shown Signature.variant h k = refl
  equals_shown Signature.fd h k = refl
  equals_shown (Signature.array child) h k =
      let filled = display_filled child h in
      let long : ltb (length (b'a' ∷ display child)) 2 ≡ false = ground arith in
      rw
        (
          long,
          str_slice-tail b'a' (display child) (display-IsAscii (Signature.array child)),
          equals_shown child h k,
        )
        refl
  equals_shown (Signature.maybe child) h k =
      let filled = display_filled child h in
      let long : ltb (length (b'm' ∷ display child)) 2 ≡ false = ground arith in
      rw
        (
          long,
          str_slice-tail b'm' (display child) (display-IsAscii (Signature.maybe child)),
          equals_shown child h k,
        )
        refl
  equals_shown (Signature.dict key value) (hk, hv) (one, kk, kv) =
      let k = display key in
      let v = display value in
      let filled = display_filled value hv in
      let ascii = display-IsAscii (Signature.dict key value) in
      let long : ltb (length (braced k v)) 4 ≡ false = ground (arith, length-braced k v) in
      let both : All IsAscii (k ++ v) =
        All-append IsAscii k v (display-IsAscii key) (display-IsAscii value) in
      let first : str_slice 0 1 (k ++ v) ≡ some k =
        subst (λ n. str_slice 0 n (k ++ v) ≡ some k) one (str_slice-first k v both) in
      let second : drop 1 (k ++ v) ≡ v = subst (λ n. drop n (k ++ v) ≡ v) one (drop-append k v) in
      rw
        (
          long,
          ends_with_brace-braced k v,
          str_slice-braced k v ascii,
          first,
          equals_shown key hk kk,
          second,
          equals_shown value hv kv,
        )
        refl
  equals_shown (Signature.structure no_fields) h k = absurd h
  equals_shown (Signature.structure (field s fs)) h k =
      let whole = Signature.structure (field s fs) in
      let inner = write_fields (field s fs) in
      let size = string_len_fields-length (field s fs) in
      equals-structure (field s fs) (display whole) (some (some inner))
        (fields_str-parens inner (string_len whole) (omega (arith, size)) (display-IsAscii whole))
      ∙ equals_fields_shown (field s fs) [] h k tt

  equals_fields_shown :
      (fs : Fields) (before : List ℕ)
      → AllComplete fs
      → AllShortKeys fs
      → All IsAscii before
      → equals_fields fs (before ++ write_fields fs) (length before) ≡ some true
  equals_fields_shown no_fields before h k ascii = refl
  equals_fields_shown (field s fs) before (h, hs) (k, ks) ascii =
      let d = display s in
      let w = write_fields fs in
      let size = string_len-length s in
      let whole : All IsAscii (before ++ (d ++ w)) =
        All-append IsAscii before (d ++ w) ascii (fields-IsAscii (field s fs)) in
      let long : ltb (length (before ++ (d ++ w))) (length before + length d) ≡ false =
        ground (arith, length-append before (d ++ w), length-append d w) in
      let rest : equals_fields fs (before ++ (d ++ w)) (length before + string_len s) ≡ some true =
        rw (size, sym (append_assoc before d w), sym (length-append before d))
          (equals_fields_shown fs (before ++ d) hs ks
            (All-append IsAscii before d ascii (display-IsAscii s))) in
      rw (size, long, str_slice-append before d w whole, equals_shown s h k, rest) refl

fields_str_bare :
    (s : List ℕ) (n : ℕ) → n ≡ 2 + length s → 1 ≤ length s → fields_str n s ≡ some (some s)
unfolding fields_str
fields_str_bare s n size filled = ground (arith, size)

-- A signature of one complete type, whose dicts have keys with a signature of one character, equals
-- the string that `Display` writes for it, and the one without the outer parentheses.
pub equals-display :
    (x : Signature)
    → IsComplete x
    → HasShortKeys x
    → (equals x (display x) ≡ some true) × (equals x (to_string_no_parens x) ≡ some true)
unfolding to_string_no_parens write_as_string IsComplete HasShortKeys string_len
equals-display (Signature.structure no_fields) h k = absurd h
equals-display (Signature.structure (field s fs)) (h, hs) k =
    let whole = Signature.structure (field s fs) in
    let inner = write_fields (field s fs) in
    let filled : 1 ≤ length inner =
      omega (arith, length-append (display s) (write_fields fs), display_filled s h) in
    (
      equals_shown whole (h, hs) k,
      ap (equals whole) (append-nil inner)
          ∙ (equals-structure (field s fs) inner (some (some inner)) (
                fields_str_bare inner (string_len whole)
                  (omega (arith, string_len_fields-length (field s fs))) filled)
              ∙ equals_fields_shown (field s fs) [] (h, hs) k tt),
    )
equals-display x h k = (equals_shown x h k, equals_shown x h k)
