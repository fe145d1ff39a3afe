-- ===== src/Guid/Digits.antt =====
-- What the validator of zbus/src/guid.rs accepts.
use zbus.Prelude.{
  ℕ, ◌≡◌, refl, ap, ◌∙◌, ◌↔◌, inl, inr, true, false, not, List, [], ◌∷◌, ok, ◌==◌, ==_iff, any, All,
  length, Bool-cases, arith,
}
use zbus.Text.{str_len, utf8_ascii, is_ascii_hexdigit, IsAscii}
use zbus.Guid.{validate_guid}

abbrev pub AreHexDigits : List ℕ → Type 0
AreHexDigits s = All (λ c. is_ascii_hexdigit c ≡ true) s

hexdigit-IsAscii : (c : ℕ) → is_ascii_hexdigit c ≡ true → IsAscii c
hexdigit-IsAscii c h = ground arith

digits-IsAscii : (s : List ℕ) → AreHexDigits s → All IsAscii s
digits-IsAscii [] h = tt
digits-IsAscii (c ∷ cs) (h, hs) = (hexdigit-IsAscii c h, digits-IsAscii cs hs)

digits-str_len : (s : List ℕ) → AreHexDigits s → str_len s ≡ length s
unfolding str_len
digits-str_len s h = ap length (utf8_ascii s (digits-IsAscii s h))

any_iff : (s : List ℕ) → (any (λ c. not (is_ascii_hexdigit c)) s ≡ false) ↔ AreHexDigits s
any_iff [] = ((λ h. tt), λ h. refl)
any_iff (c ∷ cs) =
    let (to, from) = any_iff cs in
    elim (Bool-cases (is_ascii_hexdigit c)) [
      | inl digit ↦ ((λ h. (digit, to (rw digit at h))), λ (_, hs). rw digit (from hs))
      | inr other ↦ ((λ h. absurd (cc (rw other at h))), λ (h, _). absurd (cc (other, h)))
    ]

-- A GUID is accepted exactly when it is 32 hexadecimal digits, of either case.
pub validate_guid_iff :
    (value : List ℕ) → (validate_guid value ≡ ok tt) ↔ ((length value ≡ 32) × AreHexDigits value)
unfolding validate_guid
validate_guid_iff value =
    let (to, from) = any_iff value in
    elim (Bool-cases (str_len value == 32)) [
      | inl long ↦ elim (Bool-cases (any (λ c. not (is_ascii_hexdigit c)) value)) [
        | inl bad ↦
            ((λ h. absurd (cc (rw (long, bad) at h))), λ (_, hs). absurd (cc (bad, from hs)))
        | inr fine ↦ (
          (λ h.
              let len = digits-str_len value (to fine) in
              (omega (arith, (==_iff (str_len value) 32).0 long), to fine)),
          λ h. rw (long, fine) refl,
        )
      ]
      | inr short ↦ (
        (λ h. absurd (cc (rw short at h))),
        λ (len, hs).
            absurd (cc (short, (==_iff (str_len value) 32).1 (digits-str_len value hs ∙ len))),
      )
    ]
