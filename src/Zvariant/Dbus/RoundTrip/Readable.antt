-- ===== src/Zvariant/Dbus/RoundTrip/Readable.antt =====
-- The values that zvariant/src/dbus/de.rs accepts: what it checks of them, and the fuel they take.
use zbus.Prelude.{
  ℕ, ◌+◌, ◌^◌, ◌<◌, ◌≡◌, refl, true, false, some, List, [], ◌∷◌, ◌==◌, any, and_iff, All,
}
use Prim.Native.Nat.{Ordering}
use zbus.Text.{IsAscii}
use zbus.Signature.{Signature, Fields, no_fields, field, display}
use zbus.Signature.Letters.{IsLetter, display_letters}
use zbus.Signature.Nom.{Nom}
use zbus.Signature.Parser.{parse}
use zbus.Handshake.Utf8.{from_utf8, from_utf8_ascii}
use zbus.Zvariant.Dbus.{Basic, Text, Value, Values, Entries, nil, cons, no_entry, entry, width}
use zbus.Signature.Equality.{same, all_same}

abbrev pub IsBits : Basic → ℕ → Type 0
IsBits Basic.bool n = n < 2
IsBits kind n = n < 256 ^ width kind

-- UTF-8 without a NUL byte.
abbrev pub IsText : List ℕ → Type 0
IsText v = (any (λ b. b == 0) v ≡ false) × (s : List ℕ) × (from_utf8 v ≡ some s)

module _ (compare : Value → Value → Ordering) where
  -- The key comes before those of the entries.
  abbrev pub IsBefore : Value → Entries → Type 0
  IsBefore k no_entry = Unit
  IsBefore k (entry k' v es) = (compare k' k ≡ Ordering.gt) × IsBefore k es

module _ (nom : Nom) (compare : Value → Value → Ordering) where
  -- Numbers have the range of their type, texts are texts, that of a signature is as `Display`
  -- writes it, and the keys of a dict are in their order, each once.
  unfoldable mutual
    pub IsReadable : Value → Type 0
    IsReadable (Value.basic kind n) = IsBits kind n
    IsReadable (Value.text Text.signature v) =
        (sign : Signature) × (parse nom v false ≡ some sign) × (display sign ≡ v)
    IsReadable (Value.text kind v) = IsText v
    IsReadable (Value.variant v) = IsReadable v
    IsReadable (Value.array _ vs) = AreReadable vs
    IsReadable (Value.dict _ es) = AreOrdered es
    IsReadable (Value.structure _ vs) = AreReadable vs

    pub AreReadable : Values → Type 0
    AreReadable nil = Unit {0}
    AreReadable (cons v vs) = IsReadable v × AreReadable vs

    pub AreOrdered : Entries → Type 0
    AreOrdered no_entry = Unit {0}
    AreOrdered (entry k v es) = IsReadable k × IsReadable v × IsBefore compare k es × AreOrdered es

-- Two calls for each value, and one for each place of a sequence.
unfoldable mutual
  pub parts : Value → ℕ
  parts (Value.basic kind n) = 2
  parts (Value.text kind v) = 2
  parts (Value.variant v) = parts v + 2
  parts (Value.array _ vs) = all_parts vs + 2
  parts (Value.dict _ es) = entry_parts es + 2
  parts (Value.structure _ vs) = all_parts vs + 2

  pub all_parts : Values → ℕ
  all_parts nil = 1
  all_parts (cons v vs) = parts v + all_parts vs + 1

  pub entry_parts : Entries → ℕ
  entry_parts no_entry = 1
  entry_parts (entry k v es) = parts k + parts v + entry_parts es + 1

mutual
  unfolding same

  pub same_itself : (x : Signature) → same x x ≡ true
  same_itself Signature.unit = refl
  same_itself Signature.u8 = refl
  same_itself Signature.bool = refl
  same_itself Signature.i16 = refl
  same_itself Signature.u16 = refl
  same_itself Signature.i32 = refl
  same_itself Signature.u32 = refl
  same_itself Signature.i64 = refl
  same_itself Signature.u64 = refl
  same_itself Signature.f64 = refl
  same_itself Signature.str = refl
  same_itself Signature.signature = refl
  same_itself Signature.object_path = refl
  same_itself Signature.variant = refl
  same_itself Signature.fd = refl
  same_itself (Signature.array child) = same_itself child
  same_itself (Signature.dict key value) =
      (and_iff (same key key) (same value value)).1 (same_itself key, same_itself value)
  same_itself (Signature.structure sigs) = all_same_itself sigs
  same_itself (Signature.maybe child) = same_itself child

  all_same_itself : (sigs : Fields) → all_same sigs sigs ≡ true
  all_same_itself no_fields = refl
  all_same_itself (field s fs) =
      (and_iff (same s s) (all_same fs fs)).1 (same_itself s, all_same_itself fs)

letters_text : (v : List ℕ) → All IsLetter v → All IsAscii v × (any (λ b. b == 0) v ≡ false)
letters_text [] h = (tt, refl)
letters_text (c ∷ v) ((ascii, no_nul), h) =
    let (all_ascii, no_nuls) = letters_text v h in ((ascii, all_ascii), rw (no_nul, no_nuls) refl)

pub display-IsText : (x : Signature) → IsText (display x)
display-IsText x =
    let (ascii, no_nul) = letters_text (display x) (display_letters x) in
    (no_nul, display x, from_utf8_ascii (display x) ascii)
