-- ===== src/Signature/Equality/Safe.antt =====
-- The comparison of a signature with an ASCII string: its slices are all in range
-- (zvariant_utils/src/signature/mod.rs).
use zbus.Prelude.{
  ℕ, ◌+◌, ◌-◌, ◌≤◌, ◌≡◌, refl, ◌∙◌, ◌⊎◌, inl, inr, Bool, true, false, not, ◌||◌, Option, none, some,
  List, length, take, drop, All, arith, length-take, length-drop, ltb, Bool-cases, ltb-cases,
  ==_iff, ◌&&◌, ◌==◌, if◌then◌else◌,
}
use zbus.Text.{IsAscii, starts_with, codes}
use zbus.Signature.{Signature, Fields, no_fields, field, string_len}
use zbus.Signature.Equality.{equals, equals_fields, str_slice, fields_str, ends_with_brace}
use zbus.Signature.Equality.Slices.{str_slice_ascii, take-IsAscii, drop-IsAscii, equals-structure}

abbrev IsSafe : Option Bool → Type 0
IsSafe r = (b : Bool) × (r ≡ some b)

both-IsSafe :
    (r k : Option Bool)
    → IsSafe r
    → IsSafe k
    → IsSafe
        (elim r as (λ x. Option Bool) [ none ↦ none | some false ↦ some false | some true ↦ k ])
both-IsSafe r k (false, h) hk = rw h (false, refl)
both-IsSafe r k (true, h) hk = rw h hk

slice_within :
    (start end : ℕ) (s : List ℕ)
    → All IsAscii s
    → start ≤ end
    → end ≤ length s
    → (part : List ℕ) × (str_slice start end s ≡ some part)
      × (All IsAscii part × (length part ≡ end - start))
slice_within start end s ascii ordered inside = (
  take (end - start) (drop start s),
  str_slice_ascii start end s ascii ordered inside,
  (
    take-IsAscii (end - start) (drop start s) (drop-IsAscii start s ascii),
    omega (arith, length-take (end - start) (drop start s), length-drop start s),
  ),
)

long : (s : List ℕ) (n : ℕ) (t : Bool) → (ltb (length s) n || t) ≡ false → n ≤ length s
long s n t h = ground arith

fields_str_cases :
    (n : ℕ) (s : List ℕ)
    → 2 ≤ n
    → All IsAscii s
    → (fields_str n s ≡ some none)
      ⊎ ((inner : List ℕ) × (fields_str n s ≡ some (some inner)) × All IsAscii inner)
unfolding fields_str
fields_str_cases n s h ascii =
    elim (Bool-cases (ltb n (length s) || (not (n == length s) && not (n == length s + 2)))) [
      | inl e ↦ inl (rw e refl)
      | inr e ↦ elim (Bool-cases (n == length s)) [
        | inl same ↦
            let size : n ≡ length s = (==_iff n (length s)).0 same in
            let (part, found, (part_ascii, _)) =
              slice_within 1 (length s - 1) s ascii (omega arith) (omega arith) in
            inr (part, rw (e, same, found) refl, part_ascii)
        | inr other ↦ elim (Bool-cases (length s == 0)) [
          | inl empty ↦ inl (rw (e, other, empty) refl)
          | inr filled ↦ inr (s, rw (e, other, filled) refl, ascii)
        ]
      ]
    ]

two_len : (fs : Fields) → 2 ≤ string_len (Signature.structure fs)
unfolding string_len
two_len fs = omega arith

-- The three guarded slices that `equals` takes.
AllSafe : (List ℕ → Option Bool) → Type 0
AllSafe f = (s : List ℕ) → All IsAscii s → IsSafe (f s)

tail-IsSafe :
    (t : Bool) (s : List ℕ) (f : List ℕ → Option Bool)
    → All IsAscii s
    → AllSafe f
    → IsSafe (
        if ltb (length s) 2 || t
        then some false
        else elim (str_slice 1 (length s) s) as (λ x. Option Bool) [
          | none ↦ none
          | some part ↦ f part
        ])
unfolding AllSafe
tail-IsSafe t s f ascii safe = elim (Bool-cases (ltb (length s) 2 || t)) [
  | inl e ↦ rw e (false, refl)
  | inr e ↦
      let filled = long s 2 t e in
      let (part, found, (part_ascii, _)) =
        slice_within 1 (length s) s ascii (omega arith) (omega arith) in
      rw (e, found) (safe part part_ascii)
]

entry-IsSafe :
    (t : Bool) (s : List ℕ) (f g : List ℕ → Option Bool)
    → All IsAscii s
    → AllSafe f
    → AllSafe g
    → IsSafe (
        if ltb (length s) 4 || t
        then some false
        else elim (str_slice 2 (length s - 1) s) as (λ x. Option Bool) [
          | none ↦ none
          | some part ↦ elim (str_slice 0 1 part) as (λ x. Option Bool) [
            | none ↦ none
            | some key ↦ elim (f key) as (λ x. Option Bool) [
              | none ↦ none
              | some false ↦ some false
              | some true ↦ g (drop 1 part)
            ]
          ]
        ])
unfolding AllSafe
entry-IsSafe t s f g ascii f_safe g_safe = elim (Bool-cases (ltb (length s) 4 || t)) [
  | inl e ↦ rw e (false, refl)
  | inr e ↦
      let filled = long s 4 t e in
      let (part, found, (part_ascii, size)) =
        slice_within 2 (length s - 1) s ascii (omega arith) (omega arith) in
      let (key, key_found, (key_ascii, _)) =
        slice_within 0 1 part part_ascii (omega arith) (omega arith) in
      rw (e, found, key_found)
        (both-IsSafe (f key) (g (drop 1 part)) (f_safe key key_ascii)
          (g_safe (drop 1 part) (drop-IsAscii 1 part part_ascii)))
]

field-IsSafe :
    (s : List ℕ) (start end : ℕ) (f : List ℕ → Option Bool) (rest : Option Bool)
    → All IsAscii s
    → start ≤ end
    → AllSafe f
    → IsSafe rest
    → IsSafe (
        if ltb (length s) end
        then some false
        else elim (str_slice start end s) as (λ x. Option Bool) [
          | none ↦ none
          | some part ↦ elim (f part) as (λ x. Option Bool) [
            | none ↦ none
            | some false ↦ some false
            | some true ↦ rest
          ]
        ])
unfolding AllSafe
field-IsSafe s start end f rest ascii ordered f_safe rest_safe = elim (ltb-cases (length s) end) [
  | inl (e, _) ↦ rw e (false, refl)
  | inr (e, inside) ↦
      let (part, found, (part_ascii, _)) = slice_within start end s ascii ordered inside in
      rw (e, found) (both-IsSafe (f part) rest (f_safe part part_ascii) rest_safe)
]

mutual
  unfolding equals AllSafe

  equals-IsSafe : (x : Signature) (s : List ℕ) → All IsAscii s → IsSafe (equals x s)
  equals-IsSafe (Signature.array child) s ascii =
      tail-IsSafe (not (starts_with (codes "a") s)) s (equals child) ascii (equals-IsSafe child)
  equals-IsSafe (Signature.maybe child) s ascii =
      tail-IsSafe (not (starts_with (codes "m") s)) s (equals child) ascii (equals-IsSafe child)
  equals-IsSafe (Signature.dict key value) s ascii =
      entry-IsSafe (not (starts_with (codes "a{") s) || not (ends_with_brace s)) s (equals key)
        (equals value) ascii (equals-IsSafe key) (equals-IsSafe value)
  equals-IsSafe (Signature.structure fs) s ascii =
      elim (fields_str_cases (string_len (Signature.structure fs)) s (two_len fs) ascii) [
        | inl unequal ↦ (false, equals-structure fs s (some none) unequal)
        | inr (part, found, part_ascii) ↦
            let (b, e) = equals_fields-IsSafe fs part 0 part_ascii in
            (b, equals-structure fs s (some (some part)) found ∙ e)
      ]
  equals-IsSafe x s ascii = (_, refl)

  equals_fields-IsSafe :
      (fs : Fields) (s : List ℕ) (start : ℕ) → All IsAscii s → IsSafe (equals_fields fs s start)
  equals_fields-IsSafe no_fields s start ascii = (true, refl)
  equals_fields-IsSafe (field sig sigs) s start ascii =
      field-IsSafe s start (start + string_len sig) (equals sig)
        (equals_fields sigs s (start + string_len sig)) ascii (omega arith) (equals-IsSafe sig)
        (equals_fields-IsSafe sigs s (start + string_len sig) ascii)

-- The comparison of any signature with an ASCII string gives a result: it does not panic.
pub equals-gives : (x : Signature) (s : List ℕ) → All IsAscii s → (b : Bool) × (equals x s ≡ some b)
equals-gives = equals-IsSafe
