-- ===== src/Zvariant/Dbus/RoundTrip/Elements.antt =====
-- One element of a sequence, as zvariant/src/dbus/de.rs reads it, and where it puts it.
use zbus.Prelude.{
  ℕ, ◌+◌, ◌<◌, ◌≤◌, ◌≡◌, refl, ap, ◌∙◌, inl, inr, Bool-cases, true, false, List, ◌++◌, Result, ok,
  ◌>>=◌, ◌==◌, ==_iff, ensure, ltb-cases, length, arith, err,
}
use Prim.Native.Nat.{Ordering}
use zbus.Signature.{Signature}
use zbus.Zvariant.Depths.{ContainerDepths}
use zbus.Zvariant.Dbus.{Value, Entries, no_entry, entry, Failure, custom}
use zbus.Zvariant.Dbus.De.{Deserializer, parse_padding, within, matching, insert}
use zbus.Signature.Equality.{same}
use zbus.Zvariant.Dbus.Reference.{Fits, followed, zeros}
use zbus.Zvariant.Dbus.RoundTrip.Ahead.{reader, Ahead}
use zbus.Zvariant.Dbus.RoundTrip.Aligned.{Fits-signature}
use zbus.Zvariant.Dbus.RoundTrip.Combine.{InRange, Reads, Reads-padding, Ahead-followed}
use zbus.Zvariant.Dbus.RoundTrip.Readable.{IsBefore, same_itself}

within-ok :
    (end : ℕ) (v : Value) (s : Deserializer) → s.pos ≤ end → within end (ok (v, s)) ≡ ok (v, s)
within-ok end v s h = elim (ltb-cases end s.pos) [
  | inl (_, past) ↦ absurd (omega arith)
  | inr (e, _) ↦ rw e refl
]

-- Padding that is read comes before what is within.
pub within-padded :
    (end : ℕ) (padded : Result Failure Deserializer)
    (read : Deserializer → Result Failure (Value × Deserializer)) (x : Value × Deserializer)
    → within end (padded >>= read) ≡ ok x
    → (padded >>= λ s. within end (read s)) ≡ ok x
within-padded end (err e) read x h = absurd (cc h)
within-padded end (ok s) read x h = h

-- An element that ends before the end of the array.
pub within-Reads :
    (d : ContainerDepths) (g : Deserializer → Result Failure (Value × Deserializer))
    (enc : ℕ → List ℕ) (v : Value) (bytes left : List ℕ) (pos position end : ℕ)
    → Reads d d g enc v
    → Ahead bytes pos (enc (position + pos) ++ left)
    → InRange position bytes
    → pos + length (enc (position + pos)) ≤ end
    → within end (g (reader bytes pos position d))
      ≡ ok (v, reader bytes (pos + length (enc (position + pos))) position d)
within-Reads d g enc v bytes left pos position end reads ahead small fits =
    ap (within end) (reads bytes left pos position ahead small)
    ∙ within-ok end v (reader bytes (pos + length (enc (position + pos))) position d) fits

-- The bytes of an entry, from its padding on.
abbrev pub key_bytes : (ℕ → List ℕ) → ℕ → List ℕ
key_bytes k at = followed at (zeros at 8) k

abbrev pub pair_bytes : (ℕ → List ℕ) → (ℕ → List ℕ) → ℕ → List ℕ
pair_bytes k v at = followed at (key_bytes k at) v

-- An entry that ends before the end of the dict: its key, and its value from where the key ends.
pub pair-Reads :
    (d : ContainerDepths) (f g : Deserializer → Result Failure (Value × Deserializer))
    (enc enc' : ℕ → List ℕ) (k v : Value) (bytes left : List ℕ) (pos position end : ℕ)
    → Reads d d f enc k
    → Reads d d g enc' v
    → Ahead bytes pos (pair_bytes enc enc' (position + pos) ++ left)
    → InRange position bytes
    → pos + length (pair_bytes enc enc' (position + pos)) ≤ end
    → (pos' : ℕ) × ((parse_padding 8 (reader bytes pos position d) >>= λ s. within end (f s))
        ≡ ok (k, reader bytes pos' position d))
      × (within end (g (reader bytes pos' position d))
          ≡ ok (v, reader bytes (pos + length (pair_bytes enc enc' (position + pos))) position d))
pair-Reads d f g enc enc' k v bytes left pos position end reads reads' ahead small fits =
    let (more, now, later, pair_end) =
      Ahead-followed (key_bytes enc) enc' bytes left pos position ahead in
    let pos' = pos + length (key_bytes enc (position + pos)) in
    (
      pos',
      within-padded end (parse_padding 8 (reader bytes pos position d)) f _ (
          within-Reads d (λ s. parse_padding 8 s >>= f) (key_bytes enc) k bytes more pos position
            end (Reads-padding d d 8 f enc k reads) now small (omega arith)),
      within-Reads d g enc' v bytes left pos' position end reads' later small (omega arith)
          ∙ ap (λ n. ok (v, reader bytes n position d)) pair_end,
    )

pub matching-ok :
    (d : ContainerDepths) (v : Value) (sig : Signature) → Fits d v sig → matching sig v ≡ ok tt
matching-ok d v sig fits =
    ap (λ t. ensure (same t sig) custom) (Fits-signature d v sig fits)
    ∙ ap (λ b. ensure b custom) (same_itself sig)

pub at_end_now : (pos end : ℕ) → pos ≡ end → (pos == end) ≡ true
at_end_now pos end h = (==_iff pos end).1 h

pub not_yet : (pos end : ℕ) → pos < end → (pos == end) ≡ false
not_yet pos end h = elim (Bool-cases (pos == end)) [
  | inr e ↦ e
  | inl e ↦ let same = (==_iff pos end).0 e in absurd (omega arith)
]

abbrev pub append : Entries → Entries → Entries
append no_entry fs = fs
append (entry k v es) fs = entry k v (append es fs)

pub append_nothing : (es : Entries) → append es no_entry ≡ es
append_nothing no_entry = refl
append_nothing (entry k v es) = ap (entry k v) (append_nothing es)

pub append_entry :
    (es : Entries) (k v : Value) (fs : Entries)
    → append (append es (entry k v no_entry)) fs ≡ append es (entry k v fs)
append_entry no_entry k v fs = refl
append_entry (entry k' v' es) k v fs = ap (entry k' v') (append_entry es k v fs)

module _ (compare : Value → Value → Ordering) where
  -- The entries so far come before those to come.
  abbrev pub AreBefore : Entries → Entries → Type 0
  AreBefore no_entry fs = Unit
  AreBefore (entry k v es) fs = IsBefore compare k fs × AreBefore es fs

  -- A key after the others goes to the end.
  pub insert_last :
      (es : Entries) (k v : Value) (fs : Entries)
      → AreBefore es (entry k v fs)
      → insert compare k v es ≡ append es (entry k v no_entry)
  insert_last no_entry k v fs before = refl
  insert_last (entry k' v' es) k v fs ((later, _), before) =
      rw (insert, later) (ap (entry k' v') (insert_last es k v fs before))

  pub AreBefore-append :
      (es : Entries) (k v : Value) (fs : Entries)
      → AreBefore es (entry k v fs)
      → IsBefore compare k fs
      → AreBefore (append es (entry k v no_entry)) fs
  AreBefore-append no_entry k v fs before now = (now, tt)
  AreBefore-append (entry k' v' es) k v fs ((_, others), before) now =
      (others, AreBefore-append es k v fs before now)
