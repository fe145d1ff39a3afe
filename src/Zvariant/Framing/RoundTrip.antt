-- ===== src/Zvariant/Framing/RoundTrip.antt =====
-- What the writer of zvariant/src/framing_offsets.rs writes, its reader reads.
use zbus.Prelude.{
  ge→ltb, ℕ, zero, suc, ◌+◌, ◌-◌, ◌*◌, ◌^◌, ◌≤◌, ◌<◌, ◌≡◌, refl, sym, ap, ◌∙◌, List, [], ◌∷◌, ◌++◌,
  Result, ok, All, All-append, length, length-append, append-nil, append_assoc, arith,
}
use zbus.Zvariant.Framing.{
  FramingOffsetSize, width, usize, max, Failure, Endi, slice, offset_bytes,
  read_last_offset_from_buffer, read_offsets, from_encoded_array, write_each, write_all,
  for_bare_container, for_encoded_container,
}
use zbus.Zvariant.Framing.Loop.{round_done, round_reads}
use zbus.Zvariant.Framing.Size.{
  encoded_len, IsSmallest, Fits, smallest, for_bare_container-IsSmallest,
  for_encoded_container-bare,
}
use zbus.Zvariant.Framing.Bytes.{
  width-positive, slice-middle, length-offset_bytes, read_last-append,
}

-- Writing to a `Vec<u8>`, which does not fail.
abbrev pub append_bytes : List ℕ → List ℕ → Result Failure (List ℕ)
append_bytes bytes writer = ok (writer ++ bytes)

abbrev pub same : Failure → Failure
same e = e

module _ (endi : Endi) (s : FramingOffsetSize) where
  abbrev encode : List ℕ → List ℕ
  encode [] = []
  encode (offset ∷ offsets) = offset_bytes endi s offset ++ encode offsets

  write_each-encode :
      (offsets writer : List ℕ)
      → write_each endi same append_bytes s offsets writer ≡ ok (writer ++ encode offsets)
  unfolding write_each
  write_each-encode [] writer = ap ok (sym (append-nil writer))
  write_each-encode (offset ∷ offsets) writer =
      write_each-encode offsets (writer ++ offset_bytes endi s offset)
      ∙ ap ok (append_assoc writer (offset_bytes endi s offset) (encode offsets))

  length-encode : (offsets : List ℕ) → length (encode offsets) ≡ length offsets * width s
  length-encode [] = omega arith
  length-encode (offset ∷ offsets) =
      let len = length-append (offset_bytes endi s offset) (encode offsets) in
      let here = length-offset_bytes endi s offset in
      let rest = length-encode offsets in grind arith

  encode-append : (xs ys : List ℕ) → encode (xs ++ ys) ≡ encode xs ++ encode ys
  encode-append [] ys = refl
  encode-append (x ∷ xs) ys =
      ap (λ r. offset_bytes endi s x ++ r) (encode-append xs ys)
      ∙ sym (append_assoc (offset_bytes endi s x) (encode xs) (encode ys))

  module _ (container : List ℕ) (start : ℕ) (inside : start ≤ max s)
      (fits : length container < 2 ^ 64) where
    read_offsets-encode :
        (fuel : ℕ) (offsets before acc : List ℕ)
        → container ≡ before ++ encode offsets
        → All (λ o. o ≤ start) offsets
        → length offsets < fuel
        → read_offsets endi fuel container s start (length before) acc ≡ ok (acc ++ offsets)
    read_offsets-encode zero offsets before acc e h enough = absurd (omega arith)
    read_offsets-encode (suc fuel) [] before acc e h enough =
        let len : length container ≡ length before = ap length (e ∙ append-nil before) in
        round_done endi s container start fuel (length before) acc (omega arith)
        ∙ ap ok (sym (append-nil acc))
    read_offsets-encode (suc fuel) (offset ∷ offsets) before acc e (h, hs) enough =
        let bytes = offset_bytes endi s offset in
        let size = length-offset_bytes endi s offset in
        let positive = width-positive s in
        let split : container ≡ before ++ bytes ++ encode offsets =
          e ∙ sym (append_assoc before bytes (encode offsets)) in
        let len : length container ≡ length before + (width s + length (encode offsets)) =
          ap length e
          ∙ length-append before (bytes ++ encode offsets)
          ∙ ap (λ n. length before + n)
              (length-append bytes (encode offsets) ∙ ap (λ n. n + length (encode offsets)) size) in
        let next : usize (length before + width s) ≡ length before + width s = omega arith in
        let next' : length (before ++ bytes) ≡ usize (length before + width s) =
          length-append before bytes ∙ ap (λ n. length before + n) size ∙ sym next in
        let cut : slice container (length before) (usize (length before + width s)) ≡ ok bytes =
          rw (next, ← size, e) (slice-middle before bytes (encode offsets)) in
        let round =
          round_reads endi s container start fuel (length before) acc bytes offset (omega arith)
            (omega arith) cut (read_last-append endi s [] offset (omega arith)) h in
        let rest =
          read_offsets-encode fuel offsets (before ++ bytes) (acc ++ (offset ∷ [])) split hs
            (omega arith) in
        round ∙ rw next' at rest ∙ ap ok (append_assoc acc (offset ∷ []) offsets)

encode-many :
    (endi : Endi) (s : FramingOffsetSize) (offsets : List ℕ)
    → length offsets ≤ length (encode endi s offsets)
encode-many endi s [] = omega arith
encode-many endi s (offset ∷ offsets) = omega (
  arith,
  length-append (offset_bytes endi s offset) (encode endi s offsets),
  length-offset_bytes endi s offset,
  width-positive s,
  encode-many endi s offsets,
)

smallest-max : (c n : ℕ) (s : FramingOffsetSize) → IsSmallest c n s → encoded_len c n s ≤ max s
smallest-max c n FramingOffsetSize.u8 h = h
smallest-max c n FramingOffsetSize.u16 (h, k) = k
smallest-max c n FramingOffsetSize.u32 (h, k) = k
smallest-max c n FramingOffsetSize.u64 (h, k) = k

max-bound : (s : FramingOffsetSize) → max s < 2 ^ 64
max-bound FramingOffsetSize.u8 = omega arith
max-bound FramingOffsetSize.u16 = omega arith
max-bound FramingOffsetSize.u32 = omega arith
max-bound FramingOffsetSize.u64 = omega arith

write_all_lem :
    (endi : Endi) (offsets writer : List ℕ) (container_len : ℕ) (s : FramingOffsetSize)
    → 0 < length offsets
    → for_bare_container container_len (length offsets) ≡ ok s
    → write_all endi same append_bytes offsets writer container_len
      ≡ write_each endi same append_bytes s offsets writer
unfolding write_all
write_all_lem endi [] writer c s h e = absurd (omega arith)
write_all_lem endi (o ∷ os) writer c s h e = rw (write_all, e) refl

module _ (endi : Endi) (body inner : List ℕ) (fits : Fits (length body) (length inner + 1))
    (bounded : All (λ o. o ≤ length body) inner) where
  abbrev offsets : List ℕ
  offsets = inner ++ (length body ∷ [])

  length-offsets : length offsets ≡ length inner + 1
  length-offsets = length-append inner (length body ∷ [])

  module _ (s : FramingOffsetSize)
      (chosen : for_bare_container (length body) (length inner + 1) ≡ ok s) where
    abbrev written : List ℕ
    written = body ++ encode endi s offsets

    length-written : length written ≡ encoded_len (length body) (length inner + 1) s
    length-written =
        length-append body (encode endi s offsets)
        ∙ ap (λ n. length body + n)
            (length-encode endi s offsets ∙ ap (λ n. n * width s) length-offsets)

    write_all-written : write_all endi same append_bytes offsets body (length body) ≡ ok written
    write_all-written =
        let len = length-offsets in
        write_all_lem endi offsets body (length body) s (omega arith) (rw length-offsets chosen)
        ∙ write_each-encode endi s offsets body

    from_encoded_array-written :
        from_encoded_array endi written ≡ ok (offsets, length written - length body)
    unfolding from_encoded_array
    from_encoded_array-written =
        let size : for_encoded_container (length written) ≡ ok s =
          rw length-written
            (for_encoded_container-bare (length body) (length inner + 1) s fits chosen) in
        let small =
          smallest-max (length body) (length inner + 1) s
            ((for_bare_container-IsSmallest (length body) (length inner + 1) s fits).0 chosen) in
        let bound = max-bound s in
        let len = length-written in
        let all = length-append body (encode endi s offsets) in
        let many = encode-many endi s offsets in
        let ends : written ≡ (body ++ encode endi s inner) ++ offset_bytes endi s (length body) =
          ap (λ r. body ++ r)
            (encode-append endi s inner (length body ∷ [])
              ∙ ap (λ r. encode endi s inner ++ r) (append-nil (offset_bytes endi s (length body))))
          ∙ sym (append_assoc body (encode endi s inner) (offset_bytes endi s (length body))) in
        let start : read_last_offset_from_buffer endi s written ≡ ok (length body) =
          rw ends
            (read_last-append endi s (body ++ encode endi s inner) (length body) (omega arith)) in
        let loop : read_offsets endi (suc (length written)) written s (length body) (length body) []
            ≡ ok offsets =
          read_offsets-encode endi s written (length body) (omega arith) (omega arith)
            (suc (length written)) offsets body [] refl
            (All-append (λ o. o ≤ length body) inner (length body ∷ []) bounded (omega arith, tt))
            (omega arith) in
        rw (size, start, ge→ltb (length written) (length body) (omega arith), loop) refl

-- Where the container with 8-byte offsets fits in a `usize`, and the offsets lie in the container
-- and end in its length, as those of an array do: writing them after the container succeeds, and
-- reading the whole gives the same offsets, and the length of their bytes.
pub from_encoded_array-write_all :
    (endi : Endi) (body inner : List ℕ)
    → Fits (length body) (length inner + 1)
    → All (λ o. o ≤ length body) inner
    → (out : List ℕ) × (write_all endi same append_bytes
          (inner ++ (length body ∷ []))
          body
          (length body)
        ≡ ok out)
      × (from_encoded_array endi out ≡ ok (inner ++ (length body ∷ []), length out - length body))
from_encoded_array-write_all endi body inner fits bounded =
    let (s, i) = smallest (length body) (length inner + 1) fits in
    let chosen = (for_bare_container-IsSmallest (length body) (length inner + 1) s fits).1 i in
    (
      written endi body inner fits bounded s chosen,
      write_all-written endi body inner fits bounded s chosen,
      from_encoded_array-written endi body inner fits bounded s chosen,
    )
