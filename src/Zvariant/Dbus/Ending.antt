-- ===== src/Zvariant/Dbus/Ending.antt =====
-- The end of sequences and structures in zvariant/src/dbus/ser.rs.
use zbus.Prelude.{
  ℕ, ◌+◌, ◌-◌, ◌^◌, ◌≡◌, sym, subst, ap, ◌∙◌, List, ◌++◌, ok, ltb, inl, inr, length, take, drop,
  Bool-cases, length-append, take-append, drop-append, append_assoc, arith,
}
use zbus.Signature.{Signature}
use zbus.Zvariant.Depths.{dec_array}
use zbus.Zvariant.Dbus.{Endian}
use zbus.Zvariant.Dbus.Ser.{Serializer, StructSeq, seq, struct_, patch, end_seq, end_struct}
use zbus.Zvariant.Dbus.Growing.{Grows}
use zbus.Zvariant.Dbus.Beginning.{Begins}

-- The length goes over the 0 that was written for it.
pub patch_lem :
    (w z q e b : List ℕ)
    → length b ≡ length z
    → patch (length w) b (w ++ z ++ q ++ e) ≡ w ++ b ++ (q ++ e)
patch_lem w z q e b h =
    let regroup : w ++ z ++ q ++ e ≡ w ++ (z ++ (q ++ e)) =
      append_assoc (w ++ z) q e ∙ append_assoc w z (q ++ e) in
    let regroup' : w ++ z ++ q ++ e ≡ (w ++ z) ++ (q ++ e) = append_assoc (w ++ z) q e in
    let len : length w + length b ≡ length (w ++ z) =
      ap (λ n. length w + n) h ∙ sym (length-append w z) in
    ap (λ t. t ++ b ++ drop (length w + length b) (w ++ z ++ q ++ e))
      (ap (take (length w)) regroup ∙ take-append w (z ++ (q ++ e)))
    ∙ ap (λ t. w ++ b ++ t)
        (ap (λ n. drop n (w ++ z ++ q ++ e)) len
          ∙ ap (drop (length (w ++ z))) regroup'
          ∙ drop-append (w ++ z) (q ++ e))

module _ (endian : Endian) where
  end_seq-Grows :
      (child : Signature) (start first_padding : ℕ) (r s t u : Serializer)
      → Begins endian (seq child start first_padding) r s
      → Grows s t
      → end_seq endian start first_padding t ≡ ok u
      → Grows r u
  unfolding end_seq
  end_seq-Grows child start first_padding r s t u (p, q, w, st, fp, back, v) ((e, grown), d) h =
      elim (Bool-cases (ltb (length t.written - start) (2 ^ 32))) [
        | inr big ↦ absurd (cc (rw big at h))
        | inl fits ↦
            let z = endian.write 4 0 in
            let b = endian.write 4 (length t.written - start) in
            let at_end : u ≡ record t {
              written =
                  patch (length t.written - (length t.written - start + first_padding + 4)) b
                    t.written;
              container_depths = dec_array t.container_depths;
            } =
              cc (rw fits at h) in
            let all : t.written ≡ (r.written ++ p) ++ z ++ q ++ e = grown ∙ ap (λ w. w ++ e) w in
            let len_z = endian.length-write 4 0 in
            let len_b = endian.length-write 4 (length t.written - start) in
            let l1 = length-append s.written e in
            let l2 = ap length grown in
            let l3 = ap length w in
            let l4 = length-append ((r.written ++ p) ++ z) q in
            let l5 = length-append (r.written ++ p) z in
            let place : length t.written - (length t.written - start + first_padding + 4)
                ≡ length (r.written ++ p) =
              omega arith in
            let patched =
              ap (λ n. patch n b t.written) place
              ∙ ap (patch (length (r.written ++ p)) b) all
              ∙ patch_lem (r.written ++ p) z q e b (omega arith) in
            (
              (
                p ++ b ++ (q ++ e),
                ap (λ u. u.written) at_end
                    ∙ patched
                    ∙ ap (λ w. w ++ (q ++ e)) (append_assoc r.written p b)
                    ∙ append_assoc r.written (p ++ b) (q ++ e),
              ),
              ap (λ u. u.container_depths) at_end ∙ ap dec_array d ∙ back,
            )
      ]

  pub end_struct-Grows :
      (ser : StructSeq) (r s t u : Serializer)
      → Begins endian ser r s
      → Grows s t
      → end_struct endian ser t ≡ ok u
      → Grows r u
  unfolding end_struct
  end_struct-Grows (seq child start first_padding) r s t u b g h =
      end_seq-Grows child start first_padding r s t u b g h
  end_struct-Grows (struct_ sig depths) r s t u ((a, w), same, v) ((e, grown), d) h =
      let at_end : record t { container_depths = depths } ≡ u = cc h in
      subst (Grows r) at_end
        ((a ++ e, grown ∙ ap (λ w. w ++ e) w ∙ append_assoc r.written a e), same)
