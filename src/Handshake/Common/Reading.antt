-- ===== src/Handshake/Common/Reading.antt =====
-- What `read_command` of zbus/src/connection/handshake/common.rs reads, however its bytes arrive.
use zbus.Prelude.{
  ℕ, zero, suc, ◌≤◌, ◌<◌, ◌≡◌, ◌≢◌, refl, sym, ap, ◌∙◌, ◌⊎◌, inl, inr, false, none, some, List, [],
  ◌∷◌, ◌++◌, ok, ◌==◌, length, All, append_assoc, arith,
}
use zbus.Handshake.Command.{Hex, concat}
use zbus.Handshake.Common.{Socket, Common, position_lf, take_line, read_command}

-- The chunks that a socket delivers, none of them empty.
pub data Delivers (socket : Socket) : socket.State → List (List ℕ) → Type 0 where
  so_far : {io : socket.State} → Delivers socket io []
  chunk :
      {io io' : socket.State} {chunks : List (List ℕ)} (b : ℕ) (bytes : List ℕ)
      → socket.recvmsg 1024 io ≡ ok (b ∷ bytes, io')
      → Delivers socket io' chunks
      → Delivers socket io ((b ∷ bytes) ∷ chunks)

-- A socket before and after some bytes were received.
pub data Received (socket : Socket) : socket.State → socket.State → Type 0 where
  nothing : {io : socket.State} → Received socket io io
  received :
      {io io' io'' : socket.State} {bytes : List ℕ}
      → socket.recvmsg 1024 io ≡ ok (bytes, io')
      → Received socket io' io''
      → Received socket io io''

abbrev pub HasNoLf : List ℕ → Type 0
HasNoLf s = All (λ b. (b == 10) ≡ false) s

position_lf-none : (s : List ℕ) → HasNoLf s → position_lf s ≡ none
unfolding position_lf
position_lf-none [] h = refl
position_lf-none (b ∷ bytes) (h, hs) = rw (position_lf, h, position_lf-none bytes hs) refl

position_lf-some :
    (line left : List ℕ) → HasNoLf line → position_lf (line ++ (10 ∷ left)) ≡ some (length line)
unfolding position_lf
position_lf-some [] left h = refl
position_lf-some (b ∷ line) left (h, hs) =
    rw (position_lf, h, position_lf-some line left hs) (ap some (omega arith))

-- Where the bytes there and to come hold a line: the line has not ended yet, or it has.
split_line :
    (there coming line rest : List ℕ)
    → HasNoLf line
    → there ++ coming ≡ line ++ (10 ∷ rest)
    → (HasNoLf there × (coming ≢ []))
      ⊎ ((left : List ℕ) × (there ≡ line ++ (10 ∷ left)) × (left ++ coming ≡ rest))
split_line [] coming [] rest h e = inl (tt, λ none_left. absurd (cc (sym none_left ∙ e)))
split_line [] coming (l ∷ line) rest h e = inl (tt, λ none_left. absurd (cc (sym none_left ∙ e)))
split_line (b ∷ there) coming [] rest h e = inr (there, cc, cc)
split_line (b ∷ there) coming (l ∷ line) rest (h, hs) e =
    let b_l : b ≡ l = cc in
    let tails : there ++ coming ≡ line ++ (10 ∷ rest) = cc in
    elim (split_line there coming line rest hs tails) [
      | inl (no_lf, more) ↦ inl ((rw b_l h, no_lf), more)
      | inr (left, e', e'') ↦ inr (left, cc, e'')
    ]

module _ (socket : Socket) (hex : Hex) where
  -- A line that is complete in the buffer, and what is left to deliver.
  pub data Arrives (fuel : ℕ) (common : Common socket hex) (line rest : List ℕ) (most : ℕ)
      : Type 0 where
    arrives :
        (io : socket.State) (left : List ℕ) (chunks : List (List ℕ))
        → read_command socket hex fuel common
          ≡ take_line socket hex
              (length line)
              (record common { io = io; recv_buffer = line ++ (10 ∷ left) })
        → Received socket common.io io
        → Delivers socket io chunks
        → left ++ concat chunks ≡ rest
        → length chunks ≤ most
        → Arrives fuel common line rest most

  read_now :
      (fuel i : ℕ) (common : Common socket hex)
      → position_lf common.recv_buffer ≡ some i
      → read_command socket hex (suc fuel) common ≡ take_line socket hex i common
  unfolding read_command
  read_now fuel i common h = rw (read_command, h) refl

  read_later :
      (fuel b : ℕ) (bytes : List ℕ) (io : socket.State) (common : Common socket hex)
      → position_lf common.recv_buffer ≡ none
      → socket.recvmsg 1024 common.io ≡ ok (b ∷ bytes, io)
      → read_command socket hex (suc fuel) common
        ≡ read_command socket hex fuel
            (record common { io = io; recv_buffer = common.recv_buffer ++ (b ∷ bytes) })
  unfolding read_command
  read_later fuel b bytes io common h got = rw (read_command, h, got) refl

  ready :
      (fuel : ℕ) (common : Common socket hex) (chunks : List (List ℕ)) (line rest left : List ℕ)
      → Delivers socket common.io chunks
      → HasNoLf line
      → common.recv_buffer ≡ line ++ (10 ∷ left)
      → left ++ concat chunks ≡ rest
      → Arrives (suc fuel) common line rest (length chunks)
  ready fuel common chunks line rest left d no_lf there e =
      arrives common.io left chunks
        (read_now fuel (length line) common
            (ap position_lf there ∙ position_lf-some line left no_lf)
          ∙ ap
              (λ buffer.
                take_line socket hex (length line) (record common { recv_buffer = buffer }))
              there)
        nothing d e (omega arith)

  pub line-Arrives :
      (fuel : ℕ) (common : Common socket hex) (chunks : List (List ℕ)) (line rest : List ℕ)
      → Delivers socket common.io chunks
      → HasNoLf line
      → common.recv_buffer ++ concat chunks ≡ line ++ (10 ∷ rest)
      → length chunks < fuel
      → Arrives fuel common line rest (length chunks)
  unfolding concat
  line-Arrives zero common chunks line rest d no_lf e enough = absurd (omega arith)
  line-Arrives (suc fuel) common _ line rest so_far no_lf e enough =
      elim (split_line common.recv_buffer [] line rest no_lf e) [
        | inr (left, there, e') ↦ ready fuel common [] line rest left so_far no_lf there e'
        | inl (none_yet, more) ↦ absurd (more refl)
      ]
  line-Arrives (suc fuel) common _ line rest (chunk {io' = io} {chunks = chunks} b bytes got d)
        no_lf e enough =
      elim (split_line common.recv_buffer ((b ∷ bytes) ++ concat chunks) line rest no_lf e) [
        | inr (left, there, e') ↦
            ready fuel common ((b ∷ bytes) ∷ chunks) line rest left (chunk b bytes got d) no_lf
              there e'
        | inl (none_yet, more) ↦
            let next = record common { io = io; recv_buffer = common.recv_buffer ++ (b ∷ bytes) } in
            elim (line-Arrives fuel next chunks line rest d no_lf
              (append_assoc common.recv_buffer (b ∷ bytes) (concat chunks) ∙ e) (omega arith)) [
                | arrives io' left chunks' reads until d' e' fewer ↦
                    arrives io' left chunks'
                      (read_later fuel b bytes io common
                          (position_lf-none common.recv_buffer none_yet) got
                        ∙ reads)
                      (received got until) d' e' (omega arith)
              ]
      ]
