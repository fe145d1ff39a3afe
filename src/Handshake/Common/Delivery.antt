-- ===== src/Handshake/Common/Delivery.antt =====
-- From what one side of zbus/src/connection/handshake/common.rs writes to what the other reads.
use zbus.Prelude.{
  ℕ, ◌≤◌, ◌<◌, ◌≡◌, refl, sym, ap, ◌∙◌, Bool, true, false, List, [], ◌∷◌, ◌++◌, ok, ◌>>=◌, ◌==◌,
  length, All, All-append, append_assoc,
}
use zbus.Text.{IsAscii, utf8, utf8_ascii}
use zbus.Handshake.Command.{Command, Hex, display, from_str, concat}
use zbus.Handshake.Command.RoundTrip.{IsCanonical, from_str-display}
use zbus.Handshake.Common.{Socket, Common, label, read_command}
use zbus.Handshake.Common.Writing.{nul_if}
use zbus.Handshake.Common.Reading.{Delivers, Received, HasNoLf, arrives, line-Arrives}
use zbus.Handshake.Common.Lines.{line_of, take_line_text}

no_lf_line : (first : Bool) (text : List ℕ) → HasNoLf text → HasNoLf (line_of first text)
no_lf_line true text h = (refl, All-append (λ b. (b == 10) ≡ false) text (13 ∷ []) h (refl, tt))
no_lf_line false text h = All-append (λ b. (b == 10) ≡ false) text (13 ∷ []) h (refl, tt)

stream :
    (first : Bool) (text rest : List ℕ)
    → nul_if first ++ (text ++ (13 ∷ 10 ∷ rest)) ≡ line_of first text ++ (10 ∷ rest)
stream true text rest = ap (λ s. 0 ∷ s) (sym (append_assoc text (13 ∷ []) (10 ∷ rest)))
stream false text rest = sym (append_assoc text (13 ∷ []) (10 ∷ rest))

module _ (socket : Socket) (hex : Hex) where
  parses :
      (c : Command)
      → IsCanonical c
      → label (from_str hex (display hex c ++ (13 ∷ []) ++ (10 ∷ []))) ≡ ok c
  parses c canonical =
      ap (λ s. label (from_str hex s)) (append_assoc (display hex c) (13 ∷ []) (10 ∷ []))
      ∙ ap label (from_str-display hex c (13 ∷ 10 ∷ []) canonical (refl, (refl, tt)))

  -- Reading a command that has been sent: the state after it, and what is left.
  pub read_command_takes :
      (fuel : ℕ) (common : Common socket hex) (chunks : List (List ℕ)) (c : Command) (rest : List ℕ)
      → IsCanonical c
      → All IsAscii (display hex c)
      → HasNoLf (display hex c)
      → Delivers socket common.io chunks
      → common.recv_buffer ++ concat chunks
        ≡ nul_if common.first_command ++ (utf8 (display hex c) ++ (13 ∷ 10 ∷ rest))
      → length chunks < fuel
      → (io : socket.State) × (left : List ℕ) × (later : List (List ℕ)) × (read_command socket hex
            fuel common
          ≡ ok (c, record common { io = io; recv_buffer = left; first_command = false }))
        × Received socket common.io io
        × Delivers socket io later
        × (left ++ concat later ≡ rest)
        × (length later ≤ length chunks)
  read_command_takes fuel common chunks c rest canonical ascii no_lf d e enough =
      let first = common.first_command in
      let text = display hex c in
      let bytes =
        e
        ∙ ap (λ t. nul_if first ++ (t ++ (13 ∷ 10 ∷ rest))) (utf8_ascii text ascii)
        ∙ stream first text rest in
      elim (line-Arrives socket hex fuel common chunks (line_of first text) rest d
        (no_lf_line first text no_lf) bytes enough) [
          | arrives io left later reads until d' e' fewer ↦ (
            io,
            left,
            later,
            reads
                ∙ take_line_text socket hex io common.cap_unix_fd common.mechanism first text left
                    ascii
                ∙ ap
                    (λ r. r >>= λ c.
                      ok (c, record common { io = io; recv_buffer = left; first_command = false }))
                    (parses c canonical),
            until,
            d',
            e',
            fewer,
          )
        ]

  -- Where the bytes in the buffer and those that the socket delivers, in chunks of any sizes but
  -- none empty, are what `write_commands` sends for a command (after a NUL byte, if it is the
  -- first) and a rest, with fuel for each chunk; and the command is one that its text tells, in
  -- ASCII and without a line feed: reading gives that command, the next is not the first, and the
  -- buffer with the chunks to come is the rest.
  pub read_command_delivered :
      (fuel : ℕ) (common : Common socket hex) (chunks : List (List ℕ)) (c : Command) (rest : List ℕ)
      → IsCanonical c
      → All IsAscii (display hex c)
      → HasNoLf (display hex c)
      → Delivers socket common.io chunks
      → common.recv_buffer ++ concat chunks
        ≡ nul_if common.first_command ++ (utf8 (display hex c) ++ (13 ∷ 10 ∷ rest))
      → length chunks < fuel
      → (out : Common socket hex) × (later : List (List ℕ)) × (read_command socket hex fuel common
          ≡ ok (c, out))
        × (out.first_command ≡ false)
        × Delivers socket out.io later
        × (out.recv_buffer ++ concat later ≡ rest)
  read_command_delivered fuel common chunks c rest canonical ascii no_lf d e enough =
      let (io, left, later, reads, _, d', e', _) =
        read_command_takes fuel common chunks c rest canonical ascii no_lf d e enough in
      (
        record common { io = io; recv_buffer = left; first_command = false },
        later,
        reads,
        refl,
        d',
        e',
      )
