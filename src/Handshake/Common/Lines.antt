-- ===== src/Handshake/Common/Lines.antt =====
-- Taking one line of the buffer in zbus/src/connection/handshake/common.rs.
use zbus.Prelude.{
  ℕ, suc, ◌+◌, ◌≡◌, refl, ap, ◌∙◌, Bool, true, false, some, List, [], ◌∷◌, ◌++◌, Result, ok, ◌>>=◌,
  length, take, drop, All, All-append, length-append, take-append, drop-append, append_assoc, arith,
}
use zbus.Text.{IsAscii}
use zbus.Handshake.Utf8.{from_utf8, from_utf8_ascii}
use zbus.Handshake.Command.{AuthMechanism, Command, Hex, from_str}
use zbus.Handshake.Common.{HandshakeError, Socket, Common, label, byte_before, take_line}
use zbus.Handshake.Common.Writing.{nul_if}

-- A line up to its line feed.
abbrev pub line_of : Bool → List ℕ → List ℕ
line_of first text = nul_if first ++ (text ++ (13 ∷ []))

byte_before-last :
    (line left : List ℕ) (b : ℕ)
    → byte_before (line ++ (b ∷ []) ++ left) (length (line ++ (b ∷ []))) ≡ ok b
unfolding byte_before
byte_before-last line left b =
    let len : length (line ++ (b ∷ [])) ≡ suc (length line) =
      omega (arith, length-append line (b ∷ [])) in
    let there : drop (length line) (line ++ (b ∷ []) ++ left) ≡ b ∷ left =
      ap (drop (length line)) (append_assoc line (b ∷ []) left) ∙ drop-append line (b ∷ left) in
    rw len (rw (byte_before, there) refl)

take_line_bytes :
    (line left : List ℕ)
    → (take (length line + 1) (line ++ (10 ∷ left)) ≡ line ++ (10 ∷ []))
      × (drop (length line + 1) (line ++ (10 ∷ left)) ≡ left)
take_line_bytes line left =
    let len : length (line ++ (10 ∷ [])) ≡ length line + 1 =
      omega (arith, length-append line (10 ∷ [])) in
    let whole : (line ++ (10 ∷ [])) ++ left ≡ line ++ (10 ∷ left) =
      append_assoc line (10 ∷ []) left in
    (
      rw (len, whole) at (take-append (line ++ (10 ∷ [])) left),
      rw (len, whole) at (drop-append (line ++ (10 ∷ [])) left),
    )

module _ (socket : Socket) (hex : Hex) (io : socket.State) (cap : Bool) (mech : AuthMechanism) where
  abbrev with_buffer : Bool → List ℕ → Common socket hex
  with_buffer first buffer = record {
    io = io;
    recv_buffer = buffer;
    cap_unix_fd = cap;
    mechanism = mech;
    first_command = first;
  }

  -- The result of parsing a line, with what is left.
  abbrev parsed : List ℕ → List ℕ → Result HandshakeError (Command × Common socket hex)
  parsed text left = label (from_str hex text) >>= λ c. ok (c, with_buffer false left)

  text_ascii :
      (text : List ℕ)
      → All IsAscii text
      → from_utf8 (text ++ (13 ∷ []) ++ (10 ∷ [])) ≡ some (text ++ (13 ∷ []) ++ (10 ∷ []))
  text_ascii text h = from_utf8_ascii (text ++ (13 ∷ []) ++ (10 ∷ [])) (
      All-append IsAscii (text ++ (13 ∷ [])) (10 ∷ [])
        (All-append IsAscii text (13 ∷ []) h (omega arith, tt)) (omega arith, tt))

  pub take_line_text :
      (first : Bool) (text left : List ℕ)
      → All IsAscii text
      → take_line socket hex
          (length (line_of first text))
          (with_buffer first (line_of first text ++ (10 ∷ left)))
        ≡ parsed (text ++ (13 ∷ []) ++ (10 ∷ [])) left
  unfolding take_line
  take_line_text true text left h =
      let (taken, dropped) = take_line_bytes (line_of true text) left in
      rw (byte_before-last (0 ∷ text) (10 ∷ left) 13, taken, text_ascii text h, dropped) refl
  take_line_text false text left h =
      let (taken, dropped) = take_line_bytes (line_of false text) left in
      rw (byte_before-last text (10 ∷ left) 13, taken, text_ascii text h, dropped) refl
