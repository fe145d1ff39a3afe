-- ===== src/Handshake/Common.antt =====
-- What the two sides of the handshake share: zbus/src/connection/handshake/common.rs. A socket is
-- an interface, as it is in the source; the file descriptors that it receives are left out.
pub mod Writing
pub mod Reading
pub mod Lines
pub mod Delivery
use zbus.Prelude.{
  ℕ, zero, suc, ◌+◌, Bool, true, false, not, ◌&&◌, Option, none, some, List, [], ◌∷◌, ◌++◌, Result,
  ok, err, ◌>>=◌, ◌==◌, ltb, if◌then◌else◌, length, take, drop,
}
use zbus.Text.{utf8}
use zbus.Handshake.Utf8.{from_utf8}
use zbus.Handshake.Command.{Command, CommandError, AuthMechanism, Hex, from_str, display}

-- The errors of the handshake by what their messages say, the two ways not to return (a panic,
-- and a loop that outlives its fuel) and the errors of the socket.
pub data HandshakeError : Type 0 where
  invalid_command : CommandError → HandshakeError
  invalid_line_ending first_byte_not_nul invalid_utf8 unexpected_eof : HandshakeError
  invalid_id : HandshakeError
  socket_error : ℕ → HandshakeError
  panic diverges : HandshakeError

abbrev pub Fallible : Type 0 → Type 0
Fallible A = Result HandshakeError A

-- `ReadHalf::recvmsg` of a buffer of a size, `WriteHalf::sendmsg` and `can_pass_unix_fd`.
pub record Socket : Type 1 where
  pub State : Type 0
  pub recvmsg : ℕ → State → Fallible (List ℕ × State)
  pub sendmsg : List ℕ → State → Fallible (ℕ × State)
  pub can_pass_unix_fd : State → Bool

abbrev pub label : {A : Type 0} → Result CommandError A → Fallible A
label (err e) = err (HandshakeError.invalid_command e)
label (ok a) = ok a

-- `position(|b| *b == b'\n')`
unfoldable pub position_lf : List ℕ → Option ℕ
position_lf [] = none
position_lf (b ∷ bytes) = elim (b == 10) [
  | true ↦ some 0
  | false ↦ elim (position_lf bytes) [ none ↦ none | some i ↦ some (i + 1) ]
]

-- `recv_buffer[lf_index - 1]`, which panics at the front of the buffer.
unfoldable pub byte_before : List ℕ → ℕ → Fallible ℕ
byte_before buffer zero = err panic
byte_before buffer (suc i) = elim (drop i buffer) [ [] ↦ err panic | b ∷ bytes ↦ ok b ]

-- `recv_buffer[0] == b'\0'`
abbrev pub starts_with_nul : List ℕ → Bool
starts_with_nul [] = false
starts_with_nul (b ∷ bytes) = b == 0

abbrev pub with_extra : List ℕ → Option (List ℕ) → List ℕ
with_extra bytes none = bytes
with_extra bytes (some extra) = bytes ++ extra

module _ (socket : Socket) (hex : Hex) where
  pub record Common : Type 0 where
    pub io : socket.State
    pub recv_buffer : List ℕ
    pub cap_unix_fd : Bool
    pub mechanism : AuthMechanism
    pub first_command : Bool

  -- The bytes of `write_commands`: the fold over the commands, and what `first_command` becomes.
  unfoldable pub command_bytes : Bool → List Command → List ℕ × Bool
  command_bytes first_command [] = ([], first_command)
  command_bytes first_command (c ∷ commands) =
      let (rest, first) = command_bytes false commands in
      ((if first_command then 0 ∷ [] else []) ++ (utf8 (display hex c) ++ (13 ∷ 10 ∷ rest)), first)

  -- The loop that sends the buffer, on fuel.
  unfoldable pub send_all : ℕ → List ℕ → socket.State → Fallible socket.State
  send_all fuel [] io = ok io
  send_all zero (b ∷ send_buffer) io = err diverges
  send_all (suc fuel) (b ∷ send_buffer) io =
      socket.sendmsg (b ∷ send_buffer) io >>= λ (written, io).
      if ltb (length (b ∷ send_buffer)) written
      then err panic
      else send_all fuel (drop written (b ∷ send_buffer)) io

  unfoldable pub write_commands : ℕ → List Command → Option (List ℕ) → Common → Fallible Common
  write_commands fuel commands extra_bytes common =
      let (bytes, first) = command_bytes common.first_command commands in
      send_all fuel (with_extra bytes extra_bytes) common.io >>= λ io.
      ok (record common { io = io; first_command = first })

  unfoldable pub write_command : ℕ → Command → Common → Fallible Common
  write_command fuel command common = write_commands fuel (command ∷ []) none common

  -- One line that ends at `lf_index`: its command, and the state after it.
  unfoldable pub take_line : ℕ → Common → Fallible (Command × Common)
  take_line lf_index common = byte_before common.recv_buffer lf_index >>= λ before.
      if not (before == 13)
      then err invalid_line_ending
      else if common.first_command && not (starts_with_nul common.recv_buffer)
      then err first_byte_not_nul
      else let start_index = if common.first_command then 1 else 0 in
        let line_bytes = drop start_index (take (lf_index + 1) common.recv_buffer) in
        let common' = record common {
          recv_buffer = drop (lf_index + 1) common.recv_buffer;
          first_command = false;
        } in
        elim (from_utf8 line_bytes) [
          | none ↦ err invalid_utf8
          | some line ↦ label (from_str hex line) >>= λ command. ok (command, common')
        ]

  -- `read_commands` for one command: the loops, on fuel. A line that is there is taken; otherwise
  -- more bytes are received.
  unfoldable pub read_command : ℕ → Common → Fallible (Command × Common)
  read_command zero common = err diverges
  read_command (suc fuel) common = elim (position_lf common.recv_buffer) [
    | some lf_index ↦ take_line lf_index common
    | none ↦ socket.recvmsg 1024 common.io >>= λ (received, io). elim received [
      | [] ↦ err unexpected_eof
      | b ∷ bytes ↦
          read_command fuel
            (record common { io = io; recv_buffer = common.recv_buffer ++ (b ∷ bytes) })
    ]
  ]
