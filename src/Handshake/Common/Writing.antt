-- ===== src/Handshake/Common/Writing.antt =====
-- What `write_commands` of zbus/src/connection/handshake/common.rs sends.
use zbus.Prelude.{
  ℕ, zero, suc, ◌≤◌, ◌<◌, ◌≡◌, refl, sym, ap, ◌∙◌, Bool, true, false, Option, List, [], ◌∷◌, ◌++◌,
  ok, ltb, length, take, drop, length-drop, append-nil, append_assoc, arith,
}
use zbus.Text.{utf8}
use zbus.Handshake.Command.{Command, Hex, display}
use zbus.Handshake.Common.{Socket, Common, with_extra, command_bytes, send_all, write_commands}

-- A socket that takes some of the bytes at each call, without an error, and what it has taken.
pub record Taking (socket : Socket) : Type 0 where
  pub sent : socket.State → List ℕ
  pub takes :
      (b : ℕ) (buffer : List ℕ) (io : socket.State)
      → (n : ℕ) × (io' : socket.State) × (socket.sendmsg (b ∷ buffer) io ≡ ok (n, io'))
        × (0 < n)
        × (n ≤ length (b ∷ buffer))
        × (sent io' ≡ sent io ++ take n (b ∷ buffer))

-- The lines of commands.
abbrev pub lines : Hex → List Command → List ℕ
lines hex [] = []
lines hex (c ∷ commands) = utf8 (display hex c) ++ (13 ∷ 10 ∷ lines hex commands)

-- A NUL byte in front of the first command of a connection.
abbrev pub nul_if : Bool → List ℕ
nul_if true = 0 ∷ []
nul_if false = []

take-drop : (n : ℕ) (xs : List ℕ) → take n xs ++ drop n xs ≡ xs
take-drop zero xs = refl
take-drop (suc n) [] = refl
take-drop (suc n) (x ∷ xs) = ap (λ t. x ∷ t) (take-drop n xs)

module _ (socket : Socket) (hex : Hex) (taking : Taking socket) where
  send_all_takes :
      (fuel : ℕ) (buffer : List ℕ) (io : socket.State)
      → length buffer ≤ fuel
      → (io' : socket.State) × (send_all socket hex fuel buffer io ≡ ok io')
        × (taking.sent io' ≡ taking.sent io ++ buffer)
  unfolding send_all
  send_all_takes fuel [] io h = (io, refl, sym (append-nil (taking.sent io)))
  send_all_takes zero (b ∷ buffer) io h = absurd (omega arith)
  send_all_takes (suc fuel) (b ∷ buffer) io h =
      let (n, io', took, some_taken, within, log) = taking.takes b buffer io in
      let left = length-drop n (b ∷ buffer) in
      let (out, run, log') = send_all_takes fuel (drop n (b ∷ buffer)) io' (omega arith) in
      (
        out,
        rw (took, no_more n (length (b ∷ buffer)) within) run,
        log'
            ∙ ap (λ s. s ++ drop n (b ∷ buffer)) log
            ∙ append_assoc (taking.sent io) (take n (b ∷ buffer)) (drop n (b ∷ buffer))
            ∙ ap (λ s. taking.sent io ++ s) (take-drop n (b ∷ buffer)),
      )
    where
      no_more : (n len : ℕ) → n ≤ len → ltb len n ≡ false
      no_more n len h = ground arith

  command_bytes-lines :
      (commands : List Command)
      → command_bytes socket hex false commands ≡ (lines hex commands, false)
  unfolding command_bytes
  command_bytes-lines [] = refl
  command_bytes-lines (c ∷ commands) = rw (command_bytes-lines commands) refl

  first_command_bytes :
      (first : Bool) (c : Command) (commands : List Command)
      → command_bytes socket hex first (c ∷ commands)
        ≡ (nul_if first ++ lines hex (c ∷ commands), false)
  unfolding command_bytes
  first_command_bytes true c commands = rw (command_bytes-lines commands) refl
  first_command_bytes false c commands = rw (command_bytes-lines commands) refl

  -- Writing commands that are sent: the state after it.
  pub write_commands_takes :
      (fuel : ℕ) (c : Command) (commands : List Command) (extra : Option (List ℕ))
      (common : Common socket hex)
      → length (with_extra (nul_if common.first_command ++ lines hex (c ∷ commands)) extra) ≤ fuel
      → (io : socket.State) × (write_commands socket hex fuel (c ∷ commands) extra common
          ≡ ok (record common { io = io; first_command = false }))
        × (send_all socket hex fuel
              (with_extra (nul_if common.first_command ++ lines hex (c ∷ commands)) extra)
              common.io
            ≡ ok io)
        × (taking.sent io
            ≡ taking.sent common.io
              ++ with_extra (nul_if common.first_command ++ lines hex (c ∷ commands)) extra)
  unfolding write_commands
  write_commands_takes fuel c commands extra common h =
      let (io, run, log) =
        send_all_takes fuel
          (with_extra (nul_if common.first_command ++ lines hex (c ∷ commands)) extra) common.io
          h in
      (io, rw (first_command_bytes common.first_command c commands, run) refl, run, log)

  -- On a socket that takes some bytes at each call, with fuel for each byte to send, writing one or
  -- more commands succeeds and sends exactly a NUL byte, if they are the first, then the line of
  -- each command in order, then the extra bytes, however the socket cuts them; afterwards no
  -- command is the first.
  pub write_commands_sends :
      (fuel : ℕ) (c : Command) (commands : List Command) (extra : Option (List ℕ))
      (common : Common socket hex)
      → length (with_extra (nul_if common.first_command ++ lines hex (c ∷ commands)) extra) ≤ fuel
      → (out : Common socket hex) × (write_commands socket hex fuel (c ∷ commands) extra common
          ≡ ok out)
        × (taking.sent out.io
            ≡ taking.sent common.io
              ++ with_extra (nul_if common.first_command ++ lines hex (c ∷ commands)) extra)
        × (out.first_command ≡ false)
  write_commands_sends fuel c commands extra common h =
      let (io, run, _, log) = write_commands_takes fuel c commands extra common h in
      (record common { io = io; first_command = false }, run, log, refl)
