-- ===== src/Handshake/Runs.antt =====
-- Runs of the handshake on concrete inputs.
use zbus.Prelude.{
  ℕ, ◌≡◌, refl, true, false, some, none, List, [], ◌∷◌, ◌++◌, Result, ok, length, All, take, ◌≤◌,
  arith,
}
use zbus.Text.{parse_uint, parse_digits, codes, IsAscii, utf8, utf8_char}
use zbus.Handshake.Utf8.{from_utf8}
use zbus.Handshake.Command.{
  concat, begin, auth, external, from_str, display, words_from, from_words, auth_from_words,
  next_bytes, mechanism_from_str,
}
use zbus.Handshake.Command.RoundTrip.{from_str-display}
use zbus.Handshake.Command.Reference.{hex_reference}
use zbus.Handshake.Common.{
  HandshakeError, Socket, Common, with_extra, position_lf, byte_before, command_bytes, send_all,
  write_commands, write_command, take_line, read_command,
}
use zbus.Handshake.Common.Writing.{Taking, lines, nul_if, write_commands_sends}
use zbus.Handshake.Common.Reading.{Delivers, so_far, chunk, HasNoLf}
use zbus.Handshake.Common.Delivery.{read_command_delivered}
use zbus.Handshake.Client.{Client}
use zbus.Handshake.Server.{
  Server, waiting_for_auth, done, auth_ok, check_external_auth, auth_reply, begin_reply,
  handle_auth, finalize, dispatch, next_step, perform,
}
use zbus.Handshake.Server.Runs.{IsAuthorisedRun, perform_authorised}

from_str-display_example :
    from_str hex_reference
      (display hex_reference (auth (some external) (some (49 ∷ 48 ∷ []))) ++ (13 ∷ 10 ∷ []))
    ≡ ok (auth (some external) (some (49 ∷ 48 ∷ [])))
from_str-display_example =
    from_str-display hex_reference (auth (some external) (some (49 ∷ 48 ∷ []))) (13 ∷ 10 ∷ [])
      ((λ e. absurd (cc e)), (omega arith, (omega arith, tt))) (refl, (refl, tt))

-- A socket that receives the chunks of a list and sends all at once.
abbrev receive_chunk : ℕ → List (List ℕ) → Result HandshakeError (List ℕ × List (List ℕ))
receive_chunk n [] = ok ([], [])
receive_chunk n (bytes ∷ chunks) = ok (bytes, chunks)

abbrev script : Socket
script = record {
  State = List (List ℕ);
  recvmsg = receive_chunk;
  sendmsg = λ bytes chunks. ok (length bytes, chunks);
  can_pass_unix_fd = λ chunks. false;
}

-- A client of user 1000, whose lines arrive in pieces.
abbrev waiting : Server script hex_reference
waiting = record {
  common = record {
    io =
        (0 ∷ codes "AUTH EXTERNAL 3130")
        ∷ (codes "3030" ++ (13 ∷ 10 ∷ codes "BEG"))
        ∷ (codes "IN" ++ (13 ∷ 10 ∷ []))
        ∷ [];
    recv_buffer = [];
    cap_unix_fd = false;
    mechanism = external;
    first_command = true;
  };
  step = waiting_for_auth;
  guid = codes "59e2a0fd1c9d4b1d8a70f4f7c6a1b2c3";
  client_uid = some 1000;
}

abbrev finished : Server script hex_reference
finished = record waiting {
  step = done;
  common = record waiting.common { io = []; first_command = false };
}

performed : perform script hex_reference 10 10 waiting ≡ ok finished
unfolding parse_digits parse_uint auth_ok check_external_auth auth_reply begin_reply handle_auth
    finalize dispatch next_step perform position_lf byte_before command_bytes send_all
    write_commands write_command take_line read_command words_from mechanism_from_str display
    next_bytes auth_from_words from_words from_str hex_reference from_utf8 utf8 utf8_char
performed = refl

perform_authorised_example :
    (finished.step ≡ done) × IsAuthorisedRun script hex_reference 10 waiting finished
perform_authorised_example =
    perform_authorised script hex_reference 10 10 waiting finished refl performed

-- A socket that keeps what it is sent, and takes one byte at a time.
abbrev one_by_one : Socket
one_by_one = record {
  State = List ℕ;
  recvmsg = λ n log. ok ([], log);
  sendmsg = λ bytes log. ok (1, log ++ take 1 bytes);
  can_pass_unix_fd = λ log. false;
}

abbrev one_by_one_log : Taking one_by_one
one_by_one_log = record {
  sent = λ log. log;
  takes = λ b buffer log. (1, log ++ (b ∷ []), refl, omega arith, omega arith, refl);
}

abbrev fresh : Common one_by_one hex_reference
fresh = record {
  io = [];
  recv_buffer = [];
  cap_unix_fd = false;
  mechanism = external;
  first_command = true;
}

begin_fits :
    length (with_extra (nul_if true ++ lines hex_reference (begin ∷ [])) (some (1 ∷ 2 ∷ []))) ≤ 30
unfolding display utf8 utf8_char
begin_fits = omega arith

write_commands_sends_example :
    (out : Common one_by_one hex_reference) × (write_commands one_by_one hex_reference 30
        (begin ∷ [])
        (some (1 ∷ 2 ∷ []))
        fresh
      ≡ ok out)
    × (out.io ≡ with_extra (nul_if true ++ lines hex_reference (begin ∷ [])) (some (1 ∷ 2 ∷ [])))
    × (out.first_command ≡ false)
write_commands_sends_example =
    write_commands_sends one_by_one hex_reference one_by_one_log 30 begin [] (some (1 ∷ 2 ∷ []))
      fresh begin_fits

-- `BEGIN` in two chunks, and a byte of what follows.
abbrev arriving : Common script hex_reference
arriving = record {
  io = codes "EGI" ∷ (codes "N" ++ (13 ∷ 10 ∷ 108 ∷ [])) ∷ [];
  recv_buffer = codes "B";
  cap_unix_fd = false;
  mechanism = external;
  first_command = false;
}

begin-IsAscii : All IsAscii (display hex_reference begin)
unfolding display
begin-IsAscii = (omega arith, (omega arith, (omega arith, (omega arith, (omega arith, tt)))))

begin_no_lf : HasNoLf (display hex_reference begin)
unfolding display
begin_no_lf = (refl, (refl, (refl, (refl, (refl, tt)))))

begin_bytes :
    arriving.recv_buffer ++ concat arriving.io
    ≡ nul_if arriving.first_command ++ (utf8 (display hex_reference begin) ++ (13 ∷ 10 ∷ 108 ∷ []))
unfolding display concat utf8 utf8_char
begin_bytes = refl

read_command_delivered_example :
    (out : Common script hex_reference) × (later : List (List ℕ)) × (read_command script
        hex_reference 5 arriving
      ≡ ok (begin, out))
    × (out.first_command ≡ false)
    × Delivers script out.io later
    × (out.recv_buffer ++ concat later ≡ 108 ∷ [])
read_command_delivered_example =
    read_command_delivered script hex_reference 5 arriving arriving.io begin (108 ∷ []) tt
      begin-IsAscii begin_no_lf (chunk _ _ refl (chunk _ _ refl so_far)) begin_bytes (omega arith)

-- A server that answers with its GUID, in two pieces.
abbrev asking : Client script hex_reference
asking = record {
  common = record {
    io = codes "OK 59e2a0fd1c9d4b1d" ∷ (codes "8a70f4f7c6a1b2c3" ++ (13 ∷ 10 ∷ [])) ∷ [];
    recv_buffer = [];
    cap_unix_fd = false;
    mechanism = external;
    first_command = true;
  };
  server_guid = none;
  bus = false;
}

abbrev answered : Client script hex_reference
answered = record asking {
  common = record asking.common { io = []; first_command = false };
  server_guid = some (codes "59e2a0fd1c9d4b1d8a70f4f7c6a1b2c3");
}
