-- ===== src/Handshake/Dialogs.antt =====
-- A whole dialog of the handshake on concrete inputs.
use zbus.Prelude.{
  ℕ, ◌≡◌, refl, sym, ap, subst, Bool, true, not, ◌&&◌, ◌==◌, ltb, all, and_iff, false, some, List,
  [], ◌∷◌, ◌++◌, Result, ok, take, All, arith,
}
use zbus.Text.{parse_uint, parse_digits, codes, IsAscii, utf8, utf8_char}
use zbus.Handshake.Command.{
  Command, concat, begin, auth, external, negotiate_unix_fd, agree_unix_fd, ok_, display,
}
use zbus.Handshake.Command.RoundTrip.{IsCanonical}
use zbus.Handshake.Command.Reference.{hex_reference}
use zbus.Handshake.Common.{HandshakeError, Socket}
use zbus.Handshake.Common.Writing.{Taking, lines, nul_if}
use zbus.Handshake.Common.Reading.{Delivers, so_far, chunk, HasNoLf}
use zbus.Handshake.Server.{Server, waiting_for_auth, done, perform}
use zbus.Handshake.Server.Protocol.{answer, dialog}
use zbus.Handshake.Server.Answers.{Steady, Fits, terms_of}
use zbus.Handshake.Server.Rounds.{IsSendable}
use zbus.Handshake.Server.Serving.{perform_serves}

-- A socket with the chunks to come and a log of the bytes that it was sent, one at a time.
abbrev Duplex : Type 0
Duplex = List (List ℕ) × List ℕ

abbrev receive_chunk : ℕ → Duplex → Result HandshakeError (List ℕ × Duplex)
receive_chunk n ([], log) = ok ([], ([], log))
receive_chunk n (bytes ∷ chunks, log) = ok (bytes, (chunks, log))

abbrev duplex : Socket
duplex = record {
  State = Duplex;
  recvmsg = receive_chunk;
  sendmsg = λ bytes (chunks, log). ok (1, (chunks, log ++ take 1 bytes));
  can_pass_unix_fd = λ io. true;
}

abbrev duplex_log : Taking duplex
duplex_log = record {
  sent = λ (chunks, log). log;
  takes = λ b buffer (chunks, log).
      (1, (chunks, log ++ (b ∷ [])), refl, omega arith, omega arith, refl);
}

duplex-Delivers :
    (io : Duplex) (log : List ℕ) (chunks : List (List ℕ))
    → Delivers duplex io chunks
    → Delivers duplex (io.0, log) chunks
duplex-Delivers io log _ so_far = so_far
duplex-Delivers ([], sent) log _ (chunk b bytes got d) = absurd (cc got)
duplex-Delivers (bs ∷ more, sent) log _ (chunk {io' = next} {chunks = later} b bytes got d) =
    let now : bs ≡ b ∷ bytes = cc in
    let after : next ≡ (more, sent) = cc in
    chunk b bytes (ap (λ bs. ok (bs, (more, log))) now) (
      subst (λ more. Delivers duplex (more, log) later) (ap (λ io. io.0) after)
        (duplex-Delivers next log later d))

receive_chunk_sends_none :
    (n : ℕ) (bytes : List ℕ) (io io' : Duplex) → receive_chunk n io ≡ ok (bytes, io') → io'.1 ≡ io.1
receive_chunk_sends_none n bytes ([], log) io' got = cc
receive_chunk_sends_none n bytes (b ∷ chunks, log) io' got = cc

duplex_steady : Steady duplex duplex_log
duplex_steady = record {
  delivers_on = λ bytes n (chunks, log) io' coming sends d.
      let after : io' ≡ (chunks, log ++ take 1 bytes) = cc in
      subst (λ io. Delivers duplex io coming) (sym after)
        (duplex-Delivers (chunks, log) (log ++ take 1 bytes) coming d);
  sends_none = receive_chunk_sends_none;
  passes_fds = true;
  passes = λ io. refl;
}

-- A client of user 1000 that asks for descriptors, whose lines arrive in pieces, and a byte of
-- what follows.
abbrev client : List Command
client = auth (some external) (some (codes "1000")) ∷ negotiate_unix_fd ∷ begin ∷ []

abbrev guid : List ℕ
guid = codes "59e2a0fd1c9d4b1d8a70f4f7c6a1b2c3"

abbrev waiting : Server duplex hex_reference
waiting = record {
  common = record {
    io = (
      (0 ∷ codes "AUTH EXTERNAL 3130")
          ∷ (codes "3030" ++ (13 ∷ 10 ∷ codes "NEGOTIATE_UNIX_FD"))
          ∷ (13 ∷ [])
          ∷ (10 ∷ codes "BEGIN" ++ (13 ∷ 10 ∷ 108 ∷ []))
          ∷ [],
      [],
    );
    recv_buffer = [];
    cap_unix_fd = false;
    mechanism = external;
    first_command = true;
  };
  step = waiting_for_auth;
  guid = guid;
  client_uid = some 1000;
}

abbrev replies : List Command
replies = ok_ guid ∷ agree_unix_fd ∷ []

client_bytes :
    waiting.common.recv_buffer ++ concat waiting.common.io.0
    ≡ nul_if true ++ (lines hex_reference client ++ (108 ∷ []))
unfolding concat display hex_reference utf8 utf8_char
client_bytes = refl

client-dialog :
    dialog (terms_of duplex hex_reference duplex_log duplex_steady waiting) waiting_for_auth client
    ≡ some replies
unfolding dialog answer duplex_steady parse_uint parse_digits
client-dialog = refl

abbrev is_plain : ℕ → Bool
is_plain c = ltb c 128 && not (c == 10)

is_plain_lem : (c : ℕ) → is_plain c ≡ true → IsAscii c × ((c == 10) ≡ false)
is_plain_lem c h = (ground arith, ground arith)

plain_text : (s : List ℕ) → all is_plain s ≡ true → (All IsAscii s) × (HasNoLf s)
plain_text [] h = (tt, tt)
plain_text (c ∷ s) h =
    let (now, later) = (and_iff (is_plain c) (all is_plain s)).0 h in
    let (ascii, no_lf) = is_plain_lem c now in
    let (all_ascii, no_lfs) = plain_text s later in ((ascii, all_ascii), (no_lf, no_lfs))

command-IsSendable :
    (c : Command)
    → IsCanonical c
    → all is_plain (display hex_reference c) ≡ true
    → IsSendable hex_reference c
command-IsSendable c canonical plain =
    let (ascii, no_lf) = plain_text (display hex_reference c) plain in (canonical, ascii, no_lf)

client-IsSendable : All (IsSendable hex_reference) client
unfolding display hex_reference
client-IsSendable = (
  command-IsSendable (auth (some external) (some (codes "1000")))
      ((λ e. absurd (cc e)), (omega arith, (omega arith, (omega arith, (omega arith, tt))))) refl,
  (command-IsSendable negotiate_unix_fd tt refl, (command-IsSendable begin tt refl, tt)),
)

replies-Fits : All (Fits duplex hex_reference duplex_log duplex_steady 50) replies
unfolding display utf8 utf8_char
replies-Fits = (omega arith, (omega arith, tt))

perform_serves_example :
    (out : Server duplex hex_reference) × (later : List (List ℕ)) × (perform duplex hex_reference 50
        5 waiting
      ≡ ok out)
    × (out.step ≡ done)
    × (out.common.io.1 ≡ lines hex_reference replies)
    × Delivers duplex out.common.io later
    × (out.common.recv_buffer ++ concat later ≡ 108 ∷ [])
perform_serves_example =
    perform_serves duplex hex_reference duplex_log duplex_steady 50 5 waiting waiting.common.io.0
      (auth (some external) (some (codes "1000"))) (negotiate_unix_fd ∷ begin ∷ []) (108 ∷ [])
      replies client-IsSendable
      (chunk _ _ refl (chunk _ _ refl (chunk _ _ refl (chunk _ _ refl so_far)))) client_bytes
      (omega arith) client-dialog replies-Fits (omega arith)
