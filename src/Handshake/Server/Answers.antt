-- ===== src/Handshake/Server/Answers.antt =====
-- The replies of zbus/src/connection/handshake/server.rs on a socket that takes them.
use zbus.Prelude.{
  ℕ, zero, suc, ◌≤◌, ◌≡◌, refl, sym, ap, ◌∙◌, subst, Bool, true, false, none, List, [], ◌∷◌, ◌++◌,
  ok, err, ◌>>=◌, ltb, length, drop, if◌then◌else◌, bind_ok,
}
use zbus.Handshake.Command.{Command, Hex}
use zbus.Handshake.Common.{Fallible, panic, Socket, send_all, write_command}
use zbus.Handshake.Common.Writing.{Taking, lines, nul_if, write_commands_takes}
use zbus.Handshake.Common.Reading.{Delivers, Received, nothing, received}
use zbus.Handshake.Server.{ServerHandshakeStep, Server, send, goto}
use zbus.Handshake.Server.Protocol.{Terms}

-- A socket whose two directions do not touch each other, and that passes descriptors or does not.
pub record Steady (socket : Socket) (taking : Taking socket) : Type 0 where
  pub delivers_on :
      (bytes : List ℕ) (n : ℕ) (io io' : socket.State) (chunks : List (List ℕ))
      → socket.sendmsg bytes io ≡ ok (n, io')
      → Delivers socket io chunks
      → Delivers socket io' chunks
  pub sends_none :
      (n : ℕ) (bytes : List ℕ) (io io' : socket.State)
      → socket.recvmsg n io ≡ ok (bytes, io')
      → taking.sent io' ≡ taking.sent io
  pub passes_fds : Bool
  pub passes : (io : socket.State) → socket.can_pass_unix_fd io ≡ passes_fds

module _ (socket : Socket) (hex : Hex) (taking : Taking socket)
    (steady : Steady socket taking) where
  pub Received-sent :
      (io io' : socket.State) → Received socket io io' → taking.sent io' ≡ taking.sent io
  Received-sent io _ nothing = refl
  Received-sent io io' (received {io' = mid} {bytes = bytes} got more) =
      Received-sent mid io' more ∙ steady.sends_none 1024 bytes io mid got

  send_all-Delivers :
      (fuel : ℕ) (buffer : List ℕ) (io io' : socket.State) (chunks : List (List ℕ))
      → send_all socket hex fuel buffer io ≡ ok io'
      → Delivers socket io chunks
      → Delivers socket io' chunks
  unfolding send_all
  send_all-Delivers fuel [] io io' chunks h d =
      let same : io ≡ io' = cc in subst (λ io. Delivers socket io chunks) same d
  send_all-Delivers zero (b ∷ buffer) io io' chunks h d = absurd (cc h)
  send_all-Delivers (suc fuel) (b ∷ buffer) io io' chunks h d =
      let ((n, mid), took, rest) =
        bind_ok (socket.sendmsg (b ∷ buffer) io)
          (λ (written, io).
            if ltb (length (b ∷ buffer)) written
            then err panic
            else send_all socket hex fuel (drop written (b ∷ buffer)) io)
          h in
      elim (ltb (length (b ∷ buffer)) n)
          as (λ over.
            (if over then err panic else send_all socket hex fuel (drop n (b ∷ buffer)) mid)
              ≡ ok io'
            → Delivers socket io' chunks) [
              | true ↦ λ e. absurd (cc e)
              | false ↦ λ e.
                  send_all-Delivers fuel (drop n (b ∷ buffer)) mid io' chunks e
                    (steady.delivers_on (b ∷ buffer) n io mid chunks took d)
            ]
        rest

  abbrev pub terms_of : Server socket hex → Terms
  terms_of server = record {
    mechanism = server.common.mechanism;
    client_uid = server.client_uid;
    guid = server.guid;
    passes_fds = steady.passes_fds;
  }

  -- A run of the server that sends some commands, and leaves the rest of its state.
  pub record Replies (run : Fallible (Server socket hex)) (server : Server socket hex)
      (chunks : List (List ℕ)) (st : ServerHandshakeStep) (commands : List Command) : Type 0 where
    pub out : Server socket hex
    pub runs : run ≡ ok out
    pub reaches : out.step ≡ st
    pub same_terms : terms_of out ≡ terms_of server
    pub same_buffer : out.common.recv_buffer ≡ server.common.recv_buffer
    pub goes_on : out.common.first_command ≡ false
    pub delivers : Delivers socket out.common.io chunks
    pub log : taking.sent out.common.io ≡ taking.sent server.common.io ++ lines hex commands

  abbrev pub Fits : ℕ → Command → Type 0
  Fits fuel c = length (lines hex (c ∷ [])) ≤ fuel

  module _ (fuel : ℕ) (chunks : List (List ℕ)) where
    pub send-Replies :
        (c : Command) (server : Server socket hex) (st : ServerHandshakeStep)
        → server.step ≡ st
        → server.common.first_command ≡ false
        → Delivers socket server.common.io chunks
        → Fits fuel c
        → Replies (send socket hex fuel c server) server chunks st (c ∷ [])
    unfolding write_command
    send-Replies c server st e later d fits =
        let bytes : nul_if server.common.first_command ++ lines hex (c ∷ []) ≡ lines hex (c ∷ []) =
          ap (λ first. nul_if first ++ lines hex (c ∷ [])) later in
        let (io, writes, sends, log) =
          write_commands_takes socket hex taking fuel c [] none server.common
            (subst (λ bytes. length bytes ≤ fuel) (sym bytes) fits) in
        record {
          out = record server { common = record server.common { io = io; first_command = false } };
          runs = ap (λ r. r >>= λ common. ok (record server { common = common })) writes;
          reaches = e;
          same_terms = refl;
          same_buffer = refl;
          goes_on = refl;
          delivers = send_all-Delivers fuel _ server.common.io io chunks sends d;
          log = log ∙ ap (λ s. taking.sent server.common.io ++ s) bytes;
        }

    pub goto-Replies :
        (run : Fallible (Server socket hex)) (server : Server socket hex)
        (st next : ServerHandshakeStep) (commands : List Command)
        → Replies run server chunks st commands
        → Replies (run >>= goto socket hex fuel next) server chunks next commands
    goto-Replies run server st next commands r = record {
      out = record r.out { step = next };
      runs = ap (λ run. run >>= goto socket hex fuel next) r.runs;
      reaches = refl;
      same_terms = r.same_terms;
      same_buffer = r.same_buffer;
      goes_on = r.goes_on;
      delivers = r.delivers;
      log = r.log;
    }
