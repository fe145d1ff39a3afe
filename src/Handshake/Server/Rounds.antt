-- ===== src/Handshake/Server/Rounds.antt =====
-- One round of the server of zbus/src/connection/handshake/server.rs: a command is read, and replied to.
use zbus.Prelude.{
  ℕ, ◌≤◌, ◌<◌, ◌≡◌, refl, ap, ◌∙◌, subst, false, some, List, ◌∷◌, ◌++◌, ok, ◌>>=◌, length, All,
}
use zbus.Text.{IsAscii, utf8}
use zbus.Handshake.Command.{Command, Hex, display, concat}
use zbus.Handshake.Command.RoundTrip.{IsCanonical}
use zbus.Handshake.Common.{Fallible, Socket, Common, read_command}
use zbus.Handshake.Common.Writing.{Taking, lines, nul_if}
use zbus.Handshake.Common.Reading.{Delivers, HasNoLf}
use zbus.Handshake.Common.Delivery.{read_command_takes}
use zbus.Handshake.Server.{
  ServerHandshakeStep, waiting_for_auth, waiting_for_data, waiting_for_begin, done, Server,
  auth_reply, data_reply, begin_reply, is_waiting_for_auth, is_waiting_for_data,
  is_waiting_for_begin, handle_auth, handle_auth_data, finalize, going_on, dispatch, next_step,
}
use zbus.Handshake.Server.Protocol.{answer}
use zbus.Handshake.Server.Answers.{Steady, Received-sent, terms_of, Replies, Fits}
use zbus.Handshake.Server.Handlers.{Meets, auth_reply-Meets, data_reply-Meets, begin_reply-Meets}

-- A command that its line tells, in ASCII and without a line feed.
abbrev pub IsSendable : Hex → Command → Type 0
IsSendable hex c = IsCanonical c × (All IsAscii (display hex c)) × (HasNoLf (display hex c))

module _ (socket : Socket) (hex : Hex) (taking : Taking socket)
    (steady : Steady socket taking) where
  abbrev with_common : Server socket hex → Common socket hex → Server socket hex
  with_common server common = record server { common = common }

  -- What a server has done, from one state to another.
  pub record Served (server out : Server socket hex) (most : ℕ) (rest : List ℕ)
      (next : ServerHandshakeStep) (replies : List Command) : Type 0 where
    pub chunks : List (List ℕ)
    pub reaches : out.step ≡ next
    pub same_terms :
        terms_of socket hex taking steady out ≡ terms_of socket hex taking steady server
    pub goes_on : out.common.first_command ≡ false
    pub delivers : Delivers socket out.common.io chunks
    pub fewer : length chunks ≤ most
    pub left : out.common.recv_buffer ++ concat chunks ≡ rest
    pub log : taking.sent out.common.io ≡ taking.sent server.common.io ++ lines hex replies

  module _ (fuel : ℕ) where
    -- The handler that runs in a step, after it has read.
    abbrev Handled :
        Server socket hex
        → Common socket hex
        → List (List ℕ)
        → ServerHandshakeStep
        → ServerHandshakeStep
        → List Command
        → Type 0
    Handled server common chunks st next replies =
        (run : Fallible (Server socket hex)) × (dispatch socket hex fuel st server
          ≡ run >>= going_on socket hex fuel)
        × Replies socket hex taking steady run (with_common server common) chunks next replies

    dispatch-Replies :
        (st next : ServerHandshakeStep) (server : Server socket hex) (c : Command)
        (common : Common socket hex) (chunks : List (List ℕ)) (replies : List Command)
        → server.step ≡ st
        → read_command socket hex fuel server.common ≡ ok (c, common)
        → common.first_command ≡ false
        → Delivers socket common.io chunks
        → answer (terms_of socket hex taking steady (with_common server common)) st c
          ≡ some (next, replies)
        → All (Fits socket hex taking steady fuel) replies
        → Handled server common chunks st next replies
    unfolding dispatch handle_auth handle_auth_data finalize answer
    dispatch-Replies waiting_for_auth next server c common chunks replies e read later d h fits = (
      auth_reply socket hex fuel c (with_common server common),
      rw (handle_auth, ap is_waiting_for_auth e, read) refl,
      subst (Meets socket hex taking steady fuel chunks _ (with_common server common)) h
          (auth_reply-Meets socket hex taking steady fuel chunks (with_common server common) later d
            c e)
          fits,
    )
    dispatch-Replies (waiting_for_data m) next server c common chunks replies e read later d h
          fits =
        (
          data_reply socket hex fuel m c (with_common server common),
          rw (handle_auth_data, ap is_waiting_for_data e, read) refl,
          subst (Meets socket hex taking steady fuel chunks _ (with_common server common)) h
              (data_reply-Meets socket hex taking steady fuel chunks (with_common server common)
                later d m c e)
              fits,
        )
    dispatch-Replies waiting_for_begin next server c common chunks replies e read later d h fits = (
      begin_reply socket hex fuel c (with_common server common),
      rw (finalize, ap is_waiting_for_begin e, read) refl,
      subst (Meets socket hex taking steady fuel chunks _ (with_common server common)) h
          (begin_reply-Meets socket hex taking steady fuel chunks (with_common server common) later
            d c e)
          fits,
    )
    dispatch-Replies done next server c common chunks replies e read later d h fits = absurd (cc h)

    pub serve_one :
        (server : Server socket hex) (chunks : List (List ℕ)) (c : Command) (rest : List ℕ)
        (next : ServerHandshakeStep) (replies : List Command)
        → IsSendable hex c
        → Delivers socket server.common.io chunks
        → server.common.recv_buffer ++ concat chunks
          ≡ nul_if server.common.first_command ++ (utf8 (display hex c) ++ (13 ∷ 10 ∷ rest))
        → length chunks < fuel
        → answer (terms_of socket hex taking steady server) server.step c ≡ some (next, replies)
        → All (Fits socket hex taking steady fuel) replies
        → (out : Server socket hex) × (next_step socket hex fuel server ≡ ok (false, out))
          × Served server out (length chunks) rest next replies
    unfolding next_step
    serve_one server chunks c rest next replies (canonical, ascii, no_lf) d e enough h fits =
        let (io, there, coming, read, until, d', e', fewer) =
          read_command_takes socket hex fuel server.common chunks c rest canonical ascii no_lf d e
            enough in
        let common = record server.common { io = io; recv_buffer = there; first_command = false } in
        let (run, dispatches, r) =
          dispatch-Replies server.step next server c common coming replies refl read refl d' h
            fits in
        (
          r.out,
          dispatches ∙ ap (λ run. run >>= going_on socket hex fuel) r.runs,
          record {
            chunks = coming;
            reaches = r.reaches;
            same_terms = r.same_terms;
            goes_on = r.goes_on;
            delivers = r.delivers;
            fewer = fewer;
            left = ap (λ s. s ++ concat coming) r.same_buffer ∙ e';
            log =
                r.log
                ∙ ap (λ s. s ++ lines hex replies)
                    (Received-sent socket hex taking steady server.common.io io until);
          },
        )
