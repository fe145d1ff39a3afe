-- ===== src/Handshake/Server/Handlers.antt =====
-- What the handlers of zbus/src/connection/handshake/server.rs do with a command is what the
-- protocol answers to it.
use zbus.Prelude.{
  ℕ, ◌≡◌, refl, sym, true, false, not, Option, none, some, List, [], ◌∷◌, append-nil, err, ◌>>=◌,
  All, if◌then◌else◌,
}
use zbus.Text.{codes}
use zbus.Handshake.Command.{
  AuthMechanism, external, anonymous, as_str, Command, auth, cancel, begin, data_, error,
  negotiate_unix_fd, rejected, ok_, agree_unix_fd, Hex,
}
use zbus.Handshake.Common.{Fallible, invalid_id, Socket}
use zbus.Handshake.Common.Writing.{Taking}
use zbus.Handshake.Common.Reading.{Delivers}
use zbus.Handshake.Server.{
  ServerHandshakeStep, waiting_for_auth, waiting_for_data, waiting_for_begin, done, Server,
  parse_u32, is_mechanism, is_client, send, goto, auth_ok, rejected_error,
  unsupported_command_error, check_external_auth, auth_reply, data_reply, begin_reply,
}
use zbus.Handshake.Server.Protocol.{
  Answer, reply, accept, refuse, misplaced, identify, authenticate, answer,
}
use zbus.Handshake.Server.Answers.{Steady, terms_of, Replies, Fits, send-Replies, goto-Replies}

abbrev no_fd_passing : Command
no_fd_passing = error (codes "FD-passing not possible on this socket type")

module _ (socket : Socket) (hex : Hex) (taking : Taking socket)
    (steady : Steady socket taking) where
  module _ (fuel : ℕ) (chunks : List (List ℕ)) where
    -- A run of the server does what the protocol's answer is, if that is one whose replies fit.
    abbrev pub Meets : Fallible (Server socket hex) → Server socket hex → Answer → Type 0
    Meets run server none = Unit
    Meets run server (some (st, commands)) =
        All (Fits socket hex taking steady fuel) commands
        → Replies socket hex taking steady run server chunks st commands

    module _ (server : Server socket hex) (later : server.common.first_command ≡ false)
        (d : Delivers socket server.common.io chunks) where
      auth_ok-Meets :
          Meets
            (auth_ok socket hex fuel server)
            server
            (accept (terms_of socket hex taking steady server))
      unfolding auth_ok
      auth_ok-Meets (fits, _) =
          goto-Replies socket hex taking steady fuel chunks _ server server.step waiting_for_begin _
            (send-Replies socket hex taking steady fuel chunks (ok_ server.guid) server server.step
              refl later d fits)

      rejected_error-Meets :
          Meets
            (rejected_error socket hex fuel server)
            server
            (refuse (terms_of socket hex taking steady server))
      unfolding rejected_error
      rejected_error-Meets (fits, _) =
          goto-Replies socket hex taking steady fuel chunks _ server server.step waiting_for_auth _
            (send-Replies socket hex taking steady fuel chunks
              (rejected (as_str server.common.mechanism)) server server.step refl later d fits)

      unsupported_command_error-Meets :
          (st : ServerHandshakeStep)
          → server.step ≡ st
          → Meets
              (unsupported_command_error socket hex fuel server)
              server
              (misplaced (terms_of socket hex taking steady server) st)
      unfolding unsupported_command_error
      unsupported_command_error-Meets st e (fits, _) =
          send-Replies socket hex taking steady fuel chunks _ server st e later d fits

      check_external_auth-Meets :
          (id : List ℕ)
          → Meets
              (check_external_auth socket hex fuel id server)
              server
              (identify (terms_of socket hex taking steady server) id)
      unfolding check_external_auth
      check_external_auth-Meets id =
          elim (parse_u32 id)
            as (λ parsed.
              Meets
                (elim parsed [
                  | none ↦ err invalid_id
                  | some uid ↦
                      if is_client server.client_uid uid
                      then auth_ok socket hex fuel server
                      else rejected_error socket hex fuel server
                ])
                server
                (elim parsed [
                  | none ↦ none
                  | some uid ↦
                      if is_client server.client_uid uid
                      then accept (terms_of socket hex taking steady server)
                      else refuse (terms_of socket hex taking steady server)
                ])) [
                  | none ↦ tt
                  | some uid ↦
                      elim (is_client server.client_uid uid)
                        as (λ same.
                          Meets
                            (if same
                              then auth_ok socket hex fuel server
                              else rejected_error socket hex fuel server)
                            server
                            (if same
                              then accept (terms_of socket hex taking steady server)
                              else refuse (terms_of socket hex taking steady server))) [
                                | true ↦ auth_ok-Meets
                                | false ↦ rejected_error-Meets
                              ]
                ]

      auth_response-Meets :
          (resp : Option (List ℕ)) (m : AuthMechanism)
          → Meets
              (elim resp [
                | none ↦
                    (send socket hex fuel (data_ none) server
                      >>= goto socket hex fuel (waiting_for_data m))
                | some sasl_id ↦ elim m [
                  | anonymous ↦ auth_ok socket hex fuel server
                  | external ↦ check_external_auth socket hex fuel sasl_id server
                ]
              ])
              server
              (authenticate (terms_of socket hex taking steady server) m resp)
      auth_response-Meets none m = λ (fits, _).
          goto-Replies socket hex taking steady fuel chunks _ server server.step
            (waiting_for_data m) (data_ none ∷ [])
            (send-Replies socket hex taking steady fuel chunks (data_ none) server server.step refl
              later d fits)
      auth_response-Meets (some id) external = check_external_auth-Meets id
      auth_response-Meets (some id) anonymous = auth_ok-Meets

      pub auth_reply-Meets :
          (c : Command)
          → server.step ≡ waiting_for_auth
          → Meets
              (auth_reply socket hex fuel c server)
              server
              (answer (terms_of socket hex taking steady server) waiting_for_auth c)
      unfolding auth_reply answer
      auth_reply-Meets (auth m resp) e =
          elim (is_mechanism m server.common.mechanism)
            as (λ offered.
              Meets
                (if not offered then rejected_error socket hex fuel server else elim resp [
                  | none ↦
                      (send socket hex fuel (data_ none) server
                        >>= goto socket hex fuel (waiting_for_data server.common.mechanism))
                  | some sasl_id ↦ elim server.common.mechanism [
                    | anonymous ↦ auth_ok socket hex fuel server
                    | external ↦ check_external_auth socket hex fuel sasl_id server
                  ]
                ])
                server
                (if offered
                  then authenticate (terms_of socket hex taking steady server)
                      server.common.mechanism resp
                  else refuse (terms_of socket hex taking steady server))) [
                    | true ↦ auth_response-Meets resp server.common.mechanism
                    | false ↦ rejected_error-Meets
                  ]
      auth_reply-Meets cancel e = rejected_error-Meets
      auth_reply-Meets begin e = unsupported_command_error-Meets waiting_for_auth e
      auth_reply-Meets (data_ x) e = unsupported_command_error-Meets waiting_for_auth e
      auth_reply-Meets (error x) e = rejected_error-Meets
      auth_reply-Meets negotiate_unix_fd e = unsupported_command_error-Meets waiting_for_auth e
      auth_reply-Meets (rejected x) e = unsupported_command_error-Meets waiting_for_auth e
      auth_reply-Meets (ok_ x) e = unsupported_command_error-Meets waiting_for_auth e
      auth_reply-Meets agree_unix_fd e = unsupported_command_error-Meets waiting_for_auth e

      pub data_reply-Meets :
          (m : AuthMechanism) (c : Command)
          → server.step ≡ waiting_for_data m
          → Meets
              (data_reply socket hex fuel m c server)
              server
              (answer (terms_of socket hex taking steady server) (waiting_for_data m) c)
      unfolding data_reply answer
      data_reply-Meets external (data_ none) e = auth_ok-Meets
      data_reply-Meets external (data_ (some id)) e = check_external_auth-Meets id
      data_reply-Meets anonymous (data_ x) e = auth_ok-Meets
      data_reply-Meets external (auth x y) e =
          unsupported_command_error-Meets (waiting_for_data external) e
      data_reply-Meets external cancel e =
          unsupported_command_error-Meets (waiting_for_data external) e
      data_reply-Meets external begin e =
          unsupported_command_error-Meets (waiting_for_data external) e
      data_reply-Meets external (error x) e =
          unsupported_command_error-Meets (waiting_for_data external) e
      data_reply-Meets external negotiate_unix_fd e =
          unsupported_command_error-Meets (waiting_for_data external) e
      data_reply-Meets external (rejected x) e =
          unsupported_command_error-Meets (waiting_for_data external) e
      data_reply-Meets external (ok_ x) e =
          unsupported_command_error-Meets (waiting_for_data external) e
      data_reply-Meets external agree_unix_fd e =
          unsupported_command_error-Meets (waiting_for_data external) e
      data_reply-Meets anonymous (auth x y) e =
          unsupported_command_error-Meets (waiting_for_data anonymous) e
      data_reply-Meets anonymous cancel e =
          unsupported_command_error-Meets (waiting_for_data anonymous) e
      data_reply-Meets anonymous begin e =
          unsupported_command_error-Meets (waiting_for_data anonymous) e
      data_reply-Meets anonymous (error x) e =
          unsupported_command_error-Meets (waiting_for_data anonymous) e
      data_reply-Meets anonymous negotiate_unix_fd e =
          unsupported_command_error-Meets (waiting_for_data anonymous) e
      data_reply-Meets anonymous (rejected x) e =
          unsupported_command_error-Meets (waiting_for_data anonymous) e
      data_reply-Meets anonymous (ok_ x) e =
          unsupported_command_error-Meets (waiting_for_data anonymous) e
      data_reply-Meets anonymous agree_unix_fd e =
          unsupported_command_error-Meets (waiting_for_data anonymous) e

      pub begin_reply-Meets :
          (c : Command)
          → server.step ≡ waiting_for_begin
          → Meets
              (begin_reply socket hex fuel c server)
              server
              (answer (terms_of socket hex taking steady server) waiting_for_begin c)
      unfolding begin_reply answer
      begin_reply-Meets (auth x y) e = unsupported_command_error-Meets waiting_for_begin e
      begin_reply-Meets cancel e = rejected_error-Meets
      begin_reply-Meets begin e = λ _. record {
        out = record server { step = done };
        runs = refl;
        reaches = refl;
        same_terms = refl;
        same_buffer = refl;
        goes_on = later;
        delivers = d;
        log = sym (append-nil (taking.sent server.common.io));
      }
      begin_reply-Meets (data_ x) e = unsupported_command_error-Meets waiting_for_begin e
      begin_reply-Meets (error x) e = rejected_error-Meets
      begin_reply-Meets negotiate_unix_fd e =
          rw (steady.passes server.common.io)
            (elim steady.passes_fds
              as (λ passes.
                Meets
                  (if passes
                    then send socket hex fuel agree_unix_fd
                        (record server { common = record server.common { cap_unix_fd = true } })
                    else send socket hex fuel no_fd_passing server)
                  server
                  (if passes
                    then reply waiting_for_begin agree_unix_fd
                    else reply waiting_for_begin no_fd_passing)) [
                      | true ↦ λ (fits, _).
                          let able = record server {
                            common = record server.common { cap_unix_fd = true };
                          } in
                          let r =
                            send-Replies socket hex taking steady fuel chunks agree_unix_fd able
                              waiting_for_begin e later d fits in
                          record {
                            out = r.out;
                            runs = r.runs;
                            reaches = r.reaches;
                            same_terms = r.same_terms;
                            same_buffer = r.same_buffer;
                            goes_on = r.goes_on;
                            delivers = r.delivers;
                            log = r.log;
                          }
                      | false ↦ λ (fits, _).
                          send-Replies socket hex taking steady fuel chunks no_fd_passing server
                            waiting_for_begin e later d fits
                    ])
      begin_reply-Meets (rejected x) e = unsupported_command_error-Meets waiting_for_begin e
      begin_reply-Meets (ok_ x) e = unsupported_command_error-Meets waiting_for_begin e
      begin_reply-Meets agree_unix_fd e = unsupported_command_error-Meets waiting_for_begin e
