-- ===== src/Handshake/Server/Transitions.antt =====
-- What the server of zbus/src/connection/handshake/server.rs does with a command that it has read:
-- the abstract protocol's answer, written to the socket.
use zbus.Prelude.{
  ℕ, ◌≡◌, refl, sym, ap, ◌∙◌, inl, inr, true, Option, none, some, List, [], ◌∷◌, ok, ◌>>=◌, bind_ok,
  Bool-cases, Option-cases,
}
use zbus.Text.{codes}
use zbus.Handshake.Command.{
  AuthMechanism, external, anonymous, as_str, Command, auth, cancel, begin, data_, error,
  negotiate_unix_fd, rejected, ok_, agree_unix_fd, Hex,
}
use zbus.Handshake.Common.{Fallible, Socket, Common, write_command}
use zbus.Handshake.Server.{
  ServerHandshakeStep, waiting_for_auth, waiting_for_data, waiting_for_begin, done, Server,
  parse_u32, eq_mechanism, is_mechanism, is_client, send, goto, auth_ok, rejected_error,
  unsupported_command_error, check_external_auth, auth_reply, data_reply, begin_reply,
}
use zbus.Handshake.Server.Protocol.{identify, accept, refuse, misplaced, answer}
use zbus.Handshake.Server.Authorising.{terms_at, same_mechanism}

module _ (socket : Socket) (hex : Hex) where
  -- Before the replies are written: the server takes descriptors where it agrees to.
  abbrev pub enabled : List Command → Common socket hex → Common socket hex
  enabled [] common = common
  enabled (agree_unix_fd ∷ replies) common = record common { cap_unix_fd = true }
  enabled (r ∷ replies) common = common

  module _ (fuel : ℕ) where
    unfoldable pub send_each : List Command → Common socket hex → Fallible (Common socket hex)
    send_each [] common = ok common
    send_each (r ∷ replies) common = write_command socket hex fuel r common >>= send_each replies

    -- The server `out` is what the protocol makes of the server at a command: its answer has been
    -- written, its step is taken, and nothing else is changed.
    abbrev pub Answered :
        ServerHandshakeStep → Command → Server socket hex → Server socket hex → Type 0
    Answered st c server out =
        (next : ServerHandshakeStep) × (replies : List Command) × (common : Common socket hex)
        × (answer (terms_at socket hex server) st c ≡ some (next, replies))
        × (send_each replies (enabled replies server.common) ≡ ok common)
        × (out ≡ record server { common = common; step = next })

    -- One reply.
    Replied : Command → ServerHandshakeStep → Server socket hex → Server socket hex → Type 0
    Replied r next server out =
        (common : Common socket hex) × (send_each (r ∷ []) server.common ≡ ok common)
        × (out ≡ record server { common = common; step = next })

    same_ok :
        (a b : Server socket hex) → ◌≡◌ {A = Fallible (Server socket hex)} (ok a) (ok b) → b ≡ a
    same_ok a b h = cc

    send-Replied :
        (r : Command) (st : ServerHandshakeStep) (server out : Server socket hex)
        → server.step ≡ st
        → send socket hex fuel r server ≡ ok out
        → Replied r st server out
    unfolding Replied send_each
    send-Replied r st server out e h =
        let (common, wrote, rest) =
          bind_ok (write_command socket hex fuel r server.common)
            (λ common. ok (record server { common = common })) h in
        (
          common,
          rw wrote refl,
          same_ok (record server { common = common }) out rest
              ∙ ap (λ st. record server { common = common; step = st }) e,
        )

    goto-Replied :
        (r : Command) (next : ServerHandshakeStep) (server out : Server socket hex)
        → (send socket hex fuel r server >>= goto socket hex fuel next) ≡ ok out
        → Replied r next server out
    unfolding Replied
    goto-Replied r next server out h =
        let (sent, ran, rest) =
          bind_ok (send socket hex fuel r server) (goto socket hex fuel next) h in
        let (common, wrote, same) = send-Replied r server.step server sent refl ran in
        (
          common,
          wrote,
          same_ok (record sent { step = next }) out rest
              ∙ ap {A = Server socket hex} (λ s. record s { step = next }) same,
        )

    replied :
        (st next : ServerHandshakeStep) (c r : Command) (server out : Server socket hex)
        → answer (terms_at socket hex server) st c ≡ some (next, r ∷ [])
        → enabled (r ∷ []) server.common ≡ server.common
        → Replied r next server out
        → Answered st c server out
    unfolding Replied
    replied st next c r server out answers able (common, wrote, same) =
        (next, r ∷ [], common, answers, ap (send_each (r ∷ [])) able ∙ wrote, same)

    auth_ok-Answered :
        (st : ServerHandshakeStep) (c : Command) (server out : Server socket hex)
        → answer (terms_at socket hex server) st c ≡ accept (terms_at socket hex server)
        → auth_ok socket hex fuel server ≡ ok out
        → Answered st c server out
    unfolding auth_ok
    auth_ok-Answered st c server out answers h =
        replied st waiting_for_begin c (ok_ server.guid) server out answers refl
          (goto-Replied (ok_ server.guid) waiting_for_begin server out h)

    rejected_error-Answered :
        (st : ServerHandshakeStep) (c : Command) (server out : Server socket hex)
        → answer (terms_at socket hex server) st c ≡ refuse (terms_at socket hex server)
        → rejected_error socket hex fuel server ≡ ok out
        → Answered st c server out
    unfolding rejected_error
    rejected_error-Answered st c server out answers h =
        replied st waiting_for_auth c (rejected (as_str server.common.mechanism)) server out answers
          refl
          (goto-Replied (rejected (as_str server.common.mechanism)) waiting_for_auth server out h)

    unsupported-Answered :
        (st : ServerHandshakeStep) (c : Command) (server out : Server socket hex)
        → server.step ≡ st
        → answer (terms_at socket hex server) st c ≡ misplaced (terms_at socket hex server) st
        → unsupported_command_error socket hex fuel server ≡ ok out
        → Answered st c server out
    unfolding unsupported_command_error
    unsupported-Answered st c server out e answers h =
        let r = error (codes "Unsupported or misplaced command") in
        replied st st c r server out answers refl (send-Replied r st server out e h)

    check_external_auth-Answered :
        (st : ServerHandshakeStep) (c : Command) (id : List ℕ) (server out : Server socket hex)
        → answer (terms_at socket hex server) st c ≡ identify (terms_at socket hex server) id
        → check_external_auth socket hex fuel id server ≡ ok out
        → Answered st c server out
    unfolding check_external_auth
    check_external_auth-Answered st c id server out answers h = elim (Option-cases (parse_u32 id)) [
      | inl none_parsed ↦ absurd (cc (rw (check_external_auth, none_parsed) at h))
      | inr (uid, parsed) ↦ elim (Bool-cases (is_client server.client_uid uid)) [
        | inl same ↦
            auth_ok-Answered st c server out (answers ∙ rw (identify, parsed, same) refl)
              (rw (check_external_auth, parsed, same) at h)
        | inr other ↦
            rejected_error-Answered st c server out (answers ∙ rw (identify, parsed, other) refl)
              (rw (check_external_auth, parsed, other) at h)
      ]
    ]

    auth_mechanism-Answered :
        (m : AuthMechanism) (resp : Option (List ℕ)) (server out : Server socket hex)
        → server.common.mechanism ≡ m
        → is_mechanism (some m) server.common.mechanism ≡ true
        → auth_reply socket hex fuel (auth (some m) resp) server ≡ ok out
        → Answered waiting_for_auth (auth (some m) resp) server out
    unfolding auth_reply answer
    auth_mechanism-Answered m none server out e same h =
        replied waiting_for_auth (waiting_for_data server.common.mechanism) (auth (some m) none)
          (data_ none) server out (rw same refl) refl
          (goto-Replied (data_ none) (waiting_for_data server.common.mechanism) server out
            (rw same at h))
    auth_mechanism-Answered anonymous (some resp) server out e same h =
        auth_ok-Answered waiting_for_auth (auth (some anonymous) (some resp)) server out
          (rw (same, e) refl) (rw (same, e) at h)
    auth_mechanism-Answered external (some id) server out e same h =
        check_external_auth-Answered waiting_for_auth (auth (some external) (some id)) id server out
          (rw (same, e) refl) (rw (same, e) at h)

    pub auth_reply-Answered :
        (c : Command) (server out : Server socket hex)
        → server.step ≡ waiting_for_auth
        → auth_reply socket hex fuel c server ≡ ok out
        → Answered waiting_for_auth c server out
    unfolding auth_reply answer
    auth_reply-Answered (auth none resp) server out e h =
        rejected_error-Answered waiting_for_auth (auth none resp) server out refl h
    auth_reply-Answered (auth (some m) resp) server out e h =
        elim (Bool-cases (eq_mechanism m server.common.mechanism)) [
          | inl same ↦
              auth_mechanism-Answered m resp server out
                (sym (same_mechanism m server.common.mechanism same)) same h
          | inr other ↦
              rejected_error-Answered waiting_for_auth (auth (some m) resp) server out
                (rw other refl) (rw other at h)
        ]
    auth_reply-Answered cancel server out e h =
        rejected_error-Answered waiting_for_auth cancel server out refl h
    auth_reply-Answered (error expl) server out e h =
        rejected_error-Answered waiting_for_auth (error expl) server out refl h
    auth_reply-Answered c server out e h =
        unsupported-Answered waiting_for_auth c server out e refl h

    pub data_reply-Answered :
        (m : AuthMechanism) (c : Command) (server out : Server socket hex)
        → server.step ≡ waiting_for_data m
        → data_reply socket hex fuel m c server ≡ ok out
        → Answered (waiting_for_data m) c server out
    unfolding data_reply answer
    data_reply-Answered external (data_ none) server out e h =
        auth_ok-Answered (waiting_for_data external) (data_ none) server out refl h
    data_reply-Answered external (data_ (some bytes)) server out e h =
        check_external_auth-Answered (waiting_for_data external) (data_ (some bytes)) bytes server
          out refl h
    data_reply-Answered anonymous (data_ d) server out e h =
        auth_ok-Answered (waiting_for_data anonymous) (data_ d) server out refl h
    data_reply-Answered external c server out e h =
        unsupported-Answered (waiting_for_data external) c server out e refl h
    data_reply-Answered anonymous c server out e h =
        unsupported-Answered (waiting_for_data anonymous) c server out e refl h

    pub begin_reply-Answered :
        (c : Command) (server out : Server socket hex)
        → server.step ≡ waiting_for_begin
        → begin_reply socket hex fuel c server ≡ ok out
        → Answered waiting_for_begin c server out
    unfolding begin_reply answer send_each Replied
    begin_reply-Answered begin server out e h =
        (done, [], server.common, refl, refl, same_ok (record server { step = done }) out h)
    begin_reply-Answered cancel server out e h =
        rejected_error-Answered waiting_for_begin cancel server out refl h
    begin_reply-Answered (error x) server out e h =
        rejected_error-Answered waiting_for_begin (error x) server out refl h
    begin_reply-Answered negotiate_unix_fd server out e h =
        elim (Bool-cases (socket.can_pass_unix_fd server.common.io)) [
          | inl can ↦
              let able = record server { common = record server.common { cap_unix_fd = true } } in
              let (common, wrote, same) =
                send-Replied agree_unix_fd waiting_for_begin able out e (rw can at h) in
              (waiting_for_begin, agree_unix_fd ∷ [], common, rw can refl, wrote, same)
          | inr cannot ↦
              let r = error (codes "FD-passing not possible on this socket type") in
              replied waiting_for_begin waiting_for_begin negotiate_unix_fd r server out
                (rw cannot refl) refl
                (send-Replied r waiting_for_begin server out e (rw cannot at h))
        ]
    begin_reply-Answered c server out e h =
        unsupported-Answered waiting_for_begin c server out e refl h
