-- ===== src/Handshake/Server.antt =====
-- The server's side of the handshake: zbus/src/connection/handshake/server.rs, on Unix.
pub mod Authorising
pub mod Transitions
pub mod Runs
pub mod Protocol
pub mod Answers
pub mod Handlers
pub mod Rounds
pub mod Serving
use zbus.Prelude.{
  ℕ, zero, suc, ◌+◌, ◌*◌, ◌-◌, ◌^◌, ◌≡◌, Bool, true, false, not, ◌&&◌, Option, none, some, List, [],
  ◌∷◌, Result, ok, err, ◌>>=◌, ◌==◌, ltb, if◌then◌else◌,
}
use zbus.Text.{codes, parse_uint}
use zbus.Handshake.Command.{
  AuthMechanism, external, anonymous, as_str, Command, auth, cancel, begin, data_, error,
  negotiate_unix_fd, rejected, ok_, agree_unix_fd, Hex,
}
use zbus.Handshake.Common.{
  HandshakeError, Fallible, invalid_id, panic, diverges, Socket, Common, read_command,
  write_command,
}

pub data ServerHandshakeStep : Type 0 where
  waiting_for_auth : ServerHandshakeStep
  waiting_for_data : AuthMechanism → ServerHandshakeStep
  waiting_for_begin done : ServerHandshakeStep

-- `str::parse::<u32>`. It is applied to the bytes: those that parse are ASCII, and the errors of
-- `from_utf8` and of `parse` differ in their message only.
abbrev pub parse_u32 : List ℕ → Option ℕ
parse_u32 s = parse_uint (2 ^ 32) s

abbrev pub eq_mechanism : AuthMechanism → AuthMechanism → Bool
eq_mechanism external external = true
eq_mechanism external anonymous = false
eq_mechanism anonymous external = false
eq_mechanism anonymous anonymous = true

-- `requested_mech == Some(mech)`
abbrev pub is_mechanism : Option AuthMechanism → AuthMechanism → Bool
is_mechanism none mech = false
is_mechanism (some m) mech = eq_mechanism m mech

-- `client_uid.map(|u| u == uid).unwrap_or(false)`
abbrev pub is_client : Option ℕ → ℕ → Bool
is_client none uid = false
is_client (some u) uid = u == uid

abbrev pub is_waiting_for_auth : ServerHandshakeStep → Bool
is_waiting_for_auth waiting_for_auth = true
is_waiting_for_auth (waiting_for_data m) = false
is_waiting_for_auth waiting_for_begin = false
is_waiting_for_auth done = false

abbrev pub is_waiting_for_data : ServerHandshakeStep → Bool
is_waiting_for_data waiting_for_auth = false
is_waiting_for_data (waiting_for_data m) = true
is_waiting_for_data waiting_for_begin = false
is_waiting_for_data done = false

abbrev pub is_waiting_for_begin : ServerHandshakeStep → Bool
is_waiting_for_begin waiting_for_auth = false
is_waiting_for_begin (waiting_for_data m) = false
is_waiting_for_begin waiting_for_begin = true
is_waiting_for_begin done = false

module _ (socket : Socket) (hex : Hex) where
  pub record Server : Type 0 where
    pub common : Common socket hex
    pub step : ServerHandshakeStep
    pub guid : List ℕ
    pub client_uid : Option ℕ

  -- The budget of a call for the loops of `Common`.
  module _ (fuel : ℕ) where
    abbrev pub send : Command → Server → Fallible Server
    send command server = write_command socket hex fuel command server.common >>= λ common.
        ok (record server { common = common })

    abbrev pub goto : ServerHandshakeStep → Server → Fallible Server
    goto step' server = ok (record server { step = step' })

    unfoldable pub auth_ok : Server → Fallible Server
    auth_ok server = send (ok_ server.guid) server >>= goto waiting_for_begin

    pub unsupported_command_error : Server → Fallible Server
    unsupported_command_error server =
        send (error (codes "Unsupported or misplaced command")) server

    pub rejected_error : Server → Fallible Server
    rejected_error server =
        send (rejected (as_str server.common.mechanism)) server >>= goto waiting_for_auth

    unfoldable pub check_external_auth : List ℕ → Server → Fallible Server
    check_external_auth sasl_id server = elim (parse_u32 sasl_id) [
      | none ↦ err invalid_id
      | some uid ↦ if is_client server.client_uid uid then auth_ok server else rejected_error server
    ]

    unfoldable pub auth_reply : Command → Server → Fallible Server
    auth_reply (auth requested_mech resp) server =
        if not (is_mechanism requested_mech server.common.mechanism)
        then rejected_error server
        else elim resp [
          | none ↦ (send (data_ none) server >>= goto (waiting_for_data server.common.mechanism))
          | some sasl_id ↦ elim server.common.mechanism [
            | anonymous ↦ auth_ok server
            | external ↦ check_external_auth sasl_id server
          ]
        ]
    auth_reply cancel server = rejected_error server
    auth_reply (error expl) server = rejected_error server
    auth_reply _ server = unsupported_command_error server

    pub data_reply : AuthMechanism → Command → Server → Fallible Server
    data_reply external (data_ none) server = auth_ok server
    data_reply external (data_ (some bytes)) server = check_external_auth bytes server
    data_reply anonymous (data_ resp) server = auth_ok server
    data_reply mech _ server = unsupported_command_error server

    unfoldable pub begin_reply : Command → Server → Fallible Server
    begin_reply begin server = goto done server
    begin_reply cancel server = rejected_error server
    begin_reply (error expl) server = rejected_error server
    begin_reply negotiate_unix_fd server =
        if socket.can_pass_unix_fd server.common.io
        then send agree_unix_fd
            (record server { common = record server.common { cap_unix_fd = true } })
        else send (error (codes "FD-passing not possible on this socket type")) server
    begin_reply _ server = unsupported_command_error server

    abbrev pub receive : (Command → Server → Fallible Server) → Server → Fallible Server
    receive reply server = read_command socket hex fuel server.common >>= λ (command, common).
        reply command (record server { common = common })

    -- Each handler asserts the step that it is for.
    unfoldable pub handle_auth : Server → Fallible Server
    handle_auth server =
        if is_waiting_for_auth server.step then receive auth_reply server else err panic

    pub handle_auth_data : AuthMechanism → Server → Fallible Server
    handle_auth_data mech server =
        if is_waiting_for_data server.step then receive (data_reply mech) server else err panic

    unfoldable pub finalize : Server → Fallible Server
    finalize server =
        if is_waiting_for_begin server.step then receive begin_reply server else err panic

    abbrev pub going_on : Server → Fallible (Bool × Server)
    going_on server = ok (false, server)

    -- The `match` of `next_step`: whether the handshake is over, and the server after the step.
    unfoldable pub dispatch : ServerHandshakeStep → Server → Fallible (Bool × Server)
    dispatch waiting_for_auth server = handle_auth server >>= going_on
    dispatch (waiting_for_data mech) server = handle_auth_data mech server >>= going_on
    dispatch waiting_for_begin server = finalize server >>= going_on
    dispatch done server = ok (true, server)

    unfoldable pub next_step : Server → Fallible (Bool × Server)
    next_step server = dispatch server.step server

    -- `while !self.next_step().await? {}`, on a number of rounds.
    unfoldable pub perform : ℕ → Server → Fallible Server
    perform zero server = err diverges
    perform (suc rounds) server = next_step server >>= λ (over, server'). elim over [
      | true ↦ ok server'
      | false ↦ perform rounds server'
    ]
