-- ===== src/Handshake/Client.antt =====
-- The client's side of the handshake: zbus/src/connection/handshake/client.rs, up to the reply to
-- `Hello`. The bytes of the `Hello` call, the user's number and the test for Flatpak are arguments.
pub mod Identity
use zbus.Prelude.{
  ℕ, zero, suc, ◌+◌, ◌-◌, ◌≡◌, refl, sym, ap, ◌∙◌, ◌⊎◌, inl, inr, Bool, true, false, not, Option,
  none, some, List, [], ◌∷◌, ◌++◌, Result, ok, err, ◌>>=◌, bind_ok, if◌then◌else◌, length,
  Bool-cases,
}
use zbus.Text.{codes, eq_text, eq_text_iff}
use zbus.Handshake.Command.{
  AuthMechanism, external, anonymous, Command, auth, cancel, begin, data_, error, negotiate_unix_fd,
  rejected, ok_, agree_unix_fd, Hex,
}
use zbus.Handshake.Common.{
  HandshakeError, Fallible, Socket, Common, read_command, write_command, write_commands,
}

-- The errors of the client by what their messages say, and those of what it calls.
pub data ClientError : Type 0 where
  common_error : HandshakeError → ClientError
  guid_mismatch : List ℕ → List ℕ → ClientError
  rejected_by_server : List ℕ → ClientError
  error_from_server : List ℕ → ClientError
  unexpected_command : Command → ClientError

abbrev pub lift {ℓ} : {A : Type ℓ} → Result HandshakeError A → Result ClientError A
lift (err e) = err (common_error e)
lift (ok a) = ok a

module _ (socket : Socket) (hex : Hex) where
  pub record Client : Type 0 where
    pub common : Common socket hex
    pub server_guid : Option (List ℕ)
    pub bus : Bool

  -- The `match` of `set_guid`.
  unfoldable pub match_guid : Option (List ℕ) → List ℕ → Client → Result ClientError Client
  match_guid none guid client = ok (record client { server_guid = some guid })
  match_guid (some server_guid) guid client =
      if eq_text server_guid guid then ok client else err (guid_mismatch server_guid guid)

  unfoldable pub set_guid : List ℕ → Client → Result ClientError Client
  set_guid guid client = match_guid client.server_guid guid client

  module _ (fuel : ℕ) where
    -- `read_commands` of a positive number of commands.
    pub read_commands :
        ℕ → Common socket hex → Result HandshakeError (List Command × Common socket hex)
    read_commands zero common = ok ([], common)
    read_commands (suc n) common = read_command socket hex fuel common >>= λ (c, common).
        read_commands n common >>= λ (cs, common). ok (c ∷ cs, common)

    unfoldable pub auth_answer : Command → Client → Result ClientError Client
    auth_answer (ok_ guid) client = set_guid guid client
    auth_answer (rejected accepted) client = err (rejected_by_server accepted)
    auth_answer (error e) client = err (error_from_server e)
    auth_answer c client = err (unexpected_command c)

    -- `sasl_id` is what `sasl_auth_id` gives.
    unfoldable pub auth_command : AuthMechanism → List ℕ → Command
    auth_command anonymous sasl_id = auth (some anonymous) (some (codes "zbus"))
    auth_command external sasl_id = auth (some external) (some sasl_id)

    unfoldable pub authenticate : List ℕ → Client → Result ClientError Client
    authenticate sasl_id client =
        lift (
          write_command socket hex fuel (auth_command client.common.mechanism sasl_id)
            client.common)
        >>= λ common. lift (read_command socket hex fuel common) >>= λ (c, common).
            auth_answer c (record client { common = common })

    pub fd_answer : Command → Client → Result ClientError Client
    fd_answer agree_unix_fd client =
        ok (record client { common = record client.common { cap_unix_fd = true } })
    fd_answer (error e) client = ok client
    fd_answer c client = err (unexpected_command c)

    -- Under Flatpak the request for file descriptors is sent alone and answered first.
    pub negotiate_alone : Client → Result ClientError Client
    negotiate_alone client =
        lift (write_command socket hex fuel negotiate_unix_fd client.common) >>= λ common.
        lift (read_command socket hex fuel common) >>= λ (c, common).
        fd_answer c (record client { common = common })

    unfoldable pub send_begin : List Command → List ℕ → Client → Result ClientError (ℕ × Client)
    send_begin commands hello client =
        lift (
          write_commands socket hex fuel (commands ++ (begin ∷ []))
            (if client.bus then some hello else none) client.common)
        >>= λ common. ok (length commands, record client { common = common })

    -- The number of replies to expect, and the client.
    unfoldable pub send_secondary_commands :
        Bool → List ℕ → Client → Result ClientError (ℕ × Client)
    send_secondary_commands is_flatpak hello client =
        if socket.can_pass_unix_fd client.common.io
        then if is_flatpak
          then negotiate_alone client >>= send_begin [] hello
          else send_begin (negotiate_unix_fd ∷ []) hello client
        else send_begin [] hello client

    pub secondary_answer : Command → Client → Result ClientError Client
    secondary_answer (ok_ guid) client = set_guid guid client
    secondary_answer agree_unix_fd client = fd_answer agree_unix_fd client
    secondary_answer (error e) client = ok client
    secondary_answer c client = err (unexpected_command c)

    pub answer_all : List Command → Client → Result ClientError Client
    answer_all [] client = ok client
    answer_all (c ∷ cs) client = secondary_answer c client >>= answer_all cs

    pub receive_secondary_responses : ℕ → Client → Result ClientError Client
    receive_secondary_responses expected client =
        lift (read_commands expected client.common) >>= λ (cs, common).
        answer_all cs (record client { common = common })

    abbrev pub receive_if : ℕ → Client → Result ClientError Client
    receive_if zero client = ok client
    receive_if (suc n) client = receive_secondary_responses (suc n) client

    -- `perform`, as far as the handshake itself goes.
    unfoldable pub shake_hands : List ℕ → Bool → List ℕ → Client → Result ClientError Client
    shake_hands sasl_id is_flatpak hello client = authenticate sasl_id client >>= λ client.
        send_secondary_commands is_flatpak hello client >>= λ (expected, client).
        receive_if expected client
