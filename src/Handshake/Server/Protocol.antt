-- ===== src/Handshake/Server/Protocol.antt =====
-- The server's side of the protocol that zbus/src/connection/handshake/server.rs speaks, without
-- its socket: what it answers to each command.
use zbus.Prelude.{
  ℕ, ◌≡◌, refl, Bool, true, false, Option, none, some, List, [], ◌∷◌, ◌++◌, if◌then◌else◌, inl, inr,
  Option-cases,
}
use zbus.Text.{codes}
use zbus.Handshake.Command.{
  AuthMechanism, external, anonymous, as_str, Command, auth, cancel, begin, data_, error,
  negotiate_unix_fd, rejected, ok_, agree_unix_fd,
}
use zbus.Handshake.Server.{
  ServerHandshakeStep, waiting_for_auth, waiting_for_data, waiting_for_begin, done, parse_u32,
  is_mechanism, is_client,
}

-- What a server offers, and the user that it sees.
pub record Terms : Type 0 where
  pub mechanism : AuthMechanism
  pub client_uid : Option ℕ
  pub guid : List ℕ
  pub passes_fds : Bool

abbrev is_done : ServerHandshakeStep → Bool
is_done waiting_for_auth = false
is_done (waiting_for_data m) = false
is_done waiting_for_begin = false
is_done done = true

-- The next step and the replies, if the server goes on: it fails at a number that is none.
abbrev pub Answer : Type 0
Answer = Option (ServerHandshakeStep × List Command)

abbrev pub reply : ServerHandshakeStep → Command → Answer
reply st c = some (st, c ∷ [])

module _ (terms : Terms) where
  abbrev pub accept : Answer
  accept = reply waiting_for_begin (ok_ terms.guid)

  abbrev pub refuse : Answer
  refuse = reply waiting_for_auth (rejected (as_str terms.mechanism))

  abbrev pub misplaced : ServerHandshakeStep → Answer
  misplaced st = reply st (error (codes "Unsupported or misplaced command"))

  abbrev pub identify : List ℕ → Answer
  identify id = elim (parse_u32 id) [
    | none ↦ none
    | some uid ↦ if is_client terms.client_uid uid then accept else refuse
  ]

  abbrev pub authenticate : AuthMechanism → Option (List ℕ) → Answer
  authenticate mech none = reply (waiting_for_data mech) (data_ none)
  authenticate anonymous (some resp) = accept
  authenticate external (some resp) = identify resp

  unfoldable pub answer : ServerHandshakeStep → Command → Answer
  answer waiting_for_auth (auth mech resp) =
      if is_mechanism mech terms.mechanism then authenticate terms.mechanism resp else refuse
  answer waiting_for_auth cancel = refuse
  answer waiting_for_auth (error expl) = refuse
  answer waiting_for_auth c = misplaced waiting_for_auth
  answer (waiting_for_data external) (data_ (some id)) = identify id
  answer (waiting_for_data external) (data_ none) = accept
  answer (waiting_for_data anonymous) (data_ resp) = accept
  answer (waiting_for_data mech) c = misplaced (waiting_for_data mech)
  answer waiting_for_begin begin = some (done, [])
  answer waiting_for_begin cancel = refuse
  answer waiting_for_begin (error expl) = refuse
  answer waiting_for_begin negotiate_unix_fd =
      if terms.passes_fds
      then reply waiting_for_begin agree_unix_fd
      else reply waiting_for_begin (error (codes "FD-passing not possible on this socket type"))
  answer waiting_for_begin c = misplaced waiting_for_begin
  answer done c = none

  -- A dialog that ends: the commands of the client, with all the replies in their order.
  unfoldable pub dialog : ServerHandshakeStep → List Command → Option (List Command)
  dialog st [] = if is_done st then some [] else none
  dialog st (c ∷ commands) = elim (answer st c) [
    | none ↦ none
    | some (st', replies) ↦ elim (dialog st' commands) [
      | none ↦ none
      | some more ↦ some (replies ++ more)
    ]
  ]

  -- A dialog that goes on: the answer to its first command, and the rest of it.
  pub dialog_first :
      (st : ServerHandshakeStep) (c : Command) (commands replies : List Command)
      → dialog st (c ∷ commands) ≡ some replies
      → (next : ServerHandshakeStep) × (now : List Command) × (later : List Command) × (answer st c
          ≡ some (next, now))
        × (dialog next commands ≡ some later)
        × (replies ≡ now ++ later)
  unfolding dialog
  dialog_first st c commands replies h =
      elim (answer st c)
          as (λ answered.
            (elim answered [
              | none ↦ none
              | some (st', replies) ↦ elim (dialog st' commands) [
                | none ↦ none
                | some more ↦ some (replies ++ more)
              ]
            ])
              ≡ some replies
            → (next : ServerHandshakeStep) × (now : List Command) × (later : List Command)
              × (answered ≡ some (next, now))
              × (dialog next commands ≡ some later)
              × (replies ≡ now ++ later)) [
                | none ↦ λ e. absurd (cc e)
                | some (next, now) ↦ λ e. elim (Option-cases (dialog next commands)) [
                  | inl ends ↦ absurd (cc (rw ends at e))
                  | inr (later, goes) ↦ (next, now, later, refl, goes, cc (rw goes at e))
                ]
              ]
        h

  pub dialog_last :
      (st : ServerHandshakeStep) (replies : List Command)
      → dialog st [] ≡ some replies
      → (st ≡ done) × (replies ≡ [])
  unfolding dialog
  dialog_last waiting_for_auth replies h = absurd (cc h)
  dialog_last (waiting_for_data m) replies h = absurd (cc h)
  dialog_last waiting_for_begin replies h = absurd (cc h)
  dialog_last done replies h = (refl, cc)
