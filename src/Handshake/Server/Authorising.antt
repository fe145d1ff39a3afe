-- ===== src/Handshake/Server/Authorising.antt =====
-- The commands that authorise a client of the server of zbus/src/connection/handshake/server.rs, and
-- the answers of the abstract protocol to them.
use zbus.Prelude.{
  ℕ, ◌≡◌, refl, sym, ap, subst, inl, inr, Bool, true, false, Option, none, some, List, ==_iff,
  Bool-cases, Option-cases,
}
use zbus.Handshake.Command.{AuthMechanism, external, anonymous, Command, auth, data_, Hex}
use zbus.Handshake.Common.{Socket}
use zbus.Handshake.Server.{
  ServerHandshakeStep, waiting_for_auth, waiting_for_data, waiting_for_begin, done, Server,
  parse_u32, eq_mechanism, is_client,
}
use zbus.Handshake.Server.Protocol.{Terms, Answer, identify, authenticate, answer}

is_client_lem : (client : Option ℕ) (uid : ℕ) → is_client client uid ≡ true → client ≡ some uid
is_client_lem none uid h = absurd (cc h)
is_client_lem (some u) uid h = ap some ((==_iff u uid).0 h)

pub same_mechanism : (m n : AuthMechanism) → eq_mechanism m n ≡ true → m ≡ n
same_mechanism external external h = refl
same_mechanism anonymous anonymous h = refl
same_mechanism external anonymous h = absurd (cc h)
same_mechanism anonymous external h = absurd (cc h)

abbrev pub is_authenticated : ServerHandshakeStep → Bool
is_authenticated waiting_for_auth = false
is_authenticated (waiting_for_data m) = false
is_authenticated waiting_for_begin = true
is_authenticated done = true

-- A step of the protocol that is not authenticated.
not_authenticated :
    (st next : ServerHandshakeStep) (now replies : List Command)
    → is_authenticated st ≡ false
    → ◌≡◌ {A = Answer} (some (st, now)) (some (next, replies))
    → is_authenticated next ≡ true
    → ⊥
not_authenticated st next now replies fresh h reached =
    let same : st ≡ next = cc h in cc (fresh, ap is_authenticated same, reached)

module _ (socket : Socket) (hex : Hex) where
  -- The bytes are the number of the user that the socket gives for the client.
  abbrev pub IsClient : Server socket hex → List ℕ → Type 0
  IsClient server id = (uid : ℕ) × (parse_u32 id ≡ some uid) × (server.client_uid ≡ some uid)

  -- The commands that authorise the client of a server. The last one checks no user.
  pub data Authorises (server : Server socket hex) : Command → Type 0 where
    anonymous_auth :
        (resp : List ℕ)
        → server.step ≡ waiting_for_auth
        → server.common.mechanism ≡ anonymous
        → Authorises server (auth (some anonymous) (some resp))
    external_auth :
        (id : List ℕ)
        → server.step ≡ waiting_for_auth
        → server.common.mechanism ≡ external
        → IsClient server id
        → Authorises server (auth (some external) (some id))
    anonymous_data :
        (resp : Option (List ℕ))
        → server.step ≡ waiting_for_data anonymous
        → Authorises server (data_ resp)
    external_data :
        (id : List ℕ)
        → server.step ≡ waiting_for_data external
        → IsClient server id
        → Authorises server (data_ (some id))
    unchecked_data : server.step ≡ waiting_for_data external → Authorises server (data_ none)

  -- The terms of the protocol at a server.
  abbrev pub terms_at : Server socket hex → Terms
  terms_at server = record {
    mechanism = server.common.mechanism;
    client_uid = server.client_uid;
    guid = server.guid;
    passes_fds = socket.can_pass_unix_fd server.common.io;
  }

  identify-Authorises :
      (server : Server socket hex) (id : List ℕ) (next : ServerHandshakeStep)
      (replies : List Command)
      → is_authenticated next ≡ true
      → identify (terms_at server) id ≡ some (next, replies)
      → IsClient server id
  identify-Authorises server id next replies reached h = elim (Option-cases (parse_u32 id)) [
    | inl none_parsed ↦ absurd (cc (rw (identify, none_parsed) at h))
    | inr (uid, parsed) ↦ elim (Bool-cases (is_client server.client_uid uid)) [
      | inl same ↦ (uid, parsed, is_client_lem server.client_uid uid same)
      | inr other ↦ absurd (
          not_authenticated waiting_for_auth next _ replies refl (rw (identify, parsed, other) at h)
            reached)
    ]
  ]

  auth-Authorises :
      (server : Server socket hex) (m : AuthMechanism) (resp : Option (List ℕ))
      (next : ServerHandshakeStep) (replies : List Command)
      → server.step ≡ waiting_for_auth
      → server.common.mechanism ≡ m
      → is_authenticated next ≡ true
      → authenticate (terms_at server) m resp ≡ some (next, replies)
      → Authorises server (auth (some m) resp)
  auth-Authorises server m none next replies at_auth e reached h =
      absurd (not_authenticated (waiting_for_data m) next _ replies refl h reached)
  auth-Authorises server anonymous (some resp) next replies at_auth e reached h =
      anonymous_auth resp at_auth e
  auth-Authorises server external (some id) next replies at_auth e reached h =
      external_auth id at_auth e (identify-Authorises server id next replies reached h)

  -- The protocol authenticates a client only at a command that authorises it.
  pub answer-Authorises :
      (st next : ServerHandshakeStep) (server : Server socket hex) (c : Command)
      (replies : List Command)
      → server.step ≡ st
      → is_authenticated st ≡ false
      → is_authenticated next ≡ true
      → answer (terms_at server) st c ≡ some (next, replies)
      → Authorises server c
  unfolding answer
  answer-Authorises waiting_for_auth next server (auth none resp) replies e fresh reached h =
      absurd (not_authenticated waiting_for_auth next _ replies refl h reached)
  answer-Authorises waiting_for_auth next server (auth (some m) resp) replies e fresh reached h =
      elim (Bool-cases (eq_mechanism m server.common.mechanism)) [
        | inl same ↦
            let this = sym (same_mechanism m server.common.mechanism same) in
            auth-Authorises server m resp next replies e this reached (
              subst (λ n. authenticate (terms_at server) n resp ≡ some (next, replies)) this
                (rw same at h))
        | inr other ↦
            absurd (not_authenticated waiting_for_auth next _ replies refl (rw other at h) reached)
      ]
  answer-Authorises (waiting_for_data external) next server (data_ (some id)) replies e fresh
        reached h =
      external_data id e (identify-Authorises server id next replies reached h)
  answer-Authorises (waiting_for_data external) next server (data_ none) replies e fresh reached h =
      unchecked_data e
  answer-Authorises (waiting_for_data anonymous) next server (data_ resp) replies e fresh reached
        h =
      anonymous_data resp e
  answer-Authorises waiting_for_begin next server c replies e fresh reached h = absurd (cc fresh)
  answer-Authorises done next server c replies e fresh reached h = absurd (cc fresh)
  answer-Authorises st next server c replies e fresh reached h =
      absurd (not_authenticated _ next _ replies refl h reached)
