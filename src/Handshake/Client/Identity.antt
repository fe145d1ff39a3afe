-- ===== src/Handshake/Client/Identity.antt =====
-- The server that the client of zbus/src/connection/handshake/client.rs has talked to.
use zbus.Prelude.{
  ℕ, ◌≡◌, refl, sym, ap, ◌∙◌, ◌⊎◌, inl, inr, Option, none, some, List, Result, ok, err, ◌>>=◌,
  bind_ok, Bool-cases,
}
use zbus.Text.{eq_text, eq_text_iff}
use zbus.Handshake.Command.{
  Command, auth, cancel, begin, data_, error, negotiate_unix_fd, rejected, ok_, agree_unix_fd, Hex,
}
use zbus.Handshake.Common.{HandshakeError, Socket, read_command, write_command}
use zbus.Handshake.Client.{
  ClientError, lift, Client, match_guid, set_guid, auth_answer, auth_command, authenticate,
}

module _ (socket : Socket) (hex : Hex) where
  -- The GUID that the client expects, if it expects one, is this one.
  abbrev pub Expects : Client socket hex → List ℕ → Type 0
  Expects client guid = (client.server_guid ≡ none) ⊎ (client.server_guid ≡ some guid)

  guid_of :
      (a b : Client socket hex)
      → ◌≡◌ {A = Result ClientError (Client socket hex)} (ok a) (ok b)
      → b.server_guid ≡ a.server_guid
  guid_of a b h = let same : a ≡ b = cc in ap (λ c. c.server_guid) (sym same)

  match_guid_ok :
      (o : Option (List ℕ)) (guid : List ℕ) (client out : Client socket hex)
      → client.server_guid ≡ o
      → match_guid socket hex o guid client ≡ ok out
      → (out.server_guid ≡ some guid) × Expects client guid
  unfolding match_guid
  match_guid_ok none guid client out e h =
      (guid_of (record client { server_guid = some guid }) out h, inl e)
  match_guid_ok (some g) guid client out e h = elim (Bool-cases (eq_text g guid)) [
    | inl same ↦
        let known : client.server_guid ≡ some guid = e ∙ ap some ((eq_text_iff g guid).0 same) in
        (guid_of client out (rw same at h) ∙ known, inr known)
    | inr other ↦ absurd (cc (rw other at h))
  ]

  set_guid_ok :
      (guid : List ℕ) (client out : Client socket hex)
      → set_guid socket hex guid client ≡ ok out
      → (out.server_guid ≡ some guid) × Expects client guid
  unfolding set_guid
  set_guid_ok guid client out h = match_guid_ok client.server_guid guid client out refl h

  lift_ok : {A : Type 0} (r : Result HandshakeError A) (a : A) → lift r ≡ ok a → r ≡ ok a
  lift_ok (err e) a h = absurd (cc h)
  lift_ok (ok b) a h = cc

  module _ (fuel : ℕ) where
    auth_answer_ok :
        (c : Command) (client out : Client socket hex)
        → auth_answer socket hex fuel c client ≡ ok out
        → (guid : List ℕ) × (out.server_guid ≡ some guid) × Expects client guid
    unfolding auth_answer
    auth_answer_ok (ok_ guid) client out h =
        let (known, expected) = set_guid_ok guid client out h in (guid, known, expected)
    auth_answer_ok (rejected a) client out h = absurd (cc h)
    auth_answer_ok (error a) client out h = absurd (cc h)
    auth_answer_ok (auth m r) client out h = absurd (cc h)
    auth_answer_ok cancel client out h = absurd (cc h)
    auth_answer_ok begin client out h = absurd (cc h)
    auth_answer_ok (data_ d) client out h = absurd (cc h)
    auth_answer_ok negotiate_unix_fd client out h = absurd (cc h)
    auth_answer_ok agree_unix_fd client out h = absurd (cc h)

    -- Where `authenticate` succeeds, the server has named a GUID, which is the one that was
    -- expected, if one was.
    pub authenticate_guid :
        (sasl_id : List ℕ) (client out : Client socket hex)
        → authenticate socket hex fuel sasl_id client ≡ ok out
        → (guid : List ℕ) × (out.server_guid ≡ some guid) × Expects client guid
    unfolding authenticate
    authenticate_guid sasl_id client out h =
        let (sent, _, h1) =
          bind_ok
            (lift (
              write_command socket hex fuel
                (auth_command socket hex fuel client.common.mechanism sasl_id) client.common))
            (λ common. lift (read_command socket hex fuel common) >>= λ (c, common).
              auth_answer socket hex fuel c (record client { common = common }))
            h in
        let ((c, read), _, h2) =
          bind_ok (lift (read_command socket hex fuel sent))
            (λ (c, common). auth_answer socket hex fuel c (record client { common = common })) h1 in
        auth_answer_ok c (record client { common = read }) out h2

    module _ (guid : List ℕ) where
      abbrev Knows : Client socket hex → Type 0
      Knows client = client.server_guid ≡ some guid
