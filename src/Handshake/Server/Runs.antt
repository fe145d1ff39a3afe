-- ===== src/Handshake/Server/Runs.antt =====
-- Whole runs of the server of zbus/src/connection/handshake/server.rs.
use zbus.Prelude.{
  ℕ, zero, suc, ◌≡◌, refl, sym, ap, ◌∙◌, subst, ◌⊎◌, inl, inr, Bool, true, false, ok, ◌>>=◌,
  bind_ok, Bool-cases,
}
use zbus.Handshake.Command.{Command, Hex}
use zbus.Handshake.Common.{Fallible, Socket, Common, read_command}
use zbus.Handshake.Server.{
  ServerHandshakeStep, waiting_for_auth, waiting_for_data, waiting_for_begin, done, Server, receive,
  auth_reply, data_reply, begin_reply, is_waiting_for_auth, is_waiting_for_data,
  is_waiting_for_begin, handle_auth, handle_auth_data, finalize, going_on, dispatch, next_step,
  perform,
}
use zbus.Handshake.Server.Authorising.{Authorises, is_authenticated, answer-Authorises}
use zbus.Handshake.Server.Transitions.{
  Answered, auth_reply-Answered, data_reply-Answered, begin_reply-Answered,
}

module _ (socket : Socket) (hex : Hex) (fuel : ℕ) where
  -- The server, after it has read a command.
  abbrev pub with_common : Server socket hex → Common socket hex → Server socket hex
  with_common server common = record server { common = common }

  -- One step that goes on: a command was read, and the server is what the protocol makes of it.
  pub data Step (server out : Server socket hex) : Type 0 where
    step :
        (c : Command) (common : Common socket hex)
        → read_command socket hex fuel server.common ≡ ok (c, common)
        → Answered socket hex fuel server.step c (with_common server common) out
        → Step server out

  received :
      (reply : Command → Server socket hex → Fallible (Server socket hex))
      → (server out : Server socket hex)
      → ((c : Command) (common : Common socket hex)
          → reply c (with_common server common) ≡ ok out
          → Answered socket hex fuel server.step c (with_common server common) out)
      → receive socket hex fuel reply server ≡ ok out
      → Step server out
  received reply server out answers h =
      let ((c, common), read, e) =
        bind_ok (read_command socket hex fuel server.common)
          (λ (c, common). reply c (with_common server common)) h in
      step c common read (answers c common e)

  kept :
      (run : Fallible (Server socket hex)) (server out : Server socket hex) (over : Bool)
      → ((run ≡ ok out) → Step server out)
      → (run >>= going_on socket hex fuel) ≡ ok (over, out)
      → (over ≡ false) × Step server out
  kept run server out over goes h =
      let (s, ran, e) = bind_ok run (going_on socket hex fuel) h in
      let same : s ≡ out = cc in (cc, goes (ran ∙ ap ok same))

  abbrev Moved : Server socket hex → Server socket hex → Bool → Type 0
  Moved server out over =
      ((over ≡ false) × Step server out) ⊎ ((over ≡ true) × (server.step ≡ done) × (server ≡ out))

  dispatch_moves :
      (st : ServerHandshakeStep) (server out : Server socket hex) (over : Bool)
      → server.step ≡ st
      → dispatch socket hex fuel st server ≡ ok (over, out)
      → Moved server out over
  unfolding dispatch handle_auth handle_auth_data finalize
  dispatch_moves waiting_for_auth server out over e h = inl (
      kept (handle_auth socket hex fuel server) server out over
        (λ ran.
          received (auth_reply socket hex fuel) server out
            (λ c common made.
              subst (λ st. Answered socket hex fuel st c (with_common server common) out) (sym e)
                (auth_reply-Answered socket hex fuel c (with_common server common) out e made))
            (rw (handle_auth, ap is_waiting_for_auth e) at ran))
        h)
  dispatch_moves (waiting_for_data m) server out over e h = inl (
      kept (handle_auth_data socket hex fuel m server) server out over
        (λ ran.
          received (data_reply socket hex fuel m) server out
            (λ c common made.
              subst (λ st. Answered socket hex fuel st c (with_common server common) out) (sym e)
                (data_reply-Answered socket hex fuel m c (with_common server common) out e made))
            (rw (handle_auth_data, ap is_waiting_for_data e) at ran))
        h)
  dispatch_moves waiting_for_begin server out over e h = inl (
      kept (finalize socket hex fuel server) server out over
        (λ ran.
          received (begin_reply socket hex fuel) server out
            (λ c common made.
              subst (λ st. Answered socket hex fuel st c (with_common server common) out) (sym e)
                (begin_reply-Answered socket hex fuel c (with_common server common) out e made))
            (rw (finalize, ap is_waiting_for_begin e) at ran))
        h)
  dispatch_moves done server out over e h = inr (cc, e, cc)

  next_step_moves :
      (server out : Server socket hex) (over : Bool)
      → next_step socket hex fuel server ≡ ok (over, out)
      → Moved server out over
  unfolding next_step
  next_step_moves server out over h = dispatch_moves server.step server out over refl h

  -- Any number of steps.
  pub data Run : Server socket hex → Server socket hex → Type 0 where
    stop : {server : Server socket hex} → Run server server
    then_ : {a b c : Server socket hex} → Step a b → Run b c → Run a c

  perform-Run :
      (rounds : ℕ) (server out : Server socket hex)
      → perform socket hex fuel rounds server ≡ ok out
      → (out.step ≡ done) × Run server out
  unfolding perform
  perform-Run zero server out h = absurd (cc h)
  perform-Run (suc rounds) server out h =
      let ((over, s), ran, rest) =
        bind_ok (next_step socket hex fuel server)
          (λ (over, s). elim over [ true ↦ ok s | false ↦ perform socket hex fuel rounds s ]) h in
      elim over
          as (λ over.
            Moved server s over
            → (elim over [ true ↦ ok s | false ↦ perform socket hex fuel rounds s ]) ≡ ok out
            → (out.step ≡ done) × Run server out) [
              | true ↦ λ moved e. over_now moved (cc e)
              | false ↦ λ moved e. on moved (perform-Run rounds s out e)
            ]
        (next_step_moves server s over ran) rest
    where
      over_now :
          {s : Server socket hex}
          → Moved server s true
          → s ≡ out
          → (out.step ≡ done) × Run server out
      over_now (inl (e, _)) same = absurd (cc e)
      over_now (inr (_, e, same)) same' =
          let all_same = same ∙ same' in
          (ap (λ s. s.step) (sym all_same) ∙ e, subst (λ o. Run server o) all_same stop)

      on :
          {s : Server socket hex}
          → Moved server s false
          → (out.step ≡ done) × Run s out
          → (out.step ≡ done) × Run server out
      on (inl (_, one)) (e, run) = (e, then_ one run)
      on (inr (e, _, _)) _ = absurd (cc e)

  -- A run in which a command is read that authorises its client, in the state that it is read in,
  -- and the client is authenticated by that.
  pub data IsAuthorisedRun (server out : Server socket hex) : Type 0 where
    by_command :
        {a b : Server socket hex} (c : Command) (common : Common socket hex)
        → Run server a
        → is_authenticated a.step ≡ false
        → read_command socket hex fuel a.common ≡ ok (c, common)
        → Authorises socket hex (with_common a common) c
        → Answered socket hex fuel a.step c (with_common a common) b
        → is_authenticated b.step ≡ true
        → Run b out
        → IsAuthorisedRun server out

  IsAuthorisedRun-Step :
      {a b out : Server socket hex} → Step a b → IsAuthorisedRun b out → IsAuthorisedRun a out
  IsAuthorisedRun-Step one (by_command c common before fresh read allows answers reached after) =
      by_command c common (then_ one before) fresh read allows answers reached after

  Answered-Authorises :
      (server mid : Server socket hex) (c : Command) (common : Common socket hex)
      → is_authenticated server.step ≡ false
      → is_authenticated mid.step ≡ true
      → Answered socket hex fuel server.step c (with_common server common) mid
      → Authorises socket hex (with_common server common) c
  Answered-Authorises server mid c common fresh reached (next, replies, common', answers, _, same) =
      answer-Authorises socket hex server.step next (with_common server common) c replies refl fresh
        (ap (λ s. is_authenticated s.step) (sym same) ∙ reached) answers

  Run-IsAuthorisedRun :
      (server out : Server socket hex)
      → Run server out
      → is_authenticated server.step ≡ false
      → is_authenticated out.step ≡ true
      → IsAuthorisedRun server out
  Run-IsAuthorisedRun server out stop fresh h = absurd (cc (fresh, h))
  Run-IsAuthorisedRun server out (then_ {b = mid} (step c common read answers) run) fresh h =
      elim (Bool-cases (is_authenticated mid.step)) [
        | inl reached ↦
            by_command c common stop fresh read
              (Answered-Authorises server mid c common fresh reached answers) answers reached run
        | inr not_yet ↦
            IsAuthorisedRun-Step (step c common read answers)
              (Run-IsAuthorisedRun mid out run not_yet h)
      ]

  -- A handshake that starts by waiting for authentication and succeeds ends in the step `Done`.
  -- Each command that it reads on the way is answered as the abstract protocol says: the answer is
  -- written, its step is taken, and nothing else of the server is changed. The client is
  -- authenticated at one of these commands, and that one authorises it: `AUTH` with the server's
  -- mechanism and a response, or `DATA` after that mechanism was chosen; for EXTERNAL the response
  -- or the data is the number of the user that the socket gives, but that `DATA` without data is
  -- taken as well.
  pub perform_authorised :
      (rounds : ℕ) (server out : Server socket hex)
      → server.step ≡ waiting_for_auth
      → perform socket hex fuel rounds server ≡ ok out
      → (out.step ≡ done) × IsAuthorisedRun server out
  perform_authorised rounds server out e h =
      let (ends, run) = perform-Run rounds server out h in
      (ends, Run-IsAuthorisedRun server out run (ap is_authenticated e) (ap is_authenticated ends))
