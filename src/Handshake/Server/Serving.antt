-- ===== src/Handshake/Server/Serving.antt =====
-- A client that keeps to the protocol is served by zbus/src/connection/handshake/server.rs.
use zbus.Prelude.{
  ℕ, zero, suc, ◌+◌, ◌<◌, ◌≡◌, refl, sym, ap, ◌∙◌, subst, Bool, false, some, List, [], ◌∷◌, ◌++◌,
  append-nil, append_assoc, ok, length, All, All-split, arith,
}
use zbus.Text.{utf8}
use zbus.Handshake.Command.{Command, Hex, display, concat}
use zbus.Handshake.Common.{Socket}
use zbus.Handshake.Common.Writing.{Taking, lines, nul_if}
use zbus.Handshake.Common.Reading.{Delivers}
use zbus.Handshake.Server.{ServerHandshakeStep, done, Server, dispatch, next_step, perform}
use zbus.Handshake.Server.Protocol.{dialog, dialog_first, dialog_last}
use zbus.Handshake.Server.Answers.{Steady, terms_of, Fits}
use zbus.Handshake.Server.Rounds.{IsSendable, Served, serve_one}

lines-append :
    (hex : Hex) (now later : List Command)
    → lines hex (now ++ later) ≡ lines hex now ++ lines hex later
lines-append hex [] later = refl
lines-append hex (c ∷ now) later =
    ap (λ s. utf8 (display hex c) ++ (13 ∷ 10 ∷ s)) (lines-append hex now later)
    ∙ sym (append_assoc (utf8 (display hex c)) (13 ∷ 10 ∷ lines hex now) (lines hex later))

first_line :
    (hex : Hex) (first : Bool) (c : Command) (commands : List Command) (rest : List ℕ)
    → nul_if first ++ (lines hex (c ∷ commands) ++ rest)
      ≡ nul_if first ++ (utf8 (display hex c) ++ (13 ∷ 10 ∷ (lines hex commands ++ rest)))
first_line hex first c commands rest =
    ap (λ s. nul_if first ++ s)
      (append_assoc (utf8 (display hex c)) (13 ∷ 10 ∷ lines hex commands) rest)

module _ (socket : Socket) (hex : Hex) (taking : Taking socket)
    (steady : Steady socket taking) where
  module _ (fuel : ℕ) where
    perform_next :
        (rounds : ℕ) (server out : Server socket hex)
        → next_step socket hex fuel server ≡ ok (false, out)
        → perform socket hex fuel (suc rounds) server ≡ perform socket hex fuel rounds out
    unfolding perform
    perform_next rounds server out h = rw (perform, h) refl

    perform_done :
        (rounds : ℕ) (server : Server socket hex)
        → server.step ≡ done
        → perform socket hex fuel (suc rounds) server ≡ ok server
    unfolding perform next_step dispatch
    perform_done rounds server h = rw (perform, next_step, h) refl

    -- One after the other.
    served_both :
        (server mid out : Server socket hex) (most : ℕ) (before rest : List ℕ)
        (st next : ServerHandshakeStep) (now later : List Command)
        → (first : Served socket hex taking steady server mid most before st now)
        → Served socket hex taking steady mid out (length first.chunks) rest next later
        → Served socket hex taking steady server out most rest next (now ++ later)
    served_both server mid out most before rest st next now later first second = record {
      chunks = second.chunks;
      reaches = second.reaches;
      same_terms = second.same_terms ∙ first.same_terms;
      goes_on = second.goes_on;
      delivers = second.delivers;
      fewer = let a = first.fewer in let b = second.fewer in omega arith;
      left = second.left;
      log =
          second.log
          ∙ ap (λ s. s ++ lines hex later) first.log
          ∙ append_assoc (taking.sent server.common.io) (lines hex now) (lines hex later)
          ∙ ap (λ s. taking.sent server.common.io ++ s) (sym (lines-append hex now later));
    }

    relabel :
        (server out : Server socket hex) (most : ℕ) (rest : List ℕ) (st next : ServerHandshakeStep)
        (now replies : List Command)
        → st ≡ next
        → replies ≡ now
        → Served socket hex taking steady server out most rest st now
        → Served socket hex taking steady server out most rest next replies
    relabel server out most rest st next now replies e e' served = record {
      chunks = served.chunks;
      reaches = served.reaches ∙ e;
      same_terms = served.same_terms;
      goes_on = served.goes_on;
      delivers = served.delivers;
      fewer = served.fewer;
      left = served.left;
      log = served.log ∙ ap (λ r. taking.sent server.common.io ++ lines hex r) (sym e');
    }

    serve_each :
        (rounds : ℕ) (server : Server socket hex) (chunks : List (List ℕ)) (c : Command)
        (commands : List Command) (rest : List ℕ) (replies : List Command)
        → All (IsSendable hex) (c ∷ commands)
        → Delivers socket server.common.io chunks
        → server.common.recv_buffer ++ concat chunks
          ≡ nul_if server.common.first_command ++ (lines hex (c ∷ commands) ++ rest)
        → length chunks < fuel
        → dialog (terms_of socket hex taking steady server) server.step (c ∷ commands)
          ≡ some replies
        → All (Fits socket hex taking steady fuel) replies
        → length commands + 1 < rounds
        → (out : Server socket hex) × (perform socket hex fuel rounds server ≡ ok out)
          × Served socket hex taking steady server out (length chunks) rest done replies
    serve_each zero server chunks c commands rest replies sendable d e enough h fits more =
        absurd (omega arith)
    serve_each (suc zero) server chunks c commands rest replies sendable d e enough h fits more =
        absurd (omega arith)
    serve_each (suc (suc rounds)) server chunks c [] rest replies (sendable, _) d e enough h fits
          more =
        let (next, now, later, answers, ends, both) =
          dialog_first (terms_of socket hex taking steady server) server.step c [] replies h in
        let (over, none_left) =
          dialog_last (terms_of socket hex taking steady server) next later ends in
        let all_now : replies ≡ now =
          both ∙ ap (λ later. now ++ later) none_left ∙ append-nil now in
        let (out, runs, served) =
          serve_one socket hex taking steady fuel server chunks c rest next now sendable d
            (e ∙ first_line hex server.common.first_command c [] rest) enough answers
            (subst (All (Fits socket hex taking steady fuel)) all_now fits) in
        (
          out,
          perform_next (suc rounds) server out runs
              ∙ perform_done rounds out (served.reaches ∙ over),
          relabel server out (length chunks) rest next done now replies over all_now served,
        )
    serve_each (suc (suc rounds)) server chunks c (c' ∷ commands) rest replies (sendable, all) d e
          enough h fits more =
        let terms = terms_of socket hex taking steady server in
        let (next, now, later, answers, goes, both) =
          dialog_first terms server.step c (c' ∷ commands) replies h in
        let (fits_now, fits_later) =
          All-split (Fits socket hex taking steady fuel) now later
            (subst (All (Fits socket hex taking steady fuel)) both fits) in
        let (mid, runs, first) =
          serve_one socket hex taking steady fuel server chunks c
            (lines hex (c' ∷ commands) ++ rest) next now sendable d
            (e ∙ first_line hex server.common.first_command c (c' ∷ commands) rest) enough answers
            fits_now in
        let fewer = first.fewer in
        let (out, runs', second) =
          serve_each (suc rounds) mid first.chunks c' commands rest later all first.delivers
            (first.left
              ∙ ap (λ b. nul_if b ++ (lines hex (c' ∷ commands) ++ rest)) (sym first.goes_on))
            (omega arith)
            (ap (λ t. dialog t mid.step (c' ∷ commands)) first.same_terms
              ∙ ap (λ st. dialog terms st (c' ∷ commands)) first.reaches
              ∙ goes)
            fits_later (omega arith) in
        (
          out,
          perform_next (suc rounds) server mid runs ∙ runs',
          relabel server out (length chunks) rest done done (now ++ later) replies refl both (
              served_both server mid out (length chunks) (lines hex (c' ∷ commands) ++ rest) rest
                next done now later first second),
        )

    -- On a socket that takes some bytes at each call and whose two directions do not touch each
    -- other, where the buffer and the chunks to come are what a client sends for one or more
    -- commands, each of which its line tells in ASCII without a line feed, and a rest, and the
    -- protocol from the server's step answers them all and ends there: with fuel for the chunks
    -- and for each reply's line, and with more rounds than the commands and one, the handshake
    -- succeeds, has sent exactly the lines of the protocol's replies in their order, and leaves
    -- the rest unread.
    pub perform_serves :
        (rounds : ℕ) (server : Server socket hex) (chunks : List (List ℕ)) (c : Command)
        (commands : List Command) (rest : List ℕ) (replies : List Command)
        → All (IsSendable hex) (c ∷ commands)
        → Delivers socket server.common.io chunks
        → server.common.recv_buffer ++ concat chunks
          ≡ nul_if server.common.first_command ++ (lines hex (c ∷ commands) ++ rest)
        → length chunks < fuel
        → dialog (terms_of socket hex taking steady server) server.step (c ∷ commands)
          ≡ some replies
        → All (Fits socket hex taking steady fuel) replies
        → length commands + 1 < rounds
        → (out : Server socket hex) × (later : List (List ℕ)) × (perform socket hex fuel rounds
              server
            ≡ ok out)
          × (out.step ≡ done)
          × (taking.sent out.common.io ≡ taking.sent server.common.io ++ lines hex replies)
          × Delivers socket out.common.io later
          × (out.common.recv_buffer ++ concat later ≡ rest)
    perform_serves rounds server chunks c commands rest replies sendable d e enough h fits more =
        let (out, runs, served) =
          serve_each rounds server chunks c commands rest replies sendable d e enough h fits more in
        (out, served.chunks, runs, served.reaches, served.log, served.delivers, served.left)
