-- ===== src/Smtp/Sender.antt =====
-- Two answers of the server that differ from SMTP: to the null sender, and to a connection that ends
-- in the middle of a message.
use desertemail.Prelude.{
  ℕ, ◌≡◌, refl, false, not, ◌&&◌, none, List, [], ◌∷◌, ◌++◌, if-all, if-all, All, Bytes, codes,
  bytes_eq, trim_start, trim_end, trim_matches, split_once, split_whitespace, to_uppercase,
}
use desertemail.Smtp.Headers.{extract_angle}
use desertemail.Smtp.Connection.{
  State, init, greeted, mail_from, rcpt_to, data_phase, Session, Input, World, Services, Server,
  Outcome,
}
use desertemail.Smtp.Message.{Received, take_line, read_data}
use desertemail.Smtp.Commands.{
  verb_of, mail, on_mail, perform, has_user, handle_mail, handle_data, command,
}

abbrev pub null_sender : Bytes
null_sender = codes "MAIL FROM:<>"

verb_of-null_sender : verb_of (split_whitespace null_sender) ≡ mail
unfolding verb_of split_whitespace bytes_eq to_uppercase
verb_of-null_sender = refl

extract_angle-null_sender : extract_angle null_sender ≡ []
unfolding extract_angle split_once trim_matches trim_start trim_end
extract_angle-null_sender = refl

Same : {D : Type 0} → Session → Outcome D → Type 0
Same s o = o.session ≡ s

handle_mail-Same :
    {D : Type 0} (sv : Services D) (srv : Server) (s : Session) (w : World D) (i : Input)
    → Same s (handle_mail sv srv null_sender s w i)
unfolding handle_mail Same
handle_mail-Same {D = D} sv srv s w i =
    if-all (Same {D = D} s) (srv.is_submission && not (has_user s.authenticated_user)) _ _
      (λ _. refl) (λ _. rw extract_angle-null_sender refl)

on_mail-Same :
    {D : Type 0} (sv : Services D) (srv : Server) (state : State) (s : Session) (w : World D)
    (i : Input)
    → Same s (on_mail sv srv state null_sender s w i)
unfolding Same
on_mail-Same sv srv init s w i = refl
on_mail-Same sv srv greeted s w i = handle_mail-Same sv srv s w i
on_mail-Same sv srv (mail_from _) s w i = handle_mail-Same sv srv s w i
on_mail-Same sv srv (rcpt_to _ _) s w i = handle_mail-Same sv srv s w i
on_mail-Same sv srv (data_phase _ _) s w i = refl

-- `MAIL FROM:<>`, by which a bounce is sent, never starts a message: on either kind of server, in every
-- state and whoever is logged in, the session is the same behind it.
pub null_sender-refused :
    {D : Type 0} (sv : Services D) (srv : Server) (now : ℕ) (s : Session) (w : World D) (i : Input)
    → (command sv srv now null_sender s w i).session ≡ s
unfolding command perform Same
null_sender-refused sv srv now s w i =
    rw (verb_of-null_sender, command) (on_mail-Same sv srv s.state s w i)

read_data-eof :
    (max_msg : ℕ) (lines : List Bytes) (r : Received)
    → All (λ l. bytes_eq l (codes ".") ≡ false) lines
    → read_data max_msg lines r ≡ read_data max_msg (lines ++ codes "." ∷ []) r
unfolding read_data bytes_eq
read_data-eof max_msg [] r h = refl
read_data-eof max_msg (l ∷ ls) r (e, h) =
    rw (e, read_data) (read_data-eof max_msg ls (take_line max_msg l r) h)

-- A connection that ends in the middle of a message has it delivered as if the line with a dot had
-- come: the outcome is the same.
pub eof-ends_message :
    {D : Type 0} (sv : Services D) (srv : Server) (from : Bytes) (rcpts lines : List Bytes)
    (s : Session) (w : World D)
    → All (λ l. bytes_eq l (codes ".") ≡ false) lines
    → handle_data sv srv from rcpts s w (record { lines = lines; upgrade = none })
      ≡ handle_data sv srv from rcpts s w
          (record { lines = lines ++ codes "." ∷ []; upgrade = none })
unfolding handle_data
eof-ends_message sv srv from rcpts lines s w h =
    rw
      (
        read_data-eof srv.cfg.max_message_bytes lines (record { data_buf = []; oversized = false })
            h,
        handle_data,
      )
      refl
