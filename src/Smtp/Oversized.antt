-- ===== src/Smtp/Oversized.antt =====
-- src/smtp.rs: DATA of a message over the limit, from the reply 354 on.
use desertemail.Prelude.{
  ◌<◌, ◌≡◌, refl, true, Option, List, [], ◌∷◌, ◌++◌, arith, length, Bytes, codes,
}
use desertemail.Smtp.Connection.{greeted, say, Session, World, Services, Server}
use desertemail.Smtp.Commands.{handle_data, judge}
use desertemail.Smtp.Size.{stuffed, lines_of, read_data-too_long}

-- A text that a client sends behind DATA with its dots doubled, ended by a line with a dot alone,
-- and that is longer than the limit is read to its end and refused with 552: the mailboxes, the queue
-- and all else that is shared stay as they are, the connection goes on without the transaction, and
-- the lines left are those behind the text.
pub handle_data-too_long :
    {D : Type 0} (sv : Services D) (srv : Server) (from : Bytes) (rcpts ls rest : List Bytes)
    (s : Session) (w : World D) (up : Option (List Bytes))
    → srv.cfg.max_message_bytes < length (lines_of ls)
    → handle_data sv srv from rcpts s w
        (record { lines = stuffed ls ++ codes "." ∷ rest; upgrade = up })
      ≡ record {
        replies =
            say "354 End data with <CR><LF>.<CR><LF>"
            ∷ say "552 5.3.4 Message size exceeds fixed maximum message size"
            ∷ [];
        session = record s { state = greeted };
        world = w;
        input = record { lines = rest; upgrade = up };
        goes_on = true;
      }
unfolding handle_data judge
handle_data-too_long sv srv from rcpts ls rest s w up long =
    rw (read_data-too_long srv.cfg.max_message_bytes ls rest [] (omega arith) (omega arith)) refl
