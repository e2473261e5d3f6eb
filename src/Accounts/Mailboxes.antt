-- ===== src/Accounts/Mailboxes.antt =====
-- Which addresses lead to a mailbox.
use desertemail.Prelude.{◌≡◌, ◌⊎◌, true, ◌||◌, some, arith, is_empty, Bytes}
use desertemail.Accounts.{
  Config, parse_email_addr, is_our_domain, resolve_mailbox, contains_key, full_address,
}

-- A mailbox that an address leads to is its full address or its local part; it is a user's unless
-- there is a catch-all; and the address has no domain or one of the server's.
pub record Resolves (cfg : Config) (addr mailbox : Bytes) : Type 0 where
  pub named :
      (mailbox ≡ (parse_email_addr addr).0)
      ⊎ (mailbox ≡ full_address (parse_email_addr addr).0 (parse_email_addr addr).1)
  pub known : contains_key mailbox cfg.users || cfg.catch_all ≡ true
  pub ours :
      is_empty (parse_email_addr addr).1 || is_our_domain cfg (parse_email_addr addr).1 ≡ true

-- The mailbox that an address leads to is its full address or its local part, belongs to a user
-- unless there is a catch-all, and the address has no domain or one of the server's own.
pub resolve_mailbox-Resolves :
    (cfg : Config) (addr mailbox : Bytes)
    → resolve_mailbox cfg addr ≡ some mailbox
    → Resolves cfg addr mailbox
unfolding resolve_mailbox
resolve_mailbox-Resolves cfg addr mailbox h =
    let (local, domain) = parse_email_addr addr in
    record { named = ground arith; known = ground arith; ours = ground arith }
