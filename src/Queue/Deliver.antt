-- ===== src/Queue/Deliver.antt =====
-- src/queue.rs: one delivery attempt. The network is the section's parameter, with a state of its own:
-- the resolvers, and the connections that an address gives. `dkim::sign_and_prepend` is a parameter.
use desertemail.Prelude.{
  ◌⊎◌, inl, inr, Bool, true, false, not, ◌&&◌, ◌||◌, Option, none, some, List, [], ◌∷◌, ◌++◌, ◌==◌,
  if◌then◌else◌, length, retain, is_empty, Bytes, codes, to_lowercase, strip_prefix, starts_with,
  split_once, get_or,
}
use mathlib.Core.Option
use desertemail.Accounts.{Config, parse_email_addr, is_our_domain}
use desertemail.Queue.File.{QueueMessage}
use desertemail.Queue.Send.{temp, perm, io, Result, ok, err, Connection, smtp_send, contains}

pub data DeliverResult : Type 0 where
  success : DeliverResult
  temp_fail : Bytes → List Bytes → DeliverResult
  perm_fail : Bytes → DeliverResult

-- what `bounce_message` is called with
abbrev pub Bounce : Type 0
Bounce = QueueMessage × Bytes

-- the settings of `Config` that the queue reads by itself
pub record Outbound : Type 0 where
  pub smarthost : Option Bytes
  pub smarthost_user : Option Bytes
  pub smarthost_pass : Option Bytes
  pub sign : Option (Bytes → Bytes → Option Bytes)

abbrev or_host : Option (Bytes × Bytes) → Bytes → Bytes
or_host none s = s
or_host (some (h, rest)) s = h

abbrev one_colon : Bytes → Bytes
one_colon s = if length (retain (λ c. c == b':') s) == 1 then or_host (split_once b':' s) s else s

abbrev bracketed : Option Bytes → Bytes → Bytes
bracketed none s = one_colon s
bracketed (some rest) s = or_host (split_once b']' rest) (one_colon s)

unfoldable pub host_from_hostport : Bytes → Bytes
host_from_hostport s = bracketed (strip_prefix (b'[' ∷ []) s) s

-- The lines of a header; the flag stands for the start of one.
unfoldable pub signature_from : Bool → Bytes → Bool
signature_from at_start [] = false
signature_from at_start (c ∷ cs) =
    (at_start && starts_with (codes "dkim-signature:") (to_lowercase (c ∷ cs)))
    || signature_from (c == b'\n') cs

-- the text before the first occurrence of a pattern
unfoldable pub before_pattern : Bytes → Bytes → Option Bytes
before_pattern pattern [] = none
before_pattern pattern (c ∷ cs) =
    let later = before_pattern pattern cs in
    if starts_with pattern (c ∷ cs) then some [] else Option.map (◌∷◌ c) later

abbrev pub header_of : Option Bytes → Option Bytes → Bytes → Bytes
header_of (some h) lf raw = h
header_of none (some h) raw = h
header_of none none raw = raw

unfoldable pub has_dkim_signature : Bytes → Bool
unfolding signature_from before_pattern
has_dkim_signature raw =
    signature_from true
      (header_of (before_pattern (codes "\r\n\r\n") raw) (before_pattern (codes "\n\n") raw) raw)

unfoldable pub dkim_raw_for_send : Config → Outbound → QueueMessage → Bytes
dkim_raw_for_send cfg out msg =
    let domain = (parse_email_addr msg.sender).1 in
    if has_dkim_signature msg.raw then msg.raw else elim out.sign [
      | none ↦ msg.raw
      | some sign ↦
          if is_empty domain || not (is_our_domain cfg domain)
          then msg.raw
          else get_or (sign msg.raw domain) msg.raw
    ]

abbrev first_or : List Bytes → Bytes → Bytes
first_or [] default = default
first_or (d ∷ ds) default = d

unfoldable pub primary_domain : Config → Bytes
primary_domain cfg = first_or cfg.domains (codes "localhost")

unfoldable pub helo_name : Config → Bytes
unfolding primary_domain
helo_name cfg =
    if is_empty (primary_domain cfg) then codes "desertemail.local" else primary_domain cfg

-- A lookup: the text of its error, or what it found.
abbrev pub Found : Type 0 → Type 0
Found A = Bytes ⊎ List A

-- the network, in a state `W`
pub record Network (W Addr : Type 0) : Type 0 where
  pub smtp_hosts_for_domain : Bytes → W → Found Bytes × W
  pub resolve_a : Bytes → W → Found Bytes × W
  -- the addresses of a host by the system's resolver, as texts
  pub resolve_host : Bytes → W → Found Bytes × W
  pub to_socket_addrs : Bytes → W → Found Addr × W
  pub connect : Addr → W → List Connection × W

-- A result so far, or one that ends the search.
pub data Search : Type 0 where
  found : DeliverResult → Search
  so_far : DeliverResult → Search

module _ {W Addr : Type 0} (net : Network W Addr) where
  -- the result of a session for the hosts of a domain
  abbrev pub search_with : List Bytes → Result (Unit {0}) → Search
  search_with recipients (ok u c) = found success
  search_with recipients (err (perm s)) = found (perm_fail s)
  search_with recipients (err (temp s)) = so_far (temp_fail s recipients)
  search_with recipients (err io) = so_far (temp_fail (codes "io") recipients)

  module _ (sender : Bytes) (recipients : List Bytes) (raw domain helo : Bytes) where
    abbrev session : List Connection × W → Search × W
    session (conns, w) =
        (search_with recipients (smtp_send conns helo sender recipients raw none none true), w)

    unfoldable pub try_addrs : List Addr → DeliverResult → W → Search × W
    try_addrs [] last_err w = (so_far last_err, w)
    try_addrs (addr ∷ addrs) last_err w =
        let (search, w1) = session (net.connect addr w) in
        elim search [ found r ↦ (found r, w1) | so_far r ↦ try_addrs addrs r w1 ]

    -- "bad addr", or the addresses in turn
    abbrev pub use_addrs : Bytes → Found Addr × W → DeliverResult → Search × W
    use_addrs ip (inl e, w) last_err =
        (so_far (temp_fail (codes "bad addr " ++ (ip ++ (codes ":25: " ++ e))) recipients), w)
    use_addrs ip (inr addrs, w) last_err = try_addrs addrs last_err w

    unfoldable pub try_ips : List Bytes → DeliverResult → W → Search × W
    try_ips [] last_err w = (so_far last_err, w)
    try_ips (ip ∷ ips) last_err w =
        let (search, w1) = use_addrs ip (net.to_socket_addrs (ip ++ codes ":25") w) last_err in
        elim search [ found r ↦ (found r, w1) | so_far r ↦ try_ips ips r w1 ]

    abbrev from_system : Bytes → Found Bytes × W → DeliverResult → Search × W
    from_system host (inl e, w) last_err =
        (so_far (temp_fail (codes "resolve " ++ (host ++ (codes ": " ++ e))) recipients), w)
    from_system host (inr [], w) last_err =
        (so_far (temp_fail (codes "no A for " ++ host) recipients), w)
    from_system host (inr (ip ∷ ips), w) last_err = try_ips (ip ∷ ips) last_err w

    abbrev pub use_ips : Bytes → Found Bytes × W → DeliverResult → Search × W
    use_ips host (inl e, w) last_err =
        (so_far (temp_fail (codes "A lookup " ++ (host ++ (codes ": " ++ e))) recipients), w)
    use_ips host (inr [], w) last_err = from_system host (net.resolve_host host w) last_err
    use_ips host (inr (ip ∷ ips), w) last_err = try_ips (ip ∷ ips) last_err w

    unfoldable pub try_hosts : List Bytes → DeliverResult → W → DeliverResult × W
    try_hosts [] last_err w = (last_err, w)
    try_hosts (host ∷ hosts) last_err w =
        let (search, w1) = use_ips host (net.resolve_a host w) last_err in
        elim search [ found r ↦ (r, w1) | so_far r ↦ try_hosts hosts r w1 ]

    abbrev use_hosts : Found Bytes × W → DeliverResult × W
    use_hosts (inl e, w) =
        (temp_fail (codes "DNS error for " ++ (domain ++ (codes ": " ++ e))) recipients, w)
    use_hosts (inr [], w) = (temp_fail (codes "no MX/A for " ++ domain) recipients, w)
    use_hosts (inr (h ∷ hs), w) =
        try_hosts (h ∷ hs) (temp_fail (codes "no hosts for " ++ domain) recipients) w

    unfoldable pub deliver_to_domain : W → DeliverResult × W
    deliver_to_domain w = use_hosts (net.smtp_hosts_for_domain domain w)

  abbrev resolved : Found Addr × W → (Bytes ⊎ Addr) × W
  resolved (inl e, w) = (inl e, w)
  resolved (inr [], w) = (inl (codes "no address for smarthost"), w)
  resolved (inr (a ∷ rest), w) = (inr a, w)

  unfoldable pub resolve_socket_addrs : Bytes → W → (Bytes ⊎ Addr) × W
  resolve_socket_addrs hostport w = resolved (
      net.to_socket_addrs
        (if contains (b':' ∷ []) hostport then hostport else hostport ++ codes ":25") w)

  abbrev pub sent_to_smarthost : List Bytes → Result (Unit {0}) → DeliverResult
  sent_to_smarthost recipients (ok u c) = success
  sent_to_smarthost recipients (err (temp s)) = temp_fail s recipients
  sent_to_smarthost recipients (err (perm s)) = perm_fail s
  sent_to_smarthost recipients (err io) = temp_fail (codes "io") recipients

  module _ (cfg : Config) (out : Outbound) (msg : QueueMessage) (raw : Bytes) where
    abbrev pub smarthost_session : List Connection × W → DeliverResult × W
    smarthost_session (conns, w) = (
      sent_to_smarthost msg.recipients (
          smtp_send conns (helo_name cfg) msg.sender msg.recipients raw out.smarthost_user
            out.smarthost_pass true),
      w,
    )

    abbrev pub use_smarthost : (Bytes ⊎ Addr) × W → DeliverResult × W
    use_smarthost (inl e, w) = (temp_fail (codes "smarthost resolve: " ++ e) msg.recipients, w)
    use_smarthost (inr addr, w) = smarthost_session (net.connect addr w)

    unfoldable pub deliver_via_smarthost : Bytes → W → DeliverResult × W
    unfolding resolve_socket_addrs
    deliver_via_smarthost smarthost w = use_smarthost (resolve_socket_addrs smarthost w)
