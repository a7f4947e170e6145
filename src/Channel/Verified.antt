-- ===== src/Channel/Verified.antt =====
-- What a channel is made of, whichever way of src/channel/endpoint.rs makes it.
use tonic_transport_native.Common.{
  ◌≡◌, refl, sym, ap, ◌∙◌, ◌↔◌, Bool, true, false, Option, none, some, Bytes, unwrap_or,
}
use tonic_transport_native.Runtime.{
  Result, ok, err, map_ok, map_err, Exec, done, panic, out_of_fuel, ◌>>=◌, bind_assoc,
}
use tonic_transport_native.Error.{Error, BoxError, from_source}
use tonic_transport_native.Duration.{Duration}
use tonic_transport_native.Http.{Headers, Uris}
use tonic_transport_native.Channel.Builder.{ChannelBuilder}
use tonic_transport_native.Channel.Domain.{TlsConnector, Selects, tls_connector, tls_connector_iff}
use tonic_transport_native.Channel.Core.{Channel, Crates, direct, default_buffer_size}
use tonic_transport_native.Channel.Core as Channel
use tonic_transport_native.Channel.Connect.{
  Dialers, Dialer, plain, timed, within, connect, connect_lazy, connect_with_connector,
  connect_with_connector_lazy, http_for,
}
use tonic_transport_native.Connection.Stack.{Connection, stack, limited}
use tonic_transport_native.Connection.Stack as Connection
use tonic_transport_native.Connector.Handshake.{Connector, connector}

-- The ways to make a channel, with a connector of the caller or without.
pub data Way (K : Type 0) : Type 0 where
  eagerly lazily : Way K
  eagerly_with : K → Way K
  lazily_with : K → Way K

abbrev pub waits : {K : Type 0} → Way K → Bool
waits lazily = true
waits (lazily_with k) = true
waits eagerly = false
waits (eagerly_with k) = false

module _ {U Sc Au Pq V M C K T H B F I S₁ S Bal D Bf X : Type 0} (u : Uris U Sc Au Pq)
    (h : Headers V M) (crates : Crates U Sc Au V (Dialer C K T) H B F I S₁ S Bal D Bf X)
    (dial : Dialers C K T) (b : ChannelBuilder U C V) where
  abbrev pub connects : Way K → Exec (Result (Channel Bf) (Error X))
  connects eagerly = connect u h crates dial b
  connects lazily = connect_lazy u h crates dial b
  connects (eagerly_with k) = connect_with_connector u h crates dial b k
  connects (lazily_with k) = connect_with_connector_lazy u h crates dial b k

  -- The connector inside, which is the caller's or one for HTTP, and with TLS for a domain.
  abbrev pub inside : Way K → K
  inside eagerly = http_for u h crates dial b
  inside lazily = http_for u h crates dial b
  inside (eagerly_with k) = k
  inside (lazily_with k) = k

  abbrev pub secured : Way K → Bytes → Connector K C
  secured way domain = record {
    inner = inside way;
    tls = record { connector = b.tls; domain = domain };
  }

  -- The connect timeout is around it, if one is set, except in the last way.
  abbrev pub limits : Option Duration → Connector K C → Dialer C K T
  limits none c = plain c
  limits (some t) c = timed (dial.set_connect_timeout (dial.timeout_new c) (some t))

  abbrev pub dialer : Way K → Bytes → Dialer C K T
  dialer (lazily_with k) domain = plain (secured (lazily_with k) domain)
  dialer way domain = limits b.connect_timeout (secured way domain)

  -- The connection in the channel: a new one, or what comes of waiting until that is ready.
  abbrev pub Readied : Bool → Connection S V Sc Au → Connection S V Sc Au → Type 0
  Readied true fresh conn = conn ≡ fresh
  Readied false fresh conn = crates.ready_oneshot fresh ≡ ok conn

  -- The channel holds a connection of the builder, whose streams are secured for the domain that
  -- the builder selects.
  pub record IsVerified (way : Way K) (ch : Channel Bf) : Type 0 where
    pub domain : Bytes
    pub selected : Selects u b domain
    pub fresh : Connection S V Sc Au
    pub layered :
        stack u h b (
          limited u h crates.hyper crates.hyper_connect crates.rate crates.concurrency
            (dialer way domain)
            b
            (waits way))
        ≡ done fresh
    pub conn : Connection S V Sc Au
    pub readied : Readied (waits way) fresh conn
    pub made : ch ≡ record { svc = crates.pair (direct conn) (unwrap_or b.buffer_size 1024) }

  abbrev Conn : Type 0
  Conn = Connection S V Sc Au

  -- The layers that each way makes.
  abbrev built : Way K → Bytes → Exec Conn
  built way domain = stack u h b (
      limited u h crates.hyper crates.hyper_connect crates.rate crates.concurrency
        (dialer way domain) b (waits way))

  abbrev channel_of : Conn → Channel Bf
  channel_of conn = record { svc = crates.pair (direct conn) (unwrap_or b.buffer_size 1024) }

  -- What each way makes of the layers.
  abbrev finish : Bool → Exec Conn → Exec (Result (Channel Bf) (Error X))
  finish true m = do c ← m; done (ok (channel_of c))
  finish false m = do c ← m; done (map_ok channel_of (map_err from_source (crates.ready_oneshot c)))

  connects-finish :
      (way : Way K) (domain : Bytes)
      → Selects u b domain
      → connects way ≡ finish (waits way) (built way domain)
  unfolding connect connect_lazy connect_with_connector connect_with_connector_lazy connector
      Channel.new Channel.connect Connection.lazy Connection.connect Connection.new
      default_buffer_size
  connects-finish way domain selected = by way
    where
      known : tls_connector {X = X} u b ≡ ok (record { connector = b.tls; domain = domain })
      known = (tls_connector_iff u b _).1 (refl, selected)

      dialed :
          (k : Connector K C) (timeout : Option Duration)
          → within u h crates dial timeout k ≡ limits timeout k
      dialed k none = refl
      dialed k (some t) = refl

      by : (way : Way K) → connects way ≡ finish (waits way) (built way domain)
      by eagerly =
          rw (known, dialed (secured eagerly domain) b.connect_timeout)
            (bind_assoc (built eagerly domain) _ _)
      by lazily =
          rw (known, dialed (secured lazily domain) b.connect_timeout)
            (bind_assoc (built lazily domain) _ _)
      by (eagerly_with k) =
          rw (known, dialed (secured (eagerly_with k) domain) b.connect_timeout)
            (bind_assoc (built (eagerly_with k) domain) _ _)
      by (lazily_with k) = rw known (bind_assoc (built (lazily_with k) domain) _ _)

  connects_fails :
      (way : Way K) (e : Error X) → tls_connector u b ≡ err e → connects way ≡ done (err e)
  unfolding connect connect_lazy connect_with_connector connect_with_connector_lazy
  connects_fails eagerly e refused = rw refused refl
  connects_fails lazily e refused = rw refused refl
  connects_fails (eagerly_with k) e refused = rw refused refl
  connects_fails (lazily_with k) e refused = rw refused refl

  readied_inv :
      (r : Result Conn (BoxError X)) (ch : Channel Bf)
      → done (map_ok channel_of (map_err from_source r)) ≡ done (ok ch)
      → (conn : Conn) × (r ≡ ok conn) × (ch ≡ channel_of conn)
  readied_inv (ok conn) ch e = (conn, refl, cc)
  readied_inv (err x) ch e = cc

  finish_inv :
      (lazy : Bool) (m : Exec Conn) (ch : Channel Bf)
      → finish lazy m ≡ done (ok ch)
      → (fresh : Conn) × (conn : Conn) × (m ≡ done fresh)
        × Readied lazy fresh conn
        × (ch ≡ channel_of conn)
  finish_inv true (done c) ch e = (c, c, refl, refl, cc)
  finish_inv false (done c) ch e =
      let (conn, readied, made) = readied_inv (crates.ready_oneshot c) ch e in
      (c, conn, refl, readied, made)
  finish_inv true panic ch e = cc
  finish_inv false panic ch e = cc
  finish_inv true out_of_fuel ch e = cc
  finish_inv false out_of_fuel ch e = cc

  finish-Readied :
      (lazy : Bool) (fresh conn : Conn)
      → Readied lazy fresh conn
      → finish lazy (done fresh) ≡ done (ok (channel_of conn))
  finish-Readied true fresh conn same = ap (λ c. done (ok (channel_of c))) (sym same)
  finish-Readied false fresh conn readied = rw readied refl

  -- Each way makes exactly the channels of connections that are verified so: the domain is the one
  -- that was set, or else the host of the URI, and the TLS connector is the builder's.
  pub connects_iff :
      (way : Way K) (ch : Channel Bf) → (connects way ≡ done (ok ch)) ↔ IsVerified way ch
  connects_iff way ch = (by (tls_connector u b) refl, back)
    where
      by :
          (t : Result (TlsConnector C) (Error X))
          → tls_connector u b ≡ t
          → connects way ≡ done (ok ch)
          → IsVerified way ch
      by (err x) refused e = let failed = connects_fails way x refused in cc
      by (ok tls) known e =
          let (same, selected) = (tls_connector_iff u b tls).0 known in
          let (fresh, conn, layered, readied, made) =
            finish_inv (waits way) (built way tls.domain) ch
              (sym (connects-finish way tls.domain selected) ∙ e) in
          record {
            domain = tls.domain;
            selected = selected;
            fresh = fresh;
            layered = layered;
            conn = conn;
            readied = readied;
            made = made;
          }

      back : IsVerified way ch → connects way ≡ done (ok ch)
      back v =
          connects-finish way v.domain v.selected
          ∙ ap (finish (waits way)) v.layered
          ∙ finish-Readied (waits way) v.fresh v.conn v.readied
          ∙ ap (λ c. done (ok c)) (sym v.made)
