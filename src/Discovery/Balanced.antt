-- ===== src/Discovery/Balanced.antt =====
-- What src/service/discover.rs makes of the changes that it receives.
use tonic_transport_native.Common.{◌≡◌, ◌≢◌, refl, Option, none, some}
use tonic_transport_native.Runtime.{
  err, done, panic, out_of_fuel, ◌>>=◌, Exec, Poll, pending, ready,
}
use tonic_transport_native.Error.{invalid_uri}
use tonic_transport_native.Duration.{Duration}
use tonic_transport_native.Http.{Headers, Uris}
use tonic_transport_native.Channel.Builder.{ChannelBuilder}
use tonic_transport_native.Channel.Setters.{connect_timeout}
use tonic_transport_native.Channel.Domain.{tls_connector, tls_connector_error_iff, domain_of}
use tonic_transport_native.Channel.Core.{Crates}
use tonic_transport_native.Channel.Connect.{Dialers, Dialer}
use tonic_transport_native.Connection.Stack as Connection
use tonic_transport_native.Connection.Settings.{settings}
use tonic_transport_native.Discovery.Changes.{
  Change, insert, DynamicServiceStream, on_change, on_received, poll_next,
}

item_is_some :
    {A : Type 0} (m : Exec A) → (m >>= λ item. done (ready (some item))) ≢ done (ready none)
item_is_some (done a) e = cc
item_is_some panic e = cc
item_is_some out_of_fuel e = cc

first_done :
    {A B : Type 0} (m : Exec A) (a : A) (b b' : B)
    → ◌≡◌ {A = Exec (A × B)} (m >>= λ item. done (item, b)) (done (a, b'))
    → m ≡ done a
first_done (done x) a b b' e = cc
first_done panic a b b' e = cc
first_done out_of_fuel a b b' e = cc

module _ {U Sc Au Pq V M C K T H B F I S₁ S Bal D Bf Key Rx X : Type 0} (u : Uris U Sc Au Pq)
    (h : Headers V M) (crates : Crates U Sc Au V (Dialer C K T) H B F I S₁ S Bal D Bf X)
    (dial : Dialers C K T) (poll_recv : Rx → Poll (Option (Change Key (ChannelBuilder U C V))) × Rx)
    (s : DynamicServiceStream Rx) where
  -- A builder with no domain and a URI that has no host makes the stream panic: the error of its
  -- connector is unwrapped.
  pub poll_next_hostless :
      (k : Key) (b : ChannelBuilder U C V)
      → (poll_recv s.changes).0 ≡ ready (some (insert k b))
      → b.tls_verify_domain ≡ none
      → u.host b.uri ≡ none
      → poll_next u h crates dial poll_recv s ≡ panic
  unfolding poll_next on_received on_change
  poll_next_hostless k b received unset hostless =
      let refused : tls_connector {X = X} u b ≡ err (invalid_uri (u.to_string b.uri)) =
        (tls_connector_error_iff u b (invalid_uri (u.to_string b.uri))).1 (unset, hostless, refl) in
      rw received (rw refused)

  received_goes_on :
      (p : Poll (Option (Change Key (ChannelBuilder U C V))))
      → on_received u h crates dial p ≢ done (ready none)
  unfolding on_received
  received_goes_on pending e = cc
  received_goes_on (ready none) e = cc
  received_goes_on (ready (some c)) e = item_is_some (on_change u h crates dial c) e

  -- The stream does not end, even if its channel is closed: an answer is never that of an end.
  pub poll_next_goes_on :
      (s' : DynamicServiceStream Rx) → poll_next u h crates dial poll_recv s ≢ done (ready none, s')
  unfolding poll_next
  poll_next_goes_on s' e =
      received_goes_on (poll_recv s.changes).0
        (first_done (on_received u h crates dial (poll_recv s.changes).0) _ _ _ e)

  -- A builder's connect timeout makes no difference to the connection that is yielded for it.
  pub change_ignores_timeout :
      (k : Key) (b : ChannelBuilder U C V) (t : Duration)
      → on_change u h crates dial (insert k (connect_timeout b t))
        ≡ on_change u h crates dial (insert k b)
  unfolding on_change connect_timeout tls_connector domain_of Connection.lazy Connection.new
      Connection.stack Connection.limited settings
  change_ignores_timeout k b t = refl
