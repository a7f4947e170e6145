-- ===== src/Server/Made.antt =====
-- What the service of a connection in src/server/mod.rs does with a request.
use tonic_transport_native.Common.{ℕ, ◌≡◌, refl, Option}
use tonic_transport_native.Runtime.{Result, ok, done, Service}
use tonic_transport_native.Error.{Error, BoxError}
use tonic_transport_native.GrpcTimeout.Middleware as GrpcTimeout
use tonic_transport_native.RecoverError.Middleware as RecoverError
use tonic_transport_native.Server.Info.{TlsConnectInfo}
use tonic_transport_native.Server.Make.{
  Requests, ConnSvc, MakeSvc, span_of, svc_call, with_info, recovering, conn_call, layers,
  make_call,
}

module _ {S₀ S R F E X Tr Sp I Tls : Type 0} (limit : Option ℕ → GrpcTimeout.GrpcTimeout S₀ → S)
    (info : Tls → Result (TlsConnectInfo I) (Error X)) (reqs : Requests R Tr Sp I)
    (svc : Service S R F E) (into : E → BoxError X) (m : MakeSvc S₀ Tr) (io : Tls) where
  -- The service made for a connection, on a request.
  pub record Served (i : TlsConnectInfo I) (req : R) (f : F) (s' : S) : Type 0 where
    pub conn : ConnSvc S Tr I
    pub made : make_call limit info m io ≡ ok conn
    pub after : ConnSvc S Tr I
    pub same_info : after.conn_info ≡ i
    pub same_trace : after.svc.trace_interceptor ≡ m.trace_interceptor
    pub below : after.svc.inner.inner ≡ s'
    pub served :
        conn_call svc into reqs conn req
        ≡ done (
          record {
            inner = record { inner = f };
            span = span_of reqs m.trace_interceptor (with_info reqs i req);
          },
          after,
        )

  -- A connection that tells of itself gets a service of its own. If the services below its error
  -- recovery take a request with what is told inserted in it, the response recovers the errors of
  -- their future, and its span is made from that request.
  pub call-Served :
      (i : TlsConnectInfo I) (req : R) (f : F) (s' : S)
      → info io ≡ ok i
      → svc.call
          (limit m.concurrency_limit (GrpcTimeout.new m.inner m.timeout))
          (with_info reqs i req)
        ≡ done (f, s')
      → Served i req f s'
  unfolding make_call layers conn_call svc_call recovering RecoverError.new RecoverError.service
      RecoverError.call
  call-Served i req f s' told taken = record {
    conn = record { conn_info = i; svc = layers limit m };
    made = rw (told, make_call);
    after = record {
      conn_info = i;
      svc = record { inner = record { inner = s' }; trace_interceptor = m.trace_interceptor };
    };
    same_info = refl;
    same_trace = refl;
    below = refl;
    served = rw taken;
  }
