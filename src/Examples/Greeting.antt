-- ===== src/Examples/Greeting.antt =====
-- What the greeter of examples/src/server.rs tells the client of examples/src/client.rs.
use tonic_transport_native.Common.{◌≡◌, sym, ap, ◌∙◌, ◌↔◌, ◌++◌, append_cancel_right, Bytes, codes}
use tonic_transport_native.Runtime.{Result, ok}
use tonic_transport_native.Examples.Number.{ℤ, IsI32, show, show_injective}
use tonic_transport_native.Examples.Hello.{Tonic, TonicLaws, default, count_hello}

-- The greeting of a number.
abbrev pub greeting : ℤ → Bytes
greeting n = codes "Hello " ++ show n ++ codes "!"

greeting_injective : (m n : ℤ) → IsI32 m → IsI32 n → greeting m ≡ greeting n → m ≡ n
greeting_injective m n hm hn e =
    let same : show m ++ codes "!" ≡ show n ++ codes "!" = cc in
    show_injective m n hm hn (append_cancel_right (show m) (show n) (codes "!") same)

module _ {Rq Rs St : Type 0} (tonic : Tonic Rq Rs) (laws : TonicLaws tonic)
    (call : Rq → Result Rs St) where
  -- The documented behaviour of the generated client, to whose calls the greeter listens: if a call
  -- succeeds, the greeter got a request with the message that was sent, and the response has the
  -- message of its reply.
  pub record IsDelivered : Type 0 where
    pub received : Rq → Rq
    pub request_arrives :
        (req : Rq) → tonic.request_into_inner (received req) ≡ tonic.request_into_inner req
    pub reply_arrives :
        (req : Rq) (rs : Rs)
        → call req ≡ ok rs
        → (reply : Rs) × ((count_hello {St = St} tonic default (received req)).1 ≡ ok reply)
          × (tonic.response_into_inner rs ≡ tonic.response_into_inner reply)

  -- Under the same conditions, a call with any number that succeeds has the greeting of it.
  pub call_greets :
      (n : ℤ) (rs : Rs)
      → IsDelivered
      → call (tonic.request (record { number = n })) ≡ ok rs
      → (tonic.response_into_inner rs).message ≡ greeting n
  unfolding count_hello
  call_greets n rs d answered =
      let (reply, replied, arrives) =
        d.reply_arrives (tonic.request (record { number = n })) rs answered in
      let sent : tonic.request_into_inner (d.received (tonic.request (record { number = n })))
          ≡ record { number = n } =
        d.request_arrives _ ∙ laws.request_into_inner-request (record { number = n }) in
      let text : tonic.response (record { message = greeting n }) ≡ reply = ok_injective _ _ (
        ap (λ q. ok (tonic.response (record { message = greeting (q.number) }))) (sym sent)
        ∙ replied) in
      let told : tonic.response_into_inner reply ≡ record { message = greeting n } =
        ap tonic.response_into_inner (sym text) ∙ laws.response_into_inner-response _ in
      ap (λ m. m.message) (arrives ∙ told)
    where
      ok_injective : (a b : Rs) → ◌≡◌ {A = Result Rs St} (ok a) (ok b) → a ≡ b
      ok_injective a b e = cc

  -- Given `TonicLaws`, and that calls that succeed are answered by the greeter (`IsDelivered`): two
  -- calls with numbers of 32 bits that succeed have the same message exactly if the numbers are the
  -- same.
  pub answers_iff :
      (m n : ℤ) (r s : Rs)
      → IsDelivered
      → IsI32 m
      → IsI32 n
      → call (tonic.request (record { number = m })) ≡ ok r
      → call (tonic.request (record { number = n })) ≡ ok s
      → ((tonic.response_into_inner r).message ≡ (tonic.response_into_inner s).message) ↔ (m ≡ n)
  answers_iff m n r s d hm hn at_m at_n =
      let told_m = call_greets m r d at_m in
      let told_n = call_greets n s d at_n in
      (
        λ same. greeting_injective m n hm hn (sym told_m ∙ same ∙ told_n),
        λ same. told_m ∙ ap greeting same ∙ sym told_n,
      )
