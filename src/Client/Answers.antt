-- ===== src/Client/Answers.antt =====
-- Which answers of the daemon a call accepts.
use keycell.Client.{
  Exchange, response, no_socket, dial_failed, context_done, deadline, closed, garbage, accept,
  round_trip,
}
use keycell.Prelude.{
  ◌≡◌, refl, arith, Bool, true, false, Bool-cases, Option, none, some, Option-cases, ok, inl, inr,
}
use keycell.Prelude.Bytes.{Bytes, equal, equal_iff}
use keycell.Protocol.{Response}

-- A response that a call accepts, with what it decodes to.
pub record Accepted {A : Type 0} (id : Bytes) (decode : Option Bytes → Option A) (x : Exchange)
    (a : A) : Type 0 where
  pub reply : Response
  pub is : x ≡ response reply
  pub no_error : reply.error ≡ none
  pub same_id : reply.id ≡ id
  pub decoded : decode reply.result ≡ some a

accept-ok :
    {A : Type 0} (id : Bytes) (decode : Option Bytes → Option A) (r : Response) (a : A)
    → accept id decode r ≡ ok a
    → Accepted id decode (response r) a
unfolding accept
accept-ok id decode r a h = elim (Option-cases r.error) [
  | inr (e, there) ↦ absurd (ground arith)
  | inl none_there ↦ elim (Bool-cases (equal r.id id)) [
    | inr other ↦ absurd (ground arith)
    | inl same ↦ elim (Option-cases (decode r.result)) [
      | inl bad ↦ absurd (ground arith)
      | inr (b, fine) ↦ record {
        reply = r;
        is = refl;
        no_error = none_there;
        same_id = (equal_iff r.id id).0 same;
        decoded = ground arith;
      }
    ]
  ]
]

-- A call of the client succeeds only on a response without error that carries the id of the
-- request, and gives what its result decodes to.
round_trip-Accepted :
    {A : Type 0} (marshalled : Bool) (id : Bytes) (decode : Option Bytes → Option A) (x : Exchange)
    (a : A)
    → round_trip marshalled id decode x ≡ ok a
    → Accepted id decode x a
unfolding round_trip
round_trip-Accepted true id decode (response r) a h = accept-ok id decode r a h
round_trip-Accepted true id decode no_socket a h = absurd (cc)
round_trip-Accepted true id decode dial_failed a h = absurd (cc)
round_trip-Accepted true id decode context_done a h = absurd (cc)
round_trip-Accepted true id decode deadline a h = absurd (cc)
round_trip-Accepted true id decode closed a h = absurd (cc)
round_trip-Accepted true id decode garbage a h = absurd (cc)
round_trip-Accepted false id decode x a h = absurd (cc)
